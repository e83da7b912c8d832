-- ===== src/Wal/TxnTests.antt =====
-- Runs of the transaction buffer, the queue and the scanner, and the theorems at them.
use mathlib.Core.List.{Permᴰ, foldl}
use birdwatcher.Base.{ℕ, ◌≡◌, refl, none, some, List, [], ◌∷◌, ◌++◌, select}
use birdwatcher.Base.Dict.{lookup}
use birdwatcher.Base.Word.{add64, sub64}
use birdwatcher.Wal.Message.{Message, begin_txn, commit_txn, other}
use birdwatcher.Wal.Samples.{message, insert_at}
use birdwatcher.Wal.Reference.{list_builders, ListBuilder}
use birdwatcher.Wal.TxnBuffer.{
  TxnBuffer, to_list, handle_begin_txn, handle_commit_txn, handle_txn_body_message, clear_entry,
  clear_loop, clear_expired_txn, handle_message, handle_loop, handle_immutable_messages,
}
use birdwatcher.Wal.TxnBuffer.Accounting
use birdwatcher.Wal.TxnBuffer.Accounting.{handle_immutable_messages-IsValid}
use birdwatcher.Wal.TxnBuffer.Totality.{handle_immutable_messages_returns}
use birdwatcher.Wal.TxnBuffer.Expiry.{clear_loop-lookup}
use birdwatcher.Wal.TxnBuffer.Commit.{others, commit_whole}
use birdwatcher.Wal.TxnBuffer.Isolation.{
  for_txn, transition, spec_run, view, handle_loop-spec_run, handle_loop-own,
}

abbrev start : Message
start = message 1 "s" (some 1) begin_txn

abbrev other_start : Message
other_start = message 2 "t" (some 2) begin_txn

abbrev body : Message
body = message 3 "b" (some 1) (other 1)

abbrev commit : Message
commit = message 5 "c" (some 1) commit_txn

-- Two transactions and a plain message, mixed.
abbrev mixed : List Message
mixed = start ∷ other_start ∷ body ∷ insert_at 4 "p" ∷ []

abbrev empty : TxnBuffer list_builders
empty = record { builders = []; bytes = 0 }

abbrev builder_one : ListBuilder
builder_one = record { latest = body; earlier = start ∷ [] }

abbrev builder_two : ListBuilder
builder_two = record { latest = other_start; earlier = [] }

abbrev held : TxnBuffer list_builders
held = record { builders = (1, builder_one) ∷ (2, builder_two) ∷ []; bytes = 30 }

mixed_loop : handle_loop list_builders empty [] mixed ≡ some (held, insert_at 4 "p" ∷ [])
unfolding handle_loop handle_message handle_begin_txn handle_txn_body_message add64
mixed_loop = refl

abbrev whole : Message
whole = record commit { estimate_size = 20 }

abbrev other_only : TxnBuffer list_builders
other_only = record { builders = (2, builder_two) ∷ []; bytes = 10 }

committed_loop :
    handle_loop list_builders empty [] (mixed ++ (commit ∷ []))
    ≡ some (other_only, insert_at 4 "p" ∷ whole ∷ [])
unfolding handle_loop handle_message handle_begin_txn handle_txn_body_message handle_commit_txn
    add64 sub64
committed_loop = refl

mixed_round :
    handle_immutable_messages list_builders empty (mixed ++ (commit ∷ [])) 102
    ≡ some (record { builders = []; bytes = 0 }, insert_at 4 "p" ∷ whole ∷ [])
unfolding handle_immutable_messages handle_loop handle_message handle_begin_txn
    handle_txn_body_message handle_commit_txn clear_expired_txn clear_loop clear_entry add64 sub64
mixed_round = refl

empty-IsValid : Accounting.IsValid list_builders empty
empty-IsValid = record { distinct = tt; counted = refl }

held-IsValid : Accounting.IsValid list_builders held
held-IsValid = record { distinct = (refl, (refl, tt)); counted = refl }

handle_immutable_messages-IsValid_example : Accounting.IsValid list_builders empty
handle_immutable_messages-IsValid_example =
    handle_immutable_messages-IsValid list_builders empty empty (mixed ++ (commit ∷ [])) _ 102
      mixed_round empty-IsValid

handle_immutable_messages_returns_example :
    (p : TxnBuffer list_builders × List Message) × (handle_immutable_messages list_builders empty
        mixed 3
      ≡ some p)
handle_immutable_messages_returns_example =
    handle_immutable_messages_returns list_builders empty mixed 3 (refl, (refl, (refl, (refl, tt))))

clear_loop-lookup_example :
    lookup 2 (clear_loop list_builders 102 ((2, builder_two) ∷ (1, builder_one) ∷ []) held).builders
    ≡ none
clear_loop-lookup_example =
    clear_loop-lookup list_builders 102 2 ((2, builder_two) ∷ (1, builder_one) ∷ []) held
      held-IsValid (Permᴰ.swap refl refl)

handle_loop-spec_run_example :
    ((k : ℕ)
      → lookup k held.builders ≡ (spec_run list_builders (view list_builders empty) mixed).0 k)
    × (insert_at 4 "p" ∷ [] ≡ (spec_run list_builders (view list_builders empty) mixed).1)
handle_loop-spec_run_example =
    handle_loop-spec_run list_builders empty held mixed (insert_at 4 "p" ∷ []) mixed_loop

handle_loop-own_example :
    lookup 1 held.builders
    ≡ foldl (transition list_builders) (lookup 1 empty.builders) (select (for_txn 1) mixed)
handle_loop-own_example =
    handle_loop-own list_builders empty held mixed (insert_at 4 "p" ∷ []) 1 mixed_loop

commit_whole_example :
    (c : TxnBuffer list_builders) × (rest : List Message) × (handle_loop list_builders empty []
        (others list_builders 1 mixed)
      ≡ some (c, rest))
    × (insert_at 4 "p" ∷ whole ∷ [] ≡ rest ++ to_list (list_builders.build builder_one commit))
    × (lookup 1 other_only.builders ≡ none)
commit_whole_example =
    commit_whole list_builders empty other_only mixed (insert_at 4 "p" ∷ whole ∷ []) 1 start commit
      (body ∷ []) refl committed_loop refl refl (refl, tt) refl refl

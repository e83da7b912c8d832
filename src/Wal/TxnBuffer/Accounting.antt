-- ===== src/Wal/TxnBuffer/Accounting.antt =====
-- The byte count of the transaction buffer: an `int` that every call has to keep in step with the
-- builders held.
use birdwatcher.Base.{
  ℕ, ◌%◌, ◌^◌, ◌≡◌, refl, inl, inr, Option, none, some, List, [], ◌∷◌, ◌++◌, leb, Bool-cases,
  All-map₂, >>=?_some, some-inj, arith,
}
use mathlib.Core.Path.{subst}
use birdwatcher.Base.Dict.{
  lookup, set, delete, Distinct, Distinct-set, Distinct-delete, total, total-set_new, total-set_old,
  total-delete, lookup-delete, Listed, Listed-self, avoids,
}
use birdwatcher.Base.Word.{add64, sub64}
use birdwatcher.Wal.Message.{Message, TxnBuilders}
use birdwatcher.Wal.TxnBuffer.Effect.{
  Effect, passes, begins, repeats, commits, rolls_back, grows, ignores, panics,
  handle_message-Effect,
}
use birdwatcher.Wal.TxnBuffer.{
  TxnBuffer, new_txn_buffer, clear_entry, clear_loop, clear_expired_txn, handle_message,
  handle_loop, handle_immutable_messages,
}

-- One builder for each transaction, and the byte count is the size of the builders, as an `int`
-- holds it.
pub record IsValid (T : TxnBuilders) (b : TxnBuffer T) : Type 0 where
  pub distinct : Distinct b.builders
  pub counted : b.bytes ≡ total T.estimate_size b.builders % 2 ^ 64

module _ (T : TxnBuilders) where
  abbrev size : T.Builder → ℕ
  size = T.estimate_size

  opened :
      (b : TxnBuffer T) (id : ℕ) (m : Message)
      → IsValid T b
      → lookup id b.builders ≡ none
      → IsValid T (record {
        builders = set id (T.new_builder m) b.builders;
        bytes = add64 b.bytes m.estimate_size;
      })
  unfolding add64
  opened b id m v new = record {
    distinct = Distinct-set id (T.new_builder m) b.builders v.distinct;
    counted = omega (
      arith,
      v.counted,
      total-set_new size id (T.new_builder m) b.builders new,
      T.estimate_size-new_builder m,
    );
  }

  grown :
      (b : TxnBuffer T) (id : ℕ) (m : Message) (builder : T.Builder)
      → IsValid T b
      → lookup id b.builders ≡ some builder
      → IsValid T (record {
        builders = set id (T.add builder m) b.builders;
        bytes = add64 b.bytes m.estimate_size;
      })
  unfolding add64
  grown b id m builder v old = record {
    distinct = Distinct-set id (T.add builder m) b.builders v.distinct;
    counted = omega (
      arith,
      v.counted,
      total-set_old size id (T.add builder m) builder b.builders old,
      T.estimate_size-add builder m,
    );
  }

  dropped :
      (b : TxnBuffer T) (id : ℕ) (builder : T.Builder)
      → IsValid T b
      → lookup id b.builders ≡ some builder
      → IsValid T (record {
        builders = delete id b.builders;
        bytes = sub64 b.bytes (T.estimate_size builder);
      })
  unfolding sub64
  dropped b id builder v old = record {
    distinct = Distinct-delete id b.builders v.distinct;
    counted = omega (arith, v.counted, total-delete size id builder b.builders v.distinct old);
  }

  -- The buffer after one message; a panic leaves it as it was.
  abbrev after : TxnBuffer T → Option (TxnBuffer T × List Message) → TxnBuffer T
  after b none = b
  after b (some (b', out)) = b'

  Effect-IsValid :
      {b : TxnBuffer T} {m : Message} {r : Option (TxnBuffer T × List Message)}
      → Effect T b m r
      → IsValid T b
      → IsValid T (after b r)
  Effect-IsValid (passes e) v = v
  Effect-IsValid {b} {m} (begins id e t l) v = opened b id m v l
  Effect-IsValid (repeats id builder e t l) v = v
  Effect-IsValid {b} (commits id builder e t l) v = dropped b id builder v l
  Effect-IsValid {b} (rolls_back id builder e t l) v = dropped b id builder v l
  Effect-IsValid {b} {m} (grows id builder e t l) v = grown b id m builder v l
  Effect-IsValid (ignores id e t l) v = v
  Effect-IsValid (panics id e t d) v = v

  pub handle_message-IsValid :
      (b b' : TxnBuffer T) (m : Message) (out : List Message)
      → handle_message T b m ≡ some (b', out)
      → IsValid T b
      → IsValid T b'
  handle_message-IsValid b b' m out e v =
      subst (λ r. IsValid T (after b r)) e (Effect-IsValid (handle_message-Effect T b m) v)

  pub handle_loop-IsValid :
      (b : TxnBuffer T) (result ms : List Message) (p : TxnBuffer T × List Message)
      → handle_loop T b result ms ≡ some p
      → IsValid T b
      → IsValid T p.0
  unfolding handle_loop
  handle_loop-IsValid b result [] p e v =
      subst (λ (q : TxnBuffer T × List Message). IsValid T q.0) (some-inj e) v
  handle_loop-IsValid b result (m ∷ ms) p e v =
      let ((b', out), first, rest) = >>=?_some (handle_message T b m) _ e in
      handle_loop-IsValid b' (result ++ out) ms p rest (handle_message-IsValid b b' m out first v)

  clear_entry-IsValid :
      (ts : ℕ) (b : TxnBuffer T) (id : ℕ) (builder : T.Builder)
      → lookup id b.builders ≡ some builder
      → IsValid T b
      → IsValid T (clear_entry T ts b (id, builder))
  unfolding clear_entry
  clear_entry-IsValid ts b id builder l v =
      elim (Bool-cases (leb (T.expired_time_tick builder) ts)) [
        | inl old ↦ rw old (dropped b id builder v l)
        | inr young ↦ rw young v
      ]

  -- Dropping one entry leaves the others where they are.
  pub Listed-clear_entry :
      (ts : ℕ) (b : TxnBuffer T) (id : ℕ) (builder : T.Builder) (es : List (ℕ × T.Builder))
      → lookup id es ≡ none
      → Listed b.builders es
      → Listed (clear_entry T ts b (id, builder)).builders es
  unfolding clear_entry
  Listed-clear_entry ts b id builder es new listed =
      All-map₂ (λ e h k. ground (arith, lookup-delete id e.0 b.builders)) es (avoids id es new)
        listed

  pub clear_loop-IsValid :
      (ts : ℕ) (es : List (ℕ × T.Builder)) (b : TxnBuffer T)
      → Distinct es
      → Listed b.builders es
      → IsValid T b
      → IsValid T (clear_loop T ts es b)
  unfolding clear_loop
  clear_loop-IsValid ts [] b d l v = v
  clear_loop-IsValid ts ((id, builder) ∷ es) b (n, d) (l, ls) v =
      clear_loop-IsValid ts es (clear_entry T ts b (id, builder)) d
        (Listed-clear_entry ts b id builder es n ls) (clear_entry-IsValid ts b id builder l v)

  pub clear_expired_txn-IsValid :
      (b : TxnBuffer T) (ts : ℕ) → IsValid T b → IsValid T (clear_expired_txn T b ts)
  unfolding clear_expired_txn
  clear_expired_txn-IsValid b ts v =
      clear_loop-IsValid ts b.builders b v.distinct (Listed-self b.builders v.distinct) v

  -- A round of HandleImmutableMessages keeps one builder for each transaction and the byte
  -- count equal to the size of the builders, reduced to an int.
  pub handle_immutable_messages-IsValid :
      (b b' : TxnBuffer T) (ms out : List Message) (ts : ℕ)
      → handle_immutable_messages T b ms ts ≡ some (b', out)
      → IsValid T b
      → IsValid T b'
  unfolding handle_immutable_messages
  handle_immutable_messages-IsValid b b' ms out ts e v =
      let (p, loop, last) = >>=?_some (handle_loop T b [] ms) _ e in
      subst (λ (q : TxnBuffer T × List Message). IsValid T q.0) (some-inj last)
        (clear_expired_txn-IsValid p.0 ts (handle_loop-IsValid b [] ms p loop v))

  -- The empty buffer is the start of every history.
  pub new_txn_buffer-IsValid : IsValid T (new_txn_buffer T)
  unfolding new_txn_buffer
  new_txn_buffer-IsValid = record { distinct = tt; counted = refl }

-- ===== src/Wal/TxnBuffer/Effect.antt =====
-- What handling one message does, case by case.
use birdwatcher.Base.{
  ℕ, ◌≡◌, ◌≢◌, refl, sym, inl, inr, Bool, true, false, Option, none, some, List, [], ◌∷◌,
  Bool-cases, Option-cases, arith,
}
use mathlib.Core.Path.{subst}
use birdwatcher.Base.Dict.{lookup, set, delete}
use birdwatcher.Base.Word.{add64, sub64}
use birdwatcher.Wal.Message.{
  Message, MessageType, begin_txn, commit_txn, rollback_txn, time_tick, other, TxnBuilders,
}
use birdwatcher.Wal.TxnBuffer.{
  TxnBuffer, to_list, handle_begin_txn, handle_commit_txn, handle_rollback_txn,
  handle_txn_body_message, handle_message, dispatch,
}

-- The type of a message that the switch takes for a body message.
abbrev pub is_body : MessageType → Bool
is_body begin_txn = false
is_body commit_txn = false
is_body rollback_txn = false
is_body time_tick = true
is_body (other k) = true

-- The buffer with a transaction's builder put in, and with one taken out.
abbrev pub with_builder : (T : TxnBuilders) → TxnBuffer T → ℕ → T.Builder → Message → TxnBuffer T
with_builder T b id builder m = record {
  builders = set id builder b.builders;
  bytes = add64 b.bytes m.estimate_size;
}

abbrev pub without_builder : (T : TxnBuilders) → TxnBuffer T → ℕ → T.Builder → TxnBuffer T
without_builder T b id builder = record {
  builders = delete id b.builders;
  bytes = sub64 b.bytes (T.estimate_size builder);
}

-- The outcomes of the loop body of HandleImmutableMessages, each with the condition that leads to it.
pub data Effect (T : TxnBuilders) (b : TxnBuffer T) (m : Message)
    : Option (TxnBuffer T × List Message) → Type 0 where
  passes : m.txn_context ≡ none → Effect T b m (some (b, m ∷ []))
  begins :
      (id : ℕ)
      → m.txn_context ≡ some id
      → m.message_type ≡ begin_txn
      → lookup id b.builders ≡ none
      → Effect T b m (some (with_builder T b id (T.new_builder m) m, []))
  repeats :
      (id : ℕ) (builder : T.Builder)
      → m.txn_context ≡ some id
      → m.message_type ≡ begin_txn
      → lookup id b.builders ≡ some builder
      → Effect T b m (some (b, []))
  commits :
      (id : ℕ) (builder : T.Builder)
      → m.txn_context ≡ some id
      → m.message_type ≡ commit_txn
      → lookup id b.builders ≡ some builder
      → Effect T b m (some (without_builder T b id builder, to_list (T.build builder m)))
  rolls_back :
      (id : ℕ) (builder : T.Builder)
      → m.txn_context ≡ some id
      → m.message_type ≡ rollback_txn
      → lookup id b.builders ≡ some builder
      → Effect T b m (some (without_builder T b id builder, []))
  grows :
      (id : ℕ) (builder : T.Builder)
      → m.txn_context ≡ some id
      → is_body m.message_type ≡ true
      → lookup id b.builders ≡ some builder
      → Effect T b m (some (with_builder T b id (T.add builder m) m, []))
  ignores :
      (id : ℕ)
      → m.txn_context ≡ some id
      → m.message_type ≢ begin_txn
      → lookup id b.builders ≡ none
      → Effect T b m (some (b, []))
  panics :
      (id : ℕ)
      → m.txn_context ≡ some id
      → is_body m.message_type ≡ false
      → T.decodes m ≡ false
      → Effect T b m none

module _ (T : TxnBuilders) (b : TxnBuffer T) (m : Message) where
  at : {r r' : Option (TxnBuffer T × List Message)} → r ≡ r' → Effect T b m r' → Effect T b m r
  at e x = subst (Effect T b m) (sym e) x

  dispatch-Effect :
      (id : ℕ) (t : MessageType)
      → m.txn_context ≡ some id
      → m.message_type ≡ t
      → Effect T b m (dispatch T b m t)
  unfolding handle_begin_txn handle_commit_txn handle_rollback_txn handle_txn_body_message
  dispatch-Effect id begin_txn e t = elim (Bool-cases (T.decodes m)) [
    | inl d ↦ elim (Option-cases (lookup id b.builders)) [
      | inl l ↦ at (ground arith) (begins id e t l)
      | inr (builder, l) ↦ at (ground arith) (repeats id builder e t l)
    ]
    | inr d ↦ at (ground arith) (panics id e (rw t) d)
  ]
  dispatch-Effect id commit_txn e t = elim (Bool-cases (T.decodes m)) [
    | inl d ↦ elim (Option-cases (lookup id b.builders)) [
      | inl l ↦ at (ground arith) (ignores id e (λ h. cc) l)
      | inr (builder, l) ↦ at (ground arith) (commits id builder e t l)
    ]
    | inr d ↦ at (ground arith) (panics id e (rw t) d)
  ]
  dispatch-Effect id rollback_txn e t = elim (Bool-cases (T.decodes m)) [
    | inl d ↦ elim (Option-cases (lookup id b.builders)) [
      | inl l ↦ at (ground arith) (ignores id e (λ h. cc) l)
      | inr (builder, l) ↦ at (ground arith) (rolls_back id builder e t l)
    ]
    | inr d ↦ at (ground arith) (panics id e (rw t) d)
  ]
  dispatch-Effect id time_tick e t = elim (Option-cases (lookup id b.builders)) [
    | inl l ↦ at (ground arith) (ignores id e (λ h. cc) l)
    | inr (builder, l) ↦ at (ground arith) (grows id builder e (rw t) l)
  ]
  dispatch-Effect id (other k) e t = elim (Option-cases (lookup id b.builders)) [
    | inl l ↦ at (ground arith) (ignores id e (λ h. cc) l)
    | inr (builder, l) ↦ at (ground arith) (grows id builder e (rw t) l)
  ]

  -- The loop body does one of these, on every message and in every state.
  pub handle_message-Effect : Effect T b m (handle_message T b m)
  unfolding handle_message
  handle_message-Effect = elim (Option-cases m.txn_context) [
    | inl e ↦ simp (e, handle_message) (passes e)
    | inr (id, e) ↦ simp (e, handle_message) (dispatch-Effect id m.message_type e refl)
  ]

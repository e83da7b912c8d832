-- ===== src/Wal/TxnBuffer/Isolation.antt =====
-- The transaction buffer against a specification: each transaction is a machine of its own, and a
-- message moves the machine of its transaction only.
use mathlib.Core.Path.{fun_ext, subst, ap₂}
use birdwatcher.Base.{
  ℕ, ◌≡◌, refl, sym, ◌∙◌, ap, Bool, false, Option, none, some, List, [], ◌∷◌, ◌++◌, ◌==◌,
  if◌then◌else◌, select, >>=?_some, some-inj, arith,
}
use mathlib.Core.List.{foldl, append-nil, append_assoc}
use birdwatcher.Base.Dict.{lookup, lookup-set, lookup-delete}
use birdwatcher.Wal.Message.{
  Message, MessageType, begin_txn, commit_txn, rollback_txn, time_tick, other, TxnBuilders,
}
use birdwatcher.Wal.TxnBuffer.{TxnBuffer, to_list, handle_message, handle_loop}
use birdwatcher.Wal.TxnBuffer.Effect.{
  Effect, passes, begins, repeats, commits, rolls_back, grows, ignores, panics,
  handle_message-Effect,
}

-- Whether a message belongs to transaction `k`.
abbrev pub for_txn : ℕ → Message → Bool
for_txn k m = elim m.txn_context [ none ↦ false | some id ↦ id == k ]

module _ (T : TxnBuilders) where
  -- One transaction: open with a builder, or not.
  abbrev pub advance : MessageType → Option T.Builder → Message → Option T.Builder
  advance begin_txn none m = some (T.new_builder m)
  advance begin_txn (some builder) m = some builder
  advance commit_txn o m = none
  advance rollback_txn o m = none
  advance time_tick none m = none
  advance time_tick (some builder) m = some (T.add builder m)
  advance (other j) none m = none
  advance (other j) (some builder) m = some (T.add builder m)

  abbrev pub transition : Option T.Builder → Message → Option T.Builder
  transition o m = advance m.message_type o m

  -- What a transaction gives out at a message: the whole of it, when it commits.
  abbrev pub committed : MessageType → Option T.Builder → Message → List Message
  committed begin_txn o m = []
  committed commit_txn none m = []
  committed commit_txn (some builder) m = to_list (T.build builder m)
  committed rollback_txn o m = []
  committed time_tick o m = []
  committed (other j) o m = []

  -- All transactions side by side, and one message for them.
  abbrev pub Machines : Type 0
  Machines = ℕ → Option T.Builder

  abbrev pub spec_step : Machines → Message → Machines
  spec_step σ m = λ k. if for_txn k m then transition (σ k) m else σ k

  abbrev pub spec_out : Machines → Message → List Message
  spec_out σ m = elim m.txn_context [ none ↦ m ∷ [] | some id ↦ committed m.message_type (σ id) m ]

  abbrev pub spec_run : Machines → List Message → Machines × List Message
  spec_run σ [] = (σ, [])
  spec_run σ (m ∷ ms) = let (σ', out) = spec_run (spec_step σ m) ms in (σ', spec_out σ m ++ out)

  abbrev pub view : TxnBuffer T → Machines
  view b = λ k. lookup k b.builders

  abbrev Refines : TxnBuffer T → Message → Option (TxnBuffer T × List Message) → Type 0
  Refines b m none = Unit {0}
  Refines b m (some (b', out)) =
      ((k : ℕ) → view b' k ≡ spec_step (view b) m k) × (out ≡ spec_out (view b) m)

  Effect-Refines :
      {b : TxnBuffer T} {m : Message} {r : Option (TxnBuffer T × List Message)}
      → Effect T b m r
      → Refines b m r
  Effect-Refines (passes e) = (λ k. ground arith, ground arith)
  Effect-Refines {b} {m} (begins id e t l) =
      (λ k. ground (arith, lookup-set id k (T.new_builder m) b.builders), ground arith)
  Effect-Refines (repeats id builder e t l) = (λ k. ground arith, ground arith)
  Effect-Refines {b} {m} (commits id builder e t l) =
      (λ k. ground (arith, lookup-delete id k b.builders), ground arith)
  Effect-Refines {b} {m} (rolls_back id builder e t l) =
      (λ k. ground (arith, lookup-delete id k b.builders), ground arith)
  Effect-Refines {b} {m} (grows id builder e t l) =
      (λ k. ground (arith, lookup-set id k (T.add builder m) b.builders), ground arith)
  Effect-Refines (ignores id e t l) = (λ k. ground arith, ground arith)
  Effect-Refines (panics id e t d) = tt

  handle_message_refines :
      (b b' : TxnBuffer T) (m : Message) (out : List Message)
      → handle_message T b m ≡ some (b', out)
      → (view b' ≡ spec_step (view b) m) × (out ≡ spec_out (view b) m)
  handle_message_refines b b' m out e =
      let (same, given) = subst (Refines b m) e (Effect-Refines (handle_message-Effect T b m)) in
      (fun_ext same, given)

  handle_loop_refines :
      (b : TxnBuffer T) (result ms : List Message) (p : TxnBuffer T × List Message)
      → handle_loop T b result ms ≡ some p
      → (view p.0 ≡ (spec_run (view b) ms).0) × (p.1 ≡ result ++ (spec_run (view b) ms).1)
  unfolding handle_loop
  handle_loop_refines b result [] p e = (
    ap (λ (q : TxnBuffer T × List Message). view q.0) (sym (some-inj e)),
    ap (λ (q : TxnBuffer T × List Message). q.1) (sym (some-inj e)) ∙ sym (append-nil result),
  )
  handle_loop_refines b result (m ∷ ms) p e =
      let ((b', out), first, rest) = >>=?_some (handle_message T b m) _ e in
      let (same, given) = handle_message_refines b b' m out first in
      let (views, outs) = handle_loop_refines b' (result ++ out) ms p rest in
      (
        views ∙ ap (λ (σ : Machines). (spec_run σ ms).0) same,
        outs
            ∙ append_assoc result out (spec_run (view b') ms).1
            ∙ ap (◌++◌ result)
                (ap₂ (λ (σ : Machines) (o : List Message). o ++ (spec_run σ ms).1) same given),
      )

  -- The loop of HandleImmutableMessages implements one independent machine for each
  -- transaction.
  pub handle_loop-spec_run :
      (b b' : TxnBuffer T) (ms out : List Message)
      → handle_loop T b [] ms ≡ some (b', out)
      → ((k : ℕ) → lookup k b'.builders ≡ (spec_run (view b) ms).0 k)
        × (out ≡ (spec_run (view b) ms).1)
  handle_loop-spec_run b b' ms out e =
      let (views, outs) = handle_loop_refines b [] ms (b', out) e in
      (λ k. ap (λ (σ : Machines). σ k) views, outs)

  pub spec_run_own :
      (σ : Machines) (k : ℕ) (ms : List Message)
      → (spec_run σ ms).0 k ≡ foldl transition (σ k) (select (for_txn k) ms)
  spec_run_own σ k [] = refl
  spec_run_own σ k (m ∷ ms) = ground (arith, spec_run_own (spec_step σ m) k ms)

  -- The builder of a transaction depends on the messages of that transaction only.
  pub handle_loop-own :
      (b b' : TxnBuffer T) (ms out : List Message) (k : ℕ)
      → handle_loop T b [] ms ≡ some (b', out)
      → lookup k b'.builders ≡ foldl transition (lookup k b.builders) (select (for_txn k) ms)
  handle_loop-own b b' ms out k e =
      (handle_loop-spec_run b b' ms out e).0 k ∙ spec_run_own (view b) k ms

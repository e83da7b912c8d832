-- ===== src/Wal/TxnBuffer/Commit.antt =====
-- A whole transaction in the loop of wal/utility/txn_buffer.go, from its begin to its commit.
use mathlib.Core.Path.{subst, ap₂}
use birdwatcher.Base.{
  ℕ, ◌≡◌, refl, sym, ◌∙◌, ap, Bool, true, false, Option, none, some, List, [], ◌∷◌, ◌++◌, ◌==◌,
  if◌then◌else◌, select, not, Bool-cases, inl, inr, All, arith, select-append, All-map,
}
use mathlib.Core.List.{foldl, append-nil, append_assoc}
use birdwatcher.Base.Dict.{lookup}
use birdwatcher.Wal.Message.{Message, begin_txn, commit_txn, TxnBuilders}
use birdwatcher.Wal.TxnBuffer.{TxnBuffer, to_list, handle_loop}
use birdwatcher.Wal.TxnBuffer.Effect.{is_body}
use birdwatcher.Wal.TxnBuffer.Totality.{handle_loop-select-Answers}
use birdwatcher.Wal.TxnBuffer.Isolation.{
  for_txn, transition, committed, Machines, spec_step, spec_out, spec_run, view,
  handle_loop-spec_run, spec_run_own,
}

module _ (T : TxnBuilders) where
  abbrev IsBody : Message → Type 0
  IsBody m = is_body m.message_type ≡ true

  transition_body :
      (builder : T.Builder) (m : Message)
      → IsBody m
      → transition T (some builder) m ≡ some (T.add builder m)
  transition_body builder m h = ground arith

  bodies :
      (builder : T.Builder) (ms : List Message)
      → All IsBody ms
      → foldl (transition T) (some builder) ms ≡ some (foldl T.add builder ms)
  bodies builder [] h = refl
  bodies builder (m ∷ ms) (h, hs) =
      ap (λ (o : Option T.Builder). foldl (transition T) o ms) (transition_body builder m h)
      ∙ bodies (T.add builder m) ms hs

  -- What comes out of the messages of all transactions but `k`.
  abbrev pub others : ℕ → List Message → List Message
  others k ms = select (λ m. not (for_txn k m)) ms

  -- A machine that stands elsewhere for `k` alone gives the same for other messages.
  abbrev Apart : ℕ → Machines T → Machines T → Type 0
  Apart k σ τ = (j : ℕ) → (j == k) ≡ false → σ j ≡ τ j

  spec_step-Apart :
      (k : ℕ) (σ τ : Machines T) (m : Message)
      → Apart k σ τ
      → Apart k (spec_step T σ m) (spec_step T τ m)
  spec_step-Apart k σ τ m h j away =
      ap (λ (o : Option T.Builder). if for_txn j m then transition T o m else o) (h j away)

  not_both : (j k : ℕ) (m : Message) → for_txn k m ≡ true → (j == k) ≡ false → for_txn j m ≡ false
  not_both j k m mine away = ground arith

  spec_skip-Apart :
      (k : ℕ) (σ τ : Machines T) (m : Message)
      → for_txn k m ≡ true
      → Apart k σ τ
      → Apart k (spec_step T σ m) τ
  spec_skip-Apart k σ τ m mine h j away = rw (not_both j k m mine away) (h j away)

  spec_out-Apart :
      (k : ℕ) (σ τ : Machines T) (m : Message) (o : Option ℕ)
      → m.txn_context ≡ o
      → for_txn k m ≡ false
      → Apart k σ τ
      → spec_out T σ m ≡ spec_out T τ m
  spec_out-Apart k σ τ m none e foreign h = rw e refl
  spec_out-Apart k σ τ m (some id) e foreign h =
      let same : σ id ≡ τ id = h id (ground arith) in rw (e, same) refl

  -- A message that gives out nothing of its transaction.
  abbrev IsQuiet : Message → Type 0
  IsQuiet m = (o : Option T.Builder) → committed T m.message_type o m ≡ []

  spec_out-quiet :
      (k : ℕ) (σ : Machines T) (m : Message) (o : Option ℕ)
      → (elim o [ none ↦ false | some id ↦ id == k ]) ≡ true
      → IsQuiet m
      → (elim o [ none ↦ m ∷ [] | some id ↦ committed T m.message_type (σ id) m ]) ≡ []
  spec_out-quiet k σ m none mine q = absurd (cc)
  spec_out-quiet k σ m (some id) mine q = q (σ id)

  -- While `k` gives out nothing, the run without its messages gives the same.
  spec_run-others :
      (k : ℕ) (σ τ : Machines T) (ms : List Message)
      → Apart k σ τ
      → All IsQuiet (select (for_txn k) ms)
      → (spec_run T σ ms).1 ≡ (spec_run T τ (others k ms)).1
  spec_run-others k σ τ [] h quiet = refl
  spec_run-others k σ τ (m ∷ ms) h quiet = elim (Bool-cases (for_txn k m)) [
    | inl mine ↦
        let q : All IsQuiet (m ∷ select (for_txn k) ms) =
          subst (λ b. All IsQuiet (if b then m ∷ select (for_txn k) ms else select (for_txn k) ms))
            mine quiet in
        rw (mine, spec_out-quiet k σ m m.txn_context mine q.0)
          (spec_run-others k (spec_step T σ m) τ ms (spec_skip-Apart k σ τ m mine h) q.1)
    | inr foreign ↦
        let q : All IsQuiet (select (for_txn k) ms) =
          subst (λ b. All IsQuiet (if b then m ∷ select (for_txn k) ms else select (for_txn k) ms))
            foreign quiet in
        rw (foreign) (
          ap₂ ◌++◌ (spec_out-Apart k σ τ m m.txn_context refl foreign h) (
            spec_run-others k (spec_step T σ m) (spec_step T τ m) ms (spec_step-Apart k σ τ m h) q))
  ]

  spec_run-append :
      (σ : Machines T) (ms ns : List Message)
      → spec_run T σ (ms ++ ns) ≡ (
        (spec_run T (spec_run T σ ms).0 ns).0,
        (spec_run T σ ms).1 ++ (spec_run T (spec_run T σ ms).0 ns).1,
      )
  spec_run-append σ [] ns = refl
  spec_run-append σ (m ∷ ms) ns =
      ap (λ (p : Machines T × List Message). (p.0, spec_out T σ m ++ p.1))
        (spec_run-append (spec_step T σ m) ms ns)
      ∙ ap (λ (o : List Message). ((spec_run T (spec_run T (spec_step T σ m) ms).0 ns).0, o))
          (sym (
            append_assoc (spec_out T σ m) (spec_run T (spec_step T σ m) ms).1
              (spec_run T (spec_run T (spec_step T σ m) ms).0 ns).1))

  committed-IsQuiet : (m : Message) → IsBody m → IsQuiet m
  committed-IsQuiet m h o = ground arith

  start-IsQuiet : (m : Message) → m.message_type ≡ begin_txn → IsQuiet m
  start-IsQuiet m h o = ground arith

  others-commit :
      (k : ℕ) (ms : List Message) (commit : Message)
      → commit.txn_context ≡ some k
      → others k (ms ++ (commit ∷ [])) ≡ others k ms
  others-commit k ms commit mine =
      let own : for_txn k commit ≡ true = ground arith in
      select-append (λ m. not (for_txn k m)) ms (commit ∷ [])
      ∙ ap (λ (b : Bool). others k ms ++ (if not b then commit ∷ [] else [])) own
      ∙ append-nil (others k ms)

  commit_step :
      (σ : Machines T) (k : ℕ) (commit : Message) (builder : T.Builder)
      → commit.txn_context ≡ some k
      → commit.message_type ≡ commit_txn
      → σ k ≡ some builder
      → (spec_out T σ commit ≡ to_list (T.build builder commit)) × (spec_step T σ commit k ≡ none)
  commit_step σ k commit builder mine ends held = (ground arith, ground arith)

  -- In a loop that does not panic, where the messages of a transaction that is not open are a
  -- begin message and then body messages, mixed with messages of others, and its commit comes
  -- last, the loop gives out what it gives for the messages of the others alone, and then the
  -- one message that Build makes of the begin, all bodies in order and the commit, or nothing
  -- where Build fails. The transaction is then forgotten.
  pub commit_whole :
      (b b' : TxnBuffer T) (ms out : List Message) (k : ℕ) (start commit : Message)
      (body : List Message)
      → lookup k b.builders ≡ none
      → handle_loop T b [] (ms ++ (commit ∷ [])) ≡ some (b', out)
      → select (for_txn k) ms ≡ start ∷ body
      → start.message_type ≡ begin_txn
      → All IsBody body
      → commit.txn_context ≡ some k
      → commit.message_type ≡ commit_txn
      → (c : TxnBuffer T) × (rest : List Message) × (handle_loop T b [] (others k ms)
          ≡ some (c, rest))
        × (out ≡ rest ++ to_list (T.build (foldl T.add (T.new_builder start) body) commit))
        × (lookup k b'.builders ≡ none)
  commit_whole b b' ms out k start commit body new loop own begins_so bodies_so mine ends =
      let held : (spec_run T (view T b) ms).0 k ≡ some (foldl T.add (T.new_builder start) body) =
        spec_run_own T (view T b) k ms
        ∙ rw (own, new)
            (ap (λ (o : Option T.Builder). foldl (transition T) o body) (ground arith)
              ∙ bodies (T.new_builder start) body bodies_so) in
      let quiet : All IsQuiet (select (for_txn k) ms) =
        rw own (start-IsQuiet start begins_so, All-map committed-IsQuiet body bodies_so) in
      let ((c, rest), answers) =
        handle_loop-select-Answers T (λ m. not (for_txn k m)) b b [] [] (ms ++ (commit ∷ []))
          (b', out) loop in
      let without : handle_loop T b [] (others k ms) ≡ some (c, rest) =
        ap (handle_loop T b []) (sym (others-commit k ms commit mine)) ∙ answers in
      let same : rest ≡ (spec_run T (view T b) ms).1 =
        (handle_loop-spec_run T b c (others k ms) rest without).1
        ∙ sym (spec_run-others k (view T b) (view T b) ms (λ j away. refl) quiet) in
      let (after, given) = handle_loop-spec_run T b b' (ms ++ (commit ∷ [])) out loop in
      let (last, gone) = commit_step (spec_run T (view T b) ms).0 k commit _ mine ends held in
      let split = spec_run-append (view T b) ms (commit ∷ []) in
      (
        c,
        rest,
        without,
        given
            ∙ ap (λ (p : Machines T × List Message). p.1) split
            ∙ ap₂ ◌++◌ (sym same) (append-nil _ ∙ last),
        after k ∙ ap (λ (p : Machines T × List Message). p.0 k) split ∙ gone,
      )

-- ===== src/Wal/TxnBuffer/Ticks.antt =====
-- The transaction buffer keeps the order of the time ticks: what it gives out at a message has that
-- message's time tick, a transaction the one of its commit.
use birdwatcher.Base.{
  ℕ, ◌≤◌, ◌≡◌, ◌⊎◌, refl, sym, ◌∙◌, ap, inl, inr, Option, none, some, List, [], ◌∷◌, ◌++◌, All,
  All-append, Option-cases, >>=?_some, some-inj, arith,
}
use mathlib.Core.Path.{subst}
use birdwatcher.Wal.Message.{
  Message, MessageType, begin_txn, commit_txn, rollback_txn, time_tick, other, TxnBuilders,
}
use birdwatcher.Wal.ReorderBuffer.Order.{AtMost, AtLeast, Ordered}
use birdwatcher.Wal.TxnBuffer.{TxnBuffer, to_list, handle_loop, handle_immutable_messages}
use birdwatcher.Wal.TxnBuffer.Isolation.{
  Machines, committed, spec_step, spec_out, spec_run, view, handle_loop-spec_run,
}

module _ (T : TxnBuilders) where
  -- Nothing, or one message with the given time tick.
  abbrev AtTick : ℕ → List Message → Type 0
  AtTick t out = (out ≡ []) ⊎ ((x : Message) × (out ≡ x ∷ []) × (x.tick ≡ t))

  built-AtTick : (builder : T.Builder) (m : Message) → AtTick m.tick (to_list (T.build builder m))
  built-AtTick builder m = elim (Option-cases (T.build builder m)) [
    | inl e ↦ inl (ap to_list e)
    | inr (x, e) ↦ inr (x, ap to_list e, T.tick-build builder m e)
  ]

  committed-AtTick :
      (t : MessageType) (o : Option T.Builder) (m : Message) → AtTick m.tick (committed T t o m)
  committed-AtTick begin_txn o m = inl refl
  committed-AtTick commit_txn none m = inl refl
  committed-AtTick commit_txn (some builder) m = built-AtTick builder m
  committed-AtTick rollback_txn o m = inl refl
  committed-AtTick time_tick o m = inl refl
  committed-AtTick (other k) o m = inl refl

  spec_out-AtTick : (σ : Machines T) (m : Message) → AtTick m.tick (spec_out T σ m)
  spec_out-AtTick σ m = elim (Option-cases m.txn_context) [
    | inl e ↦ inr (m, ground arith, refl)
    | inr (id, e) ↦ subst (AtTick m.tick) (ground arith) (committed-AtTick m.message_type (σ id) m)
  ]

  -- A property of time ticks passes to what is given out.
  AtTick-All :
      (P : ℕ → Type 0) (t : ℕ) (out : List Message)
      → AtTick t out
      → P t
      → All (λ (x : Message). P x.tick) out
  AtTick-All P t out (inl e) p = subst (All (λ (x : Message). P x.tick)) (sym e) tt
  AtTick-All P t out (inr (x, e, same)) p =
      subst (All (λ (x : Message). P x.tick)) (sym e) (subst P (sym same) p, tt)

  spec_run-All :
      (P : ℕ → Type 0) (σ : Machines T) (ms : List Message)
      → All (λ (x : Message). P x.tick) ms
      → All (λ (x : Message). P x.tick) (spec_run T σ ms).1
  spec_run-All P σ [] h = tt
  spec_run-All P σ (m ∷ ms) (h, hs) =
      All-append _ (spec_out T σ m) _ (AtTick-All P m.tick _ (spec_out-AtTick σ m) h)
        (spec_run-All P (spec_step T σ m) ms hs)

  Ordered-AtTick :
      (t : ℕ) (out rest : List Message)
      → AtTick t out
      → AtLeast t rest
      → Ordered rest
      → Ordered (out ++ rest)
  Ordered-AtTick t out rest (inl e) l o = subst (λ xs. Ordered (xs ++ rest)) (sym e) o
  Ordered-AtTick t out rest (inr (x, e, same)) l o =
      subst (λ xs. Ordered (xs ++ rest)) (sym e) (subst (λ (k : ℕ). AtLeast k rest) (sym same) l, o)

  spec_run-Ordered : (σ : Machines T) (ms : List Message) → Ordered ms → Ordered (spec_run T σ ms).1
  spec_run-Ordered σ [] o = tt
  spec_run-Ordered σ (m ∷ ms) (l, o) =
      Ordered-AtTick m.tick _ _ (spec_out-AtTick σ m)
        (spec_run-All (λ k. m.tick ≤ k) (spec_step T σ m) ms l)
        (spec_run-Ordered (spec_step T σ m) ms o)

  -- Messages in time tick order come out in time tick order, within the same bounds.
  pub handle_immutable_messages-Ordered :
      (b b' : TxnBuffer T) (ms out : List Message) (ts lo hi : ℕ)
      → handle_immutable_messages T b ms ts ≡ some (b', out)
      → Ordered ms
      → AtLeast lo ms
      → AtMost hi ms
      → Ordered out × AtLeast lo out × AtMost hi out
  unfolding handle_immutable_messages
  handle_immutable_messages-Ordered b b' ms out ts lo hi e o l h =
      let ((b₁, out₁), loop, last) = >>=?_some (handle_loop T b [] ms) _ e in
      let same : out ≡ (spec_run T (view T b) ms).1 =
        ap (λ (p : TxnBuffer T × List Message). p.1) (sym (some-inj last))
        ∙ (handle_loop-spec_run T b b₁ ms out₁ loop).1 in
      subst (λ xs. Ordered xs × AtLeast lo xs × AtMost hi xs) (sym same)
        (
          spec_run-Ordered (view T b) ms o,
          spec_run-All (λ k. lo ≤ k) (view T b) ms l,
          spec_run-All (λ k. k ≤ hi) (view T b) ms h,
        )

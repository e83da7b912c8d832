-- ===== src/Wal/ReorderBuffer/Order.antt =====
-- What PopUtilTimeTick takes out of the buffer, and in which order.
use mathlib.Core.List.{Permᴰ}
use birdwatcher.Base.{
  ℕ, zero, suc, ◌≤◌, ◌<◌, ◌≡◌, refl, sym, ◌∙◌, inl, inr, List, [], ◌∷◌, ◌++◌, leb, leb→le, leb→lt,
  length, All, All-map, All-append, Bool-cases, Option-cases, arith,
}
use birdwatcher.Base.Perms.{All-perm, length-perm, All-left, All-of_empty}
use birdwatcher.Wal.Message.{Message}
use birdwatcher.Wal.Typeutil.{StringSet, MessageHeap}
use birdwatcher.Wal.ReorderBuffer.{ReorderBuffer, take_out, pop_loop, pop_util_time_tick}
use mathlib.Core.List.Permᴰ
use mathlib.Core.List.{append-nil, append_assoc}

abbrev pub AtMost : ℕ → List Message → Type 0
AtMost t = All λ (m : Message). m.tick ≤ t

abbrev pub Above : ℕ → List Message → Type 0
Above t = All λ (m : Message). t < m.tick

abbrev pub AtLeast : ℕ → List Message → Type 0
AtLeast t = All λ (m : Message). t ≤ m.tick

-- Time ticks do not fall along the list.
abbrev pub Ordered : List Message → Type 0
Ordered [] = Unit {0}
Ordered (m ∷ ms) = AtLeast m.tick ms × Ordered ms

pub Ordered-append :
    (t : ℕ) (xs ys : List Message)
    → Ordered xs
    → AtMost t xs
    → AtLeast t ys
    → Ordered ys
    → Ordered (xs ++ ys)
Ordered-append t [] ys o a l p = p
Ordered-append t (x ∷ xs) ys (o, os) (a, as') l p =
    (All-append _ xs ys o (All-map (λ m h. omega arith) ys l), Ordered-append t xs ys os as' l p)

-- `before` falls apart into the confirmed messages, in order, and the others.
pub record Popped (t : ℕ) (before taken after : List Message) : Type 0 where
  pub split : Permᴰ before (taken ++ after)
  pub confirmed : AtMost t taken
  pub held : Above t after
  pub ordered : Ordered taken

module _ (H : MessageHeap) (S : StringSet) where
  abbrev pub contents : ReorderBuffer H S → List Message
  contents r = H.contents r.message_heap

  abbrev Drained : ℕ → List Message → List Message → ReorderBuffer H S × List Message → Type 0
  Drained t before res (r', out) =
      (taken : List Message) × (out ≡ res ++ taken) × Popped t before taken (contents r')

  stop :
      (t : ℕ) (r : ReorderBuffer H S) (res : List Message)
      → Above t (contents r)
      → Drained t (contents r) res (r, res)
  stop t r res h = (
    [],
    sym (append-nil res),
    record { split = Permᴰ.refl _; confirmed = tt; held = h; ordered = tt },
  )

  go_on :
      (t : ℕ) (m : Message) (before rest : List Message) (res : List Message)
      (p : ReorderBuffer H S × List Message)
      → m.tick ≤ t
      → Permᴰ before (m ∷ rest)
      → AtLeast m.tick rest
      → Drained t rest (res ++ (m ∷ [])) p
      → Drained t before res p
  go_on t m before rest res (r', out) le perm least (taken, e, d) = (
    m ∷ taken,
    e ∙ append_assoc res (m ∷ []) taken,
    record {
      split = Permᴰ.trans perm (Permᴰ.cons refl d.split);
      confirmed = (le, d.confirmed);
      held = d.held;
      ordered = (All-left _ taken _ (All-perm _ d.split least), d.ordered);
    },
  )

  held_back :
      (t : ℕ) (m : Message) (before rest : List Message)
      → t < m.tick
      → Permᴰ before (m ∷ rest)
      → AtLeast m.tick rest
      → Above t before
  held_back t m before rest lt perm least =
      All-perm _ (Permᴰ.symm perm) (lt, All-map (λ x h. omega arith) rest least)

  pop_loop-Drained :
      (fuel t : ℕ) (r : ReorderBuffer H S) (res : List Message)
      → length (contents r) ≤ fuel
      → Drained t (contents r) res (pop_loop H S fuel t r res)
  unfolding pop_loop
  pop_loop-Drained zero t r res h = stop t r res (All-of_empty _ (contents r) h)
  pop_loop-Drained (suc fuel) t r res h = elim (Option-cases (H.pop r.message_heap)) [
    | inl e ↦ rw (e, pop_loop) (stop t r res (rw (H.pop_none _ e) tt))
    | inr ((m, rest), e) ↦
        let (perm, least) = H.pop_some _ m rest e in
        let r' = take_out H S r m rest in
        elim (Bool-cases (leb m.tick t)) [
          | inl le ↦
              rw (e, le, pop_loop)
                (go_on t m _ (H.contents rest) res (pop_loop H S fuel t r' (res ++ (m ∷ [])))
                  (leb→le _ _ le) perm least
                  (pop_loop-Drained fuel t r' (res ++ (m ∷ [])) (omega (arith, length-perm perm))))
          | inr gt ↦
              rw (e, gt, pop_loop) (stop t r res (held_back t m _ _ (leb→lt _ _ gt) perm least))
        ]
  ]

  -- PopUtilTimeTick takes out exactly the messages up to the time tick, in time tick order, and
  -- keeps the others.
  pub pop_util_time_tick-Popped :
      (r : ReorderBuffer H S) (t : ℕ)
      → let (r', out) = pop_util_time_tick H S r t in
        Popped t (contents r) out (contents r') × (r'.last_pop_time_tick ≡ t)
  unfolding pop_util_time_tick
  pop_util_time_tick-Popped r t =
      let (taken, e, d) =
        pop_loop-Drained (H.len r.message_heap) t r []
          (omega (arith, H.len-contents r.message_heap)) in
      (rw e d, refl)

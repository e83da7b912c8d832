-- ===== src/Wal/ReorderBuffer/History.antt =====
-- The reorder buffer over a whole history of calls.
use mathlib.Core.List.{Permᴰ, Perm, append_assoc}
use mathlib.Core.List.Permᴰ
use birdwatcher.Base.{
  ℕ, ◌≤◌, ◌≡◌, refl, inl, inr, Option, none, some, List, [], ◌∷◌, ◌++◌, ltb, All-map, All-append,
  Bool-cases, arith,
}
use birdwatcher.Base.Perms.{All-perm, All-left}
use birdwatcher.Wal.Message.{Message}
use birdwatcher.Wal.Typeutil.{StringSet, MessageHeap}
use birdwatcher.Wal.ReorderBuffer.{
  ReorderBuffer, PushError, new_reorder_buffer, push, pop_util_time_tick,
}
use birdwatcher.Wal.ReorderBuffer.Order.{
  AtLeast, Ordered, Ordered-append, contents, pop_util_time_tick-Popped,
}
use birdwatcher.Wal.ReorderBuffer.Invariant.{IsValid, push-IsValid, pop_util_time_tick-IsValid}

pub data Call : Type 0 where
  pushes : Message → Call
  pops : ℕ → Call

-- A message counts as accepted where Push returns no error.
abbrev accepted_one : Message → Option PushError → List Message
accepted_one m none = m ∷ []
accepted_one m (some e) = []

module _ (H : MessageHeap) (S : StringSet) where
  -- The buffer after the calls, and all that came out of it.
  abbrev pub run : ReorderBuffer H S → List Call → ReorderBuffer H S × List Message
  run r [] = (r, [])
  run r (pushes m ∷ cs) = run (push H S r m).0 cs
  run r (pops t ∷ cs) =
      let (r', out) = pop_util_time_tick H S r t in
      let (r'', outs) = run r' cs in (r'', out ++ outs)

  -- The messages that were accepted on the way.
  abbrev pub accepted : ReorderBuffer H S → List Call → List Message
  accepted r [] = []
  accepted r (pushes m ∷ cs) = accepted_one m (push H S r m).1 ++ accepted (push H S r m).0 cs
  accepted r (pops t ∷ cs) = accepted (pop_util_time_tick H S r t).0 cs

  -- The invariant holds after every history of calls.
  pub run-IsValid :
      (r : ReorderBuffer H S) (cs : List Call) → IsValid H S r → IsValid H S (run r cs).0
  run-IsValid r [] v = v
  run-IsValid r (pushes m ∷ cs) v = run-IsValid (push H S r m).0 cs (push-IsValid H S r m v)
  run-IsValid r (pops t ∷ cs) v =
      run-IsValid (pop_util_time_tick H S r t).0 cs (pop_util_time_tick-IsValid H S r t v)

  push_adds :
      (r : ReorderBuffer H S) (m : Message)
      → Permᴰ (accepted_one m (push H S r m).1 ++ contents H S r) (contents H S (push H S r m).0)
  unfolding push
  push_adds r m = elim (Bool-cases (ltb m.tick r.last_pop_time_tick)) [
    | inl old ↦ rw (old, push) (Permᴰ.refl _)
    | inr new ↦ elim (Bool-cases (S.contain m.message_id r.message_ids)) [
      | inl dup ↦ rw (new, dup, push) (Permᴰ.refl _)
      | inr fresh ↦ rw (new, fresh, push) (Permᴰ.symm (H.contents-push r.message_heap m))
    ]
  ]

  -- What is accepted joins what is held.
  joined :
      (held one acc held' : List Message)
      → Permᴰ (one ++ held) held'
      → Permᴰ (held ++ (one ++ acc)) (held' ++ acc)
  joined held one acc held' p =
      rw (← append_assoc held one acc)
        (Permᴰ.append_right acc (Permᴰ.trans (Permᴰ.append_comm held one) p))

  -- What is taken out leaves the rest to the later calls.
  parted :
      (held acc taken held' outs left : List Message)
      → Permᴰ held (taken ++ held')
      → Permᴰ (held' ++ acc) (outs ++ left)
      → Permᴰ (held ++ acc) ((taken ++ outs) ++ left)
  parted held acc taken held' outs left p q =
      Permᴰ.trans (Permᴰ.append_right acc p) (
        rw (append_assoc taken held' acc, append_assoc taken outs left) (Permᴰ.append_left taken q))

  run_conserves :
      (r : ReorderBuffer H S) (cs : List Call)
      → Permᴰ (contents H S r ++ accepted r cs) ((run r cs).1 ++ contents H S (run r cs).0)
  run_conserves r [] = Permᴰ.append-nil _
  run_conserves r (pushes m ∷ cs) =
      Permᴰ.trans (joined _ (accepted_one m (push H S r m).1) _ _ (push_adds r m))
        (run_conserves (push H S r m).0 cs)
  run_conserves r (pops t ∷ cs) =
      parted _ _ (pop_util_time_tick H S r t).1 _ _ _ (pop_util_time_tick-Popped H S r t).0.split
        (run_conserves (pop_util_time_tick H S r t).0 cs)

  -- Over any history from the empty buffer every accepted message comes out once or is still
  -- held, and nothing else comes out.
  pub run-perm :
      (cs : List Call)
      → let r = new_reorder_buffer H S in
        Perm (accepted r cs) ((run r cs).1 ++ contents H S (run r cs).0)
  run-perm cs = ∣ rw start at (run_conserves (new_reorder_buffer H S) cs) ∣₁
    where
      start : contents H S (new_reorder_buffer H S) ≡ []
      start = unfold new_reorder_buffer in H.contents-empty

-- The time ticks of the pops do not fall, from `t` on.
abbrev pub Rising : ℕ → List Call → Type 0
Rising t [] = Unit {0}
Rising t (pushes m ∷ cs) = Rising t cs
Rising t (pops u ∷ cs) = (t ≤ u) × Rising u cs

module _ (H : MessageHeap) (S : StringSet) where
  pub last-push :
      (r : ReorderBuffer H S) (m : Message)
      → (push H S r m).0.last_pop_time_tick ≡ r.last_pop_time_tick
  unfolding push
  last-push r m = ground arith

  pub last-new : (new_reorder_buffer H S).last_pop_time_tick ≡ 0
  unfolding new_reorder_buffer
  last-new = refl

  run-Bounded :
      (r : ReorderBuffer H S) (cs : List Call)
      → IsValid H S r
      → Rising r.last_pop_time_tick cs
      → AtLeast r.last_pop_time_tick (run H S r cs).1 × Ordered (run H S r cs).1
  run-Bounded r [] v up = (tt, tt)
  run-Bounded r (pushes m ∷ cs) v up =
      rw last-push at (run-Bounded (push H S r m).0 cs (push-IsValid H S r m v) (rw last-push up))
  run-Bounded r (pops t ∷ cs) v (le, up) =
      let r' = (pop_util_time_tick H S r t).0 in
      let (d, last) = pop_util_time_tick-Popped H S r t in
      let (least, ord) = run-Bounded r' cs (pop_util_time_tick-IsValid H S r t v) (rw last up) in
      let least' : AtLeast t (run H S r' cs).1 = rw last at least in
      (
        All-append _ (pop_util_time_tick H S r t).1 _ (All-left _ _ _ (All-perm _ d.split v.fresh))
            (All-map (λ m h. omega arith) _ least'),
        Ordered-append t _ _ d.ordered d.confirmed least' ord,
      )

  -- Over a history of calls whose pops do not fall in time tick, all that comes out of the
  -- reorder buffer is in time tick order.
  pub run-Ordered :
      (r : ReorderBuffer H S) (cs : List Call)
      → IsValid H S r
      → Rising r.last_pop_time_tick cs
      → Ordered (run H S r cs).1
  run-Ordered r cs v up = (run-Bounded r cs v up).1

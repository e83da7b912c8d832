-- ===== src/Wal/ReorderBuffer/Invariant.antt =====
-- What holds of the reorder buffer between two calls of it.
use mathlib.Core.List.{Permᴰ}
use mathlib.Core.List.Permᴰ
use text.Mathlib.Text.{◌==◌ as str_eq}
use text.Mathlib.TextEquality.{eq_iff}
use Prim.Native.String.{String}
use mathlib.Core.Path.{subst, subst₂}
use birdwatcher.Base.{
  ℕ, zero, suc, ◌%◌, ◌^◌, ◌≡◌, sym, ◌∙◌, ap, inl, inr, Bool, false, not, ◌&&◌, ◌||◌, List, [], ◌∷◌,
  ◌++◌, ltb, leb, All-map, Bool-cases, Option-cases, arith,
}
use birdwatcher.Base.Perms.{All-perm, sum_by, sum_by-perm, any_of, any_of-perm}
use birdwatcher.Base.Word.{add64, sub64}
use birdwatcher.Wal.Message.{Message}
use birdwatcher.Wal.Typeutil.{StringSet, MessageHeap}
use birdwatcher.Wal.ReorderBuffer.{
  ReorderBuffer, new_reorder_buffer, push, take_out, pop_loop, pop_util_time_tick,
}
use birdwatcher.Wal.ReorderBuffer.Order.{AtLeast, contents, pop_util_time_tick-Popped}

abbrev pub size_of : Message → ℕ
size_of m = m.estimate_size

abbrev pub has_id : String → List Message → Bool
has_id k = any_of λ (m : Message). str_eq m.message_id k

-- No two messages share a message id.
abbrev pub DistinctIds : List Message → Type 0
DistinctIds [] = Unit {0}
DistinctIds (m ∷ ms) = (has_id m.message_id ms ≡ false) × DistinctIds ms

str_eq_symm : (k j : String) → str_eq k j ≡ str_eq j k
str_eq_symm k j = ground (arith, eq_iff k j, eq_iff j k)

DistinctIds-swap :
    (a b : Message) (l : List Message) → DistinctIds (a ∷ b ∷ l) → DistinctIds (b ∷ a ∷ l)
DistinctIds-swap a b l d = ground (arith, str_eq_symm a.message_id b.message_id)

DistinctIds-perm : {xs ys : List Message} → Permᴰ xs ys → DistinctIds xs → DistinctIds ys
DistinctIds-perm Permᴰ.nil d = d
DistinctIds-perm (Permᴰ.cons {a = a} {b = b} {l₁ = xs} {l₂ = ys} e p) (n, d) = (
  sym (any_of-perm _ p) ∙ ap (λ (m : Message). has_id m.message_id xs) (sym e) ∙ n,
  DistinctIds-perm p d,
)
DistinctIds-perm (Permᴰ.swap {a = a} {b = b} {l = l} e f) d =
    subst₂ (λ x y. DistinctIds (x ∷ y ∷ l)) f e (DistinctIds-swap a b l d)
DistinctIds-perm (Permᴰ.trans p q) d = DistinctIds-perm q (DistinctIds-perm p d)

without :
    (m : Message) (k : String) (ms : List Message)
    → has_id m.message_id ms ≡ false
    → (not (str_eq m.message_id k) && (str_eq m.message_id k || has_id k ms)) ≡ has_id k ms
without m k ms n = elim (Bool-cases (str_eq m.message_id k)) [
  | inl e ↦ rw e (sym (subst (λ j. has_id j ms ≡ false) ((eq_iff _ _).0 e) n))
  | inr e ↦ rw e
]

-- The invariant but for the bound on the time ticks: the ids kept are those of the messages held,
-- each once, and the byte count is the size of those messages, as an `int` holds it.
pub record IsIndexed (H : MessageHeap) (S : StringSet) (r : ReorderBuffer H S) : Type 0 where
  pub ids : (k : String) → S.contain k r.message_ids ≡ has_id k (contents H S r)
  pub distinct : DistinctIds (contents H S r)
  pub counted : r.bytes ≡ sum_by size_of (contents H S r) % 2 ^ 64

pub record IsValid (H : MessageHeap) (S : StringSet) (r : ReorderBuffer H S) : Type 0 where
  pub indexed : IsIndexed H S r
  pub fresh : AtLeast r.last_pop_time_tick (contents H S r)

module _ (H : MessageHeap) (S : StringSet) where
  pub new_reorder_buffer-IsValid : IsValid H S (new_reorder_buffer H S)
  unfolding new_reorder_buffer
  new_reorder_buffer-IsValid = record {
    indexed = record {
      ids = λ k. S.contain-empty k ∙ rw H.contents-empty;
      distinct = rw H.contents-empty tt;
      counted = rw H.contents-empty;
    };
    fresh = rw H.contents-empty tt;
  }

  grown-IsIndexed :
      (r : ReorderBuffer H S) (m : Message)
      → IsIndexed H S r
      → S.contain m.message_id r.message_ids ≡ false
      → IsIndexed H S (record r {
        message_heap = H.push r.message_heap m;
        message_ids = S.insert m.message_id r.message_ids;
        bytes = add64 r.bytes m.estimate_size;
      })
  unfolding add64
  grown-IsIndexed r m v new =
      let perm = H.contents-push r.message_heap m in
      record {
        ids = λ k.
            S.contain-insert k m.message_id r.message_ids ∙ rw (v.ids k) (sym (any_of-perm _ perm));
        distinct = DistinctIds-perm (Permᴰ.symm perm) (sym (v.ids m.message_id) ∙ new, v.distinct);
        counted = omega (arith, v.counted, sum_by-perm size_of perm);
      }

  shrunk-IsIndexed :
      (r : ReorderBuffer H S) (m : Message) (rest : H.Heap)
      → IsIndexed H S r
      → Permᴰ (contents H S r) (m ∷ H.contents rest)
      → IsIndexed H S (take_out H S r m rest)
  unfolding take_out sub64
  shrunk-IsIndexed r m rest v perm =
      let (n, d) = DistinctIds-perm perm v.distinct in
      record {
        ids = λ k.
            S.contain-remove k m.message_id r.message_ids
            ∙ rw (v.ids k, any_of-perm _ perm) (without m k (H.contents rest) n);
        distinct = d;
        counted = omega (arith, v.counted, sum_by-perm size_of perm);
      }

  -- A push keeps the invariant, whether it is taken or refused.
  pub push-IsValid :
      (r : ReorderBuffer H S) (m : Message) → IsValid H S r → IsValid H S (push H S r m).0
  unfolding push
  push-IsValid r m v = elim (Bool-cases (ltb m.tick r.last_pop_time_tick)) [
    | inl old ↦ rw (old, push) v
    | inr new ↦ elim (Bool-cases (S.contain m.message_id r.message_ids)) [
      | inl dup ↦ rw (new, dup, push) v
      | inr fresh ↦
          rw (new, fresh, push)
            record {
              indexed = grown-IsIndexed r m v.indexed fresh;
              fresh =
                  All-perm _ (Permᴰ.symm (H.contents-push r.message_heap m))
                    (ground (arith), v.fresh);
            }
    ]
  ]

  pop_loop-IsIndexed :
      (fuel t : ℕ) (r : ReorderBuffer H S) (res : List Message)
      → IsIndexed H S r
      → IsIndexed H S (pop_loop H S fuel t r res).0
  unfolding pop_loop
  pop_loop-IsIndexed zero t r res v = v
  pop_loop-IsIndexed (suc fuel) t r res v = elim (Option-cases (H.pop r.message_heap)) [
    | inl e ↦ rw (e, pop_loop) v
    | inr ((m, rest), e) ↦ elim (Bool-cases (leb m.tick t)) [
      | inl le ↦
          rw (e, le, pop_loop)
            (pop_loop-IsIndexed fuel t (take_out H S r m rest) (res ++ (m ∷ []))
              (shrunk-IsIndexed r m rest v (H.pop_some _ m rest e).0))
      | inr gt ↦ rw (e, gt, pop_loop) v
    ]
  ]

  -- Taking the confirmed messages out keeps the invariant, at any time tick.
  pub pop_util_time_tick-IsValid :
      (r : ReorderBuffer H S) (t : ℕ) → IsValid H S r → IsValid H S (pop_util_time_tick H S r t).0
  unfolding pop_util_time_tick
  pop_util_time_tick-IsValid r t v =
      let w = pop_loop-IsIndexed (H.len r.message_heap) t r [] v.indexed in
      record {
        indexed = record { ids = w.ids; distinct = w.distinct; counted = w.counted };
        fresh = All-map (λ m h. omega arith) _ (pop_util_time_tick-Popped H S r t).0.held;
      }

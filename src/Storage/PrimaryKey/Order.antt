-- ===== src/Storage/PrimaryKey/Order.antt =====
-- The comparisons of primary keys: an order on the keys of each type, and false across types.
use mathlib.Core.Path.{subst}
use birdwatcher.Base.{
  ℕ, zero, suc, ◌≡◌, ◌≢◌, ◌↔◌, ◌⊎◌, refl, ap, inl, inr, true, false, ◌||◌, List, [], ◌∷◌, arith,
}
use birdwatcher.Base.Int.{ℤ, pos, negsuc}
use birdwatcher.Storage.PrimaryKey.{
  PrimaryKey, int64_pk, varchar_pk, type_of, strings_compare, gt, ge, lt, le, eq,
}

-- The sign of a comparison turned round.
abbrev flip : ℤ → ℤ
flip (pos zero) = pos 0
flip (pos (suc n)) = negsuc 0
flip (negsuc n) = pos 1

strings_compare-flip : (s t : List ℕ) → strings_compare t s ≡ flip (strings_compare s t)
unfolding strings_compare
strings_compare-flip [] [] = refl
strings_compare-flip [] (y ∷ ys) = refl
strings_compare-flip (x ∷ xs) [] = refl
strings_compare-flip (x ∷ xs) (y ∷ ys) = ground (arith, strings_compare-flip xs ys)

strings_compare_self : (s : List ℕ) → strings_compare s s ≡ pos 0
unfolding strings_compare
strings_compare_self [] = refl
strings_compare_self (x ∷ xs) = ground (arith, strings_compare_self xs)

strings_compare_zero : (s t : List ℕ) → strings_compare s t ≡ pos 0 → s ≡ t
unfolding strings_compare
strings_compare_zero [] [] e = refl
strings_compare_zero [] (y ∷ ys) e = absurd (cc)
strings_compare_zero (x ∷ xs) [] e = absurd (cc)
strings_compare_zero (x ∷ xs) (y ∷ ys) e = ground (arith, strings_compare_zero xs ys)

strings_compare_trans :
    (s t u : List ℕ)
    → strings_compare s t ≡ negsuc 0
    → strings_compare t u ≡ negsuc 0
    → strings_compare s u ≡ negsuc 0
unfolding strings_compare
strings_compare_trans [] [] u e f = absurd (cc)
strings_compare_trans [] (y ∷ ys) [] e f = absurd (cc)
strings_compare_trans [] (y ∷ ys) (z ∷ zs) e f = refl
strings_compare_trans (x ∷ xs) [] u e f = absurd (cc)
strings_compare_trans (x ∷ xs) (y ∷ ys) [] e f = absurd (cc)
strings_compare_trans (x ∷ xs) (y ∷ ys) (z ∷ zs) e f =
    ground (arith, strings_compare_trans xs ys zs)

strings_compare_cases :
    (s t : List ℕ)
    → (strings_compare s t ≡ negsuc 0)
      ⊎ (strings_compare s t ≡ pos 0)
      ⊎ (strings_compare s t ≡ pos 1)
unfolding strings_compare
strings_compare_cases [] [] = inr (inl refl)
strings_compare_cases [] (y ∷ ys) = inl refl
strings_compare_cases (x ∷ xs) [] = inr (inr refl)
strings_compare_cases (x ∷ xs) (y ∷ ys) = ground (arith, strings_compare_cases xs ys)

-- EQ says exactly that two keys are the same key.
pub eq_iff : (a b : PrimaryKey) → (eq a b ≡ true) ↔ (a ≡ b)
unfolding eq
eq_iff (int64_pk v) (int64_pk w) = ground arith
eq_iff (int64_pk v) (varchar_pk t) = ground arith
eq_iff (varchar_pk s) (int64_pk w) = ground arith
eq_iff (varchar_pk s) (varchar_pk t) = (
  λ e. ap varchar_pk (strings_compare_zero s t (ground arith)),
  λ e.
      subst (λ (k : PrimaryKey). eq (varchar_pk s) k ≡ true) e
        (ground (arith, strings_compare_self s)),
)

-- Keys of one type are ordered: one comes before the other, or they are the same.
pub lt_total :
    (a b : PrimaryKey) → type_of a ≡ type_of b → (lt a b ≡ true) ⊎ (a ≡ b) ⊎ (lt b a ≡ true)
unfolding lt
lt_total (int64_pk v) (int64_pk w) e = ground arith
lt_total (int64_pk v) (varchar_pk t) e = absurd (cc)
lt_total (varchar_pk s) (int64_pk w) e = absurd (cc)
lt_total (varchar_pk s) (varchar_pk t) e = elim (strings_compare_cases s t) [
  | inl c ↦ inl (ground arith)
  | inr (inl c) ↦ inr (inl (ap varchar_pk (strings_compare_zero s t c)))
  | inr (inr c) ↦ inr (inr (ground (arith, strings_compare-flip s t)))
]

-- LT is a strict order: no key comes before itself, and what comes before an earlier key comes
-- before the later one.
pub lt_strict :
    (a b c : PrimaryKey) → (lt a a ≡ false) × (lt a b ≡ true → lt b c ≡ true → lt a c ≡ true)
unfolding lt
lt_strict (int64_pk u) (int64_pk v) (int64_pk w) = (ground arith, λ h k. ground arith)
lt_strict (int64_pk u) (int64_pk v) (varchar_pk t) = (ground arith, λ h k. absurd (cc))
lt_strict (int64_pk u) (varchar_pk s) c = (ground arith, λ h k. absurd (cc))
lt_strict (varchar_pk r) (int64_pk v) c =
    (ground (arith, strings_compare_self r), λ h k. absurd (cc))
lt_strict (varchar_pk r) (varchar_pk s) (int64_pk w) =
    (ground (arith, strings_compare_self r), λ h k. absurd (cc))
lt_strict (varchar_pk r) (varchar_pk s) (varchar_pk t) = (
  ground (arith, strings_compare_self r),
  λ h k.
      ground
        (arith, strings_compare_trans r s t, strings_compare_cases r s, strings_compare_cases s t),
)

-- GT is LT the other way round, GE is LE the other way round, LE is LT or EQ, and of keys of
-- different types none of the five holds.
pub comparisons_agree :
    (a b : PrimaryKey)
    → (gt a b ≡ lt b a)
      × (ge a b ≡ le b a)
      × (le a b ≡ (lt a b || eq a b))
      × (type_of a ≢ type_of b → (gt a b || ge a b || lt a b || le a b || eq a b) ≡ false)
unfolding gt ge lt le eq
comparisons_agree (int64_pk v) (int64_pk w) =
    (ground arith, ground arith, ground arith, λ h. absurd (h refl))
comparisons_agree (int64_pk v) (varchar_pk t) = (refl, refl, refl, λ h. refl)
comparisons_agree (varchar_pk s) (int64_pk w) = (refl, refl, refl, λ h. refl)
comparisons_agree (varchar_pk s) (varchar_pk t) = (
  ground (arith, strings_compare-flip s t, strings_compare_cases s t),
  ground (arith, strings_compare-flip s t, strings_compare_cases s t),
  ground (arith, strings_compare_cases s t),
  λ h. absurd (h refl),
)

-- EQ says exactly that two keys are the same key. LT is a strict order: no key comes before
-- itself, and what comes before an earlier key comes before the later one. Of two keys of one
-- type one comes before the other, or they are the same.
pub order_lem :
    (a b c : PrimaryKey)
    → ((eq a b ≡ true) ↔ (a ≡ b))
      × (lt a a ≡ false)
      × (lt a b ≡ true → lt b c ≡ true → lt a c ≡ true)
      × (type_of a ≡ type_of b → (lt a b ≡ true) ⊎ (a ≡ b) ⊎ (lt b a ≡ true))
order_lem a b c = let (irrefl, trans) = lt_strict a b c in (eq_iff a b, irrefl, trans, lt_total a b)

-- ===== src/Base/Text/Order.antt =====
-- The order of byte strings, against prefixes and the first key behind a key.
use Prim.Native.Nat.{ℕ, suc}
use mathlib.Core.Path.{◌≡◌, refl}
use mathlib.Core.Logic.{◌↔◌}
use mathlib.Core.Bool.{true, false, not}
use mathlib.Core.List.{List, [], ◌∷◌, ◌++◌}
use native.Mathlib.Omega.{arith}
use birdwatcher.Base.Text.{same_text, before, at_least, has_prefix}

pub same_text_iff : (xs ys : List ℕ) → (same_text xs ys ≡ true) ↔ (xs ≡ ys)
same_text_iff [] [] = (λ e. refl, λ e. refl)
same_text_iff [] (y ∷ ys) = (λ e. absurd (cc), λ e. absurd (cc))
same_text_iff (x ∷ xs) [] = (λ e. absurd (cc), λ e. absurd (cc))
same_text_iff (x ∷ xs) (y ∷ ys) = ground (arith, same_text_iff xs ys)

pub same_text_self : (xs : List ℕ) → same_text xs xs ≡ true
same_text_self xs = (same_text_iff xs xs).1 refl

pub before_irrefl : (xs : List ℕ) → before xs xs ≡ false
before_irrefl [] = refl
before_irrefl (x ∷ xs) = ground (arith, before_irrefl xs)

pub before_asym : (xs ys : List ℕ) → before xs ys ≡ true → before ys xs ≡ false
before_asym [] [] h = refl
before_asym [] (y ∷ ys) h = refl
before_asym (x ∷ xs) [] h = absurd (cc)
before_asym (x ∷ xs) (y ∷ ys) h = ground (arith, before_asym xs ys)

pub before_trans :
    (xs ys zs : List ℕ) → before xs ys ≡ true → before ys zs ≡ true → before xs zs ≡ true
before_trans [] [] zs h k = absurd (cc)
before_trans [] (y ∷ ys) [] h k = absurd (cc)
before_trans [] (y ∷ ys) (z ∷ zs) h k = refl
before_trans (x ∷ xs) [] zs h k = absurd (cc)
before_trans (x ∷ xs) (y ∷ ys) [] h k = absurd (cc)
before_trans (x ∷ xs) (y ∷ ys) (z ∷ zs) h k = ground (arith, before_trans xs ys zs)

pub at_least_trans :
    (xs ys zs : List ℕ) → at_least ys xs ≡ true → at_least zs ys ≡ true → at_least zs xs ≡ true
at_least_trans [] [] zs h k = k
at_least_trans [] (y ∷ ys) [] h k = refl
at_least_trans [] (y ∷ ys) (z ∷ zs) h k = refl
at_least_trans (x ∷ xs) [] zs h k = absurd (cc)
at_least_trans (x ∷ xs) (y ∷ ys) [] h k = absurd (cc)
at_least_trans (x ∷ xs) (y ∷ ys) (z ∷ zs) h k = ground (arith, at_least_trans xs ys zs)

-- A string with a prefix does not come before it.
pub has_prefix-at_least : (p xs : List ℕ) → has_prefix p xs ≡ true → at_least xs p ≡ true
has_prefix-at_least [] [] h = refl
has_prefix-at_least [] (x ∷ xs) h = refl
has_prefix-at_least (c ∷ p) [] h = absurd (cc)
has_prefix-at_least (c ∷ p) (x ∷ xs) h = ground (arith, has_prefix-at_least p xs)

-- The first string behind another is that with a zero byte.
pub at_least-successor : (xs ys : List ℕ) → at_least ys (xs ++ (0 ∷ [])) ≡ before xs ys
at_least-successor [] [] = refl
at_least-successor [] (y ∷ []) = ground arith
at_least-successor [] (y ∷ z ∷ ys) = ground arith
at_least-successor (x ∷ xs) [] = refl
at_least-successor (x ∷ xs) (y ∷ ys) = ground (arith, at_least-successor xs ys)

-- Of the strings from `s` and a byte on, those below `s` and the next byte have that prefix.
pub at_least-next :
    (s ys : List ℕ) (c : ℕ)
    → at_least ys (s ++ (c ∷ [])) ≡ true
    → at_least ys (s ++ (suc c ∷ [])) ≡ not (has_prefix (s ++ (c ∷ [])) ys)
at_least-next [] [] c h = absurd (cc)
at_least-next [] (y ∷ []) c h = ground arith
at_least-next [] (y ∷ z ∷ ys) c h = ground arith
at_least-next (x ∷ s) [] c h = absurd (cc)
at_least-next (x ∷ s) (y ∷ ys) c h = ground (arith, at_least-next s ys c)

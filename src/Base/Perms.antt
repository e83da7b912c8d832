-- ===== src/Base/Perms.antt =====
-- Rearrangements of lists: what the proofs need beyond the library's `Perm`. The untruncated
-- family `Permᴰ` is matched; statements use `Perm`.
use mathlib.Core.Path.{◌≡◌, refl, ap, ◌∙◌, subst}
use mathlib.Core.Bool.{Bool, false, ◌||◌}
use mathlib.Core.List.{List, [], ◌∷◌, ◌++◌, Permᴰ}
use Prim.Native.Nat.{ℕ, ◌+◌, ◌≤◌, suc}
use native.Mathlib.Omega.{arith}
use birdwatcher.Base.Lists.{All, length}

-- The sum of a measure over a list.
abbrev pub sum_by {ℓ} : {A : Type ℓ} → (A → ℕ) → List A → ℕ
sum_by f [] = 0
sum_by f (x ∷ xs) = f x + sum_by f xs

-- Whether some element passes a test.
abbrev pub any_of {ℓ} : {A : Type ℓ} → (A → Bool) → List A → Bool
any_of p [] = false
any_of p (x ∷ xs) = p x || any_of p xs

module _ {ℓ} {A : Type ℓ} where
  pub sum_by-append : (f : A → ℕ) (xs ys : List A) → sum_by f (xs ++ ys) ≡ sum_by f xs + sum_by f ys
  sum_by-append f [] ys = omega arith
  sum_by-append f (x ∷ xs) ys = omega (arith, sum_by-append f xs ys)

  pub sum_by-perm : (f : A → ℕ) {xs ys : List A} → Permᴰ xs ys → sum_by f xs ≡ sum_by f ys
  sum_by-perm f Permᴰ.nil = refl
  sum_by-perm f (Permᴰ.cons e p) = omega (arith, ap f e, sum_by-perm f p)
  sum_by-perm f (Permᴰ.swap e d) = omega (arith, ap f e, ap f d)
  sum_by-perm f (Permᴰ.trans p q) = sum_by-perm f p ∙ sum_by-perm f q

  pub any_of-perm : (t : A → Bool) {xs ys : List A} → Permᴰ xs ys → any_of t xs ≡ any_of t ys
  any_of-perm t Permᴰ.nil = refl
  any_of-perm t (Permᴰ.cons e p) = rw (any_of-perm t p, e)
  any_of-perm t (Permᴰ.swap {a = a} {b = b} {l = l} e d) = ground (arith, ap t e, ap t d)
  any_of-perm t (Permᴰ.trans p q) = any_of-perm t p ∙ any_of-perm t q

  pub length-perm : {xs ys : List A} → Permᴰ xs ys → length xs ≡ length ys
  length-perm Permᴰ.nil = refl
  length-perm (Permᴰ.cons e p) = ap suc (length-perm p)
  length-perm (Permᴰ.swap e d) = refl
  length-perm (Permᴰ.trans p q) = length-perm p ∙ length-perm q

  pub All-perm {κ} : (P : A → Type κ) {xs ys : List A} → Permᴰ xs ys → All P xs → All P ys
  All-perm P Permᴰ.nil h = h
  All-perm P (Permᴰ.cons e p) (h, hs) = (subst P e h, All-perm P p hs)
  All-perm P (Permᴰ.swap e d) (h, (k, hs)) = (subst P d k, (subst P e h, hs))
  All-perm P (Permᴰ.trans p q) h = All-perm P q (All-perm P p h)

  pub All-left {κ} : (P : A → Type κ) (xs ys : List A) → All P (xs ++ ys) → All P xs
  All-left P [] ys h = tt
  All-left P (x ∷ xs) ys (h, hs) = (h, All-left P xs ys hs)

  pub All-right {κ} : (P : A → Type κ) (xs ys : List A) → All P (xs ++ ys) → All P ys
  All-right P [] ys h = h
  All-right P (x ∷ xs) ys (h, hs) = All-right P xs ys hs

  pub All-of_empty {κ} : (P : A → Type κ) (xs : List A) → length xs ≤ 0 → All P xs
  All-of_empty P [] h = tt
  All-of_empty P (x ∷ xs) h = elim h [ ]

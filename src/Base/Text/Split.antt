-- ===== src/Base/Text/Split.antt =====
-- Splitting and joining.
use Prim.Native.Nat.{ℕ}
use mathlib.Core.Path.{◌≡◌, refl, sym, ◌∙◌, ap}
use mathlib.Core.Logic.{inl, inr}
use mathlib.Core.List.{List, [], ◌∷◌, ◌++◌}
use native.Mathlib.Omega.{arith}
use birdwatcher.Base.Tests.{◌==◌, ==_iff, Bool-cases}
use birdwatcher.Base.Text.{split, join, onto_first}

-- A split has a part at least.
pub split-cons :
    (sep : ℕ) (cs : List ℕ)
    → (part : List ℕ) × (parts : List (List ℕ)) × (split sep cs ≡ part ∷ parts)
unfolding split
split-cons sep [] = ([], [], refl)
split-cons sep (c ∷ cs) = elim (Bool-cases (c == sep)) [
  | inl e ↦ ([], split sep cs, rw e)
  | inr e ↦ let (part, parts, f) = split-cons sep cs in (c ∷ part, parts, rw (e, f))
]

pub split-append :
    (sep : ℕ) (xs ys : List ℕ) → split sep (xs ++ (sep ∷ ys)) ≡ split sep xs ++ split sep ys
unfolding split
split-append sep [] ys = ground arith
split-append sep (c ∷ xs) ys = elim (Bool-cases (c == sep)) [
  | inl e ↦ rw (e, split-append sep xs ys)
  | inr e ↦ let (part, parts, f) = split-cons sep xs in rw (e, split-append sep xs ys, f)
]

join-onto_first :
    (sep c : ℕ) (part : List ℕ) (parts : List (List ℕ))
    → join sep (onto_first c (part ∷ parts)) ≡ c ∷ join sep (part ∷ parts)
unfolding join
join-onto_first sep c part [] = refl
join-onto_first sep c part (next ∷ parts) = refl

join-cons : (sep : ℕ) (cs : List ℕ) → join sep ([] ∷ split sep cs) ≡ sep ∷ join sep (split sep cs)
unfolding join
join-cons sep cs = let (part, parts, f) = split-cons sep cs in rw f

-- Joining the parts of a split gives the string again.
pub join-split : (sep : ℕ) (cs : List ℕ) → join sep (split sep cs) ≡ cs
unfolding split
join-split sep [] = unfold join in refl
join-split sep (c ∷ cs) = elim (Bool-cases (c == sep)) [
  | inl e ↦ rw e (
      join-cons sep cs
      ∙ ap (◌∷◌ sep) (join-split sep cs)
      ∙ ap (λ d. d ∷ cs) (sym ((==_iff c sep).0 e)))
  | inr e ↦
      let (part, parts, f) = split-cons sep cs in
      rw (e, f)
        (join-onto_first sep c part parts ∙ ap (◌∷◌ c) (ap (join sep) (sym f) ∙ join-split sep cs))
]

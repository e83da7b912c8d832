-- ===== src/Kv/Client/Pairs.antt =====
-- Ranges of sorted pairs.
use birdwatcher.Base.{
  ℕ, ◌≤◌, ◌≡◌, ◌⊎◌, inl, inr, refl, ◌∙◌, Bool, true, ◌&&◌, Bool-cases, List, [], ◌∷◌, ◌++◌, length,
  select, All, All-map, arith,
}
use birdwatcher.Base.Text.{before, at_least}
use birdwatcher.Base.Text.Order.{before_irrefl, before_asym, before_trans, at_least-successor}
use birdwatcher.Kv.Client.{Pair, Sorted}

-- Two tests that agree on the elements select the same.
pub select-agree :
    (p q : Pair → Bool) (ps : List Pair) → All (λ x. p x ≡ q x) ps → select p ps ≡ select q ps
select-agree p q [] h = refl
select-agree p q (x ∷ ps) (h, hs) = ground (arith, select-agree p q ps hs)

pub select-select :
    (p q : Pair → Bool) (ps : List Pair) → select (λ x. p x && q x) ps ≡ select p (select q ps)
select-select p q [] = refl
select-select p q (x ∷ ps) = elim (Bool-cases (q x)) [
  | inl e ↦ ground (arith, e, select-select p q ps)
  | inr e ↦ ground (arith, e, select-select p q ps)
]

pub select_whole : (p : Pair → Bool) (ps : List Pair) → All (λ x. p x ≡ true) ps → select p ps ≡ ps
select_whole p [] h = refl
select_whole p (x ∷ ps) (h, hs) = rw (h, select_whole p ps hs)

pub All-select :
    (P : Pair → Type 0) (p : Pair → Bool) (ps : List Pair) → All P ps → All P (select p ps)
All-select P p [] h = tt
All-select P p (x ∷ ps) (h, hs) = elim (Bool-cases (p x)) [
  | inl e ↦ rw e (h, All-select P p ps hs)
  | inr e ↦ rw e (All-select P p ps hs)
]

pub Sorted-select : (p : Pair → Bool) (ps : List Pair) → Sorted ps → Sorted (select p ps)
Sorted-select p [] h = tt
Sorted-select p (x ∷ ps) (h, hs) = elim (Bool-cases (p x)) [
  | inl e ↦ rw e (All-select _ p ps h, Sorted-select p ps hs)
  | inr e ↦ rw e (Sorted-select p ps hs)
]

-- The key of the last pair.
abbrev pub last_key : Pair → List Pair → List ℕ
last_key p [] = p.key
last_key p (q ∷ ps) = last_key q ps

last_key-behind :
    (p q : Pair) (ps qs : List Pair)
    → before p.key q.key ≡ true
    → Sorted (q ∷ (ps ++ qs))
    → before p.key (last_key q ps) ≡ true
last_key-behind p q [] qs h s = h
last_key-behind p q (r ∷ ps) qs h ((k, ks), s) =
    last_key-behind p r ps qs (before_trans p.key q.key r.key h k) s

-- Behind the last key of a first part of sorted pairs stands the second part.
pub select_behind :
    (p : Pair) (ps qs : List Pair)
    → Sorted (p ∷ (ps ++ qs))
    → select (λ (x : Pair). at_least x.key (last_key p ps ++ (0 ∷ []))) (p ∷ (ps ++ qs)) ≡ qs
select_behind p [] qs (h, s) =
    rw (at_least-successor p.key p.key, before_irrefl p.key)
      (select_whole _ qs (All-map (λ (x : Pair) k. at_least-successor p.key x.key ∙ k) qs h))
select_behind p (q ∷ ps) qs ((h, hs), s) =
    rw
      (
        at_least-successor (last_key q ps) p.key,
        before_asym p.key (last_key q ps) (last_key-behind p q ps qs h s),
      )
      (select_behind q ps qs s)

pub select_passing : (t : Pair → Bool) (ps : List Pair) → All (λ x. t x ≡ true) (select t ps)
select_passing t [] = tt
select_passing t (x ∷ ps) = elim (Bool-cases (t x)) [
  | inl e ↦ rw e (e, select_passing t ps)
  | inr e ↦ rw e (select_passing t ps)
]

pub length-select : (t : Pair → Bool) (ps : List Pair) → length (select t ps) ≤ length ps
length-select t [] = omega arith
length-select t (p ∷ ps) = ground (arith, length-select t ps)

pub list_cases : (ps : List Pair) → (ps ≡ []) ⊎ ((p : Pair) × (qs : List Pair) × (ps ≡ p ∷ qs))
list_cases [] = inl refl
list_cases (p ∷ ps) = inr (p, ps, refl)

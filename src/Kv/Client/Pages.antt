-- ===== src/Kv/Client/Pages.antt =====
-- Pages of sorted pairs.
use mathlib.Core.Path.{subst}
use mathlib.Core.List.{append-nil}
use birdwatcher.Base.{
  ℕ, zero, suc, ◌<◌, ◌≤◌, ◌≡◌, refl, sym, ◌∙◌, ap, Bool, true, false, not, ◌&&◌, List, [], ◌∷◌,
  ◌++◌, length, take, drop, select, suc_is_not_zero, All, All-every, arith,
}
use birdwatcher.Base.Text.{at_least}
use birdwatcher.Base.Text.Order.{at_least-successor, at_least_trans, before_irrefl, before_asym}
use birdwatcher.Binlog.Bytes.RoundTrip.{take-drop}
use birdwatcher.Kv.Client.{Pair, Sorted, limited, exceeds}
use birdwatcher.Kv.Client.Pairs.{
  select-agree, select-select, Sorted-select, last_key, select_behind, select_passing,
}

pub and_left : (a b : Bool) → (a && b) ≡ true → a ≡ true
and_left true b h = refl
and_left false b h = h

pub and_of : (a b : Bool) → (a ≡ true → b ≡ true) → a ≡ (a && b)
and_of true b h = sym (h refl)
and_of false b h = refl

pub behind-at_least : (l : List ℕ) → at_least (l ++ (0 ∷ [])) l ≡ true
behind-at_least l = ap not (
    before_asym l (l ++ (0 ∷ []))
      (sym (at_least-successor l (l ++ (0 ∷ []))) ∙ ap not (before_irrefl (l ++ (0 ∷ [])))))

pub All-first : (P : Pair → Type 0) (xs ys : List Pair) → All P (xs ++ ys) → All P xs
All-first P [] ys h = tt
All-first P (x ∷ xs) ys (h, hs) = (h, All-first P xs ys hs)

pub last_key-All :
    (P : List ℕ → Type 0) (p : Pair) (ps : List Pair)
    → All (λ (x : Pair). P x.key) (p ∷ ps)
    → P (last_key p ps)
last_key-All P p [] (h, hs) = h
last_key-All P p (q ∷ ps) (h, hs) = last_key-All P q ps hs

pub length-drop : (n : ℕ) (ps : List Pair) → length (drop n ps) ≤ length ps
length-drop zero ps = omega arith
length-drop (suc n) [] = omega arith
length-drop (suc n) (p ∷ ps) = omega (arith, length-drop n ps)

pub exceeds_le : (n : ℕ) (ps : List Pair) → exceeds (suc n) ps ≡ false → length ps ≤ suc n
exceeds_le n ps h = ground arith

pub exceeds_lt : (n : ℕ) (ps : List Pair) → exceeds (suc n) ps ≡ true → n < length ps
exceeds_lt n ps h = ground arith

pub take_all : (n : ℕ) (ps : List Pair) → length ps ≤ n → take n ps ≡ ps
take_all zero [] h = refl
take_all (suc n) [] h = refl
take_all zero (p ∷ ps) h = absurd (omega arith)
take_all (suc n) (p ∷ ps) h = ap (◌∷◌ p) (take_all n ps (omega arith))

pub exceeds_not : (limit : ℕ) (ps : List Pair) → exceeds limit ps ≡ false → limited limit ps ≡ ps
exceeds_not zero ps h = refl
exceeds_not (suc n) ps h =
    rw (suc_is_not_zero n) (take_all (suc n) ps (omega (arith, exceeds_le n ps h)))

-- A page of pairs that are there has the first of them.
pub first_page :
    (limit : ℕ) (p : Pair) (qs : List Pair)
    → (xs : List Pair) × (ys : List Pair) × (qs ≡ xs ++ ys)
      × (limited limit (p ∷ qs) ≡ p ∷ xs)
      × (length ys ≤ length qs)
first_page zero p qs = (qs, [], sym (append-nil qs), refl, omega arith)
first_page (suc n) p qs =
    rw (suc_is_not_zero n) (take n qs, drop n qs, sym (take-drop n qs), refl, length-drop n qs)

-- Behind the last pair of a page stand those that the page left out.
pub behind_page :
    (key : List ℕ) (ps : List Pair) (p : Pair) (xs ys : List Pair)
    → Sorted ps
    → select (λ (x : Pair). at_least x.key key) ps ≡ p ∷ (xs ++ ys)
    → select (λ (x : Pair). at_least x.key (last_key p xs ++ (0 ∷ []))) ps ≡ ys
behind_page key ps p xs ys h e =
    let l = last_key p xs in
    let all = subst (All (λ (x : Pair). at_least x.key key ≡ true)) e (select_passing _ ps) in
    let above = last_key-All (λ k. at_least k key ≡ true) p xs (All-first _ (p ∷ xs) ys all) in
    let next = at_least_trans key l (l ++ (0 ∷ [])) above (behind-at_least l) in
    select-agree _ _ ps
      (All-every (λ (x : Pair). and_of _ _ (at_least_trans key (l ++ (0 ∷ [])) x.key next)) ps)
    ∙ select-select (λ (x : Pair). at_least x.key (l ++ (0 ∷ []))) _ ps
    ∙ ap (select (λ (x : Pair). at_least x.key (l ++ (0 ∷ [])))) e
    ∙ select_behind p xs ys (subst Sorted e (Sorted-select _ ps h))

pub prefix_test : (a b c : Bool) → (a ≡ true → b ≡ c) → (c ≡ true → a ≡ true) → (a && b) ≡ c
prefix_test true b c h k = h refl
prefix_test false b true h k = k refl
prefix_test false b false h k = refl

-- ===== src/Kv/Restore/Orders.antt =====
-- Puts of different keys may come in any order.
use mathlib.Core.Path.{subst}
use mathlib.Core.List.{Permᴰ, append_assoc}
use mathlib.Core.List.Permᴰ
use birdwatcher.Base.{
  ℕ, ◌≡◌, inl, inr, refl, sym, ◌∙◌, ap, true, false, Bool-cases, Option, none, some, List, [], ◌∷◌,
  ◌++◌, if◌then◌else◌, All, All-map,
}
use birdwatcher.Base.Perms.{All-perm}
use birdwatcher.Base.Text.{same_text, before}
use birdwatcher.Base.Text.Order.{same_text_iff, before_irrefl}
use birdwatcher.Kv.Client.{Pair, Sorted}
use birdwatcher.Kv.Etcd.Keys.{lookup, latest, not_both}

-- No key stands twice.
abbrev pub Distinct : List Pair → Type 0
Distinct [] = Unit
Distinct (p ∷ ps) = All (λ (q : Pair). same_text p.key q.key ≡ false) ps × Distinct ps

before_differs : (a b : List ℕ) → before a b ≡ true → same_text a b ≡ false
before_differs a b h = elim (Bool-cases (same_text a b)) [
  | inl e ↦ absurd (cc (h, ap (before a) (sym ((same_text_iff a b).0 e)), before_irrefl a))
  | inr e ↦ e
]

pub Sorted-Distinct : (ps : List Pair) → Sorted ps → Distinct ps
Sorted-Distinct [] h = tt
Sorted-Distinct (p ∷ ps) (a, h) =
    (All-map (λ (q : Pair) b. before_differs p.key q.key b) ps a, Sorted-Distinct ps h)

same_text_sym : (a b : List ℕ) → same_text a b ≡ false → same_text b a ≡ false
same_text_sym a b h = elim (Bool-cases (same_text b a)) [
  | inl e ↦ absurd (cc ((same_text_iff a b).1 (sym ((same_text_iff b a).0 e)), h))
  | inr e ↦ e
]

pub Distinct-perm : {ps qs : List Pair} → Permᴰ ps qs → Distinct ps → Distinct qs
Distinct-perm Permᴰ.nil h = tt
Distinct-perm (Permᴰ.cons {l₂ = qs} e p) (a, h) = (
  subst (λ (x : Pair). All (λ (q : Pair). same_text x.key q.key ≡ false) qs) e (All-perm _ p a),
  Distinct-perm p h,
)
Distinct-perm (Permᴰ.swap {a = x} {b = y} {b' = x'} {l = l} e d) ((a, b), (c, h)) =
    subst (λ z. Distinct (z ∷ x' ∷ l)) d
      (subst (λ z. Distinct (y ∷ z ∷ l)) e ((same_text_sym x.key y.key a, c), (b, h)))
Distinct-perm (Permᴰ.trans p q) h = Distinct-perm q (Distinct-perm p h)

pub latest-perm :
    (k : List ℕ) {ps qs : List Pair}
    → Permᴰ ps qs
    → Distinct ps
    → (v : Option (List ℕ)) → latest k ps v ≡ latest k qs v
latest-perm k Permᴰ.nil h v = refl
latest-perm k (Permᴰ.cons {l₂ = qs} e p) (a, h) v =
    latest-perm k p h _
    ∙ ap (λ (x : Pair). latest k qs (if same_text k x.key then some x.value else v)) e
latest-perm k (Permᴰ.swap {a = x} {b = y} {b' = x'} {l = l} e d) ((a, b), (c, h)) v =
    ap (latest k l) (
      not_both (same_text k x.key) (same_text k y.key) (some x.value) (some y.value) v
        (λ g. ap (λ z. same_text z y.key) ((same_text_iff k x.key).0 g) ∙ a))
    ∙ ap
        (λ (z : Pair). latest k l (
          if same_text k z.key
          then some z.value
          else (if same_text k y.key then some y.value else v)))
        e
    ∙ ap
        (λ (z : Pair). latest k l (
          if same_text k x'.key
          then some x'.value
          else (if same_text k z.key then some z.value else v)))
        d
latest-perm k (Permᴰ.trans p q) h v = latest-perm k p h v ∙ latest-perm k q (Distinct-perm p h) v

abbrev pub or_else {ℓ} : {A : Type ℓ} → Option A → Option A → Option A
or_else none o = o
or_else (some a) o = some a

absent :
    (k : List ℕ) (p : Pair) (ps : List Pair)
    → same_text k p.key ≡ true
    → All (λ (q : Pair). same_text p.key q.key ≡ false) ps
    → lookup k ps ≡ none
absent k p [] e h = refl
absent k p (q ∷ ps) e (h, hs) =
    rw (ap (λ x. same_text x q.key) ((same_text_iff k p.key).0 e) ∙ h) (absent k p ps e hs)

pub latest-lookup :
    (k : List ℕ) (ps : List Pair) (v : Option (List ℕ))
    → Distinct ps
    → latest k ps v ≡ or_else (lookup k ps) v
latest-lookup k [] v h = refl
latest-lookup k (p ∷ ps) v (a, h) = elim (Bool-cases (same_text k p.key)) [
  | inl e ↦ rw (e, latest-lookup k ps (some p.value) h, absent k p ps e a) refl
  | inr e ↦ rw e (latest-lookup k ps v h)
]

abbrev pub concat {ℓ} : {A : Type ℓ} → List (List A) → List A
concat [] = []
concat (xs ∷ xss) = xs ++ concat xss

pub concat-perm {ℓ} :
    {A : Type ℓ} {xss yss : List (List A)} → Permᴰ xss yss → Permᴰ (concat xss) (concat yss)
concat-perm Permᴰ.nil = Permᴰ.nil
concat-perm (Permᴰ.cons {a = a} {l₁ = xss} {l₂ = yss} e p) =
    subst (λ x. Permᴰ (a ++ concat xss) (x ++ concat yss)) e (Permᴰ.append_left a (concat-perm p))
concat-perm (Permᴰ.swap {a = a} {b = b} {b' = b'} {l = l} e d) =
    subst (λ x. Permᴰ (a ++ (b ++ concat l)) (x ++ (b' ++ concat l))) d
      (subst (λ x. Permᴰ (a ++ (b ++ concat l)) (b ++ (x ++ concat l))) e
        (subst (λ x. Permᴰ x (b ++ (a ++ concat l))) (append_assoc a b (concat l))
          (subst (λ x. Permᴰ ((a ++ b) ++ concat l) x) (append_assoc b a (concat l))
            (Permᴰ.append_right (concat l) (Permᴰ.append_comm a b)))))
concat-perm (Permᴰ.trans p q) = Permᴰ.trans (concat-perm p) (concat-perm q)

-- ===== src/Base/Dict.antt =====
-- A Go map as an association list with distinct keys.
use Prim.Native.Nat.{ℕ, ◌+◌}
use mathlib.Core.Path.{◌≡◌, refl, sym, ◌∙◌, subst, subst₂}
use mathlib.Core.Bool.{false}
use mathlib.Core.Logic.{inl, inr}
use birdwatcher.Base.Lists.{All, All-map₂}
use mathlib.Core.List.{List, [], ◌∷◌, Permᴰ}
use mathlib.Core.Option.{Option, none, some}
use native.Mathlib.Omega.{arith}
use birdwatcher.Base.Tests.{◌==◌, if◌then◌else◌, Bool-cases}

module _ {ℓ} {V : Type ℓ} where
  -- `m[k]`
  abbrev pub lookup : ℕ → List (ℕ × V) → Option V
  lookup k [] = none
  lookup k ((j, v) ∷ m) = if j == k then some v else lookup k m

  -- `m[k] = v`
  abbrev pub set : ℕ → V → List (ℕ × V) → List (ℕ × V)
  set k v [] = (k, v) ∷ []
  set k v ((j, w) ∷ m) = if j == k then (k, v) ∷ m else (j, w) ∷ set k v m

  -- `delete(m, k)`
  abbrev pub delete : ℕ → List (ℕ × V) → List (ℕ × V)
  delete k [] = []
  delete k ((j, w) ∷ m) = if j == k then delete k m else (j, w) ∷ delete k m

  -- No key occurs twice.
  abbrev pub Distinct : List (ℕ × V) → Type ℓ
  Distinct [] = Unit
  Distinct ((j, v) ∷ m) = (lookup j m ≡ none) × Distinct m

  pub lookup-set :
      (k j : ℕ) (v : V) (m : List (ℕ × V))
      → lookup j (set k v m) ≡ (if k == j then some v else lookup j m)
  lookup-set k j v [] = refl
  lookup-set k j v ((i, w) ∷ m) = ground (arith, lookup-set k j v m)

  pub lookup-delete :
      (k j : ℕ) (m : List (ℕ × V)) → lookup j (delete k m) ≡ (if k == j then none else lookup j m)
  lookup-delete k j [] = ground arith
  lookup-delete k j ((i, w) ∷ m) = ground (arith, lookup-delete k j m)

  pub Distinct-set : (k : ℕ) (v : V) (m : List (ℕ × V)) → Distinct m → Distinct (set k v m)
  Distinct-set k v [] d = (refl, tt)
  Distinct-set k v ((i, w) ∷ m) (n, d) = ground (arith, lookup-set k i v m, Distinct-set k v m d)

  pub Distinct-delete : (k : ℕ) (m : List (ℕ × V)) → Distinct m → Distinct (delete k m)
  Distinct-delete k [] d = tt
  Distinct-delete k ((i, w) ∷ m) (n, d) = ground (arith, lookup-delete k i m, Distinct-delete k m d)

  pub delete_absent : (k : ℕ) (m : List (ℕ × V)) → lookup k m ≡ none → delete k m ≡ m
  delete_absent k [] h = refl
  delete_absent k ((i, w) ∷ m) h = ground (arith, delete_absent k m)

  -- The total of a measure over the values.
  abbrev pub total : (V → ℕ) → List (ℕ × V) → ℕ
  total f [] = 0
  total f ((k, v) ∷ m) = f v + total f m

  pub total-set_new :
      (f : V → ℕ) (k : ℕ) (v : V) (m : List (ℕ × V))
      → lookup k m ≡ none
      → total f (set k v m) ≡ total f m + f v
  total-set_new f k v [] h = omega arith
  total-set_new f k v ((i, w) ∷ m) h = ground (arith, total-set_new f k v m)

  pub total-set_old :
      (f : V → ℕ) (k : ℕ) (v w : V) (m : List (ℕ × V))
      → lookup k m ≡ some w
      → total f (set k v m) + f w ≡ total f m + f v
  total-set_old f k v w [] h = absurd (cc)
  total-set_old f k v w ((i, u) ∷ m) h = ground (arith, total-set_old f k v w m)

  pub total-delete :
      (f : V → ℕ) (k : ℕ) (w : V) (m : List (ℕ × V))
      → Distinct m
      → lookup k m ≡ some w
      → total f m ≡ total f (delete k m) + f w
  total-delete f k w [] d h = absurd (cc)
  total-delete f k w ((i, u) ∷ m) (n, d) h =
      ground (arith, total-delete f k w m d, delete_absent k m)

  -- The entries of `es` are entries of `m`.
  abbrev pub Listed : List (ℕ × V) → List (ℕ × V) → Type ℓ
  Listed m = All λ (e : ℕ × V). lookup e.0 m ≡ some e.1

  pub avoids :
      (k : ℕ) (m : List (ℕ × V)) → lookup k m ≡ none → All (λ (e : ℕ × V). (e.0 == k) ≡ false) m
  avoids k [] h = tt
  avoids k ((i, w) ∷ m) h = elim (Bool-cases (i == k)) [
    | inl e ↦ absurd (ground arith)
    | inr e ↦ (e, avoids k m (ground arith))
  ]

  pub Listed-self : (m : List (ℕ × V)) → Distinct m → Listed m m
  Listed-self [] d = tt
  Listed-self ((i, w) ∷ m) (n, d) =
      (ground arith, All-map₂ (λ e h k. ground arith) m (avoids i m n) (Listed-self m d))

  Perm-same_swap :
      (i j : ℕ) (v w : V) (m : List (ℕ × V))
      → Distinct ((i, v) ∷ (j, w) ∷ m)
      → Distinct ((j, w) ∷ (i, v) ∷ m)
        × ((k : ℕ) → lookup k ((i, v) ∷ (j, w) ∷ m) ≡ lookup k ((j, w) ∷ (i, v) ∷ m))
  Perm-same_swap i j v w m (n, (l, d)) = (ground arith, λ k. ground arith)

  -- The order of the entries does not matter to a map.
  pub Perm-same :
      {m m' : List (ℕ × V)}
      → Permᴰ m m'
      → Distinct m
      → Distinct m' × ((k : ℕ) → lookup k m ≡ lookup k m')
  Perm-same Permᴰ.nil d = (d, λ k. refl)
  Perm-same (Permᴰ.cons {a = (i, v)} {b = b} {l₁ = m} {l₂ = m'} e p) (n, d) =
      let (d', same) = Perm-same p d in
      subst
        (λ (x : ℕ × V). Distinct (x ∷ m') × ((k : ℕ) → lookup k ((i, v) ∷ m) ≡ lookup k (x ∷ m'))) e
        ((sym (same i) ∙ n, d'), λ k. rw (same k))
  Perm-same (Permᴰ.swap {a = (i, v)} {b = (j, w)} {l = m} e f) d =
      subst₂
        (λ (x y : ℕ × V).
          Distinct (x ∷ y ∷ m) × ((k : ℕ) → lookup k ((i, v) ∷ (j, w) ∷ m) ≡ lookup k (x ∷ y ∷ m)))
        f e (Perm-same_swap i j v w m d)
  Perm-same (Permᴰ.trans p q) d =
      let (d', same) = Perm-same p d in
      let (d'', same') = Perm-same q d' in (d'', λ k. same k ∙ same' k)

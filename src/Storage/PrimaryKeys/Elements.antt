-- ===== src/Storage/PrimaryKeys/Elements.antt =====
-- A slice of primary keys against a plain list of keys.
use birdwatcher.Base.{
  ℕ, zero, suc, ◌+◌, ◌*◌, ◌%◌, ◌^◌, ◌≡◌, ◌≢◌, ◌⊎◌, refl, sym, ◌∙◌, ap, inl, inr, none, some, List,
  [], ◌∷◌, ◌++◌, map, length, length-map, get_elem?, All, Result, ok, fail, ◌>>=?◌, >>=_of_ok,
  >>=_of_fail, arith,
}
use mathlib.Core.List.{map-append}
use birdwatcher.Base.Int.{ℤ}
use birdwatcher.Base.Perms.{sum_by, sum_by-append}
use birdwatcher.Base.Word.{add64}
use birdwatcher.Storage.PrimaryKey.{PrimaryKey, int64_pk, varchar_pk, DataType, int64, varchar}
use birdwatcher.Storage.PrimaryKey
use birdwatcher.Storage.PrimaryKeys.{
  PrimaryKeys, VarcharPrimaryKeys, int64_pks, varchar_pks, add_lengths, int64_collect,
  varchar_collect, append, get, len, size, type_of, must_merge,
}

-- The keys of a slice, in order.
abbrev pub elements : PrimaryKeys → List PrimaryKey
elements (int64_pks values) = map int64_pk values
elements (varchar_pks held) = map varchar_pk held.values

-- What one key adds to the size: 8 for an integer, its length and 16 for a string.
abbrev pub weight : PrimaryKey → ℕ
weight (int64_pk v) = 8
weight (varchar_pk s) = length s + 16

-- The recorded size is the sum of the weights, as an int64 holds it.
abbrev pub IsSized : PrimaryKeys → Type 0
IsSized pks = size pks ≡ sum_by weight (elements pks) % 2 ^ 64

get_elem?-map {ℓ} :
    {A : Type ℓ} (f : A → PrimaryKey) (xs : List A) (i : ℕ)
    → (get_elem? xs i >>=? λ x. some (f x)) ≡ get_elem? (map f xs) i
get_elem?-map f [] i = refl
get_elem?-map f (x ∷ xs) zero = refl
get_elem?-map f (x ∷ xs) (suc i) = get_elem?-map f xs i

abbrev pub Typed : DataType → List PrimaryKey → Type 0
Typed t = All λ (pk : PrimaryKey). PrimaryKey.type_of pk ≡ t

-- Collecting the values of keys: all of them, or the error at a key of another type.
abbrev Collected {ℓ} :
    {A : Type ℓ}
    → DataType
    → (A → PrimaryKey)
    → List PrimaryKey
    → Result (Unit {0}) (List A)
    → Type ℓ
Collected {A = A} t make pks r =
    ((vs : List A) × (r ≡ ok vs) × (pks ≡ map make vs)) ⊎ ((r ≡ fail tt) × ¬ Typed t pks)

int64_collect-Collected : (pks : List PrimaryKey) → Collected int64 int64_pk pks (int64_collect pks)
unfolding int64_collect
int64_collect-Collected [] = inl ([], refl, refl)
int64_collect-Collected (int64_pk v ∷ pks) = elim (int64_collect-Collected pks) [
  | inl (vs, e, m) ↦ inl (v ∷ vs, >>=_of_ok _ e, ap (◌∷◌ (int64_pk v)) m)
  | inr (e, n) ↦ inr (>>=_of_fail _ e, λ (h, hs). n hs)
]
int64_collect-Collected (varchar_pk s ∷ pks) = inr (refl, λ (h, hs). cc)

varchar_collect-Collected :
    (pks : List PrimaryKey) → Collected varchar varchar_pk pks (varchar_collect pks)
unfolding varchar_collect
varchar_collect-Collected [] = inl ([], refl, refl)
varchar_collect-Collected (int64_pk v ∷ pks) = inr (refl, λ (h, hs). cc)
varchar_collect-Collected (varchar_pk s ∷ pks) = elim (varchar_collect-Collected pks) [
  | inl (ss, e, m) ↦ inl (s ∷ ss, >>=_of_ok _ e, ap (◌∷◌ (varchar_pk s)) m)
  | inr (e, n) ↦ inr (>>=_of_fail _ e, λ (h, hs). n hs)
]

add_lengths-sum_by :
    (t : ℕ) (ss : List (List ℕ))
    → add_lengths (t % 2 ^ 64) ss ≡ (t + sum_by weight (map varchar_pk ss)) % 2 ^ 64
unfolding add_lengths add64
add_lengths-sum_by t [] = omega arith
add_lengths-sum_by t (s ∷ ss) =
    ap (λ (x : ℕ). add_lengths x ss) (omega arith)
    ∙ add_lengths-sum_by (t + (length s + 16)) ss
    ∙ omega arith

sum_by-int64 : (vs : List ℤ) → sum_by weight (map int64_pk vs) ≡ length vs * 8
sum_by-int64 [] = refl
sum_by-int64 (v ∷ vs) = omega (arith, sum_by-int64 vs)

int64-IsSized : (vs : List ℤ) → IsSized (int64_pks vs)
unfolding size
int64-IsSized vs = rw sum_by-int64

-- `held` with `pks` behind its keys.
pub record Extends (held : PrimaryKeys) (pks : List PrimaryKey) (r : PrimaryKeys) : Type 0 where
  pub keys : elements r ≡ elements held ++ pks
  pub same_type : type_of r ≡ type_of held
  pub sized : IsSized held → IsSized r

int64-Extends :
    (values more : List ℤ)
    → Extends (int64_pks values) (map int64_pk more) (int64_pks (values ++ more))
int64-Extends values more = record {
  keys = map-append int64_pk values more;
  same_type = refl;
  sized = λ h. int64-IsSized (values ++ more);
}

varchar-Extends :
    (held : VarcharPrimaryKeys) (more : List (List ℕ)) (size' : ℕ)
    → (IsSized (varchar_pks held)
        → size'
          ≡ (sum_by weight (map varchar_pk held.values) + sum_by weight (map varchar_pk more))
            % 2 ^ 64)
    → Extends
        (varchar_pks held)
        (map varchar_pk more)
        (varchar_pks (record { values = held.values ++ more; size = size' }))
unfolding size
varchar-Extends held more size' count = record {
  keys = map-append varchar_pk held.values more;
  same_type = refl;
  sized = λ h.
      count h
      ∙ rw (
        map-append varchar_pk held.values more,
        sum_by-append weight (map varchar_pk held.values) (map varchar_pk more),
      );
}

-- Append is all or nothing: keys of the type of the slice all join at the end and the size
-- stays right, and a key of another type among them is an error. There is no panic.
pub append_cases :
    (held : PrimaryKeys) (pks : List PrimaryKey)
    → ((r : PrimaryKeys) × (append held pks ≡ ok r) × Extends held pks r)
      ⊎ ((append held pks ≡ fail tt) × ¬ Typed (type_of held) pks)
unfolding append size
append_cases (int64_pks values) pks = elim (int64_collect-Collected pks) [
  | inl (vs, e, m) ↦ inl (int64_pks (values ++ vs), >>=_of_ok _ e, rw m (int64-Extends values vs))
  | inr (e, n) ↦ inr (>>=_of_fail _ e, n)
]
append_cases (varchar_pks held) pks = elim (varchar_collect-Collected pks) [
  | inl (ss, e, m) ↦ inl (
    varchar_pks (record { values = held.values ++ ss; size = add_lengths held.size ss }),
    >>=_of_ok _ e,
    rw m (
        varchar-Extends held ss (add_lengths held.size ss)
          (λ h. ap (λ (x : ℕ). add_lengths x ss) h ∙ add_lengths-sum_by _ ss)),
  )
  | inr (e, n) ↦ inr (>>=_of_fail _ e, n)
]

-- Get reads the key at an index, and panics outside the slice; Len counts the keys.
pub get_lem :
    (pks : PrimaryKeys) (i : ℕ)
    → (get pks i ≡ get_elem? (elements pks) i) × (len pks ≡ length (elements pks))
unfolding get len
get_lem (int64_pks values) i = (get_elem?-map int64_pk values i, sym (length-map values int64_pk))
get_lem (varchar_pks held) i =
    (get_elem?-map varchar_pk held.values i, sym (length-map held.values varchar_pk))

-- MustMerge puts the keys of a slice of the same type behind and keeps the size right, and panics
-- on a slice of another type, where the size of the other slice is right.
pub must_merge_cases :
    (held others : PrimaryKeys)
    → IsSized others
    → ((type_of held ≡ type_of others)
        × ((r : PrimaryKeys) × (must_merge held others ≡ some r)
            × Extends held (elements others) r))
      ⊎ ((type_of held ≢ type_of others) × (must_merge held others ≡ none))
unfolding must_merge size add64
must_merge_cases (int64_pks values) (int64_pks others) s =
    inl (refl, (int64_pks (values ++ others), refl, int64-Extends values others))
must_merge_cases (int64_pks values) (varchar_pks others) s = inr (λ e. cc, refl)
must_merge_cases (varchar_pks held) (int64_pks others) s = inr (λ e. cc, refl)
must_merge_cases (varchar_pks held) (varchar_pks others) s = inl (
  refl,
  (
    _,
    refl,
    varchar-Extends held others.values (add64 held.size others.size) (λ h. omega (arith, h, s)),
  ),
)

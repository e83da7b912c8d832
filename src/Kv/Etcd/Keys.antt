-- ===== src/Kv/Etcd/Keys.antt =====
-- The calls on single keys and on prefixes, read as those of a map.
use birdwatcher.Base.{
  ℕ, ◌≡◌, inl, inr, refl, sym, ◌∙◌, ap, Bool, true, false, not, Bool-cases, Option, none, some,
  List, [], ◌∷◌, length, select, ◌==◌, suc_is_not_zero, if◌then◌else◌, Result, ok, fail, ◌>>=◌,
  >>=_of_ok, arith,
}
use birdwatcher.Base.Text.{same_text, before, has_prefix}
use birdwatcher.Base.Text.Order.{same_text_iff}
use birdwatcher.Kv.Client.{
  Pair, single, with_prefix, whole, Range, covers, put_pair, put_pairs, EtcdClient, IsEtcd, Answers,
  get-answer,
}
use birdwatcher.Kv.Etcd.{
  KvError, key_not_found, attempt, attempt_ok, first_value, full_key, puts, with_slash,
  default_load_option, load, save, multi_save, second, remove, remove_with_prefix,
}

-- The value of a key.
abbrev pub lookup : List ℕ → List Pair → Option (List ℕ)
lookup k [] = none
lookup k (p ∷ ps) = if same_text k p.key then some p.value else lookup k ps

abbrev pub or_not_found : Option (List ℕ) → Result KvError (List ℕ)
or_not_found none = fail key_not_found
or_not_found (some v) = ok v

abbrev found : List Pair → Result KvError (List ℕ)
found ps = if length ps == 0 then fail key_not_found else first_value ps

-- Keys that are the same text give the same test.
same_text-trade : (a b c : List ℕ) → same_text b c ≡ true → same_text a c ≡ same_text a b
same_text-trade a b c e = ap (same_text a) (sym ((same_text_iff b c).0 e))

found-select :
    (k : List ℕ) (ps : List Pair)
    → found (select (λ (p : Pair). same_text k p.key) ps) ≡ or_not_found (lookup k ps)
found-select k [] = refl
found-select k (p ∷ ps) = elim (Bool-cases (same_text k p.key)) [
  | inl e ↦ rw (e, suc_is_not_zero (length (select (λ (q : Pair). same_text k q.key) ps))) refl
  | inr e ↦ rw e (found-select k ps)
]

same_first {ℓ} :
    {A : Type ℓ} (a b : Bool) (x y z : A)
    → a ≡ b
    → (if a then x else z) ≡ (if a then x else (if b then y else z))
same_first true true x y z e = refl
same_first true false x y z e = absurd (cc)
same_first false true x y z e = absurd (cc)
same_first false false x y z e = refl

pub not_both {ℓ} :
    {A : Type ℓ} (a b : Bool) (x y z : A)
    → (a ≡ true → b ≡ false)
    → (if b then y else (if a then x else z)) ≡ (if a then x else (if b then y else z))
not_both true b x y z h = rw (h refl) refl
not_both false b x y z h = refl

pub lookup-put_pair :
    (k k' v : List ℕ) (ps : List Pair)
    → lookup k' (put_pair k v ps) ≡ (if same_text k' k then some v else lookup k' ps)
lookup-put_pair k k' v [] = refl
lookup-put_pair k k' v (p ∷ ps) = elim (Bool-cases (before k p.key)) [
  | inl e ↦ rw e refl
  | inr e ↦ elim (Bool-cases (same_text k p.key)) [
    | inl f ↦
        rw (e, f)
          (same_first (same_text k' k) (same_text k' p.key) (some v) (some p.value) (lookup k' ps)
            (sym (same_text-trade k' k p.key f)))
    | inr f ↦
        rw (e, f, lookup-put_pair k k' v ps)
          (not_both (same_text k' k) (same_text k' p.key) (some v) (some p.value) (lookup k' ps)
            (λ g. ap (λ x. same_text x p.key) ((same_text_iff k' k).0 g) ∙ f))
  ]
]

pub lookup-select :
    (t : List ℕ → Bool) (k : List ℕ) (ps : List Pair)
    → lookup k (select (λ (p : Pair). not (t p.key)) ps) ≡ (if t k then none else lookup k ps)
lookup-select t k [] = ground arith
lookup-select t k (p ∷ ps) = elim (Bool-cases (same_text k p.key)) [
  | inl e ↦ elim (Bool-cases (t p.key)) [
    | inl f ↦ rw (f, lookup-select t k ps, ap t ((same_text_iff k p.key).0 e) ∙ f) refl
    | inr f ↦ rw (f, e, ap t ((same_text_iff k p.key).0 e) ∙ f) refl
  ]
  | inr e ↦ elim (Bool-cases (t p.key)) [
    | inl f ↦ rw (f, e) (lookup-select t k ps)
    | inr f ↦ rw (f, e) (lookup-select t k ps)
  ]
]

-- The value of a key after some puts.
abbrev pub latest : List ℕ → List Pair → Option (List ℕ) → Option (List ℕ)
latest k [] v = v
latest k (q ∷ ops) v = latest k ops (if same_text k q.key then some q.value else v)

pub lookup-put_pairs :
    (k : List ℕ) (ops ps : List Pair) → lookup k (put_pairs ops ps) ≡ latest k ops (lookup k ps)
lookup-put_pairs k [] ps = refl
lookup-put_pairs k (q ∷ ops) ps =
    lookup-put_pairs k ops (put_pair q.key q.value ps)
    ∙ ap (latest k ops) (lookup-put_pair q.key k q.value ps)

pub ok_inj {ℓ} : {A : Type ℓ} {a b : A} → ◌≡◌ {A = Result KvError A} (ok a) (ok b) → a ≡ b
ok_inj e = cc

module _ (C : EtcdClient) (root_path : List ℕ) (E : IsEtcd C) where
  -- The value that a client sees.
  abbrev seen : List ℕ → C.Store → Option (List ℕ)
  seen key s = lookup (full_key C root_path key) (C.pairs s)

  load-lookup :
      (s : C.Store) (key : List ℕ)
      → Answers C s
      → load C root_path key default_load_option s ≡ or_not_found (seen key s)
  unfolding load
  load-lookup s key h =
      rw
        (get-answer C E s h
          (record { key = full_key C root_path key; range = single; limit = 0; content = whole }))
        (found-select (full_key C root_path key) (C.pairs s))

  put_lookup :
      (s t : C.Store) (key v key' : List ℕ)
      → save C root_path key v s ≡ ok t
      → seen key' t ≡ (
          if same_text (full_key C root_path key') (full_key C root_path key)
          then some v
          else seen key' s)
  unfolding save
  put_lookup s t key v key' h =
      ap (lookup (full_key C root_path key'))
        (E.put_lem s t (full_key C root_path key) v (attempt_ok _ h))
      ∙ lookup-put_pair (full_key C root_path key) (full_key C root_path key') v (C.pairs s)

  loads_as :
      (s t : C.Store) (key : List ℕ)
      → Answers C s
      → Answers C t
      → (b : Bool) (o : Option (List ℕ)) → seen key t ≡ (if b then o else seen key s)
      → load C root_path key default_load_option t
        ≡ (if b then or_not_found o else load C root_path key default_load_option s)
  loads_as s t key a c true o e = load-lookup t key c ∙ ap or_not_found e
  loads_as s t key a c false o e =
      load-lookup t key c ∙ ap or_not_found e ∙ sym (load-lookup s key a)

  -- After a save Load gives the saved value for each name of the same key, and for any other
  -- key what it gave before, an error included, where etcd answers before and after.
  pub load-save :
      (s t : C.Store) (key v key' : List ℕ)
      → Answers C s
      → Answers C t
      → save C root_path key v s ≡ ok t
      → load C root_path key' default_load_option t ≡ (
          if same_text (full_key C root_path key') (full_key C root_path key)
          then ok v
          else load C root_path key' default_load_option s)
  load-save s t key v key' a b h = loads_as s t key' a b _ (some v) (put_lookup s t key v key' h)

  delete_lookup :
      (s t : C.Store) (key : List ℕ) (range : Range) (prev : List Pair) (k : List ℕ)
      → C.delete s key range ≡ some (prev, t)
      → lookup k (C.pairs t) ≡ (if covers C.ends key range k then none else lookup k (C.pairs s))
  delete_lookup s t key range prev k h =
      ap (lookup k) ((E.delete_lem s t key range prev h).1)
      ∙ lookup-select (covers C.ends key range) k (C.pairs s)

  pub second_ok :
      (o : Option (List Pair × C.Store)) (t : C.Store)
      → (attempt o >>= second C root_path) ≡ ok t
      → (prev : List Pair) × (o ≡ some (prev, t))
  second_ok none t h = absurd (cc)
  second_ok (some (prev, u)) t h = (prev, ap (λ x. some (prev, x)) (ok_inj h))

  -- A removed key is not found any more, nor is, after the removal of a prefix, a key under the
  -- prefix with a slash. Load gives for other keys what it gave before, where etcd answers
  -- before and after.
  pub load-remove :
      (s t u : C.Store) (key prefix key' : List ℕ)
      → Answers C s
      → Answers C t
      → Answers C u
      → remove C root_path key s ≡ ok t
      → remove_with_prefix C root_path prefix s ≡ ok u
      → (load C root_path key' default_load_option t ≡ (
          if same_text (full_key C root_path key) (full_key C root_path key')
          then fail key_not_found
          else load C root_path key' default_load_option s))
        × (load C root_path key' default_load_option u ≡ (
            if has_prefix
              (with_slash C root_path (full_key C root_path prefix))
              (full_key C root_path key')
            then fail key_not_found
            else load C root_path key' default_load_option s))
  unfolding remove remove_with_prefix
  load-remove s t u key prefix key' a b c h k =
      let (prev, e) = second_ok _ t h in
      let (prev2, f) = second_ok _ u k in
      (
        loads_as s t key' a b _ none (
            delete_lookup s t (full_key C root_path key) single prev (full_key C root_path key') e),
        loads_as s u key' a c _ none (
            delete_lookup s u (with_slash C root_path (full_key C root_path prefix)) with_prefix
              prev2 (full_key C root_path key') f),
      )

  -- MultiSave takes the keys as they are: a key has the value of its last put, or the one it had.
  pub load-multi_save :
      (s t : C.Store) (keys values : List (List ℕ)) (ops : List Pair) (key : List ℕ)
      → Answers C t
      → puts keys values ≡ ok ops
      → multi_save C root_path keys values s ≡ ok t
      → load C root_path key default_load_option t
        ≡ or_not_found (latest (full_key C root_path key) ops (seen key s))
  unfolding multi_save
  load-multi_save s t keys values ops key a e h =
      load-lookup t key a
      ∙ ap or_not_found (
          ap (lookup (full_key C root_path key))
            (E.put_all_lem s t ops (attempt_ok _ (sym (>>=_of_ok _ e) ∙ h)))
          ∙ lookup-put_pairs (full_key C root_path key) ops (C.pairs s))

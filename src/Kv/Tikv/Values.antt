-- ===== src/Kv/Tikv/Values.antt =====
-- Values of TiKV, and the walk over them.
use birdwatcher.Base.{
  ℕ, ◌≡◌, ◌⊎◌, inl, inr, refl, sym, some-inj, ◌∙◌, ap, true, Bool-cases, some, List, [], ◌∷◌,
  length, select, suc_is_not_zero, if◌then◌else◌, All-every, Result, ok, fail, >>=_ok,
}
use birdwatcher.Base.Text.{same_text, at_least, has_prefix, is_nonempty}
use birdwatcher.Base.Text.Order.{same_text_iff, same_text_self, has_prefix-at_least}
use birdwatcher.Kv.Client.{Pair}
use birdwatcher.Kv.Client.Pairs.{select-agree}
use birdwatcher.Kv.Client.Pages.{prefix_test}
use birdwatcher.Kv.Paths.{path_join}
use birdwatcher.Kv.Etcd.{KvError, reserved_value, attempt_ok, run_callback}
use birdwatcher.Kv.Etcd.Keys.{lookup, lookup-put_pair}
use birdwatcher.Kv.Tikv.{
  TikvClient, IsTikv, empty_value_string, is_empty_byte, convert_empty_byte_to_string,
  convert_empty_string_to_byte, converted, tikv_key, under, tikv_load, tikv_save,
  tikv_walk_with_prefix,
}

-- Any value but the reserved one is stored as a value that is not empty, and read back as it was.
pub convert_empty_string_to_byte_lem :
    (value : List ℕ)
    → ((value ≡ empty_value_string) × (convert_empty_string_to_byte value ≡ fail reserved_value))
      ⊎ ((bytes : List ℕ) × (convert_empty_string_to_byte value ≡ ok bytes)
          × (is_nonempty bytes ≡ true)
          × (convert_empty_byte_to_string bytes ≡ value))
unfolding convert_empty_string_to_byte convert_empty_byte_to_string is_empty_byte
convert_empty_string_to_byte_lem [] = inr (empty_value_string, refl, refl, refl)
convert_empty_string_to_byte_lem (c ∷ cs) =
    elim (Bool-cases (same_text (c ∷ cs) empty_value_string)) [
      | inl e ↦ inl (
        (same_text_iff (c ∷ cs) empty_value_string).0 e,
        rw (suc_is_not_zero (length cs), e) refl,
      )
      | inr e ↦ inr (c ∷ cs, rw (suc_is_not_zero (length cs), e) refl, refl, rw e refl)
    ]

stored_is : {r : Result KvError (List ℕ)} {x y : List ℕ} → r ≡ ok x → r ≡ ok y → x ≡ y
stored_is e f = cc

read_back :
    (value stored : List ℕ)
    → convert_empty_string_to_byte value ≡ ok stored
    → convert_empty_byte_to_string stored ≡ value
read_back value stored c = elim (convert_empty_string_to_byte_lem value) [
  | inl (e, f) ↦ absurd (cc (c, f))
  | inr (bytes, f, n, b) ↦ ap convert_empty_byte_to_string (stored_is c f) ∙ b
]

module _ (C : TikvClient) (root_path : List ℕ) (E : IsTikv C) where
  -- A value that is saved in TiKV is loaded again as it was, the empty one too, where the
  -- client finds the key.
  pub tikv_load-save :
      (s t : C.Store) (key value bytes : List ℕ)
      → tikv_save C root_path key value s ≡ ok t
      → C.get t (tikv_key C root_path key) ≡ some bytes
      → tikv_load C root_path key t ≡ ok value
  unfolding tikv_load tikv_save
  tikv_load-save s t key value bytes h g =
      let (stored, c, e) = >>=_ok (convert_empty_string_to_byte value) _ h in
      let put = E.set_lem s t (tikv_key C root_path key) stored (attempt_ok _ e) in
      let found =
        sym (E.get_lem t (tikv_key C root_path key) bytes g)
        ∙ ap (lookup (tikv_key C root_path key)) put
        ∙ lookup-put_pair (tikv_key C root_path key) (tikv_key C root_path key) stored
            (C.pairs s) in
      rw g (
        ap ok (
          ap convert_empty_byte_to_string (
            some-inj (
              found
              ∙ ap (λ b. if b then some stored else lookup (tikv_key C root_path key) (C.pairs s))
                  (same_text_self (tikv_key C root_path key))))
          ∙ read_back value stored c))

  -- The walk gives the callback each pair under the prefix, in order, with its own value.
  pub tikv_walk_with_prefix_pairs {ℓ} :
      {A : Type ℓ} (fn : A → Pair → Result KvError A) (prefix : List ℕ) (s : C.Store)
      (ps : List Pair) (a : A)
      → C.iter s (under C root_path (path_join (root_path ∷ prefix ∷ []))) ≡ some ps
      → tikv_walk_with_prefix C root_path fn prefix s a
        ≡ run_callback fn
            (converted (
              select
                (λ (p : Pair). has_prefix (path_join (root_path ∷ prefix ∷ [])) p.key)
                (C.pairs s)))
            a
  unfolding tikv_walk_with_prefix
  tikv_walk_with_prefix_pairs fn prefix s ps a h = rw h (
      ap (λ qs. run_callback fn (converted qs) a)
        (E.iter_lem s _ ps h
          ∙ select-agree _ _ (C.pairs s) (
              All-every
                (λ (x : Pair).
                  prefix_test (at_least x.key (path_join (root_path ∷ prefix ∷ []))) _
                    (has_prefix (path_join (root_path ∷ prefix ∷ [])) x.key)
                    (C.ends.before_end_lem (path_join (root_path ∷ prefix ∷ [])) x.key)
                    (has_prefix-at_least (path_join (root_path ∷ prefix ∷ [])) x.key))
                (C.pairs s))))

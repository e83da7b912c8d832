-- ===== src/Kv/Audit/Undo.antt =====
-- The log of a removal has what was removed.
use mathlib.Core.Path.{subst}
use mathlib.Core.List.{append_assoc, append-nil}
use birdwatcher.Base.{
  ℕ, ◌≡◌, inl, inr, refl, sym, ◌∙◌, ap, Bool, true, false, Bool-cases, Option, none, some, List, [],
  ◌∷◌, ◌++◌, select, if◌then◌else◌, Result, ok, fail, panic, >>=_ok, arith,
}
use birdwatcher.Base.Text.{same_text, has_prefix, ends_with}
use birdwatcher.Base.Text.Order.{same_text_iff}
use birdwatcher.Kv.Client.{Pair, with_prefix, whole, in_range, put_pairs, EtcdClient, IsEtcd}
use birdwatcher.Kv.Client.Pairs.{Sorted-select}
use birdwatcher.Kv.Paths.{slash}
use birdwatcher.Kv.Etcd.{
  KvError, attempt, attempt_ok, keys_of, values_of, full_key, with_slash, default_load_option,
  load_with_prefix, remove_with_prefix,
}
use birdwatcher.Kv.Etcd.Keys.{lookup, lookup-put_pairs, lookup-select, second_ok, ok_inj}
use birdwatcher.Kv.Restore.Orders.{Sorted-Distinct, or_else, latest-lookup}
use birdwatcher.Kv.Audit.{
  MetaKv, etcd_kv, AuditMessage, audit_header, audit_entry, op_del, load_and_remove_with_prefix,
  audit_entries, audit_remove_with_prefix,
}

-- The entries that follow a header, read from a log.
abbrev pub logged : List AuditMessage → List Pair
logged [] = []
logged (audit_header op n ∷ ms) = logged ms
logged (audit_entry k v ∷ ms) = record { key = k; value = v } ∷ logged ms

abbrev entries : List Pair → List AuditMessage
entries [] = []
entries (p ∷ ps) = audit_entry p.key p.value ∷ entries ps

logged-entries : (ps : List Pair) → logged (entries ps) ≡ ps
logged-entries [] = refl
logged-entries (p ∷ ps) = ap (◌∷◌ p) (logged-entries ps)

audit_entries_all :
    (M : MetaKv) (ps : List Pair) (t : M.Store) (log : List AuditMessage)
    → audit_entries M (keys_of ps) (values_of ps) t log
      ≡ record { log = log ++ entries ps; result = ok t }
unfolding audit_entries
audit_entries_all M [] t log = ap (λ l. record { log = l; result = ok t }) (sym (append-nil log))
audit_entries_all M (p ∷ ps) t log =
    audit_entries_all M ps t (log ++ (audit_entry p.key p.value ∷ []))
    ∙ ap (λ l. record { log = l; result = ok t })
        (append_assoc log (audit_entry p.key p.value ∷ []) (entries ps))

lookup-in_select :
    (c : List ℕ → Bool) (k : List ℕ) (ps : List Pair)
    → lookup k (select (λ (p : Pair). c p.key) ps) ≡ (if c k then lookup k ps else none)
lookup-in_select c k [] = ground arith
lookup-in_select c k (p ∷ ps) = elim (Bool-cases (same_text k p.key)) [
  | inl e ↦ elim (Bool-cases (c p.key)) [
    | inl f ↦ rw (f, e, ap c ((same_text_iff k p.key).0 e) ∙ f) refl
    | inr f ↦ rw (f, lookup-in_select c k ps, ap c ((same_text_iff k p.key).0 e) ∙ f) refl
  ]
  | inr e ↦ elim (Bool-cases (c p.key)) [
    | inl f ↦ rw (f, e) (lookup-in_select c k ps)
    | inr f ↦ rw (f, e) (lookup-in_select c k ps)
  ]
]

-- What is under the prefix with a slash is under the prefix.
has_prefix-append : (p q k : List ℕ) → has_prefix (p ++ q) k ≡ true → has_prefix p k ≡ true
has_prefix-append [] q k h = refl
has_prefix-append (c ∷ p) q [] h = absurd (cc)
has_prefix-append (c ∷ p) q (d ∷ k) h = ground (arith, has_prefix-append p q k)

put_back :
    (a b : Bool) (o : Option (List ℕ))
    → (b ≡ true → a ≡ true)
    → or_else (if a then o else none) (if b then none else o) ≡ o
put_back true true none h = refl
put_back true true (some v) h = refl
put_back true false none h = refl
put_back true false (some v) h = refl
put_back false true o h = absurd (cc (h refl))
put_back false false o h = refl

abbrev Removed : (M : MetaKv) → List ℕ → M.Store → List AuditMessage → Type 0
Removed M key s log =
    (x : (List (List ℕ) × List (List ℕ)) × M.Store) × (load_and_remove_with_prefix M key s ≡ ok x)
    × (audit_remove_with_prefix M key s log
        ≡ audit_entries M x.0.0 x.0.1 x.1 (log ++ (audit_header op_del 1 ∷ [])))

not_fail {ℓ} : {A : Type ℓ} {a : A} {e : KvError} → ¬ (◌≡◌ {A = Result KvError A} (fail e) (ok a))
not_fail h = cc

not_panic {ℓ} : {A : Type ℓ} {a : A} → ¬ (◌≡◌ {A = Result KvError A} panic (ok a))
not_panic h = cc

result_fail :
    (M : MetaKv) (key : List ℕ) (s : M.Store) (log : List AuditMessage) (err : KvError)
    → load_and_remove_with_prefix M key s ≡ fail err
    → (audit_remove_with_prefix M key s log).result ≡ fail err
unfolding audit_remove_with_prefix
result_fail M key s log err e = rw (e, audit_remove_with_prefix) refl

result_panic :
    (M : MetaKv) (key : List ℕ) (s : M.Store) (log : List AuditMessage)
    → load_and_remove_with_prefix M key s ≡ panic
    → (audit_remove_with_prefix M key s log).result ≡ panic
unfolding audit_remove_with_prefix
result_panic M key s log e = rw (e, audit_remove_with_prefix) refl

removal_ok :
    (M : MetaKv) (key : List ℕ) (s t : M.Store) (log : List AuditMessage)
    (r : Result KvError ((List (List ℕ) × List (List ℕ)) × M.Store))
    → load_and_remove_with_prefix M key s ≡ r
    → (audit_remove_with_prefix M key s log).result ≡ ok t
    → Removed M key s log
unfolding audit_remove_with_prefix
removal_ok M key s t log (ok x) e h = (x, e, rw (e, audit_remove_with_prefix) refl)
removal_ok M key s t log (fail err) e h =
    absurd (not_fail (sym (result_fail M key s log err e) ∙ h))
removal_ok M key s t log panic e h = absurd (not_panic (sym (result_panic M key s log e) ∙ h))

module _ (C : EtcdClient) (root_path : List ℕ) (E : IsEtcd C) where
  loaded_ok :
      (s u : C.Store) (key : List ℕ) (kvs : List (List ℕ) × List (List ℕ))
      → load_and_remove_with_prefix (etcd_kv C root_path) key s ≡ ok (kvs, u)
      → (kvs ≡ (
        keys_of (in_range C.ends (full_key C root_path key) with_prefix (C.pairs s)),
        values_of (in_range C.ends (full_key C root_path key) with_prefix (C.pairs s)),
      ))
        × (remove_with_prefix C root_path key s ≡ ok u)
  unfolding load_and_remove_with_prefix load_with_prefix
  loaded_ok s u key kvs h =
      let (kv0, a, rest) = >>=_ok (load_with_prefix C root_path key default_load_option s) _ h in
      let (u0, b, c) = >>=_ok (remove_with_prefix C root_path key s) _ rest in
      let (resp, g, k) =
        >>=_ok
          (attempt (
            C.get s (record {
              key = full_key C root_path key;
              range = with_prefix;
              limit = 0;
              content = whole;
            })))
          _ a in
      let answered = E.get_lem s _ resp (attempt_ok _ g) in
      (
        sym (ap (λ x. x.0) (ok_inj c))
            ∙ sym (ok_inj k)
            ∙ ap (λ r. (keys_of r.kvs, values_of r.kvs)) answered,
        b ∙ ap ok (ap (λ x. x.1) (ok_inj c)),
      )

  with_slash_under :
      (key k : List ℕ) → has_prefix (with_slash C root_path key) k ≡ true → has_prefix key k ≡ true
  with_slash_under key k h = elim (Bool-cases (ends_with slash key)) [
    | inl e ↦ subst (λ b. has_prefix (if b then key else key ++ (slash ∷ [])) k ≡ true) e h
    | inr e ↦
        has_prefix-append key (slash ∷ []) k
          (subst (λ b. has_prefix (if b then key else key ++ (slash ∷ [])) k ≡ true) e h)
  ]

  undo_lookup :
      (s t : C.Store) (key k : List ℕ)
      → remove_with_prefix C root_path key s ≡ ok t
      → lookup k (
          put_pairs
            (in_range C.ends (full_key C root_path key) with_prefix (C.pairs s))
            (C.pairs t))
        ≡ lookup k (C.pairs s)
  unfolding remove_with_prefix
  undo_lookup s t key k r =
      let full = full_key C root_path key in
      let ps = in_range C.ends full with_prefix (C.pairs s) in
      let (prev, d) = second_ok C root_path E _ t r in
      lookup-put_pairs k ps (C.pairs t)
      ∙ latest-lookup k ps (lookup k (C.pairs t))
          (Sorted-Distinct ps (Sorted-select _ (C.pairs s) (E.pairs-Sorted s)))
      ∙ ap (λ o. or_else o (lookup k (C.pairs t)))
          (lookup-in_select (has_prefix full) k (C.pairs s))
      ∙ ap (or_else (if has_prefix full k then lookup k (C.pairs s) else none)) (
          ap (lookup k) (E.delete_lem s t (with_slash C root_path full) with_prefix prev d).1
          ∙ lookup-select (has_prefix (with_slash C root_path full)) k (C.pairs s))
      ∙ put_back (has_prefix full k) (has_prefix (with_slash C root_path full) k)
          (lookup k (C.pairs s)) (with_slash_under full k)

  -- When a logged removal of a prefix from etcd succeeds, the entries that it adds to the log,
  -- put back, give each key the value it had before.
  pub audit_remove_with_prefix-undo :
      (s t : C.Store) (key : List ℕ) (log : List AuditMessage)
      → (audit_remove_with_prefix (etcd_kv C root_path) key s log).result ≡ ok t
      → (ms : List AuditMessage) × ((audit_remove_with_prefix (etcd_kv C root_path) key s log).log
          ≡ log ++ ms)
        × ((k : List ℕ) → lookup k (put_pairs (logged ms) (C.pairs t)) ≡ lookup k (C.pairs s))
  audit_remove_with_prefix-undo s t key log h =
      let (((keys, values), u), e, f) = removal_ok (etcd_kv C root_path) key s t log _ refl h in
      let (g, r) = loaded_ok s u key (keys, values) e in
      let ps = in_range C.ends (full_key C root_path key) with_prefix (C.pairs s) in
      let all =
        f
        ∙ ap
            (λ x.
              audit_entries (etcd_kv C root_path) x.0 x.1 u (log ++ (audit_header op_del 1 ∷ [])))
            g
        ∙ audit_entries_all (etcd_kv C root_path) ps u (log ++ (audit_header op_del 1 ∷ [])) in
      (
        audit_header op_del 1 ∷ entries ps,
        ap (λ x. x.log) all ∙ append_assoc log (audit_header op_del 1 ∷ []) (entries ps),
        λ k.
            ap (λ qs. lookup k (put_pairs qs (C.pairs t))) (logged-entries ps)
            ∙ undo_lookup s t key k (r ∙ ap ok (ok_inj (sym (ap (λ x. x.result) all) ∙ h))),
      )

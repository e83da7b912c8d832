-- ===== src/Kv/Backup/Endless.antt =====
-- A backup of keys behind which others stand.
use mathlib.Core.Path.{subst}
use birdwatcher.Base.{
  ℕ, zero, suc, ◌≡◌, ◌⊎◌, inl, inr, refl, sym, ◌∙◌, ap, Bool, true, false, not, ◌&&◌, ◌||◌,
  Bool-cases, List, [], ◌∷◌, ◌++◌, length, select, ◌==◌, suc_is_not_zero, Result, ok, panic, ◌>>=◌,
  >>=_ok, arith,
}
use birdwatcher.Base.Perms.{any_of}
use birdwatcher.Base.Text.{before, at_least, has_prefix}
use birdwatcher.Base.Text.Order.{at_least-successor}
use birdwatcher.Kv.Client.{
  Pair, with_prefix, from_key, whole, count_only, Response, EtcdClient, IsEtcd,
}
use birdwatcher.Kv.Paths.{join_path}
use birdwatcher.Kv.Etcd.{KvError, attempt, attempt_ok}
use birdwatcher.Kv.Backup.{
  write_backup_bytes, Codec, marshalled, backup_meta, backup_page, backup_turn, backup_loop,
  backup_kv,
}

-- A key that is not under a prefix and not before it comes behind all that are under it.
before_other :
    (prefix x k : List ℕ)
    → has_prefix prefix x ≡ true
    → at_least k prefix ≡ true
    → has_prefix prefix k ≡ false
    → before x k ≡ true
before_other [] x k h a n = absurd (cc)
before_other (c ∷ prefix) [] k h a n = absurd (cc)
before_other (c ∷ prefix) (x ∷ xs) [] h a n = absurd (cc)
before_other (c ∷ prefix) (x ∷ xs) (y ∷ ys) h a n = ground (arith, before_other prefix xs ys)

-- Whether a key that is not under the prefix comes behind it.
abbrev pub is_beyond : List ℕ → Pair → Bool
is_beyond prefix p = at_least p.key prefix && not (has_prefix prefix p.key)

beyond_both : (a b : Bool) → (a && not b) ≡ true → (a ≡ true) × (b ≡ false)
beyond_both true true h = absurd (cc)
beyond_both true false h = (refl, refl)
beyond_both false b h = absurd (cc)

ok_current :
    {w w' k k' : List ℕ} {n n' : ℕ}
    → ◌≡◌ {A = Result KvError (List ℕ × (List ℕ × ℕ))} (ok (w, (k, n))) (ok (w', (k', n')))
    → k ≡ k'
ok_current e = cc

module _ (prefix : List ℕ) where
  -- A key that the loop goes on from.
  abbrev IsCurrent : List ℕ → Type 0
  IsCurrent current =
      (current ≡ prefix) ⊎ ((x : List ℕ) × (has_prefix prefix x ≡ true) × (current ≡ x ++ (0 ∷ [])))

  still_there :
      (current : List ℕ) (p : Pair)
      → IsCurrent current
      → is_beyond prefix p ≡ true
      → at_least p.key current ≡ true
  still_there current p (inl e) h = ap (at_least p.key) e ∙ (beyond_both _ _ h).0
  still_there current p (inr (x, a, e)) h =
      let (b, n) = beyond_both _ _ h in
      ap (at_least p.key) e ∙ at_least-successor x p.key ∙ before_other prefix x p.key a b n

  count_nonzero :
      (current : List ℕ) (ps : List Pair)
      → IsCurrent current
      → any_of (is_beyond prefix) ps ≡ true
      → (length (select (λ (p : Pair). at_least p.key current) ps) == 0) ≡ false
  count_nonzero current [] c h = absurd (cc)
  count_nonzero current (p ∷ ps) c h = elim (Bool-cases (at_least p.key current)) [
    | inl e ↦ rw e (suc_is_not_zero (length (select (λ (q : Pair). at_least q.key current) ps)))
    | inr e ↦ elim (Bool-cases (is_beyond prefix p)) [
      | inl f ↦ absurd (cc (e, still_there current p c f))
      | inr f ↦
          rw e (
            count_nonzero current ps c
              (subst (λ b. (b || any_of (is_beyond prefix) ps) ≡ true) f h))
    ]
  ]

  module _ (codec : Codec) where
    page_in :
        (p : Pair) (ps : List Pair) (w current : List ℕ) (valid : ℕ)
        → has_prefix prefix p.key ≡ true
        → backup_page codec prefix (p ∷ ps) w current valid ≡ (
            marshalled (codec.marshal p) >>= λ bs.
            backup_page codec prefix ps (write_backup_bytes w bs) (p.key ++ (0 ∷ [])) (suc valid))
    unfolding backup_page
    page_in p ps w current valid h = rw (h, backup_page) refl

    page_out :
        (p : Pair) (ps : List Pair) (w current : List ℕ) (valid : ℕ)
        → has_prefix prefix p.key ≡ false
        → backup_page codec prefix (p ∷ ps) w current valid
          ≡ backup_page codec prefix ps w current valid
    unfolding backup_page
    page_out p ps w current valid h = rw (h, backup_page) refl

    backup_page-IsCurrent :
        (ps : List Pair) (w current : List ℕ) (valid : ℕ) (w' current' : List ℕ) (valid' : ℕ)
        → backup_page codec prefix ps w current valid ≡ ok (w', (current', valid'))
        → IsCurrent current
        → IsCurrent current'
    unfolding backup_page
    backup_page-IsCurrent [] w current valid w' current' valid' e c =
        subst IsCurrent (ok_current e) c
    backup_page-IsCurrent (p ∷ ps) w current valid w' current' valid' e c =
        elim (Bool-cases (has_prefix prefix p.key)) [
          | inl h ↦
              let (bs, m, f) =
                >>=_ok (marshalled (codec.marshal p)) _
                  (sym (page_in p ps w current valid h) ∙ e) in
              backup_page-IsCurrent ps (write_backup_bytes w bs) (p.key ++ (0 ∷ [])) (suc valid) w'
                current' valid' f (inr (p.key, h, refl))
          | inr h ↦
              backup_page-IsCurrent ps w current valid w' current' valid'
                (sym (page_out p ps w current valid h) ∙ e) c
        ]

    abbrev after_page :
        (List ℕ → List ℕ → Result KvError (List ℕ))
        → ℕ
        → List ℕ × (List ℕ × ℕ)
        → Result KvError (List ℕ)
    after_page next cnt (w, (current, valid)) = elim (cnt == 0) [
      | true ↦ panic
      | false ↦ next w current
    ]

    turn_page :
        (next : List ℕ → List ℕ → Result KvError (List ℕ)) (cnt : ℕ) (resp : Response)
        (w current : List ℕ)
        → (resp.count == 0) ≡ false
        → backup_turn codec next prefix cnt resp w current
          ≡ (backup_page codec prefix resp.kvs w current 0 >>= after_page next cnt)
    unfolding backup_turn
    turn_page next cnt resp w current n = rw (n, backup_turn) refl

    after_page_panic :
        (next : List ℕ → List ℕ → Result KvError (List ℕ)) (cnt : ℕ) (x : List ℕ × (List ℕ × ℕ))
        → (cnt == 0) ≡ true
        → after_page next cnt x ≡ panic
    after_page_panic next cnt x z = rw (z, after_page) refl

    after_page_next :
        (next : List ℕ → List ℕ → Result KvError (List ℕ)) (cnt : ℕ) (x : List ℕ × (List ℕ × ℕ))
        → (cnt == 0) ≡ false
        → after_page next cnt x ≡ next x.0 x.1.0
    after_page_next next cnt x z = rw (z, after_page) refl

    after_page_ok :
        (next : List ℕ → List ℕ → Result KvError (List ℕ)) (cnt : ℕ) (x : List ℕ × (List ℕ × ℕ))
        (out : List ℕ)
        → after_page next cnt x ≡ ok out
        → next x.0 x.1.0 ≡ ok out
    after_page_ok next cnt x out e = elim (Bool-cases (cnt == 0)) [
      | inl z ↦ absurd (cc (after_page_panic next cnt x z, e))
      | inr z ↦ sym (after_page_next next cnt x z) ∙ e
    ]

    module _ (C : EtcdClient) (E : IsEtcd C) (s : C.Store)
        (there : any_of (is_beyond prefix) (C.pairs s) ≡ true) where
      backup_loop_endless :
          (fuel batch_size cnt : ℕ) (w current out : List ℕ)
          → IsCurrent current
          → ¬ (backup_loop codec C fuel prefix batch_size cnt w current s ≡ ok out)
      unfolding backup_loop
      backup_loop_endless zero batch_size cnt w current out c e = absurd (cc)
      backup_loop_endless (suc fuel) batch_size cnt w current out c e =
          let (resp, a, t) =
            >>=_ok
              (attempt (
                C.get s (record {
                  key = current;
                  range = from_key;
                  limit = batch_size;
                  content = whole;
                })))
              _ e in
          let answered = E.get_lem s _ resp (attempt_ok _ a) in
          let n = ap (λ r. r.count == 0) answered ∙ count_nonzero current (C.pairs s) c there in
          let (x, page, f) =
            >>=_ok (backup_page codec prefix resp.kvs w current 0)
              (after_page (λ w current. backup_loop codec C fuel prefix batch_size cnt w current s)
                cnt)
              (sym (
                  turn_page
                    (λ w current. backup_loop codec C fuel prefix batch_size cnt w current s) cnt
                    resp w current n)
                ∙ t) in
          backup_loop_endless fuel batch_size cnt x.0 x.1.0 out
            (backup_page-IsCurrent resp.kvs w current 0 x.0 x.1.0 x.1.1 page c)
            (after_page_ok (λ w current. backup_loop codec C fuel prefix batch_size cnt w current s)
              cnt x out f)

-- A backup of etcd never returns successfully when a key comes behind the prefix that is not
-- under it, however long it runs.
pub backup_kv_endless :
    (codec : Codec) (C : EtcdClient) (E : IsEtcd C) (s : C.Store) (fuel batch_size : ℕ)
    (base key w out : List ℕ)
    → any_of (is_beyond (join_path (base ∷ key ∷ []))) (C.pairs s) ≡ true
    → ¬ (backup_kv codec C fuel base key batch_size w s ≡ ok out)
unfolding backup_kv
backup_kv_endless codec C E s fuel batch_size base key w out there e =
    let (resp, a, t) =
      >>=_ok
        (attempt (
          C.get s (record {
            key = join_path (base ∷ key ∷ []);
            range = with_prefix;
            limit = 0;
            content = count_only;
          })))
        _ e in
    let (bs, m, u) = >>=_ok (marshalled (codec.marshal_header (backup_meta resp.count base))) _ t in
    let (written, l, v) =
      >>=_ok
        (backup_loop codec C fuel (join_path (base ∷ key ∷ [])) batch_size resp.count
          (write_backup_bytes w bs) (join_path (base ∷ key ∷ [])) s)
        _ u in
    backup_loop_endless (join_path (base ∷ key ∷ [])) codec C E s there fuel batch_size resp.count
      (write_backup_bytes w bs) (join_path (base ∷ key ∷ [])) written (inl refl) l

-- ===== src/Kv/Backup/Complete.antt =====
-- A backup of the last keys of a store has all of them.
use mathlib.Core.Path.{subst}
use mathlib.Core.List.{append_assoc, append-nil}
use birdwatcher.Base.{
  ℕ, zero, suc, ◌+◌, ◌<◌, ◌≡◌, inl, inr, refl, sym, ◌∙◌, ap, Bool, true, false, Bool-cases, some,
  List, [], ◌∷◌, ◌++◌, length, select, lt→ltb, ◌==◌, suc_is_not_zero, if◌then◌else◌, All, Result,
  ok, arith,
}
use birdwatcher.Base.Perms.{All-left, All-right}
use birdwatcher.Base.Text.{at_least, has_prefix}
use birdwatcher.Base.Text.Order.{has_prefix-at_least}
use birdwatcher.Binlog.Bytes.{put_little_endian}
use birdwatcher.Kv.Client.{
  Pair, with_prefix, from_key, whole, count_only, limited, in_range, RangeEnd, Request, Response,
  EtcdClient, IsEtcd, answer, Answers, get-answer,
}
use birdwatcher.Kv.Client.Pairs.{last_key, length-select, list_cases}
use birdwatcher.Kv.Client.Pages.{first_page, behind_page}
use birdwatcher.Kv.Paths.{join_path}
use birdwatcher.Kv.Etcd.{KvError}
use birdwatcher.Kv.Backup.{
  write_backup_bytes, Codec, backup_meta, backup_page, backup_turn, backup_loop, backup_kv,
}

-- A length and as many bytes.
unfoldable pub frame : List ℕ → List ℕ
unfolding put_little_endian
frame bs = put_little_endian 8 (length bs) ++ bs

abbrev pub frames : (Pair → List ℕ) → List Pair → List ℕ
frames f [] = []
frames f (p ∷ ps) = frame (f p) ++ frames f ps

pub write_backup_bytes-frame : (w bs : List ℕ) → write_backup_bytes w bs ≡ w ++ frame bs
unfolding write_backup_bytes frame
write_backup_bytes-frame w [] = ap (λ x. w ++ x) (sym (append-nil _))
write_backup_bytes-frame w (b ∷ bs) =
    rw (lt→ltb 0 (suc (length bs)) (omega arith))
      (append_assoc w (put_little_endian 8 (suc (length bs))) (b ∷ bs))

abbrev next : List ℕ → List Pair → List ℕ
next current [] = current
next current (p ∷ ps) = last_key p ps ++ (0 ∷ [])

next-cons : (p : Pair) (ps : List Pair) → next (p.key ++ (0 ∷ [])) ps ≡ last_key p ps ++ (0 ∷ [])
next-cons p [] = refl
next-cons p (q ∷ ps) = refl

-- What is counted is not nothing when there are pairs.
counted :
    (cnt : ℕ) (p : Pair) (ps qs : List Pair)
    → ((cnt ≡ 0) → ps ≡ [])
    → ps ≡ p ∷ qs
    → (cnt == 0) ≡ false
counted zero p ps qs z e = absurd (cc (z refl, e))
counted (suc n) p ps qs z e = suc_is_not_zero n

nonempty : (p : Pair) (ps qs : List Pair) → ps ≡ p ∷ qs → (length ps == 0) ≡ false
nonempty p ps qs e = rw e (suc_is_not_zero (length qs))

length_zero : (ps : List Pair) → length ps ≡ 0 → ps ≡ []
length_zero [] e = refl
length_zero (p ∷ ps) e = absurd (omega (arith, e))

contra : (a b : Bool) → (a ≡ true → b ≡ true) → b ≡ false → a ≡ false
contra true b h e = absurd (cc (h refl, e))
contra false b h e = refl

frames-append :
    (f : Pair → List ℕ) (ps qs : List Pair) → frames f (ps ++ qs) ≡ frames f ps ++ frames f qs
frames-append f [] qs = refl
frames-append f (p ∷ ps) qs =
    ap (λ x. frame (f p) ++ x) (frames-append f ps qs)
    ∙ sym (append_assoc (frame (f p)) (frames f ps) (frames f qs))

written_on :
    (f : Pair → List ℕ) (w : List ℕ) (p : Pair) (xs ys qs behind : List Pair)
    → qs ≡ xs ++ ys
    → behind ≡ ys
    → (w ++ frames f (p ∷ xs)) ++ frames f behind ≡ w ++ frames f (p ∷ qs)
written_on f w p xs ys qs behind e b =
    ap (λ zs. (w ++ frames f (p ∷ xs)) ++ frames f zs) b
    ∙ append_assoc w (frames f (p ∷ xs)) (frames f ys)
    ∙ ap (λ x. w ++ x) (sym (frames-append f (p ∷ xs) ys) ∙ ap (λ zs. frames f (p ∷ zs)) (sym e))

page_ok :
    {w w' k k' : List ℕ} {n n' : ℕ}
    → w ≡ w'
    → k ≡ k'
    → n ≡ n'
    → ◌≡◌ {A = Result KvError (List ℕ × (List ℕ × ℕ))} (ok (w, (k, n))) (ok (w', (k', n')))
page_ok a b c = rw (a, b, c) refl

module _ (codec : Codec) (bytes_of : Pair → List ℕ) (prefix : List ℕ) where
  -- A pair that is under the prefix, and can be written.
  abbrev pub IsWritten : Pair → Type 0
  IsWritten p = (has_prefix prefix p.key ≡ true) × (codec.marshal p ≡ some (bytes_of p))

  backup_page_whole :
      (ps : List Pair) (w current : List ℕ) (valid : ℕ)
      → All IsWritten ps
      → backup_page codec prefix ps w current valid
        ≡ ok (w ++ frames bytes_of ps, (next current ps, valid + length ps))
  unfolding backup_page
  backup_page_whole [] w current valid h = page_ok (sym (append-nil w)) refl (omega arith)
  backup_page_whole (p ∷ ps) w current valid ((h, k), hs) =
      rw (h, backup_page, k, write_backup_bytes-frame w (bytes_of p))
        (backup_page_whole ps (w ++ frame (bytes_of p)) (p.key ++ (0 ∷ [])) (suc valid) hs
          ∙ page_ok (append_assoc w (frame (bytes_of p)) (frames bytes_of ps)) (next-cons p ps)
              (omega arith))

  turn_step :
      (next : List ℕ → List ℕ → Result KvError (List ℕ)) (cnt : ℕ) (resp : Response)
      (w current w' current' : List ℕ) (valid : ℕ)
      → (resp.count == 0) ≡ false
      → backup_page codec prefix resp.kvs w current 0 ≡ ok (w', (current', valid))
      → (cnt == 0) ≡ false
      → backup_turn codec next prefix cnt resp w current ≡ next w' current'
  unfolding backup_turn
  turn_step next cnt resp w current w' current' valid f g c = rw (f, backup_turn, g, c) refl

  turn_end :
      (next : List ℕ → List ℕ → Result KvError (List ℕ)) (cnt : ℕ) (resp : Response)
      (w current : List ℕ)
      → (resp.count == 0) ≡ true
      → backup_turn codec next prefix cnt resp w current ≡ ok w
  unfolding backup_turn
  turn_end next cnt resp w current f = rw (f, backup_turn) refl

  module _ (C : EtcdClient) (E : IsEtcd C) (s : C.Store) (h : Answers C s)
      (batch_size cnt : ℕ) where
    abbrev rest : List ℕ → List Pair
    rest current = in_range C.ends current from_key (C.pairs s)

    abbrev request : List ℕ → Request
    request current = record {
      key = current;
      range = from_key;
      limit = batch_size;
      content = whole;
    }

    loop_turn :
        (fuel : ℕ) (w current : List ℕ) (resp : Response)
        → C.get s (request current) ≡ some resp
        → backup_loop codec C (suc fuel) prefix batch_size cnt w current s
          ≡ backup_turn codec
              (λ w current. backup_loop codec C fuel prefix batch_size cnt w current s)
              prefix
              cnt
              resp
              w
              current
    unfolding backup_loop
    loop_turn fuel w current resp e = rw e refl

    backup_loop-rest :
        (fuel : ℕ) (w current : List ℕ)
        → ((cnt ≡ 0) → rest current ≡ [])
        → All IsWritten (rest current)
        → length (rest current) < fuel
        → backup_loop codec C fuel prefix batch_size cnt w current s
          ≡ ok (w ++ frames bytes_of (rest current))
    backup_loop-rest zero w current z a l = absurd (omega arith)
    backup_loop-rest (suc fuel) w current z a l = elim (list_cases (rest current)) [
      | inl e ↦
          loop_turn fuel w current _ (get-answer C E s h (request current))
          ∙ turn_end _ cnt _ w current (ap (λ ps. length ps == 0) e)
          ∙ ap ok (sym (append-nil w) ∙ ap (λ ps. w ++ frames bytes_of ps) (sym e))
      | inr e ↦
          let (p, qs, e) = e in
          let (xs, ys, split, page, less) = first_page batch_size p qs in
          let whole_rest = e ∙ ap (◌∷◌ p) split in
          let behind = behind_page current (C.pairs s) p xs ys (E.pairs-Sorted s) whole_rest in
          let good = subst (All IsWritten) whole_rest a in
          let some_counted = counted cnt p (rest current) qs z e in
          loop_turn fuel w current _ (get-answer C E s h (request current))
          ∙ turn_step _ cnt (answer C.ends (C.pairs s) (request current)) w current
              (w ++ frames bytes_of (p ∷ xs)) (last_key p xs ++ (0 ∷ [])) (0 + length (p ∷ xs))
              (nonempty p (rest current) qs e)
              (ap (λ ps. backup_page codec prefix ps w current 0) (ap (limited batch_size) e ∙ page)
                ∙ backup_page_whole (p ∷ xs) w current 0 (All-left IsWritten (p ∷ xs) ys good))
              some_counted
          ∙ backup_loop-rest fuel (w ++ frames bytes_of (p ∷ xs)) (last_key p xs ++ (0 ∷ []))
              (λ zero. absurd (cc (some_counted, zero)))
              (subst (All IsWritten) (sym behind) (All-right IsWritten (p ∷ xs) ys good))
              (omega (arith, l, less, ap length behind, ap length e))
          ∙ ap ok (
              written_on bytes_of w p xs ys qs (rest (last_key p xs ++ (0 ∷ []))) split behind
              ∙ ap (λ ps. w ++ frames bytes_of ps) (sym e))
    ]

-- The pairs from the prefix on are those under it, when no other key comes behind.
from_prefix :
    (E : RangeEnd) (codec : Codec) (bytes_of : Pair → List ℕ) (prefix : List ℕ) (ps : List Pair)
    → All (IsWritten codec bytes_of prefix) (in_range E prefix from_key ps)
    → in_range E prefix from_key ps ≡ select (λ (p : Pair). has_prefix prefix p.key) ps
from_prefix E codec bytes_of prefix [] a = refl
from_prefix E codec bytes_of prefix (p ∷ ps) a = elim (Bool-cases (at_least p.key prefix)) [
  | inl e ↦
      let (h, hs) =
        subst
          (λ b.
            All (IsWritten codec bytes_of prefix)
              (if b then p ∷ in_range E prefix from_key ps else in_range E prefix from_key ps))
          e a in
      rw (e, h.0) (ap (◌∷◌ p) (from_prefix E codec bytes_of prefix ps hs))
  | inr e ↦
      let hs =
        subst
          (λ b.
            All (IsWritten codec bytes_of prefix)
              (if b then p ∷ in_range E prefix from_key ps else in_range E prefix from_key ps))
          e a in
      rw
        (
          e,
          contra (has_prefix prefix p.key) (at_least p.key prefix)
              (has_prefix-at_least prefix p.key) e,
        )
        (from_prefix E codec bytes_of prefix ps hs)
]

module _ (codec : Codec) (bytes_of : Pair → List ℕ) (C : EtcdClient) (E : IsEtcd C) (s : C.Store)
    (h : Answers C s) where
  -- A backup of etcd that answers writes the header, one message for each pair under the prefix
  -- in the order of the keys, and the stopper, for any size of a batch: when every pair from
  -- the prefix on is under it and can be marshalled, and with more fuel than there are pairs.
  pub backup_kv_complete :
      (fuel batch_size : ℕ) (base key w header : List ℕ)
      → codec.marshal_header (
          backup_meta
            (length
              (select (λ (p : Pair). has_prefix (join_path (base ∷ key ∷ [])) p.key) (C.pairs s)))
            base)
        ≡ some header
      → All
          (IsWritten codec bytes_of (join_path (base ∷ key ∷ [])))
          (in_range C.ends (join_path (base ∷ key ∷ [])) from_key (C.pairs s))
      → length (C.pairs s) < fuel
      → backup_kv codec C fuel base key batch_size w s
        ≡ ok (
            ((w ++ frame header)
              ++ frames bytes_of (
                  select
                    (λ (p : Pair). has_prefix (join_path (base ∷ key ∷ [])) p.key)
                    (C.pairs s)))
            ++ frame [])
  unfolding backup_kv
  backup_kv_complete fuel batch_size base key w header m a l =
      let prefix = join_path (base ∷ key ∷ []) in
      let under = select (λ (p : Pair). has_prefix prefix p.key) (C.pairs s) in
      let same = from_prefix C.ends codec bytes_of prefix (C.pairs s) a in
      let loop =
        backup_loop-rest codec bytes_of prefix C E s h batch_size (length under) fuel
          (w ++ frame header) prefix (λ zero. same ∙ length_zero under zero) a
          (omega (
            arith,
            l,
            ap length same,
            length-select (λ (p : Pair). has_prefix prefix p.key) (C.pairs s),
          )) in
      rw
        (
          get-answer C E s h
              (record { key = prefix; range = with_prefix; limit = 0; content = count_only }),
          m,
          write_backup_bytes-frame w header,
          loop,
        )
        (ap ok (
          write_backup_bytes-frame _ []
          ∙ ap (λ ps. ((w ++ frame header) ++ frames bytes_of ps) ++ frame []) same))

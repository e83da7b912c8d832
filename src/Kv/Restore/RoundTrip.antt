-- ===== src/Kv/Restore/RoundTrip.antt =====
-- What a backup writes is restored.
use mathlib.Core.Path.{subst}
use mathlib.Core.List.{Permᴰ, append_assoc}
use birdwatcher.Base.{
  ℕ, zero, suc, ◌<◌, ◌≡◌, ◌≢◌, inl, inr, refl, sym, ◌∙◌, ap, Bool, true, false, Bool-cases, Option,
  none, some, List, [], ◌∷◌, ◌++◌, length, leb, ◌==◌, not_zero, if◌then◌else◌, All, ok, arith,
}
use birdwatcher.Binlog.Bytes.{read_full, put_little_endian, little_endian}
use birdwatcher.Binlog.Bytes.RoundTrip.{read_full-append, little_endian-put}
use birdwatcher.Kv.Client.{Pair, Sorted, put_pair, put_pairs, EtcdClient, IsEtcd}
use birdwatcher.Kv.Etcd.{keys_of, values_of, puts, multi_save}
use birdwatcher.Kv.Etcd.Keys.{lookup, lookup-put_pairs}
use birdwatcher.Kv.Backup.{BackupMeta}
use birdwatcher.Kv.Backup.Complete.{frame, frames}
use birdwatcher.Kv.Restore.{
  RestoreError, Sent, batch_num, flush, send, v2_entry, v2_turn, v2_loop, work, instance_or_error,
  restore_etcd_from_back_v2,
}
use birdwatcher.Kv.Restore.Frames.{Fits, frame_size}
use birdwatcher.Kv.Restore.Orders.{
  Sorted-Distinct, latest-perm, or_else, latest-lookup, concat, concat-perm,
}

-- The batches of entries, the first ones in `batch` already.
abbrev chunks : List Pair → List Pair → List (List Pair)
chunks batch [] = (flush batch none).batches
chunks batch (p ∷ ps) =
    let full = chunks [] ps in
    let wider = chunks (batch ++ (p ∷ [])) ps in
    if leb batch_num (length (batch ++ (p ∷ []))) then (batch ++ (p ∷ [])) ∷ full else wider

concat-chunks : (batch ps : List Pair) → concat (chunks batch ps) ≡ batch ++ ps
concat-chunks [] [] = refl
concat-chunks (q ∷ batch) [] = refl
concat-chunks batch (p ∷ ps) = elim (Bool-cases (leb batch_num (length (batch ++ (p ∷ []))))) [
  | inl e ↦ rw (e, concat-chunks [] ps) (append_assoc batch (p ∷ []) ps)
  | inr e ↦ rw (e, concat-chunks (batch ++ (p ∷ [])) ps) (append_assoc batch (p ∷ []) ps)
]

stopper : (little_endian (put_little_endian 8 0) == 0) ≡ true
unfolding little_endian put_little_endian
stopper = refl

flush_end :
    (batch : List Pair) → flush batch none ≡ record { batches = chunks batch []; error = none }
flush_end [] = refl
flush_end (p ∷ ps) = refl

module _ (unmarshal : List ℕ → Option Pair) (f : Pair → List ℕ) where
  -- An entry whose bytes are a message that is no stopper, and give the entry again.
  abbrev pub IsReadable : Pair → Type 0
  IsReadable p = (unmarshal (f p) ≡ some p) × (length (f p) ≢ 0) × Fits (f p)

  v2_turn_message :
      (next : List ℕ → List Pair → Option Sent) (cnt : ℕ) (lb rd bs rest : List ℕ)
      (entry : Option Pair) (batch : List Pair)
      → (little_endian lb == 0) ≡ false
      → read_full (little_endian lb) rd ≡ ok (bs, rest)
      → unmarshal bs ≡ entry
      → v2_turn unmarshal next cnt (ok (lb, rd)) batch
        ≡ v2_entry unmarshal (next rest) cnt entry batch
  unfolding v2_turn
  v2_turn_message next cnt lb rd bs rest entry batch z r u = rw (z, v2_turn, r, u) refl

  v2_entry_full :
      (next : List Pair → Option Sent) (cnt : ℕ) (p : Pair) (batch : List Pair)
      → (cnt == 0) ≡ false
      → leb batch_num (length (batch ++ (p ∷ []))) ≡ true
      → v2_entry unmarshal next cnt (some p) batch ≡ send (batch ++ (p ∷ [])) (next [])
  unfolding v2_entry
  v2_entry_full next cnt p batch c e = rw (c, v2_entry, e) refl

  v2_entry_more :
      (next : List Pair → Option Sent) (cnt : ℕ) (p : Pair) (batch : List Pair)
      → (cnt == 0) ≡ false
      → leb batch_num (length (batch ++ (p ∷ []))) ≡ false
      → v2_entry unmarshal next cnt (some p) batch ≡ next (batch ++ (p ∷ []))
  unfolding v2_entry
  v2_entry_more next cnt p batch c e = rw (c, v2_entry, e) refl

  v2_turn_stopper :
      (next : List ℕ → List Pair → Option Sent) (cnt : ℕ) (lb rd : List ℕ) (batch : List Pair)
      → (little_endian lb == 0) ≡ true
      → v2_turn unmarshal next cnt (ok (lb, rd)) batch ≡ some (flush batch none)
  unfolding v2_turn
  v2_turn_stopper next cnt lb rd batch z = rw (z, v2_turn) refl

  v2_turn_entry :
      (next : List ℕ → List Pair → Option Sent) (cnt : ℕ) (p : Pair) (rest : List ℕ)
      (batch : List Pair)
      → IsReadable p
      → v2_turn unmarshal next cnt (ok (put_little_endian 8 (length (f p)), f p ++ rest)) batch
        ≡ v2_entry unmarshal (next rest) cnt (some p) batch
  v2_turn_entry next cnt p rest batch (u, z, h) =
      let n = little_endian-put 8 (length (f p)) h in
      v2_turn_message next cnt (put_little_endian 8 (length (f p))) (f p ++ rest) (f p) rest
        (some p) batch (ap (λ x. x == 0) n ∙ not_zero (length (f p)) z)
        (ap (λ x. read_full x (f p ++ rest)) n ∙ read_full-append (f p) rest (length (f p)) refl) u

  v2_loop-frames :
      (fuel cnt : ℕ) (ps : List Pair) (rest : List ℕ) (batch : List Pair)
      → (cnt == 0) ≡ false
      → All IsReadable ps
      → length ps < fuel
      → v2_loop unmarshal fuel cnt (frames f ps ++ (frame [] ++ rest)) batch
        ≡ some (record { batches = chunks batch ps; error = none })
  unfolding v2_loop v2_turn
  v2_loop-frames zero cnt ps rest batch c h l = absurd (omega arith)
  v2_loop-frames (suc fuel) cnt [] rest batch c h l =
      rw (frame_size [] rest) (
        v2_turn_stopper _ cnt (put_little_endian 8 0) rest batch stopper
        ∙ ap some (flush_end batch))
  v2_loop-frames (suc fuel) cnt (p ∷ ps) rest batch c (h, hs) l =
      let next =
        λ (x : List Pair). v2_loop unmarshal fuel cnt (frames f ps ++ (frame [] ++ rest)) x in
      rw
        (
          append_assoc (frame (f p)) (frames f ps) (frame [] ++ rest),
          frame_size (f p) (frames f ps ++ (frame [] ++ rest)),
        )
        (v2_turn_entry _ cnt p (frames f ps ++ (frame [] ++ rest)) batch h
          ∙ elim (Bool-cases (leb batch_num (length (batch ++ (p ∷ []))))) [
            | inl e ↦
                v2_entry_full next cnt p batch c e
                ∙ ap (send (batch ++ (p ∷ [])))
                    (v2_loop-frames fuel cnt ps rest [] c hs (omega arith))
                ∙ rw e refl
            | inr e ↦
                v2_entry_more next cnt p batch c e
                ∙ v2_loop-frames fuel cnt ps rest (batch ++ (p ∷ [])) c hs (omega arith)
                ∙ rw e refl
          ])

keys_values-puts : (batch : List Pair) → puts (keys_of batch) (values_of batch) ≡ ok batch
keys_values-puts [] = refl
keys_values-puts (p ∷ ps) = rw (keys_values-puts ps) refl

put_pairs-append : (xs ys ps : List Pair) → put_pairs (xs ++ ys) ps ≡ put_pairs ys (put_pairs xs ps)
put_pairs-append [] ys ps = refl
put_pairs-append (x ∷ xs) ys ps = put_pairs-append xs ys (put_pair x.key x.value ps)

module _ (C : EtcdClient) (root_path : List ℕ) (E : IsEtcd C)
    (puts_succeed : (s : C.Store) (qs : List Pair) → (t : C.Store) × (C.put_all s qs ≡ some t))
    (unmarshal : List ℕ → Option Pair) where
  multi_save-keys_values :
      (s t : C.Store) (batch : List Pair)
      → C.put_all s batch ≡ some t
      → multi_save C root_path (keys_of batch) (values_of batch) s ≡ ok t
  unfolding multi_save
  multi_save-keys_values s t batch e = rw (keys_values-puts batch, e) refl

  restore_result :
      (schedule : List (List Pair) → List (List Pair)) (main_last : Bool) (fuel : ℕ)
      (meta : BackupMeta) (rd : List ℕ) (s t : C.Store) (sent : Sent) (e : Option RestoreError)
      → v2_loop unmarshal fuel meta.cnt rd [] ≡ some sent
      → work unmarshal (multi_save C root_path) (schedule sent.batches) s sent.error ≡ some (t, e)
      → restore_etcd_from_back_v2 unmarshal
          (multi_save C root_path)
          schedule
          main_last
          fuel
          (some meta)
          rd
          s
        ≡ instance_or_error unmarshal
            (multi_save C root_path)
            meta.instance_path
            t
            (if main_last then sent.error else e)
  unfolding restore_etcd_from_back_v2
  restore_result schedule main_last fuel meta rd s t sent e a b =
      rw (a, restore_etcd_from_back_v2, b) refl

  no_error :
      (main_last : Bool) → ◌≡◌ {A = Option RestoreError} (if main_last then none else none) none
  no_error true = refl
  no_error false = refl

  -- What the workers leave behind.
  work_puts :
      (batches : List (List Pair)) (s : C.Store)
      → (t : C.Store) × (work unmarshal (multi_save C root_path) batches s none ≡ some (t, none))
        × (C.pairs t ≡ put_pairs (concat batches) (C.pairs s))
  work_puts [] s = (s, refl, refl)
  work_puts (batch ∷ batches) s =
      let (u, e) = puts_succeed s batch in
      let (t, f, g) = work_puts batches u in
      (
        t,
        rw (multi_save-keys_values s u batch e, work) f,
        g
            ∙ ap (put_pairs (concat batches)) (E.put_all_lem s u batch e)
            ∙ sym (put_pairs-append batch (concat batches) (C.pairs s)),
      )

  -- Of entries in the order of their keys, written with a stopper behind them, each of which
  -- fits a message that is not empty and is read back from it, restoreEtcdFromBackV2 makes a
  -- store in which each key has the value of the backup, or the one it had if the backup lacks
  -- it. Every save succeeds, and the header counts an entry at least. It does not matter in
  -- which order the batches come to be saved, nor which goroutine sets the error last.
  pub restore-backup :
      (f : Pair → List ℕ) (schedule : List (List Pair) → List (List Pair)) (main_last : Bool)
      (fuel : ℕ) (meta : BackupMeta) (ps : List Pair) (rest : List ℕ) (s : C.Store)
      → ((batches : List (List Pair)) → Permᴰ batches (schedule batches))
      → (meta.cnt ≡ 0 → ⊥)
      → Sorted ps
      → All (IsReadable unmarshal f) ps
      → length ps < fuel
      → (t : C.Store) × (restore_etcd_from_back_v2 unmarshal
            (multi_save C root_path)
            schedule
            main_last
            fuel
            (some meta)
            (frames f ps ++ (frame [] ++ rest))
            s
          ≡ some (t, ok meta.instance_path))
        × ((k : List ℕ) → lookup k (C.pairs t) ≡ or_else (lookup k ps) (lookup k (C.pairs s)))
  restore-backup f schedule main_last fuel meta ps rest s perm c h a l =
      let (t, e, g) = work_puts (schedule (chunks [] ps)) s in
      let order =
        subst (λ qs. Permᴰ qs (concat (schedule (chunks [] ps)))) (concat-chunks [] ps)
          (concat-perm (perm (chunks [] ps))) in
      let d = Sorted-Distinct ps h in
      (
        t,
        restore_result schedule main_last fuel meta _ s t _ none
              (v2_loop-frames unmarshal f fuel meta.cnt ps rest [] (not_zero meta.cnt c) a l) e
            ∙ ap (instance_or_error unmarshal (multi_save C root_path) meta.instance_path t)
                (no_error main_last),
        λ k.
            ap (lookup k) g
            ∙ lookup-put_pairs k (concat (schedule (chunks [] ps))) (C.pairs s)
            ∙ sym (latest-perm k order d (lookup k (C.pairs s)))
            ∙ latest-lookup k ps (lookup k (C.pairs s)) d,
      )

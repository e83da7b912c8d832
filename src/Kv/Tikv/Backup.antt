-- ===== src/Kv/Tikv/Backup.antt =====
-- BackupKV of TiKV, on each of its ends.
use mathlib.Core.List.{append_assoc, append-nil}
use birdwatcher.Base.{
  ℕ, zero, suc, ◌+◌, ◌<◌, ◌≡◌, ◌≢◌, inl, inr, refl, sym, ◌∙◌, ap, false, Bool-cases, Option-cases,
  ◌>>=◌, select, some, List, [], ◌∷◌, ◌++◌, length, ◌==◌, not_zero, if◌then◌else◌, All, Result, ok,
  fail, panic, arith,
}
use birdwatcher.Base.Text.{has_prefix}
use birdwatcher.Kv.Client.{Pair}
use birdwatcher.Kv.Paths.{join_path}
use birdwatcher.Kv.Etcd.{KvError, attempt, unfinished}
use birdwatcher.Kv.Backup.{Codec, backup_meta, write_backup_bytes}
use birdwatcher.Kv.Backup.Complete.{frame, frames, write_backup_bytes-frame, IsWritten}
use birdwatcher.Kv.Tikv.{TikvClient, IsTikv, under, tikv_backup_loop, tikv_backup_kv}

pair_ok :
    {w w' : List ℕ} {n n' : ℕ}
    → w ≡ w'
    → n ≡ n'
    → ◌≡◌ {A = Result KvError (List ℕ × ℕ)} (ok (w, n)) (ok (w', n'))
pair_ok a b = rw (a, b) refl

module _ (C : TikvClient) (root_path : List ℕ) (codec : Codec) (bytes_of : Pair → List ℕ)
    (base : List ℕ) (batch_size : ℕ) where
  loop_step :
      (fuel : ℕ) (p : Pair) (ps : List Pair) (w : List ℕ) (i : ℕ)
      → (batch_size == 0) ≡ false
      → IsWritten codec bytes_of base p
      → tikv_backup_loop C root_path codec (suc fuel) base batch_size (p ∷ ps) w i
        ≡ tikv_backup_loop C root_path codec fuel base batch_size ps
            (write_backup_bytes w (bytes_of p))
            (suc i)
  unfolding tikv_backup_loop
  loop_step fuel p ps w i b (h, m) = rw (h, tikv_backup_loop, m, b) refl

  -- A key that does not start with the base path
  loop_stays :
      (fuel : ℕ) (p : Pair) (ps : List Pair) (w : List ℕ) (i : ℕ)
      → has_prefix base p.key ≡ false
      → tikv_backup_loop C root_path codec fuel base batch_size (p ∷ ps) w i ≡ fail unfinished
  unfolding tikv_backup_loop
  loop_stays zero p ps w i h = refl
  loop_stays (suc fuel) p ps w i h = rw (h, tikv_backup_loop) (loop_stays fuel p ps w i h)

  loop_whole :
      (fuel : ℕ) (ps : List Pair) (w : List ℕ) (i : ℕ)
      → (batch_size == 0) ≡ false
      → All (IsWritten codec bytes_of base) ps
      → length ps < fuel
      → tikv_backup_loop C root_path codec fuel base batch_size ps w i
        ≡ ok (w ++ frames bytes_of ps, i + length ps)
  unfolding tikv_backup_loop
  loop_whole zero ps w i b h l = absurd (omega arith)
  loop_whole (suc fuel) [] w i b h l = pair_ok (sym (append-nil w)) (omega arith)
  loop_whole (suc fuel) (p ∷ ps) w i b (h, hs) l =
      loop_step fuel p ps w i b h
      ∙ loop_whole fuel ps (write_backup_bytes w (bytes_of p)) (suc i) b hs (omega arith)
      ∙ pair_ok
          (ap (λ x. x ++ frames bytes_of ps) (write_backup_bytes-frame w (bytes_of p))
            ∙ append_assoc w (frame (bytes_of p)) (frames bytes_of ps))
          (omega arith)

  -- The pairs under a prefix, and what is written for them.
  abbrev pub pairs_under : List ℕ → C.Store → List Pair
  pairs_under prefix s =
      select (λ (p : Pair). under C root_path (join_path (base ∷ prefix ∷ [])) p.key) (C.pairs s)

  abbrev pub backup_of : List ℕ → List ℕ → List Pair → List ℕ
  backup_of w header ps = ((w ++ frame header) ++ frames bytes_of ps) ++ frame []

  -- After Begin.
  begun :
      (fuel : ℕ) (prefix w header : List ℕ) (s : C.Store) (ps : List Pair)
      → C.begin s ≡ some tt
      → C.iter s (under C root_path (join_path (base ∷ prefix ∷ []))) ≡ some ps
      → codec.marshal_header (backup_meta (length ps) base) ≡ some header
      → batch_size ≢ 0
      → All (IsWritten codec bytes_of base) ps
      → length ps < fuel
      → tikv_backup_kv C root_path codec fuel base prefix batch_size w s ≡ (
          if length ps == 0
          then panic
          else (attempt (C.commit s) >>= λ u. ok (backup_of w header ps)))
  unfolding tikv_backup_kv
  begun fuel prefix w header s ps a e m b h l =
      let looped = loop_whole fuel ps (w ++ frame header) 0 (not_zero batch_size b) h l in
      rw (a, e, m, write_backup_bytes-frame w header, looped)
        (elim (Bool-cases (length ps == 0)) [
          | inl z ↦ rw z refl
          | inr z ↦
              rw (z, write_backup_bytes-frame ((w ++ frame header) ++ frames bytes_of ps) []) refl
        ])

  -- What a backup of TiKV does when its iterator is made, with a client that keeps to its
  -- documentation: an error of Begin is returned; then it panics when no key is under the
  -- prefix; otherwise it writes the header, one message for each pair under the prefix in the
  -- order of the iterator and the stopper, and returns the error of Commit, if any. The pairs
  -- start with the base path and can be marshalled, as can the header, the batch size is above
  -- 0, and the fuel is more than they are.
  pub tikv_backup_kv_lem :
      (E : IsTikv C) (fuel : ℕ) (prefix w header : List ℕ) (s : C.Store) (ps : List Pair)
      → C.iter s (under C root_path (join_path (base ∷ prefix ∷ []))) ≡ some ps
      → codec.marshal_header (backup_meta (length ps) base) ≡ some header
      → batch_size ≢ 0
      → All (IsWritten codec bytes_of base) ps
      → length ps < fuel
      → (ps ≡ pairs_under prefix s)
        × (tikv_backup_kv C root_path codec fuel base prefix batch_size w s ≡ (
            attempt (C.begin s) >>= λ txn.
            (if length ps == 0
              then panic
              else (attempt (C.commit s) >>= λ u. ok (backup_of w header ps)))))
  unfolding tikv_backup_kv
  tikv_backup_kv_lem E fuel prefix w header s ps e m b h l = (
    E.iter_lem s (under C root_path (join_path (base ∷ prefix ∷ []))) ps e,
    elim (Option-cases (C.begin s)) [
      | inl none_begun ↦ rw none_begun refl
      | inr (u, one_begun) ↦ begun fuel prefix w header s ps one_begun e m b h l ∙ rw one_begun refl
    ],
  )

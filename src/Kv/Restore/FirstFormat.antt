-- ===== src/Kv/Restore/FirstFormat.antt =====
-- A file of the first format is restored entry by entry.
use birdwatcher.Base.{
  ℕ, zero, suc, ◌<◌, ◌≡◌, refl, ◌∙◌, ap, false, Option, some, List, [], ◌∷◌, ◌++◌, length, ◌==◌,
  All, Result, ok, ◌>>=◌, bind-agree, arith,
}
use birdwatcher.Binlog.Bytes.{read_full, put_little_endian, little_endian}
use birdwatcher.Binlog.Bytes.RoundTrip.{read_full-append, little_endian-put}
use birdwatcher.Kv.Client.{Pair}
use birdwatcher.Kv.Etcd.{KvError}
use birdwatcher.Kv.Backup.Complete.{frames}
use birdwatcher.Kv.Restore.{RestoreError, saved, v1_entry, v1_turn, restore_from_v1_file}
use birdwatcher.Kv.Restore.Frames.{Fits, frame_size}

module _ {Store : Type 0} (unmarshal : List ℕ → Option Pair)
    (save : List ℕ → List ℕ → Store → Result KvError Store) (f : Pair → List ℕ) where
  -- Saves in order, up to the first that is not possible.
  abbrev pub save_all : List Pair → Store → Result RestoreError Store
  save_all [] s = ok s
  save_all (p ∷ ps) s = saved unmarshal save (save p.key p.value s) >>= save_all ps

  v1_turn_message :
      (next : List ℕ → Store → Result RestoreError Store) (entries : ℕ) (lb rd bs rest : List ℕ)
      (s : Store)
      → read_full (little_endian lb) rd ≡ ok (bs, rest)
      → v1_turn unmarshal save next entries (ok (lb, rd)) s
        ≡ v1_entry unmarshal save (next rest) entries (unmarshal bs) s
  unfolding v1_turn
  v1_turn_message next entries lb rd bs rest s r = rw (r, v1_turn) refl

  v1_entry-saved :
      (next : Store → Result RestoreError Store) (entries : ℕ) (p : Pair) (s : Store)
      → (entries == 0) ≡ false
      → v1_entry unmarshal save next entries (some p) s
        ≡ (saved unmarshal save (save p.key p.value s) >>= next)
  unfolding v1_entry
  v1_entry-saved next entries p s e =
      bind-agree (saved unmarshal save (save p.key p.value s)) (λ t. rw e refl)

  -- Restoring a file of the first format is saving its entries one after the other, up to the
  -- first that cannot be saved, of which it returns the error: for entries that fit a message
  -- and are read back from it, a header that counts an entry at least, and more fuel than there
  -- are entries.
  pub restore_from_v1_file-frames :
      (fuel entries : ℕ) (ps : List Pair) (s : Store)
      → (entries == 0) ≡ false
      → All (λ (p : Pair). (unmarshal (f p) ≡ some p) × Fits (f p)) ps
      → length ps < fuel
      → restore_from_v1_file unmarshal save fuel entries (frames f ps) s ≡ save_all ps s
  unfolding restore_from_v1_file v1_turn read_full
  restore_from_v1_file-frames zero entries ps s e h l = absurd (omega arith)
  restore_from_v1_file-frames (suc fuel) entries [] s e h l = refl
  restore_from_v1_file-frames (suc fuel) entries (p ∷ ps) s e ((u, n), hs) l =
      ap
        (λ r.
          v1_turn unmarshal save (λ rd s. restore_from_v1_file unmarshal save fuel entries rd s)
            entries r s)
        (frame_size (f p) (frames f ps))
      ∙ v1_turn_message (λ rd s. restore_from_v1_file unmarshal save fuel entries rd s) entries
          (put_little_endian 8 (length (f p))) (f p ++ frames f ps) (f p) (frames f ps) s
          (ap (λ x. read_full x (f p ++ frames f ps)) (little_endian-put 8 (length (f p)) n)
            ∙ read_full-append (f p) (frames f ps) (length (f p)) refl)
      ∙ ap
          (λ o.
            v1_entry unmarshal save
              (λ s. restore_from_v1_file unmarshal save fuel entries (frames f ps) s) entries o s)
          u
      ∙ v1_entry-saved (λ s. restore_from_v1_file unmarshal save fuel entries (frames f ps) s)
          entries p s e
      ∙ bind-agree (saved unmarshal save (save p.key p.value s))
          (λ t. restore_from_v1_file-frames fuel entries ps t e hs (omega arith))

-- ===== src/Kv/Restore/Frames.antt =====
-- Messages of a backup file.
use mathlib.Core.List.{append_assoc}
use birdwatcher.Base.{ℕ, ◌^◌, ◌<◌, ◌≡◌, refl, ◌∙◌, ap, List, ◌++◌, length, ok}
use birdwatcher.Binlog.Bytes.{read_full, put_little_endian}
use birdwatcher.Binlog.Bytes.RoundTrip.{
  length-put_little_endian, read_full-append, little_endian-put,
}
use birdwatcher.Kv.Backup.Complete.{frame}
use birdwatcher.Kv.Restore.{read_backup_bytes}

-- Data whose length fits in 8 bytes.
abbrev pub Fits : List ℕ → Type 0
Fits bs = length bs < 256 ^ 8

pub frame_size :
    (bs rest : List ℕ)
    → read_full 8 (frame bs ++ rest) ≡ ok (put_little_endian 8 (length bs), bs ++ rest)
unfolding frame
frame_size bs rest =
    ap (read_full 8) (append_assoc (put_little_endian 8 (length bs)) bs rest)
    ∙ read_full-append (put_little_endian 8 (length bs)) (bs ++ rest) 8
        (length-put_little_endian 8 (length bs))

-- A message that is written is read, and the bytes behind it are left.
pub read_backup_bytes-frame :
    (bs rest : List ℕ) → Fits bs → read_backup_bytes (frame bs ++ rest) ≡ ok (bs, rest)
unfolding read_backup_bytes
read_backup_bytes-frame bs rest h =
    rw (frame_size bs rest, little_endian-put 8 (length bs) h)
      (read_full-append bs rest (length bs) refl)

-- ===== src/Kv/Backup.antt =====
-- states/kv/kv.go: writeBackupBytes, and BackupKV of etcdKV. json.Marshal and proto.Marshal are
-- parameters. The store does not change during a backup, so that it does not matter which revision is read.
pub mod Complete
pub mod Endless
use birdwatcher.Base.{
  ℕ, zero, suc, ◌+◌, Bool, true, false, not, Option, none, some, List, [], ◌∷◌, ◌++◌, length, ◌==◌,
  if◌then◌else◌, ltb, Result, ok, fail, panic, ◌>>=◌,
}
use birdwatcher.Base.Text.{has_prefix, split}
use birdwatcher.Binlog.Bytes.{put_little_endian}
use birdwatcher.Kv.Client.{
  Pair, with_prefix, from_key, whole, count_only, Request, Response, EtcdClient,
}
use birdwatcher.Kv.Paths.{slash, join_path, drop_last, last_part}
use birdwatcher.Kv.Etcd.{KvError, marshal_error, unfinished, attempt}

-- A length of 8 bytes and the data.
unfoldable pub write_backup_bytes : List ℕ → List ℕ → List ℕ
unfolding put_little_endian
write_backup_bytes w bytes =
    let w = w ++ put_little_endian 8 (length bytes) in
    if ltb 0 (length bytes) then w ++ bytes else w

-- What the header of the part says.
pub record BackupMeta : Type 0 where
  pub cnt : ℕ
  pub instance_path : List ℕ
  pub meta_path : List ℕ

-- json.Marshal and proto.Marshal of the header, and proto.Marshal of commonpb.KeyDataPair.
pub record Codec : Type 0 where
  pub marshal_header : BackupMeta → Option (List ℕ)
  pub marshal : Pair → Option (List ℕ)

abbrev pub marshalled {ℓ} : {A : Type ℓ} → Option A → Result KvError A
marshalled none = fail marshal_error
marshalled (some bs) = ok bs

-- Where the parts of a base path belong.
unfoldable pub backup_meta : ℕ → List ℕ → BackupMeta
unfolding split join_path
backup_meta cnt base =
    let parts = split slash base in
    if ltb 1 (length parts)
    then record {
      cnt = cnt;
      instance_path = join_path (drop_last parts);
      meta_path = last_part parts;
    }
    else record { cnt = cnt; instance_path = base; meta_path = [] }

module _ (codec : Codec) where
  -- The loop over a page: the bytes written, the key to go on from and the number of pairs written.
  unfoldable pub backup_page :
      List ℕ → List Pair → List ℕ → List ℕ → ℕ → Result KvError (List ℕ × (List ℕ × ℕ))
  unfolding write_backup_bytes
  backup_page prefix [] w current valid = ok (w, (current, valid))
  backup_page prefix (p ∷ ps) w current valid = elim (has_prefix prefix p.key) [
    | false ↦ backup_page prefix ps w current valid
    | true ↦ marshalled (codec.marshal p) >>= λ bs.
        backup_page prefix ps (write_backup_bytes w bs) (p.key ++ (0 ∷ [])) (suc valid)
  ]

  -- A turn of the loop, with the rest of the loop. The progress in percent divides by the number of pairs
  -- that was counted at first.
  unfoldable pub backup_turn :
      (List ℕ → List ℕ → Result KvError (List ℕ))
      → List ℕ
      → ℕ
      → Response
      → List ℕ
      → List ℕ
      → Result KvError (List ℕ)
  unfolding backup_page
  backup_turn next prefix cnt resp w current = elim (resp.count == 0) [
    | true ↦ ok w
    | false ↦ backup_page prefix resp.kvs w current 0 >>= λ (w, (current, valid)). elim (cnt == 0) [
      | true ↦ panic
      | false ↦ next w current
    ]
  ]

  module _ (C : EtcdClient) where
    unfoldable pub backup_loop :
        ℕ → List ℕ → ℕ → ℕ → List ℕ → List ℕ → C.Store → Result KvError (List ℕ)
    unfolding backup_turn
    backup_loop zero prefix batch_size cnt w current s = fail unfinished
    backup_loop (suc fuel) prefix batch_size cnt w current s =
        attempt (
          C.get s (record { key = current; range = from_key; limit = batch_size; content = whole }))
        >>= λ resp.
            backup_turn (λ w current. backup_loop fuel prefix batch_size cnt w current s) prefix cnt
              resp w current

    unfoldable pub backup_kv : ℕ → List ℕ → List ℕ → ℕ → List ℕ → C.Store → Result KvError (List ℕ)
    unfolding join_path write_backup_bytes backup_loop backup_meta
    backup_kv fuel base prefix batch_size w s = do
      let key = join_path (base ∷ prefix ∷ [])
      resp ←
          attempt
            (C.get s (record { key = key; range = with_prefix; limit = 0; content = count_only }))
      bs ← marshalled (codec.marshal_header (backup_meta resp.count base))
      w ← backup_loop fuel key batch_size resp.count (write_backup_bytes w bs) key s
      ok (write_backup_bytes w [])

-- ===== src/Kv/BackupTests.antt =====
-- Runs of the backups, of the restoring and of the log.
use birdwatcher.Base.{ℕ, ◌≡◌, refl, some, List, [], ◌∷◌, ◌++◌, ok, length, arith}
use birdwatcher.Base.Text.{split, join}
use birdwatcher.Binlog.Bytes.{put_little_endian}
use birdwatcher.Kv.Client.{Pair, put_pairs}
use birdwatcher.Kv.Memory.{memory, memory-IsEtcd, memory-Answers}
use birdwatcher.Kv.Tests.{store, without_a}
use birdwatcher.Kv.Paths.{clean, path_join, join_path}
use birdwatcher.Kv.Etcd.{load_with_prefix, remove_with_prefix}
use birdwatcher.Kv.Etcd.Keys.{lookup}
use birdwatcher.Kv.Backup.{Codec, backup_meta, backup_kv}
use birdwatcher.Kv.Backup.Complete.{frame, backup_kv_complete}
use birdwatcher.Kv.Backup.Endless.{backup_kv_endless}
use birdwatcher.Kv.Audit.{
  AuditMessage, etcd_kv, load_and_remove_with_prefix, audit_entries, audit_remove_with_prefix,
}
use birdwatcher.Kv.Audit.Undo.{logged, audit_remove_with_prefix-undo}

-- The bytes of an entry: the length of the key, the key and the value.
abbrev pub bytes_of : Pair → List ℕ
bytes_of p = length p.key ∷ (p.key ++ p.value)

abbrev pub codec : Codec
codec = record { marshal_header = λ m. some (m.cnt ∷ []); marshal = λ p. some (bytes_of p) }

-- The backup of "b" has the one key under it, the last of the store.
backup_kv_complete_example :
    backup_kv codec memory 4 (98 ∷ []) [] 2 [] store
    ≡ ok (
        1 ∷ 0 ∷ 0 ∷ 0 ∷ 0 ∷ 0 ∷ 0 ∷ 0 ∷ 1 ∷ 5 ∷ 0 ∷ 0 ∷ 0 ∷ 0 ∷ 0 ∷ 0 ∷ 0 ∷ 3 ∷ 98 ∷ 47 ∷ 122 ∷ 3
        ∷ 0 ∷ 0 ∷ 0 ∷ 0 ∷ 0 ∷ 0 ∷ 0 ∷ 0 ∷ [])
unfolding join_path path_join clean split join frame put_little_endian backup_meta
backup_kv_complete_example =
    backup_kv_complete codec bytes_of memory memory-IsEtcd store (memory-Answers store) 4 2
      (98 ∷ []) [] [] (1 ∷ []) refl ((refl, refl), tt) (omega arith)

-- That of "a" does not end, since "b/z" stands behind.
backup_kv_endless_example : ¬ (backup_kv codec memory 100 (97 ∷ []) [] 2 [] store ≡ ok [])
unfolding join_path path_join clean split join
backup_kv_endless_example =
    backup_kv_endless codec memory memory-IsEtcd store 100 2 (97 ∷ []) [] [] [] refl

removed : (audit_remove_with_prefix (etcd_kv memory []) (97 ∷ []) store []).result ≡ ok without_a
unfolding audit_remove_with_prefix load_and_remove_with_prefix audit_entries load_with_prefix
    remove_with_prefix join_path path_join clean split join
removed = refl

audit_remove_with_prefix-undo_example :
    (ms : List AuditMessage) × ((audit_remove_with_prefix
        (etcd_kv memory [])
        (97 ∷ [])
        store
        []).log
      ≡ ms)
    × ((k : List ℕ) → lookup k (put_pairs (logged ms) without_a.0) ≡ lookup k store.0)
audit_remove_with_prefix-undo_example =
    audit_remove_with_prefix-undo memory [] memory-IsEtcd store without_a (97 ∷ []) [] removed

-- ===== src/Kv/RestoreTests.antt =====
-- Runs of the restoring.
use mathlib.Core.List.{Permᴰ}
use mathlib.Core.List.Permᴰ
use birdwatcher.Base.{
  ℕ, suc, ◌≡◌, ◌≢◌, refl, false, Option, none, some, List, [], ◌∷◌, ◌++◌, take, drop, Result, ok,
  arith,
}
use birdwatcher.Kv.Client.{Pair, put_pair}
use birdwatcher.Kv.Memory.{memory, memory-IsEtcd}
use birdwatcher.Kv.Tests.{store}
use birdwatcher.Kv.BackupTests.{bytes_of}
use birdwatcher.Kv.Etcd.{KvError, multi_save}
use birdwatcher.Kv.Etcd.Keys.{lookup}
use birdwatcher.Kv.Backup.{BackupMeta}
use birdwatcher.Kv.Backup.Complete.{frame, frames}
use birdwatcher.Kv.Restore.{restore_from_v1_file, restore_etcd_from_back_v2}
use birdwatcher.Kv.Restore.FirstFormat.{restore_from_v1_file-frames}
use birdwatcher.Kv.Restore.Orders.{or_else}
use birdwatcher.Kv.Restore.RoundTrip.{restore-backup}

abbrev entry_of : List ℕ → Option Pair
entry_of [] = none
entry_of (n ∷ bs) = some (record { key = take n bs; value = drop n bs })

-- The second batch is saved before the first.
abbrev second_first : List (List Pair) → List (List Pair)
second_first [] = []
second_first (a ∷ []) = a ∷ []
second_first (a ∷ b ∷ rest) = b ∷ a ∷ rest

second_first-perm : (batches : List (List Pair)) → Permᴰ batches (second_first batches)
second_first-perm [] = Permᴰ.nil
second_first-perm (a ∷ []) = Permᴰ.refl (a ∷ [])
second_first-perm (a ∷ b ∷ rest) = Permᴰ.swap refl refl

abbrev empty : memory.Store
empty = ([], tt)

abbrev meta : BackupMeta
meta = record { cnt = 3; instance_path = 97 ∷ []; meta_path = [] }

not_empty : {n : ℕ} → suc n ≢ 0
not_empty e = absurd (omega (arith, e))

restore-backup_example :
    (t : memory.Store) × (restore_etcd_from_back_v2 entry_of
        (multi_save memory [])
        second_first
        false
        4
        (some meta)
        (frames bytes_of store.0 ++ (frame [] ++ []))
        empty
      ≡ some (t, ok (97 ∷ [])))
    × ((k : List ℕ) → lookup k t.0 ≡ or_else (lookup k store.0) none)
restore-backup_example =
    restore-backup memory [] memory-IsEtcd (λ s qs. (_, refl)) entry_of bytes_of second_first false
      4 meta store.0 [] empty second_first-perm (λ e. absurd (omega (arith, e))) store.1
      (
        (refl, not_empty, omega arith),
        ((refl, not_empty, omega arith), ((refl, not_empty, omega arith), tt)),
      )
      (omega arith)

abbrev put_into : List ℕ → List ℕ → List Pair → Result KvError (List Pair)
put_into k v ps = ok (put_pair k v ps)

-- The file of three entries, into an empty store
restore_from_v1_file-frames_example :
    restore_from_v1_file entry_of put_into 4 3 (frames bytes_of store.0) [] ≡ ok store.0
restore_from_v1_file-frames_example =
    restore_from_v1_file-frames entry_of put_into bytes_of 4 3 store.0 [] refl
      ((refl, omega arith), ((refl, omega arith), ((refl, omega arith), tt))) (omega arith)

-- ===== src/Kv/Restore.antt =====
-- states/etcd_restore.go: restoreFromV1File and restoreEtcdFromBackV2; states/etcd_backup.go:
-- readBackupBytes. proto.Unmarshal of an entry and the calls that save are parameters. There is
-- memory for a message of any length.
pub mod Frames
pub mod FirstFormat
pub mod Orders
pub mod RoundTrip
use birdwatcher.Base.{
  ℕ, zero, suc, ◌+◌, Bool, true, false, not, Option, none, some, List, [], ◌∷◌, ◌++◌, length, ◌==◌,
  leb, if◌then◌else◌, Result, ok, fail, panic, ◌>>=◌,
}
use birdwatcher.Binlog.Bytes.{ReadError, eof, read_full, little_endian}
use birdwatcher.Kv.Client.{Pair}
use birdwatcher.Kv.Backup.{BackupMeta}
use birdwatcher.Kv.Etcd.{KvError, keys_of, values_of}

-- `unfinished` is no error of the code: the fuel of a loop is spent.
pub data RestoreError : Type 0 where
  read_error : ReadError → RestoreError
  save_error : KvError → RestoreError
  header_error unfinished : RestoreError

-- readBackupBytes: the bytes of a message, and what is left.
unfoldable pub read_backup_bytes : List ℕ → Result ReadError (List ℕ × List ℕ)
unfolding read_full little_endian
read_backup_bytes rd = do (lb, rd) ← read_full 8 rd; read_full (little_endian lb) rd

-- What the reading goroutine sends: the batches, and at the end an error or none.
pub record Sent : Type 0 where
  pub batches : List (List Pair)
  pub error : Option RestoreError

abbrev pub batch_num : ℕ
batch_num = 10

-- The deferred function sends what is left of a batch.
abbrev pub flush : List Pair → Option RestoreError → Sent
flush [] e = record { batches = []; error = e }
flush (p ∷ ps) e = record { batches = (p ∷ ps) ∷ []; error = e }

abbrev pub send : List Pair → Option Sent → Option Sent
send batch none = none
send batch (some sent) = some (record sent { batches = batch ∷ sent.batches })

-- proto.Unmarshal of a KeyDataPair; an entry that it refuses is skipped.
module _ (unmarshal : List ℕ → Option Pair) where
  module _ {Store : Type 0} (save : List ℕ → List ℕ → Store → Result KvError Store) where
    abbrev pub saved : Result KvError Store → Result RestoreError Store
    saved (ok s) = ok s
    saved (fail e) = fail (save_error e)
    saved panic = panic

    -- What is done with a message, before the rest of the loop. The progress in percent divides by the
    -- number of entries that the header announces.
    unfoldable pub v1_entry :
        (Store → Result RestoreError Store) → ℕ → Option Pair → Store → Result RestoreError Store
    v1_entry next entries none s = next s
    v1_entry next entries (some entry) s = saved (save entry.key entry.value s) >>= λ s.
        elim (entries == 0) [ true ↦ panic | false ↦ next s ]

    unfoldable pub v1_turn :
        (List ℕ → Store → Result RestoreError Store)
        → ℕ
        → Result ReadError (List ℕ × List ℕ)
        → Store
        → Result RestoreError Store
    unfolding v1_entry read_full little_endian
    v1_turn next entries (fail eof) s = ok s
    v1_turn next entries (fail e) s = fail (read_error e)
    v1_turn next entries panic s = panic
    v1_turn next entries (ok (lb, rd)) s = elim (read_full (little_endian lb) rd) [
      | ok message ↦ v1_entry (next message.1) entries (unmarshal message.0) s
      | fail e ↦ fail (read_error e)
      | panic ↦ panic
    ]

    unfoldable pub restore_from_v1_file : ℕ → ℕ → List ℕ → Store → Result RestoreError Store
    unfolding v1_turn read_full
    restore_from_v1_file zero entries rd s = fail unfinished
    restore_from_v1_file (suc fuel) entries rd s =
        v1_turn (λ rd s. restore_from_v1_file fuel entries rd s) entries (read_full 8 rd) s

  -- A message that is no stopper. The progress in percent divides by the count of the header.
  unfoldable pub v2_entry : (List Pair → Option Sent) → ℕ → Option Pair → List Pair → Option Sent
  v2_entry next cnt none batch = next batch
  v2_entry next cnt (some entry) batch = elim (cnt == 0) [
    | true ↦ none
    | false ↦ elim (leb batch_num (length (batch ++ (entry ∷ [])))) [
      | true ↦ send (batch ++ (entry ∷ [])) (next [])
      | false ↦ next (batch ++ (entry ∷ []))
    ]
  ]

  -- `none` is a panic.
  unfoldable pub v2_turn :
      (List ℕ → List Pair → Option Sent)
      → ℕ
      → Result ReadError (List ℕ × List ℕ)
      → List Pair
      → Option Sent
  unfolding v2_entry read_full little_endian
  v2_turn next cnt (fail eof) batch = some (flush batch none)
  v2_turn next cnt (fail e) batch = some (flush batch (some (read_error e)))
  v2_turn next cnt panic batch = none
  v2_turn next cnt (ok (lb, rd)) batch = elim (little_endian lb == 0) [
    | true ↦ some (flush batch none)
    | false ↦ elim (read_full (little_endian lb) rd) [
      | ok message ↦ v2_entry (next message.1) cnt (unmarshal message.0) batch
      | fail e ↦ some (flush batch (some (read_error e)))
      | panic ↦ none
    ]
  ]

  unfoldable pub v2_loop : ℕ → ℕ → List ℕ → List Pair → Option Sent
  unfolding v2_turn read_full
  v2_loop zero cnt rd batch = some (flush batch (some unfinished))
  v2_loop (suc fuel) cnt rd batch =
      v2_turn (λ rd batch. v2_loop fuel cnt rd batch) cnt (read_full 8 rd) batch

  -- The workers and the main goroutine share the variable of the error. `schedule` gives the order in
  -- which the batches come to be saved, and `main_last` says whether the main goroutine is the last to
  -- set the variable, to the error of the reading.
  module _ {Store : Type 0}
      (multi_save : List (List ℕ) → List (List ℕ) → Store → Result KvError Store) where
    -- The store after some batches, and what the last of them gives to the variable; `none` is a panic.
    abbrev pub work :
        List (List Pair) → Store → Option RestoreError → Option (Store × Option RestoreError)
    work [] s err = some (s, err)
    work (batch ∷ batches) s err = elim (multi_save (keys_of batch) (values_of batch) s) [
      | ok t ↦ work batches t none
      | fail e ↦ work batches s (some (save_error e))
      | panic ↦ none
    ]

    abbrev pub instance_or_error :
        List ℕ → Store → Option RestoreError → Option (Store × Result RestoreError (List ℕ))
    instance_or_error instance_path s none = some (s, ok instance_path)
    instance_or_error instance_path s (some e) = some (s, fail e)

    -- What the JSON of the header says, if it can be read and the count in it is a number.
    unfoldable pub restore_etcd_from_back_v2 :
        (List (List Pair) → List (List Pair))
        → Bool
        → ℕ
        → Option BackupMeta
        → List ℕ
        → Store
        → Option (Store × Result RestoreError (List ℕ))
    unfolding v2_loop
    restore_etcd_from_back_v2 schedule main_last fuel none rd s = some (s, fail header_error)
    restore_etcd_from_back_v2 schedule main_last fuel (some meta) rd s =
        elim (v2_loop fuel meta.cnt rd []) [
          | none ↦ none
          | some sent ↦ elim (work (schedule sent.batches) s sent.error) [
            | none ↦ none
            | some x ↦
                instance_or_error meta.instance_path x.0 (if main_last then sent.error else x.1)
          ]
        ]

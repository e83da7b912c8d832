-- ===== src/Storage/Batches.antt =====
-- storage/common/binlog_selector.go and batch_iterator.go: the files of a segment, batch by batch.
pub mod Selection
use Prim.Native.String.{String}
use birdwatcher.Base.{
  ℕ, ◌+◌, ◌^◌, Bool, true, false, not, ◌&&◌, ◌||◌, Option, none, some, List, [], ◌∷◌, leb, ltb,
  ◌==◌, get_elem?, if◌then◌else◌, Result, ok, fail, panic, ◌>>=◌, ◌>>=?◌,
}
use birdwatcher.Base.Dict.{set}

-- models.FieldBinlog: the paths of a field's log files, one for each batch. An id is the bit pattern
-- of an int64.
pub record FieldBinlog : Type 0 where
  pub field_id : ℕ
  pub log_paths : List String

-- The three implementations of BinlogSelector, with their sets of field ids.
pub data BinlogSelector : Type 0 where
  field_id_selector : List ℕ → BinlogSelector
  all_selector : BinlogSelector
  matching_wide_column_selector : List ℕ → BinlogSelector

abbrev pub contains : List ℕ → ℕ → Bool
contains [] k = false
contains (j ∷ ids) k = (j == k) || contains ids k

-- `id >= 100`, of an int64.
abbrev pub is_user_field : ℕ → Bool
is_user_field id = leb 100 id && ltb id (2 ^ 63)

-- Whether the loop of a selector takes a field, where it does not `continue`.
unfoldable pub keeps : BinlogSelector → ℕ → Bool
keeps (field_id_selector ids) id = contains ids id
keeps all_selector id = true
keeps (matching_wide_column_selector ids) id = not (is_user_field id && not (contains ids id))

-- The loop of SelectBinlogs; `fail tt` is io.EOF, which also a field that is not taken brings on.
unfoldable pub select_loop :
    (ℕ → Bool) → ℕ → List (ℕ × String) → List FieldBinlog → Result (Unit {0}) (List (ℕ × String))
select_loop keep idx result [] = ok result
select_loop keep idx result (binlog ∷ binlogs) = elim (get_elem? binlog.log_paths idx) [
  | none ↦ fail tt
  | some path ↦
      let taken = if keep binlog.field_id then set binlog.field_id path result else result in
      select_loop keep idx taken binlogs
]

-- SelectBinlogs: the first check is missing in AllSelector.
unfoldable pub select_binlogs :
    BinlogSelector → List FieldBinlog → ℕ → Result (Unit {0}) (List (ℕ × String))
select_binlogs (field_id_selector ids) [] idx = fail tt
select_binlogs (field_id_selector ids) (binlog ∷ binlogs) idx =
    select_loop (keeps (field_id_selector ids)) idx [] (binlog ∷ binlogs)
select_binlogs all_selector binlogs idx = select_loop (keeps all_selector) idx [] binlogs
select_binlogs (matching_wide_column_selector ids) [] idx = fail tt
select_binlogs (matching_wide_column_selector ids) (binlog ∷ binlogs) idx =
    select_loop (keeps (matching_wide_column_selector ids)) idx [] (binlog ∷ binlogs)

pub record BatchInfo {ℓ} (R : Type ℓ) : Type ℓ where
  pub segment_id : ℕ
  pub batch_idx : ℕ
  pub output : List (ℕ × R)
  pub target_binlogs : List (ℕ × String)

pub record SegmentBatchIterator : Type 0 where
  pub segment_id : ℕ
  pub binlogs : List FieldBinlog
  pub selector : BinlogSelector
  pub current_batch : ℕ

-- NewSegmentBatchIterator
unfoldable pub new_segment_batch_iterator :
    ℕ → List FieldBinlog → BinlogSelector → SegmentBatchIterator
new_segment_batch_iterator id binlogs selector = record {
  segment_id = id;
  binlogs = binlogs;
  selector = selector;
  current_batch = 0;
}

-- NewSegmentReader: the selector by the storage version of the segment, `fail tt` for an unknown one.
unfoldable pub new_segment_reader :
    ℕ → ℕ → List FieldBinlog → List ℕ → Result (Unit {0}) SegmentBatchIterator
unfolding new_segment_batch_iterator
new_segment_reader version id binlogs fields =
    if version == 0 || version == 1
    then ok (new_segment_batch_iterator id binlogs (field_id_selector fields))
    else if version == 2
    then ok (new_segment_batch_iterator id binlogs (matching_wide_column_selector fields))
    else fail tt

pub data BatchError : Type 0 where
  end_of_files open_failed : BatchError

abbrev pub or_eof : Result (Unit {0}) (List (ℕ × String)) → Result BatchError (List (ℕ × String))
or_eof (ok targets) = ok targets
or_eof (fail e) = fail end_of_files
or_eof panic = panic

abbrev pub or_open_failed {ℓ} :
    {R : Type ℓ} → Option (List (ℕ × R)) → Result BatchError (List (ℕ × R))
or_open_failed none = fail open_failed
or_open_failed (some files) = ok files

module _ {ℓ} {R : Type ℓ} (translator : String → Option R) where
  -- The loop over the selected files, which stops at one that does not open.
  unfoldable pub open_all : List (ℕ × String) → Option (List (ℕ × R))
  open_all [] = some []
  open_all ((id, path) ∷ targets) =
      translator path >>=? λ file. open_all targets >>=? λ files. some ((id, file) ∷ files)

  -- NextBatch: the batch counts only if it was opened.
  unfoldable pub next_batch :
      SegmentBatchIterator → Result BatchError (BatchInfo R × SegmentBatchIterator)
  next_batch it = do
    targets ← or_eof (select_binlogs it.selector it.binlogs it.current_batch)
    files ← or_open_failed (open_all targets)
    ok (
      record {
        segment_id = it.segment_id;
        batch_idx = it.current_batch;
        output = files;
        target_binlogs = targets;
      },
      record it { current_batch = it.current_batch + 1 },
    )

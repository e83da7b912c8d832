-- ===== src/Storage/ScanTests.antt =====
-- Runs of the selectors, the batches and the tasks, and each theorem at one of them.
use Prim.Native.String.{String}
use birdwatcher.Base.{ℕ, ◌+◌, ◌%◌, ◌^◌, ◌≡◌, refl, some, List, [], ◌∷◌, ok, length, select, ltb}
use birdwatcher.Base.Int.{pos}
use birdwatcher.Base.Word.{add64}
use birdwatcher.Storage.PrimaryKey.{PrimaryKey, int64_pk, eq, int64_eq}
use birdwatcher.Storage.Batches.{
  FieldBinlog, BinlogSelector, field_id_selector, all_selector, keeps, select_loop, select_binlogs,
  BatchInfo, SegmentBatchIterator, next_batch, open_all,
}
use birdwatcher.Storage.Batches.Selection.{Selected, select_binlogs-Selected, batches}
use birdwatcher.Storage.Tasks.{
  new_dedup_task, is_seen, dedup_scan, increase, LocateTask, Entry, deltalog_match, scan_all,
  count_scan,
}
use birdwatcher.Storage.Tasks.Duplicates.{
  dedup_all, repeats, occurrences, as_number, Different, dedup_counts,
}
use birdwatcher.Storage.Tasks.Filtering.{run_task, outlives, scan_all-select}

abbrev key_field : FieldBinlog
key_field = record { field_id = 100; log_paths = "k0" ∷ "k1" ∷ [] }

abbrev ts_field : FieldBinlog
ts_field = record { field_id = 1; log_paths = "t0" ∷ "t1" ∷ [] }

abbrev selector : BinlogSelector
selector = field_id_selector (100 ∷ [])

select_first : select_binlogs selector (ts_field ∷ key_field ∷ []) 0 ≡ ok ((100, "k0") ∷ [])
unfolding select_binlogs select_loop keeps
select_first = refl

-- Without a field the selector of all fields finds no end.
select_all_empty : select_binlogs all_selector [] 7 ≡ ok []
unfolding select_binlogs select_loop
select_all_empty = refl

select_binlogs-Selected_example :
    Selected
      (keeps selector)
      1
      []
      (ts_field ∷ key_field ∷ [])
      (select_binlogs selector (ts_field ∷ key_field ∷ []) 1)
select_binlogs-Selected_example = select_binlogs-Selected selector ts_field (key_field ∷ []) 1

abbrev iterator : SegmentBatchIterator
iterator = record {
  segment_id = 9;
  binlogs = ts_field ∷ key_field ∷ [];
  selector = selector;
  current_batch = 0;
}

abbrev info : ℕ → String → BatchInfo String
info idx path = record {
  segment_id = 9;
  batch_idx = idx;
  output = (100, path) ∷ [];
  target_binlogs = (100, path) ∷ [];
}

two_batches :
    batches (λ path. some path) 2 iterator
    ≡ ok (info 0 "k0" ∷ info 1 "k1" ∷ [], record iterator { current_batch = 2 })
unfolding next_batch open_all select_binlogs select_loop keeps
two_batches = refl

abbrev key : ℕ → PrimaryKey
key n = int64_pk (pos n)

abbrev keys : List PrimaryKey
keys = key 3 ∷ key 4 ∷ key 3 ∷ key 3 ∷ []

seen_again : (dedup_all new_dedup_task keys).dedup_result ≡ (key 3, 2) ∷ []
unfolding new_dedup_task dedup_scan increase add64 eq int64_eq
seen_again = refl

dedup_counts_example :
    Different (dedup_all new_dedup_task keys).ids
    × (is_seen (key 3) (dedup_all new_dedup_task keys).ids ≡ ltb 0 (occurrences (key 3) keys))
    × (((dedup_all new_dedup_task keys).counter + length (dedup_all new_dedup_task keys).ids)
          % 2 ^ 64
        ≡ 4 % 2 ^ 64)
    × ((repeats (key 3) (dedup_all new_dedup_task keys).dedup_result
            + as_number (is_seen (key 3) (dedup_all new_dedup_task keys).ids))
          % 2 ^ 64
        ≡ occurrences (key 3) keys % 2 ^ 64)
dedup_counts_example = dedup_counts keys (key 3)

abbrev locate : LocateTask
locate = record { limit = 2; counter = 0; found = [] }

abbrev entries : List Entry
entries = record { pk = key 3; ts = some 10 } ∷ record { pk = key 4; ts = some 10 } ∷ []

scan_all-select_example :
    scan_all (deltalog_match ((key 3, 20) ∷ []) ∷ []) (λ n pk. ok (count_scan n pk)) 0 entries
    ≡ run_task (λ n pk. ok (count_scan n pk)) 0 (select (outlives ((key 3, 20) ∷ [])) entries)
scan_all-select_example =
    scan_all-select (λ n pk. ok (count_scan n pk)) ((key 3, 20) ∷ []) 0 entries
      ((10, refl), ((10, refl), tt))

-- ===== src/Storage/Tasks.antt =====
-- storage/tasks: what a scan does with the entries it is handed, and storage/segment_iterator.go and
-- entry_filter.go: which entries those are.
pub mod Duplicates
pub mod Filtering
use birdwatcher.Base.{
  ℕ, zero, suc, ◌+◌, ◌-◌, ◌^◌, Bool, true, false, ◌&&◌, ◌||◌, Option, none, some, List, [], ◌∷◌,
  ◌++◌, leb, ltb, ◌==◌, if◌then◌else◌, Result, ok, fail, panic, ◌>>=◌,
}
use birdwatcher.Base.Word.{add64}
use birdwatcher.Storage.PrimaryKey.{PrimaryKey, eq}

-- CountTask.Scan, on the counter.
unfoldable pub count_scan : ℕ → PrimaryKey → ℕ
count_scan counter pk = add64 counter 1

-- DedupTask: the keys seen, and how often each was seen again. The Go maps hold the value of a key,
-- which has the key's type with it, and so are the keys here.
pub record DedupTask : Type 0 where
  pub ids : List PrimaryKey
  pub dedup_result : List (PrimaryKey × ℕ)
  pub counter : ℕ

unfoldable pub new_dedup_task : DedupTask
new_dedup_task = record { ids = []; dedup_result = []; counter = 0 }

abbrev pub is_seen : PrimaryKey → List PrimaryKey → Bool
is_seen pk [] = false
is_seen pk (id ∷ ids) = eq id pk || is_seen pk ids

-- LoadOrStore of a new counter, and Inc.
unfoldable pub increase : PrimaryKey → List (PrimaryKey × ℕ) → List (PrimaryKey × ℕ)
increase pk [] = (pk, 1) ∷ []
increase pk ((k, n) ∷ result) =
    if eq k pk then (k, add64 n 1) ∷ result else (k, n) ∷ increase pk result

unfoldable pub dedup_scan : DedupTask → PrimaryKey → DedupTask
dedup_scan task pk =
    if is_seen pk task.ids
    then record task {
      counter = add64 task.counter 1;
      dedup_result = increase pk task.dedup_result;
    }
    else record task { ids = pk ∷ task.ids }

-- LocateTask: the entries printed so far. The limit is an int64, none if it is not above 0.
pub record LocateTask : Type 0 where
  pub limit : ℕ
  pub counter : ℕ
  pub found : List PrimaryKey

-- `fail tt` is io.EOF, which ends the scan; the counter has then moved on.
unfoldable pub locate_scan : LocateTask → PrimaryKey → Bool × LocateTask
locate_scan task pk =
    let idx = add64 task.counter 1 in
    if ltb task.limit idx && (ltb 0 task.limit && ltb task.limit (2 ^ 63))
    then (false, record task { counter = idx })
    else (true, record task { counter = idx; found = task.found ++ (pk ∷ []) })

-- A scanned entry: its key and its values, of which only the one of field 1 matters here, the
-- timestamp as an int64; `none` if it is missing or of another type.
pub record Entry : Type 0 where
  pub pk : PrimaryKey
  pub ts : Option ℕ

-- An EntryFilter: whether an entry matches, or an error.
abbrev pub EntryFilter : Type 0
EntryFilter = PrimaryKey → ℕ → Result (Unit {0}) Bool

-- DeltalogFilter.Match on the map of deletions, a key that is missing being deleted at 0.
unfoldable pub deletion_ts : List (PrimaryKey × ℕ) → PrimaryKey → ℕ
deletion_ts [] pk = 0
deletion_ts ((k, ts) ∷ entries) pk = if eq k pk then ts else deletion_ts entries pk

unfoldable pub deltalog_match : List (PrimaryKey × ℕ) → EntryFilter
deltalog_match entries pk ts = ok (leb (deletion_ts entries pk) ts)

-- The loop of SegmentIterator.scan: `true` if no filter turned the entry away. The timestamp is
-- asserted to be an int64 for each filter.
unfoldable pub filter_loop : List EntryFilter → Entry → Result (Unit {0}) Bool
filter_loop [] entry = ok true
filter_loop (filter ∷ filters) entry = elim entry.ts [
  | none ↦ panic
  | some ts ↦
      let rest = filter_loop filters entry in
      filter entry.pk ts >>= λ match'. if match' then rest else ok false
]

-- SegmentIterator.scan with a task that has a state and an error.
unfoldable pub scan {ℓ} :
    {S : Type ℓ}
    → List EntryFilter
    → (S → PrimaryKey → Result (Unit {0}) S)
    → S
    → Entry
    → Result (Unit {0}) S
scan filters task s entry =
    filter_loop filters entry >>= λ matches. if matches then task s entry.pk else ok s

-- The loop of Range over the entries of a record batch, until the first error.
unfoldable pub scan_all {ℓ} :
    {S : Type ℓ}
    → List EntryFilter
    → (S → PrimaryKey → Result (Unit {0}) S)
    → S
    → List Entry
    → Result (Unit {0}) S
scan_all filters task s [] = ok s
scan_all filters task s (entry ∷ entries) = do
  s' ← scan filters task s entry
  scan_all filters task s' entries

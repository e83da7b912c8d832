-- ===== src/Binlog/EventData.antt =====
-- storage/binlog/v1/event_data.go: the fixed parts of the events. The seven types of event that are
-- not descriptors have the same two fields and the same methods, one struct each in the source.
use birdwatcher.Base.{
  ℕ, zero, suc, ◌<◌, ◌≡◌, ◌⊎◌, inl, inr, refl, false, List, [], ◌∷◌, ◌++◌, length, ◌==◌,
  if◌then◌else◌, Result, ok, fail, ◌>>=◌, >>=_of_ok, arith,
}
use birdwatcher.Binlog.Bytes.{ReadError, Fields, binary_size, binary_write, binary_read}
use birdwatcher.Binlog.Bytes.RoundTrip.{Fits, length-binary_write, binary_read-write}
use birdwatcher.Binlog.Header.{
  EventTypeCode, descriptor_event_type, insert_event_type, delete_event_type,
  create_collection_event_type, drop_collection_event_type, create_partition_event_type,
  drop_partition_event_type, index_file_event_type, minus_one,
}

-- insertEventData to indexFileEventData
pub record EventData : Type 0 where
  pub start_timestamp : ℕ
  pub end_timestamp : ℕ

abbrev pub event_data_widths : List ℕ
event_data_widths = 8 ∷ 8 ∷ []

abbrev pub event_data_fields : EventData → Fields event_data_widths
event_data_fields data' = (data'.start_timestamp, (data'.end_timestamp, tt))

abbrev pub event_data_of : Fields event_data_widths → EventData
event_data_of (start, (end, none')) = record { start_timestamp = start; end_timestamp = end }

unfoldable pub new_event_data : EventData
new_event_data = record { start_timestamp = 0; end_timestamp = 0 }

unfoldable pub set_event_timestamp : EventData → ℕ → ℕ → EventData
set_event_timestamp data' start end = record data' { start_timestamp = start; end_timestamp = end }

unfoldable pub get_event_data_fix_part_size : EventData → ℕ
get_event_data_fix_part_size data' = binary_size event_data_widths

-- "hasn't set start time stamp", "hasn't set end time stamp"
pub data WriteError : Type 0 where
  start_unset end_unset : WriteError

unfoldable pub write_event_data : EventData → Result WriteError (List ℕ)
write_event_data data' =
    if data'.start_timestamp == 0
    then fail start_unset
    else if data'.end_timestamp == 0
    then fail end_unset
    else ok (binary_write event_data_widths (event_data_fields data'))

-- readInsertEventDataFixPart to ReadIndexFileEventDataFixPart
unfoldable pub read_event_data_fix_part : List ℕ → Result ReadError (EventData × List ℕ)
read_event_data_fix_part bs = do
  (fields, rest) ← binary_read event_data_widths bs
  ok (event_data_of fields, rest)

-- DescriptorEventDataFixPart, of six 64-bit fields and an int32.
abbrev pub fix_part_widths : List ℕ
fix_part_widths = 8 ∷ 8 ∷ 8 ∷ 8 ∷ 8 ∷ 8 ∷ 4 ∷ []

unfoldable pub get_event_fix_part_size : EventTypeCode → ℕ
get_event_fix_part_size code =
    if code == descriptor_event_type
    then binary_size fix_part_widths
    else if code == insert_event_type
    then get_event_data_fix_part_size new_event_data
    else if code == delete_event_type
    then get_event_data_fix_part_size new_event_data
    else if code == create_collection_event_type
    then get_event_data_fix_part_size new_event_data
    else if code == drop_collection_event_type
    then get_event_data_fix_part_size new_event_data
    else if code == create_partition_event_type
    then get_event_data_fix_part_size new_event_data
    else if code == drop_partition_event_type
    then get_event_data_fix_part_size new_event_data
    else if code == index_file_event_type
    then get_event_data_fix_part_size new_event_data
    else minus_one

zero_cases : (n : ℕ) → (n ≡ 0) ⊎ ((0 < n) × ((n == 0) ≡ false))
zero_cases zero = inl refl
zero_cases (suc n) = inr (omega arith, ground arith)

-- Event data that its Go types can hold is written exactly if both timestamps are set; it is
-- then as long as its size says, and is read back as it was, whatever follows it. An unset
-- timestamp is an error that names it.
pub write_event_data_cases :
    (data' : EventData) (rest : List ℕ)
    → Fits event_data_widths (event_data_fields data')
    → ((0 < data'.start_timestamp)
        × (0 < data'.end_timestamp)
        × ((bs : List ℕ) × (write_event_data data' ≡ ok bs)
            × (length bs ≡ get_event_data_fix_part_size data')
            × (read_event_data_fix_part (bs ++ rest) ≡ ok (data', rest))))
      ⊎ ((data'.start_timestamp ≡ 0) × (write_event_data data' ≡ fail start_unset))
      ⊎ ((0 < data'.start_timestamp)
          × (data'.end_timestamp ≡ 0)
          × (write_event_data data' ≡ fail end_unset))
unfolding write_event_data read_event_data_fix_part get_event_data_fix_part_size
write_event_data_cases data' rest h = elim (zero_cases data'.start_timestamp) [
  | inl unset ↦ inr (inl (unset, rw unset))
  | inr (some_start, e₁) ↦ elim (zero_cases data'.end_timestamp) [
    | inl unset ↦ inr (inr (some_start, unset, rw (e₁, unset)))
    | inr (some_end, e₂) ↦ inl (
      some_start,
      some_end,
      (
        binary_write event_data_widths (event_data_fields data'),
        rw (e₁, e₂),
        length-binary_write event_data_widths (event_data_fields data'),
        >>=_of_ok _ (binary_read-write event_data_widths (event_data_fields data') rest h),
      ),
    )
  ]
]

-- ===== src/Binlog/Descriptor.antt =====
-- storage/binlog/v1/event_data.go: the data of a descriptor event, with its extras in JSON.
pub mod RoundTrip
use birdwatcher.Base.{
  ℕ, zero, suc, ◌+◌, ◌-◌, ◌*◌, ◌%◌, ◌^◌, Bool, true, false, ◌&&◌, Option, none, some, List, [], ◌∷◌,
  ◌++◌, length, ◌==◌, leb, ltb, if◌then◌else◌, is_some, Result, ok, fail, panic, ◌>>=◌, ◌>>=?◌,
}
use birdwatcher.Binlog.Bytes.{
  ReadError, bad_json, Fields, binary_size, binary_write, binary_read, read_full,
}
use birdwatcher.Binlog.Header.{EventTypeCode, event_type_end, descriptor_event_type, minus_one}
use birdwatcher.Binlog.EventData.{fix_part_widths, get_event_fix_part_size}

-- DescriptorEventDataFixPart, as bit patterns.
pub record FixPart : Type 0 where
  pub collection_id : ℕ
  pub partition_id : ℕ
  pub segment_id : ℕ
  pub field_id : ℕ
  pub start_timestamp : ℕ
  pub end_timestamp : ℕ
  pub payload_data_type : ℕ

abbrev pub fix_part_fields : FixPart → Fields fix_part_widths
fix_part_fields part = (
  part.collection_id,
  (
    part.partition_id,
    (
      part.segment_id,
      (part.field_id, (part.start_timestamp, (part.end_timestamp, (part.payload_data_type, tt)))),
    ),
  ),
)

abbrev pub fix_part_of : Fields fix_part_widths → FixPart
fix_part_of (collection, (partition, (segment, (field, (start, (end, (type, last))))))) = record {
  collection_id = collection;
  partition_id = partition;
  segment_id = segment;
  field_id = field;
  start_timestamp = start;
  end_timestamp = end;
  payload_data_type = type;
}

-- A value of the map of extras: a string, or another value.
pub data JsonValue : Type 0 where
  json_string : List ℕ → JsonValue
  json_other : ℕ → JsonValue

-- map[string]interface{}, a string as its bytes.
abbrev pub Extras : Type 0
Extras = List ℕ → Option JsonValue

-- encoding/json on the extras; `none` is an error.
pub record Json : Type 0 where
  pub marshal : Extras → Option (List ℕ)
  pub unmarshal : List ℕ → Option Extras

-- `extra_length` is an int32.
pub record DescriptorEventData : Type 0 where
  pub fix_part : FixPart
  pub extra_length : ℕ
  pub extra_bytes : List ℕ
  pub extras : Extras
  pub post_header_lengths : List ℕ

unfoldable pub set_event_time_stamp : DescriptorEventData → ℕ → ℕ → DescriptorEventData
set_event_time_stamp data' start end = record data' {
  fix_part = record data'.fix_part { start_timestamp = start; end_timestamp = end };
}

-- The sizes are int32.
unfoldable pub get_memory_usage_in_bytes : DescriptorEventData → ℕ
get_memory_usage_in_bytes data' =
    (binary_size fix_part_widths + length data'.post_header_lengths + 4 + data'.extra_length)
    % 2 ^ 32

abbrev pub same_bytes : List ℕ → List ℕ → Bool
same_bytes [] [] = true
same_bytes [] (y ∷ ys) = false
same_bytes (x ∷ xs) [] = false
same_bytes (x ∷ xs) (y ∷ ys) = (x == y) && same_bytes xs ys

unfoldable pub add_extra : DescriptorEventData → List ℕ → JsonValue → DescriptorEventData
add_extra data' k v = record data' {
  extras = λ key. if same_bytes key k then some v else data'.extras key;
}

-- The bytes of "original_size".
abbrev pub original_size_key : List ℕ
original_size_key = 111 ∷ 114 ∷ 105 ∷ 103 ∷ 105 ∷ 110 ∷ 97 ∷ 108 ∷ 95 ∷ 115 ∷ 105 ∷ 122 ∷ 101 ∷ []

-- The value of a run of decimal digits behind `n`.
unfoldable pub digits : ℕ → List ℕ → Option ℕ
digits n [] = some n
digits n (c ∷ cs) =
    let rest = digits (10 * n + (c - 48)) cs in if leb 48 c && leb c 57 then rest else none

-- One digit at least, and a value of at most `limit`.
abbrev pub number_up_to : ℕ → List ℕ → Bool
number_up_to limit [] = false
number_up_to limit (c ∷ cs) = elim (digits 0 (c ∷ cs)) [ none ↦ false | some n ↦ leb n limit ]

-- Whether strconv.Atoi takes a string: digits behind at most one sign, within the range of int.
unfoldable pub is_int : List ℕ → Bool
is_int [] = false
is_int (c ∷ cs) =
    if c == 45
    then number_up_to (2 ^ 63) cs
    else if c == 43
    then number_up_to (2 ^ 63 - 1) cs
    else number_up_to (2 ^ 63 - 1) (c ∷ cs)

pub data FinishError : Type 0 where
  not_in_extra not_a_string not_an_int marshal_failed : FinishError

-- The end of FinishExtra, which assigns what json.Marshal gives also when it fails.
abbrev pub assign_extra :
    DescriptorEventData → Option (List ℕ) → Option FinishError × DescriptorEventData
assign_extra data' none = (some marshal_failed, record data' { extra_bytes = [] })
assign_extra data' (some bs) =
    (none, record data' { extra_bytes = bs; extra_length = length bs % 2 ^ 32 })

-- FinishExtra: the error, if any, and the data afterwards.
unfoldable pub finish_extra : Json → DescriptorEventData → Option FinishError × DescriptorEventData
finish_extra json data' = elim (data'.extras original_size_key) [
  | none ↦ (some not_in_extra, data')
  | some (json_other v) ↦ (some not_a_string, data')
  | some (json_string size) ↦
      if is_int size
      then assign_extra data' (json.marshal data'.extras)
      else (some not_an_int, data')
]

-- Write to a buffer in memory.
unfoldable pub write : DescriptorEventData → List ℕ
write data' =
    binary_write fix_part_widths (fix_part_fields data'.fix_part)
    ++ (data'.post_header_lengths
        ++ (binary_write (4 ∷ []) (data'.extra_length, tt) ++ data'.extra_bytes))

-- The loop over the event types from `code`, `rounds` of them.
unfoldable pub post_header_lengths_loop : ℕ → EventTypeCode → List ℕ
post_header_lengths_loop zero code = []
post_header_lengths_loop (suc rounds) code =
    get_event_fix_part_size code % 256 ∷ post_header_lengths_loop rounds (code + 1)

-- newDescriptorEventData; the ids are -1.
unfoldable pub new_descriptor_event_data : DescriptorEventData
new_descriptor_event_data = record {
  fix_part = record {
    collection_id = 2 ^ 64 - 1;
    partition_id = 2 ^ 64 - 1;
    segment_id = 2 ^ 64 - 1;
    field_id = 2 ^ 64 - 1;
    start_timestamp = 0;
    end_timestamp = 0;
    payload_data_type = minus_one;
  };
  extra_length = 0;
  extra_bytes = [];
  extras = λ key. none;
  post_header_lengths =
      post_header_lengths_loop (event_type_end - descriptor_event_type) descriptor_event_type;
}

-- make([]byte, n) for an int32 `n`, which panics below 0, and the read into it.
abbrev pub read_made : ℕ → List ℕ → Result ReadError (List ℕ × List ℕ)
read_made n bs = if ltb n (2 ^ 31) then read_full n bs else panic

abbrev pub or_bad_json : Option Extras → Result ReadError Extras
or_bad_json none = fail bad_json
or_bad_json (some extras) = ok extras

-- readDescriptorEventData, which reads as many header lengths as a new event has.
unfoldable pub read_descriptor_event_data :
    Json → List ℕ → Result ReadError (DescriptorEventData × List ℕ)
read_descriptor_event_data json bs = do
  (part, bs₁) ← binary_read fix_part_widths bs
  (lengths, bs₂) ← read_full (length new_descriptor_event_data.post_header_lengths) bs₁
  ((n, last), bs₃) ← binary_read (4 ∷ []) bs₂
  (extra, bs₄) ← read_made n bs₃
  extras ← or_bad_json (json.unmarshal extra)
  ok (
    record {
      fix_part = fix_part_of part;
      extra_length = n;
      extra_bytes = extra;
      extras = extras;
      post_header_lengths = lengths;
    },
    bs₄,
  )

-- ===== src/Binlog/Header.antt =====
-- storage/binlog/v1/event_header.go: the header before every event.
use birdwatcher.Base.{
  ℕ, ◌-◌, ◌^◌, ◌≡◌, sym, ap, ◌∙◌, List, [], ◌∷◌, ◌++◌, length, Result, ok, ◌>>=◌, >>=_of_ok, >>=_ok,
}
use birdwatcher.Binlog.Bytes.{ReadError, Fields, binary_size, binary_write, binary_read}
use birdwatcher.Binlog.Bytes.RoundTrip.{
  Fits, AreBytes, length-binary_write, binary_read-write, binary_write-read,
}

-- EventTypeCode, an int8; from `event_type_end` on a code is of no event.
abbrev pub EventTypeCode : Type 0
EventTypeCode = ℕ

abbrev pub descriptor_event_type : EventTypeCode
descriptor_event_type = 0

abbrev pub insert_event_type : EventTypeCode
insert_event_type = 1

abbrev pub delete_event_type : EventTypeCode
delete_event_type = 2

abbrev pub create_collection_event_type : EventTypeCode
create_collection_event_type = 3

abbrev pub drop_collection_event_type : EventTypeCode
drop_collection_event_type = 4

abbrev pub create_partition_event_type : EventTypeCode
create_partition_event_type = 5

abbrev pub drop_partition_event_type : EventTypeCode
drop_partition_event_type = 6

abbrev pub index_file_event_type : EventTypeCode
index_file_event_type = 7

abbrev pub event_type_end : EventTypeCode
event_type_end = 8

-- baseEventHeader; the fields are bit patterns, the lengths of an int32.
pub record BaseEventHeader : Type 0 where
  pub timestamp : ℕ
  pub type_code : EventTypeCode
  pub event_length : ℕ
  pub next_position : ℕ

-- uint64, int8, int32, int32
abbrev pub header_widths : List ℕ
header_widths = 8 ∷ 1 ∷ 4 ∷ 4 ∷ []

abbrev pub header_fields : BaseEventHeader → Fields header_widths
header_fields header =
    (header.timestamp, (header.type_code, (header.event_length, (header.next_position, tt))))

abbrev pub header_of : Fields header_widths → BaseEventHeader
header_of (timestamp, (type_code, (event_length, (next_position, end)))) = record {
  timestamp = timestamp;
  type_code = type_code;
  event_length = event_length;
  next_position = next_position;
}

unfoldable pub get_memory_usage_in_bytes : BaseEventHeader → ℕ
get_memory_usage_in_bytes header = binary_size header_widths

unfoldable pub write : BaseEventHeader → List ℕ
write header = binary_write header_widths (header_fields header)

-- readEventHeader and readDescriptorEventHeader
unfoldable pub read_event_header : List ℕ → Result ReadError (BaseEventHeader × List ℕ)
read_event_header bs = do (fields, rest) ← binary_read header_widths bs; ok (header_of fields, rest)

unfoldable pub new_descriptor_event_header : BaseEventHeader
new_descriptor_event_header = record {
  timestamp = 0;
  type_code = descriptor_event_type;
  event_length = 0;
  next_position = 0;
}

-- -1 as an int32.
abbrev pub minus_one : ℕ
minus_one = 2 ^ 32 - 1

unfoldable pub new_event_header : EventTypeCode → BaseEventHeader
new_event_header code = record {
  timestamp = 0;
  type_code = code;
  event_length = minus_one;
  next_position = minus_one;
}

-- A header of field values that their Go types can hold is read back as it was written, whatever
-- follows it, and takes as many bytes as it says.
pub read_event_header-write :
    (header : BaseEventHeader) (rest : List ℕ)
    → Fits header_widths (header_fields header)
    → (read_event_header (write header ++ rest) ≡ ok (header, rest))
      × (length (write header) ≡ get_memory_usage_in_bytes header)
unfolding read_event_header write get_memory_usage_in_bytes
read_event_header-write header rest h = (
  >>=_of_ok _ (binary_read-write header_widths (header_fields header) rest h),
  length-binary_write header_widths (header_fields header),
)

header_ok-inj :
    {a b : BaseEventHeader × List ℕ}
    → ◌≡◌ {A = Result ReadError (BaseEventHeader × List ℕ)} (ok a) (ok b)
    → a ≡ b
header_ok-inj e = cc

-- What is read as a header from a reader of bytes are the bytes that the header is written as.
write-read_event_header :
    (bs : List ℕ) (header : BaseEventHeader) (rest : List ℕ)
    → AreBytes bs
    → read_event_header bs ≡ ok (header, rest)
    → write header ++ rest ≡ bs
unfolding read_event_header write
write-read_event_header bs header rest h e =
    let ((fields, left), r, same) = >>=_ok (binary_read header_widths bs) _ e in
    let fields_same = header_ok-inj same in
    ap (λ x. binary_write header_widths (header_fields x.0) ++ x.1) (sym fields_same)
    ∙ binary_write-read header_widths bs fields left h r

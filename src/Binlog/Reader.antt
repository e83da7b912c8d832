-- ===== src/Binlog/Reader.antt =====
-- storage/binlog/v1/binlog_reader.go, event_reader.go and index_reader.go: opening a binlog file and
-- reading the payload of an event, and the same in storage/deltalog_reader.go. The Parquet bytes of a
-- payload are left to a library.
pub mod Files
use birdwatcher.Base.{
  ℕ, zero, suc, ◌+◌, ◌-◌, ◌%◌, ◌^◌, Bool, true, false, List, [], ◌∷◌, ◌++◌, length, take, drop,
  ◌==◌, leb, ltb, if◌then◌else◌, Result, ok, fail, panic, ◌>>=◌,
}
use birdwatcher.Base.Word.{sub32}
use birdwatcher.Binlog.Bytes.{
  ReadError, bad_magic, unsupported, Fields, binary_write, binary_read, read_full,
}
use birdwatcher.Binlog.Header.{
  BaseEventHeader, EventTypeCode, insert_event_type, read_event_header, get_memory_usage_in_bytes,
}
use birdwatcher.Binlog.EventData.{EventData, get_event_data_fix_part_size, read_event_data_fix_part}
use birdwatcher.Binlog.Descriptor.{Json, DescriptorEventData, read_descriptor_event_data, read_made}

-- MagicNumberV1, 0xfffabc
abbrev pub magic_number_v1 : ℕ
magic_number_v1 = 16775868

unfoldable pub read_magic_number : List ℕ → Result ReadError (ℕ × List ℕ)
read_magic_number bs = do
  ((n, last), rest) ← binary_read (4 ∷ []) bs
  if n == magic_number_v1 then ok (n, rest) else fail (bad_magic n)

pub record DescriptorEvent : Type 0 where
  pub header : BaseEventHeader
  pub event_data : DescriptorEventData

unfoldable pub read_descriptor_event : Json → List ℕ → Result ReadError (DescriptorEvent × List ℕ)
read_descriptor_event json bs = do
  (header, bs₁) ← read_event_header bs
  (event, bs₂) ← read_descriptor_event_data json bs₁
  ok (record { header = header; event_data = event }, bs₂)

-- NewBinlogReader, NewIndexReader and NewDeltalogReader: the descriptor, and the rest of the file.
unfoldable pub new_binlog_reader : Json → List ℕ → Result ReadError (DescriptorEvent × List ℕ)
new_binlog_reader json bs = do (n, bs₁) ← read_magic_number bs; read_descriptor_event json bs₁

-- EventReader.ReadData
unfoldable pub read_data : EventTypeCode → List ℕ → Result ReadError (List ℕ)
read_data code bs =
    if code == insert_event_type
    then (read_event_data_fix_part bs >>= λ (event, rest). ok rest)
    else fail unsupported

-- The length of the payload, an int32.
unfoldable pub payload_length : BaseEventHeader → EventData → ℕ
payload_length header event =
    sub32 (sub32 header.event_length (get_memory_usage_in_bytes header))
      (get_event_data_fix_part_size event)

-- DeltalogReader.NextEventReader up to the Parquet reader: io.ReadFull must fill the buffer.
unfoldable pub next_payload : List ℕ → Result ReadError (List ℕ × List ℕ)
next_payload bs = do
  (header, bs₁) ← read_event_header bs
  (event, bs₂) ← read_event_data_fix_part bs₁
  read_made (payload_length header event) bs₂

-- A buffer of `n` zero bytes after io.ReadFull, whatever that returned.
unfoldable pub fill_buffer : ℕ → List ℕ → List ℕ
fill_buffer zero bs = []
fill_buffer (suc n) [] = 0 ∷ fill_buffer n []
fill_buffer (suc n) (b ∷ bs) = b ∷ fill_buffer n bs

-- readData, NextRecordReader and IndexReader.NextEventReader up to the Parquet reader: the error of
-- io.ReadFull is dropped.
unfoldable pub next_payload_unchecked : List ℕ → Result ReadError (List ℕ × List ℕ)
next_payload_unchecked bs = do
  (header, bs₁) ← read_event_header bs
  (event, bs₂) ← read_event_data_fix_part bs₁
  let n = payload_length header event
  if ltb n (2 ^ 31) then ok (fill_buffer n bs₂, drop n bs₂) else panic

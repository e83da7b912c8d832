-- ===== src/Binlog/Tests.antt =====
-- A small binlog file, and each theorem on it.
use birdwatcher.Base.{
  ℕ, ◌%◌, ◌^◌, ◌<◌, ◌≤◌, ◌≡◌, ◌⊎◌, refl, none, some, some-inj, if◌then◌else◌, List, [], ◌∷◌, ◌++◌,
  ok, fail, panic, arith, length,
}
use birdwatcher.Binlog.Bytes.{put_little_endian, eof, unexpected_eof, binary_write}
use birdwatcher.Binlog.Bytes.RoundTrip.{Fits, AreBytes}
use birdwatcher.Binlog.Header.{BaseEventHeader, header_widths, header_fields, write as write_header}
use birdwatcher.Binlog.EventData.{
  fix_part_widths, get_event_fix_part_size, new_event_data, EventData, event_data_widths,
  event_data_fields, get_event_data_fix_part_size, write_event_data, read_event_data_fix_part,
  start_unset, end_unset, write_event_data_cases,
}
use birdwatcher.Binlog.Descriptor.{
  fix_part_fields, is_int, digits, post_header_lengths_loop, Json, json_string, Extras,
  DescriptorEventData, FixPart, original_size_key, same_bytes, finish_extra,
  new_descriptor_event_data, read_descriptor_event_data, write as write_descriptor_data,
}
use birdwatcher.Binlog.Descriptor
use mathlib.Core.Path.{subst}
use birdwatcher.Binlog.Descriptor.RoundTrip.{
  IsFinished, read_descriptor_event_data-write, finish_extra-IsFinished,
}
use birdwatcher.Binlog.Reader.{
  DescriptorEvent, new_binlog_reader, next_payload, next_payload_unchecked,
}
use birdwatcher.Binlog.Reader.Files.{
  file_start, event_bytes, new_binlog_reader-write, next_payload_cases, next_payload-write,
}

abbrev header : BaseEventHeader
header = record { timestamp = 300; type_code = 1; event_length = 36; next_position = 65536 }

abbrev event : EventData
event = record { start_timestamp = 5; end_timestamp = 1000 }

header_bytes :
    write_header header ≡ 44 ∷ 1 ∷ 0 ∷ 0 ∷ 0 ∷ 0 ∷ 0 ∷ 0 ∷ 1 ∷ 36 ∷ 0 ∷ 0 ∷ 0 ∷ 0 ∷ 0 ∷ 1 ∷ 0 ∷ []
unfolding write_header binary_write put_little_endian
header_bytes = refl

header-Fits : Fits header_widths (header_fields header)
header-Fits = (omega arith, (omega arith, (omega arith, (omega arith, tt))))

event-Fits : Fits event_data_widths (event_data_fields event)
event-Fits = (omega arith, (omega arith, tt))

header-AreBytes : AreBytes (write_header header ++ (9 ∷ []))
unfolding write_header binary_write put_little_endian
header-AreBytes = ground arith

write_event_data_cases_example :
    ((0 < 5)
      × (0 < 1000)
      × ((bs : List ℕ) × (write_event_data event ≡ ok bs)
          × (length bs ≡ get_event_data_fix_part_size event)
          × (read_event_data_fix_part (bs ++ []) ≡ ok (event, []))))
    ⊎ ((event.start_timestamp ≡ 0) × (write_event_data event ≡ fail start_unset))
    ⊎ ((0 < 5) × (event.end_timestamp ≡ 0) × (write_event_data event ≡ fail end_unset))
write_event_data_cases_example = write_event_data_cases event [] event-Fits

-- The extras {"original_size": "42"}, which stand for their two bytes.
abbrev size_extras : Extras
size_extras key =
    if same_bytes key original_size_key then some (json_string (52 ∷ 50 ∷ [])) else none

abbrev json : Json
json = record { marshal = λ extras. some (123 ∷ 125 ∷ []); unmarshal = λ bs. some size_extras }

abbrev part : FixPart
part = record {
  collection_id = 1;
  partition_id = 2;
  segment_id = 3;
  field_id = 4;
  start_timestamp = 5;
  end_timestamp = 6;
  payload_data_type = 21;
}

abbrev lengths : List ℕ
lengths = 52 ∷ 16 ∷ 16 ∷ 16 ∷ 16 ∷ 16 ∷ 16 ∷ 16 ∷ []

abbrev unfinished : DescriptorEventData
unfinished = record {
  fix_part = part;
  extra_length = 0;
  extra_bytes = [];
  extras = size_extras;
  post_header_lengths = lengths;
}

abbrev finished : DescriptorEventData
finished = record unfinished { extra_bytes = 123 ∷ 125 ∷ []; extra_length = 2 }

new_lengths : new_descriptor_event_data.post_header_lengths ≡ lengths
unfolding new_descriptor_event_data post_header_lengths_loop get_event_fix_part_size
    get_event_data_fix_part_size new_event_data
new_lengths = refl

part-Fits : Fits fix_part_widths (fix_part_fields part)
part-Fits = ground arith

finish : finish_extra json unfinished ≡ (none, finished)
unfolding finish_extra is_int digits
finish = refl

finish_extra-IsFinished_example : IsFinished json finished
finish_extra-IsFinished_example =
    finish_extra-IsFinished json unfinished finished codec part-Fits refl finish
  where
    codec :
        (bs : List ℕ)
        → some (123 ∷ 125 ∷ []) ≡ some bs
        → (some size_extras ≡ some size_extras) × (length bs < 2 ^ 31)
    codec bs e = (refl, subst (λ (xs : List ℕ). length xs < 2 ^ 31) (some-inj e) (omega arith))

finished-IsFinished : IsFinished json finished
finished-IsFinished = record {
  fits = part-Fits;
  eight = refl;
  counted = refl;
  small = omega arith;
  readable = refl;
}

read_descriptor_event_data-write_example :
    (read_descriptor_event_data json (write_descriptor_data finished ++ (9 ∷ []))
      ≡ ok (finished, 9 ∷ []))
    × (length (write_descriptor_data finished) % 2 ^ 32
        ≡ Descriptor.get_memory_usage_in_bytes finished)
read_descriptor_event_data-write_example =
    read_descriptor_event_data-write json finished (9 ∷ []) finished-IsFinished

abbrev descriptor_event : DescriptorEvent
descriptor_event = record { header = header; event_data = finished }

new_binlog_reader-write_example :
    new_binlog_reader json (file_start descriptor_event ++ (1 ∷ 2 ∷ []))
    ≡ ok (descriptor_event, 1 ∷ 2 ∷ [])
new_binlog_reader-write_example =
    new_binlog_reader-write json descriptor_event (1 ∷ 2 ∷ []) header-Fits finished-IsFinished

-- The header says three bytes of payload, of which one is there.
next_payload_cases_example :
    ((2 ^ 31 ≤ 3)
      × (next_payload (event_bytes header event (8 ∷ [])) ≡ panic)
      × (next_payload_unchecked (event_bytes header event (8 ∷ [])) ≡ panic))
    ⊎ ((3 ≤ 1)
        × (next_payload (event_bytes header event (8 ∷ [])) ≡ ok (8 ∷ [], []))
        × (next_payload_unchecked (event_bytes header event (8 ∷ [])) ≡ ok (8 ∷ [], [])))
    ⊎ ((1 < 3)
        × ((next_payload (event_bytes header event (8 ∷ [])) ≡ fail eof)
            ⊎ (next_payload (event_bytes header event (8 ∷ [])) ≡ fail unexpected_eof))
        × (next_payload_unchecked (event_bytes header event (8 ∷ [])) ≡ ok (8 ∷ 0 ∷ 0 ∷ [], [])))
next_payload_cases_example =
    next_payload_cases header event (8 ∷ []) 3 (header-Fits, event-Fits) (omega arith)

next_payload-write_example :
    (next_payload (event_bytes header event (7 ∷ 8 ∷ 9 ∷ []) ++ (1 ∷ []))
      ≡ ok (7 ∷ 8 ∷ 9 ∷ [], 1 ∷ []))
    × (next_payload_unchecked (event_bytes header event (7 ∷ 8 ∷ 9 ∷ []) ++ (1 ∷ []))
        ≡ ok (7 ∷ 8 ∷ 9 ∷ [], 1 ∷ []))
next_payload-write_example =
    next_payload-write header event (7 ∷ 8 ∷ 9 ∷ []) (1 ∷ []) (header-Fits, event-Fits) refl
      (omega arith)

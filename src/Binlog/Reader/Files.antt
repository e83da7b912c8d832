-- ===== src/Binlog/Reader/Files.antt =====
-- Whole files: what a writer of the format puts down, the readers take up again.
use birdwatcher.Base.{
  ℕ, zero, suc, ◌+◌, ◌-◌, ◌%◌, ◌^◌, ◌<◌, ◌≤◌, ◌≡◌, ◌≢◌, ◌⊎◌, inl, inr, refl, sym, ◌∙◌, ap, true,
  false, List, [], ◌∷◌, ◌++◌, length, length-append, take, drop, ltb, lt→ltb, leb→le, ◌==◌, ==_iff,
  Bool-cases, if◌then◌else◌, Result, ok, fail, panic, >>=_of_ok, >>=_of_fail, arith,
}
use mathlib.Core.List.{append_assoc}
use birdwatcher.Base.Word.{sub32}
use birdwatcher.Binlog.Bytes.{ReadError, eof, unexpected_eof, bad_magic, binary_write}
use birdwatcher.Binlog.Bytes.RoundTrip.{
  Fits, binary_read-write, read_full-append, read_full_cases, drop-prefix, take-prefix,
}
use birdwatcher.Binlog.Header.{
  BaseEventHeader, header_widths, header_fields, write as write_header, read_event_header-write,
  get_memory_usage_in_bytes,
}
use birdwatcher.Binlog.EventData.{
  EventData, event_data_widths, event_data_fields, get_event_data_fix_part_size,
  read_event_data_fix_part,
}
use birdwatcher.Binlog.Descriptor.{Json, write as write_descriptor_data, read_made}
use birdwatcher.Binlog.Descriptor.RoundTrip.{IsFinished, read_descriptor_event_data-write}
use birdwatcher.Binlog.Reader.{
  magic_number_v1, read_magic_number, DescriptorEvent, read_descriptor_event, new_binlog_reader,
  payload_length, next_payload, fill_buffer, next_payload_unchecked,
}

-- The start of a file: magic number, header and descriptor data.
abbrev pub file_start : DescriptorEvent → List ℕ
file_start event =
    binary_write (4 ∷ []) (magic_number_v1, tt)
    ++ (write_header event.header ++ write_descriptor_data event.event_data)

abbrev checked_magic : ℕ → List ℕ → Result ReadError (ℕ × List ℕ)
checked_magic n rest = if n == magic_number_v1 then ok (n, rest) else fail (bad_magic n)

read_magic_number-write :
    (n : ℕ) (rest : List ℕ)
    → n < 2 ^ 32
    → read_magic_number (binary_write (4 ∷ []) (n, tt) ++ rest) ≡ checked_magic n rest
unfolding read_magic_number
read_magic_number-write n rest h = >>=_of_ok _ (binary_read-write (4 ∷ []) (n, tt) rest (h, tt))

-- A binlog file whose start was written from a descriptor event, with a header its Go types can
-- hold and finished data, is opened with that event, and the reader then stands behind it.
pub new_binlog_reader-write :
    (json : Json) (event : DescriptorEvent) (rest : List ℕ)
    → Fits header_widths (header_fields event.header)
    → IsFinished json event.event_data
    → new_binlog_reader json (file_start event ++ rest) ≡ ok (event, rest)
unfolding new_binlog_reader read_descriptor_event
new_binlog_reader-write json event rest h d =
    ap (new_binlog_reader json) (simp (append_assoc))
    ∙ >>=_of_ok _ (
        read_magic_number-write magic_number_v1
          (write_header event.header ++ (write_descriptor_data event.event_data ++ rest))
          (omega arith))
    ∙ >>=_of_ok _
        (read_event_header-write event.header (write_descriptor_data event.event_data ++ rest) h).0
    ∙ >>=_of_ok _ (read_descriptor_event_data-write json event.event_data rest d).0

-- A file that starts with another number is refused with that number, whatever follows.
pub new_binlog_reader_magic :
    (json : Json) (n : ℕ) (rest : List ℕ)
    → n < 2 ^ 32
    → n ≢ magic_number_v1
    → new_binlog_reader json (binary_write (4 ∷ []) (n, tt) ++ rest) ≡ fail (bad_magic n)
unfolding new_binlog_reader
new_binlog_reader_magic json n rest h differs =
    >>=_of_fail _ (read_magic_number-write n rest h ∙ refused (Bool-cases (n == magic_number_v1)))
  where
    refused :
        ((n == magic_number_v1) ≡ true) ⊎ ((n == magic_number_v1) ≡ false)
        → checked_magic n rest ≡ fail (bad_magic n)
    refused (inl e) = absurd (differs ((==_iff n magic_number_v1).0 e))
    refused (inr e) = rw e

-- The events of a file: the header, the fixed part, and the payload.
abbrev pub event_bytes : BaseEventHeader → EventData → List ℕ → List ℕ
event_bytes header event payload =
    write_header header ++ (binary_write event_data_widths (event_data_fields event) ++ payload)

-- A header and a fixed part that their Go types can hold.
abbrev pub FitEvent : BaseEventHeader → EventData → Type 0
FitEvent header event =
    Fits header_widths (header_fields header) × Fits event_data_widths (event_data_fields event)

payload_length_lem :
    (header : BaseEventHeader) (event : EventData)
    → payload_length header event ≡ (header.event_length + 2 ^ 32 - 33) % 2 ^ 32
unfolding payload_length sub32 get_memory_usage_in_bytes get_event_data_fix_part_size
payload_length_lem header event = omega arith

next_payload_step :
    (header : BaseEventHeader) (event : EventData) (rest : List ℕ)
    → FitEvent header event
    → next_payload (event_bytes header event rest)
      ≡ read_made ((header.event_length + 2 ^ 32 - 33) % 2 ^ 32) rest
unfolding next_payload read_event_data_fix_part
next_payload_step header event rest (h, k) =
    >>=_of_ok _
      (read_event_header-write header
        (binary_write event_data_widths (event_data_fields event) ++ rest) h).0
    ∙ >>=_of_ok _
        (>>=_of_ok _ (binary_read-write event_data_widths (event_data_fields event) rest k))
    ∙ ap (λ n. read_made n rest) (payload_length_lem header event)

next_payload_unchecked_step :
    (header : BaseEventHeader) (event : EventData) (rest : List ℕ)
    → FitEvent header event
    → (n : ℕ) → n ≡ (header.event_length + 2 ^ 32 - 33) % 2 ^ 32
    → next_payload_unchecked (event_bytes header event rest)
      ≡ (if ltb n (2 ^ 31) then ok (fill_buffer n rest, drop n rest) else panic)
unfolding next_payload_unchecked read_event_data_fix_part
next_payload_unchecked_step header event rest (h, k) n e =
    >>=_of_ok _
      (read_event_header-write header
        (binary_write event_data_widths (event_data_fields event) ++ rest) h).0
    ∙ >>=_of_ok _
        (>>=_of_ok _ (binary_read-write event_data_widths (event_data_fields event) rest k))
    ∙ ap (λ n. if ltb n (2 ^ 31) then ok (fill_buffer n rest, drop n rest) else panic)
        (payload_length_lem header event ∙ sym e)

abbrev pub zeros : ℕ → List ℕ
zeros zero = []
zeros (suc n) = 0 ∷ zeros n

fill_buffer_enough : (n : ℕ) (bs : List ℕ) → n ≤ length bs → fill_buffer n bs ≡ take n bs
unfolding fill_buffer
fill_buffer_enough zero bs h = refl
fill_buffer_enough (suc n) [] h = absurd (omega arith)
fill_buffer_enough (suc n) (b ∷ bs) h = ap (◌∷◌ b) (fill_buffer_enough n bs (omega arith))

fill_buffer-zeros : (n : ℕ) → fill_buffer n [] ≡ zeros n
unfolding fill_buffer
fill_buffer-zeros zero = refl
fill_buffer-zeros (suc n) = ap (◌∷◌ 0) (fill_buffer-zeros n)

fill_buffer_short :
    (n : ℕ) (bs : List ℕ) (k : ℕ) → n ≡ length bs + k → fill_buffer n bs ≡ bs ++ zeros k
unfolding fill_buffer
fill_buffer_short n [] k e = fill_buffer-zeros n ∙ ap zeros (omega (arith, e))
fill_buffer_short zero (b ∷ bs) k e = absurd (omega (arith, e))
fill_buffer_short (suc n) (b ∷ bs) k e = ap (◌∷◌ b) (fill_buffer_short n bs k (omega (arith, e)))

drop_short : (n : ℕ) (bs : List ℕ) → length bs < n → drop n bs ≡ []
drop_short zero bs h = absurd (omega arith)
drop_short (suc n) [] h = refl
drop_short (suc n) (b ∷ bs) h = drop_short n bs (omega arith)

-- By the int32 length that the header leaves for the payload of an event, against the bytes the
-- file still has: a negative length is a panic of both readers; a payload that is all there is
-- what both give; of a payload that is cut off the delta log reader makes an error, while the
-- other readers hand on its bytes with zeros behind.
pub next_payload_cases :
    (header : BaseEventHeader) (event : EventData) (rest : List ℕ) (n : ℕ)
    → FitEvent header event
    → n ≡ (header.event_length + 2 ^ 32 - 33) % 2 ^ 32
    → let file = event_bytes header event rest in
      ((2 ^ 31 ≤ n) × (next_payload file ≡ panic) × (next_payload_unchecked file ≡ panic))
      ⊎ ((n ≤ length rest)
          × (next_payload file ≡ ok (take n rest, drop n rest))
          × (next_payload_unchecked file ≡ ok (take n rest, drop n rest)))
      ⊎ ((length rest < n)
          × ((next_payload file ≡ fail eof) ⊎ (next_payload file ≡ fail unexpected_eof))
          × (next_payload_unchecked file ≡ ok (rest ++ zeros (n - length rest), [])))
next_payload_cases header event rest n h e = elim (Bool-cases (ltb n (2 ^ 31))) [
  | inr big ↦ inl (leb→le (2 ^ 31) n (ground (arith, big)), strict ∙ rw big, unchecked ∙ rw big)
  | inl small ↦ elim (read_full_cases n rest) [
    | inl (enough, r) ↦ inr (
        inl (enough, strict ∙ rw small r, unchecked ∙ rw (small, fill_buffer_enough n rest enough)))
    | inr (short, inl r) ↦ inr (
        inr (
          short,
          inl (strict ∙ rw small r),
          unchecked
              ∙ rw (
                small,
                fill_buffer_short n rest (n - length rest) (omega (arith, short)),
                drop_short n rest short,
              ),
        ))
    | inr (short, inr r) ↦ inr (
        inr (
          short,
          inr (strict ∙ rw small r),
          unchecked
              ∙ rw (
                small,
                fill_buffer_short n rest (n - length rest) (omega (arith, short)),
                drop_short n rest short,
              ),
        ))
  ]
]
  where
    strict : next_payload (event_bytes header event rest) ≡ read_made n rest
    strict = next_payload_step header event rest h ∙ ap (λ m. read_made m rest) (sym e)

    unchecked :
        next_payload_unchecked (event_bytes header event rest)
        ≡ (if ltb n (2 ^ 31) then ok (fill_buffer n rest, drop n rest) else panic)
    unchecked = next_payload_unchecked_step header event rest h n e

-- A payload that is written with its length in the header is read back by either reader, and the
-- reader then stands behind the event.
pub next_payload-write :
    (header : BaseEventHeader) (event : EventData) (payload rest : List ℕ)
    → FitEvent header event
    → header.event_length ≡ 33 + length payload
    → length payload < 2 ^ 31
    → (next_payload (event_bytes header event payload ++ rest) ≡ ok (payload, rest))
      × (next_payload_unchecked (event_bytes header event payload ++ rest) ≡ ok (payload, rest))
next_payload-write header event payload rest h e small = (
  ap next_payload grouped
      ∙ next_payload_step header event (payload ++ rest) h
      ∙ ap (λ m. read_made m (payload ++ rest)) (sym size)
      ∙ rw (lt→ltb (length payload) (2 ^ 31) small)
          (read_full-append payload rest (length payload) refl),
  ap next_payload_unchecked grouped
      ∙ next_payload_unchecked_step header event (payload ++ rest) h (length payload) size
      ∙ rw (
        lt→ltb (length payload) (2 ^ 31) small,
        fill_buffer_enough (length payload) (payload ++ rest)
            (omega (arith, length-append payload rest)),
        take-prefix payload rest (length payload) refl,
        drop-prefix payload rest (length payload) refl,
      ),
)
  where
    grouped : event_bytes header event payload ++ rest ≡ event_bytes header event (payload ++ rest)
    grouped = simp (append_assoc)

    size : length payload ≡ (header.event_length + 2 ^ 32 - 33) % 2 ^ 32
    size = omega (arith, e, small)

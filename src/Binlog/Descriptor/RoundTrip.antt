-- ===== src/Binlog/Descriptor/RoundTrip.antt =====
-- Descriptor data that is finished and written is read back.
use birdwatcher.Base.{
  ℕ, ◌+◌, ◌%◌, ◌^◌, ◌<◌, ◌≡◌, ◌≢◌, ◌⊎◌, inl, inr, refl, sym, ◌∙◌, ap, true, Option, none, some,
  List, [], ◌∷◌, ◌++◌, length, length-append, lt→ltb, Bool-cases, Option-cases, ok, >>=_of_ok,
  arith,
}
use mathlib.Core.List.{append_assoc}
use mathlib.Core.Path.{subst}
use birdwatcher.Binlog.Bytes.{binary_write}
use birdwatcher.Binlog.Bytes.RoundTrip.{
  Fits, length-binary_write, binary_read-write, read_full-append,
}
use birdwatcher.Binlog.EventData.{fix_part_widths}
use birdwatcher.Binlog.Descriptor.{
  Json, json_string, json_other, DescriptorEventData, get_memory_usage_in_bytes, original_size_key,
  is_int, FinishError, not_in_extra, not_a_string, not_an_int, marshal_failed, finish_extra, write,
  new_descriptor_event_data, post_header_lengths_loop, read_made, or_bad_json,
  read_descriptor_event_data, fix_part_fields,
}

-- Data that its Go types can hold, whose extras are the ones in its bytes.
pub record IsFinished (json : Json) (data' : DescriptorEventData) : Type 0 where
  pub fits : Fits fix_part_widths (fix_part_fields data'.fix_part)
  pub eight : length data'.post_header_lengths ≡ 8
  pub counted : data'.extra_length ≡ length data'.extra_bytes
  pub small : length data'.extra_bytes < 2 ^ 31
  pub readable : json.unmarshal data'.extra_bytes ≡ some data'.extras

eight_lengths : length new_descriptor_event_data.post_header_lengths ≡ 8
unfolding new_descriptor_event_data post_header_lengths_loop
eight_lengths = refl

layout :
    (data' : DescriptorEventData) (rest : List ℕ)
    → write data' ++ rest
      ≡ binary_write fix_part_widths (fix_part_fields data'.fix_part)
        ++ (data'.post_header_lengths
            ++ (binary_write (4 ∷ []) (data'.extra_length, tt) ++ (data'.extra_bytes ++ rest)))
unfolding write
layout data' rest = simp (append_assoc)

length-write :
    (data' : DescriptorEventData)
    → length (write data') ≡ 52 + length data'.post_header_lengths + 4 + length data'.extra_bytes
unfolding write
length-write data' =
    length-append (binary_write fix_part_widths (fix_part_fields data'.fix_part)) _
    ∙ omega (
      arith,
      length-binary_write fix_part_widths (fix_part_fields data'.fix_part),
      length-append data'.post_header_lengths
          (binary_write (4 ∷ []) (data'.extra_length, tt) ++ data'.extra_bytes),
      length-append (binary_write (4 ∷ []) (data'.extra_length, tt)) data'.extra_bytes,
      length-binary_write (4 ∷ []) (data'.extra_length, tt),
    )

read_made-append :
    (data' : DescriptorEventData) (rest : List ℕ)
    → data'.extra_length ≡ length data'.extra_bytes
    → length data'.extra_bytes < 2 ^ 31
    → read_made data'.extra_length (data'.extra_bytes ++ rest) ≡ ok (data'.extra_bytes, rest)
read_made-append data' rest e small =
    rw (lt→ltb data'.extra_length (2 ^ 31) (omega (arith, e, small)))
      (read_full-append data'.extra_bytes rest data'.extra_length (sym e))

-- Finished descriptor data is read back as it was written, whatever follows it, and takes as
-- many bytes as it says, as an int32.
pub read_descriptor_event_data-write :
    (json : Json) (data' : DescriptorEventData) (rest : List ℕ)
    → IsFinished json data'
    → (read_descriptor_event_data json (write data' ++ rest) ≡ ok (data', rest))
      × (length (write data') % 2 ^ 32 ≡ get_memory_usage_in_bytes data')
unfolding read_descriptor_event_data get_memory_usage_in_bytes
read_descriptor_event_data-write json data' rest h = (
  ap (read_descriptor_event_data json) (layout data' rest)
      ∙ >>=_of_ok _ (binary_read-write fix_part_widths (fix_part_fields data'.fix_part) _ h.fits)
      ∙ >>=_of_ok _ (read_full-append data'.post_header_lengths _ _ (h.eight ∙ sym eight_lengths))
      ∙ >>=_of_ok _ (
          binary_read-write (4 ∷ []) (data'.extra_length, tt) _
            (omega (arith, h.counted, h.small), tt))
      ∙ >>=_of_ok _ (read_made-append data' rest h.counted h.small)
      ∙ >>=_of_ok _ (ap or_bad_json h.readable),
  omega (arith, length-write data', h.counted),
)

-- What FinishExtra asks of the extras: a size that strconv.Atoi takes, and JSON for them all.
pub record HasSize (json : Json) (data' : DescriptorEventData) (bs : List ℕ) : Type 0 where
  pub size : List ℕ
  pub stored : data'.extras original_size_key ≡ some (json_string size)
  pub number : is_int size ≡ true
  pub marshalled : json.marshal data'.extras ≡ some bs

-- An error, with the extras and the length as they were.
abbrev pub Refuses : Json → DescriptorEventData → Option FinishError × DescriptorEventData → Type 0
Refuses json data' out =
    ((e : FinishError) × (out.0 ≡ some e))
    × (out.1.extras ≡ data'.extras)
    × (out.1.extra_length ≡ data'.extra_length)
    × ((bs : List ℕ) → ¬ HasSize json data' bs)

-- FinishExtra succeeds exactly if the extras hold the original size as the string of an integer
-- and can be marshalled, and then sets the bytes and their number and nothing else. Otherwise it
-- returns an error, and the extras and the length are as they were.
pub finish_extra_cases :
    (json : Json) (data' : DescriptorEventData)
    → ((bs : List ℕ) × HasSize json data' bs
        × (finish_extra json data'
            ≡ (none, record data' { extra_bytes = bs; extra_length = length bs % 2 ^ 32 })))
      ⊎ Refuses json data' (finish_extra json data')
unfolding finish_extra
finish_extra_cases json data' = elim (Option-cases (data'.extras original_size_key)) [
  | inl e ↦ inr (
      refuse (some not_in_extra, data') (rw (e, finish_extra))
        ((not_in_extra, refl), refl, refl, λ bs (sized : HasSize json data' bs). cc))
  | inr (json_other v, e) ↦ inr (
      refuse (some not_a_string, data') (rw (e, finish_extra))
        ((not_a_string, refl), refl, refl, λ bs (sized : HasSize json data' bs). cc))
  | inr (json_string size, e) ↦ elim (Bool-cases (is_int size)) [
    | inl n ↦ elim (Option-cases (json.marshal data'.extras)) [
      | inl f ↦ inr (
          refuse (some marshal_failed, record data' { extra_bytes = [] })
            (rw (e, n, f, finish_extra))
            ((marshal_failed, refl), refl, refl, λ bs (sized : HasSize json data' bs). cc))
      | inr (bs, f) ↦ inl (
        bs,
        record { size = size; stored = e; number = n; marshalled = f },
        rw (e, n, f, finish_extra),
      )
    ]
    | inr n ↦ inr (
        refuse (some not_an_int, data') (rw (e, n, finish_extra))
          ((not_an_int, refl), refl, refl, λ bs (sized : HasSize json data' bs). cc))
  ]
]
  where
    refuse :
        (out : Option FinishError × DescriptorEventData)
        → finish_extra json data' ≡ out
        → Refuses json data' out
        → Refuses json data' (finish_extra json data')
    refuse out e = subst (Refuses json data') (sym e)

none-some : {e : FinishError} → none ≢ some e
none-some e = cc

-- When FinishExtra returns no error, data of eight header lengths and fields their Go types can
-- hold is finished, where JSON reads back what it wrote and that is below 2 GiB.
pub finish_extra-IsFinished :
    (json : Json) (data' done : DescriptorEventData)
    → ((bs : List ℕ)
        → json.marshal data'.extras ≡ some bs
        → (json.unmarshal bs ≡ some data'.extras) × (length bs < 2 ^ 31))
    → Fits fix_part_widths (fix_part_fields data'.fix_part)
    → length data'.post_header_lengths ≡ 8
    → finish_extra json data' ≡ (none, done)
    → IsFinished json done
finish_extra-IsFinished json data' done codec fits eight e = elim (finish_extra_cases json data') [
  | inl (bs, sized, f) ↦
      let (readable, small) = codec bs sized.marshalled in
      subst (λ (out : Option FinishError × DescriptorEventData). IsFinished json out.1) (sym f ∙ e)
        (record {
          fits = fits;
          eight = eight;
          counted = omega (arith, small);
          small = small;
          readable = readable;
        })
  | inr ((x, failed), same, kept, lacking) ↦ absurd (none-some (sym (ap (λ out. out.0) e) ∙ failed))
]

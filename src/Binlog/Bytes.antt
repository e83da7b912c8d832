-- ===== src/Binlog/Bytes.antt =====
-- encoding/binary as storage/binlog/v1 uses it: fixed-size little-endian fields, read whole from a
-- reader of which the bytes that are left are the state.
pub mod RoundTrip
use birdwatcher.Base.{
  ℕ, zero, suc, ◌+◌, ◌*◌, ◌/◌, ◌%◌, ◌^◌, List, [], ◌∷◌, ◌++◌, length, take, drop, ltb, leb,
  if◌then◌else◌, Result, ok, fail, panic, ◌>>=◌,
}

-- The errors of io.ReadFull, and those of the code above it.
pub data ReadError : Type 0 where
  eof unexpected_eof : ReadError
  bad_magic : ℕ → ReadError
  bad_json unsupported : ReadError

-- io.ReadFull of `n` bytes: the bytes, and what is left of the reader.
unfoldable pub read_full : ℕ → List ℕ → Result ReadError (List ℕ × List ℕ)
read_full zero bs = ok ([], bs)
read_full (suc n) [] = fail eof
read_full (suc n) (b ∷ bs) =
    if leb n (length bs) then ok (b ∷ take n bs, drop n bs) else fail unexpected_eof

-- A value of `width` bytes, the least significant byte first.
unfoldable pub put_little_endian : ℕ → ℕ → List ℕ
put_little_endian zero v = []
put_little_endian (suc width) v = v % 256 ∷ put_little_endian width (v / 256)

unfoldable pub little_endian : List ℕ → ℕ
little_endian [] = 0
little_endian (b ∷ bs) = b + 256 * little_endian bs

-- The fields of a struct whose fields have the given widths, as bit patterns.
abbrev pub Fields : List ℕ → Type 0
Fields [] = Unit
Fields (width ∷ widths) = ℕ × Fields widths

-- binary.Size
abbrev pub binary_size : List ℕ → ℕ
binary_size [] = 0
binary_size (width ∷ widths) = width + binary_size widths

-- binary.Write to a buffer in memory, which takes every byte.
unfoldable pub binary_write : (widths : List ℕ) → Fields widths → List ℕ
unfolding put_little_endian
binary_write [] fields = []
binary_write (width ∷ widths) (v, fields) = put_little_endian width v ++ binary_write widths fields

unfoldable pub decode_fields : (widths : List ℕ) → List ℕ → Fields widths
unfolding little_endian
decode_fields [] bs = tt
decode_fields (width ∷ widths) bs =
    (little_endian (take width bs), decode_fields widths (drop width bs))

-- binary.Read: all bytes of the struct are read before a field is set.
unfoldable pub binary_read : (widths : List ℕ) → List ℕ → Result ReadError (Fields widths × List ℕ)
unfolding read_full decode_fields
binary_read widths bs = do
  (raw, rest) ← read_full (binary_size widths) bs
  ok (decode_fields widths raw, rest)

-- ===== src/Storage/PrimaryKeys.antt =====
-- storage/common/primary_keys.go: slices of primary keys of one type. `none` is a panic.
pub mod Elements
use birdwatcher.Base.{
  ℕ, ◌+◌, ◌*◌, ◌%◌, ◌^◌, Option, none, some, List, [], ◌∷◌, ◌++◌, length, get_elem?, Result, ok,
  fail, panic, ◌>>=◌, ◌>>=?◌,
}
use birdwatcher.Base.Int.{ℤ}
use birdwatcher.Base.Word.{add64}
use birdwatcher.Storage.PrimaryKey.{PrimaryKey, int64_pk, varchar_pk, DataType, int64, varchar}

-- VarcharPrimaryKeys; `size` is an int64.
pub record VarcharPrimaryKeys : Type 0 where
  pub values : List (List ℕ)
  pub size : ℕ

-- The two implementations of the PrimaryKeys interface.
pub data PrimaryKeys : Type 0 where
  int64_pks : List ℤ → PrimaryKeys
  varchar_pks : VarcharPrimaryKeys → PrimaryKeys

unfoldable pub new_int64_primary_keys : PrimaryKeys
new_int64_primary_keys = int64_pks []

unfoldable pub new_varchar_primary_keys : PrimaryKeys
new_varchar_primary_keys = varchar_pks (record { values = []; size = 0 })

unfoldable pub int64_append_raw : List ℤ → List ℤ → List ℤ
int64_append_raw values more = values ++ more

-- The loop of AppendRaw over the sizes of the new strings.
unfoldable pub add_lengths : ℕ → List (List ℕ) → ℕ
add_lengths size [] = size
add_lengths size (s ∷ ss) = add_lengths (add64 size (length s + 16)) ss

unfoldable pub varchar_append_raw : VarcharPrimaryKeys → List (List ℕ) → VarcharPrimaryKeys
unfolding add_lengths
varchar_append_raw pks more = record {
  values = pks.values ++ more;
  size = add_lengths pks.size more;
}

-- The loop of Int64PrimaryKeys.Append, which stops at a key of another type with an error.
unfoldable pub int64_collect : List PrimaryKey → Result (Unit {0}) (List ℤ)
int64_collect [] = ok []
int64_collect (int64_pk v ∷ pks) = int64_collect pks >>= λ vs. ok (v ∷ vs)
int64_collect (varchar_pk s ∷ pks) = fail tt

unfoldable pub varchar_collect : List PrimaryKey → Result (Unit {0}) (List (List ℕ))
varchar_collect [] = ok []
varchar_collect (int64_pk v ∷ pks) = fail tt
varchar_collect (varchar_pk s ∷ pks) = varchar_collect pks >>= λ ss. ok (s ∷ ss)

-- `fail tt` is "pk type not match"; the slice is then as it was.
unfoldable pub append : PrimaryKeys → List PrimaryKey → Result (Unit {0}) PrimaryKeys
unfolding int64_collect varchar_collect int64_append_raw varchar_append_raw
append (int64_pks values) pks = do
  more ← int64_collect pks
  ok (int64_pks (int64_append_raw values more))
append (varchar_pks held) pks = do
  more ← varchar_collect pks
  ok (varchar_pks (varchar_append_raw held more))

abbrev pub or_panic : Result (Unit {0}) PrimaryKeys → Option PrimaryKeys
or_panic (ok pks) = some pks
or_panic (fail e) = none
or_panic panic = none

unfoldable pub must_append : PrimaryKeys → List PrimaryKey → Option PrimaryKeys
must_append held pks = or_panic (append held pks)

-- An index out of range panics.
unfoldable pub get : PrimaryKeys → ℕ → Option PrimaryKey
get (int64_pks values) idx = get_elem? values idx >>=? λ v. some (int64_pk v)
get (varchar_pks held) idx = get_elem? held.values idx >>=? λ s. some (varchar_pk s)

abbrev pub type_of : PrimaryKeys → DataType
type_of (int64_pks values) = int64
type_of (varchar_pks held) = varchar

unfoldable pub len : PrimaryKeys → ℕ
len (int64_pks values) = length values
len (varchar_pks held) = length held.values

unfoldable pub size : PrimaryKeys → ℕ
unfolding len
size (int64_pks values) = len (int64_pks values) * 8 % 2 ^ 64
size (varchar_pks held) = held.size

unfoldable pub must_merge : PrimaryKeys → PrimaryKeys → Option PrimaryKeys
must_merge (int64_pks values) (int64_pks others) = some (int64_pks (values ++ others))
must_merge (int64_pks values) (varchar_pks others) = none
must_merge (varchar_pks held) (int64_pks others) = none
must_merge (varchar_pks held) (varchar_pks others) = some (
    varchar_pks
      (record { values = held.values ++ others.values; size = add64 held.size others.size }))

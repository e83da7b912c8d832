-- ===== src/Storage/PrimaryKey.antt =====
-- storage/common/primary_key.go: the primary keys of rows, 64-bit integers or strings. A Go string
-- is its list of bytes. Nil interfaces and nil pointers as keys are left out.
pub mod Order
use birdwatcher.Base.{
  ℕ, zero, suc, ◌+◌, ◌*◌, ◌%◌, ◌^◌, Bool, true, false, Option, none, some, List, [], ◌∷◌, ◌++◌, ltb,
  leb, length, if◌then◌else◌, Result, ok, fail, panic, ◌>>=◌, ◌>>=?◌,
}
use birdwatcher.Base.Int.{ℤ, pos, negsuc, ltb_ℤ, leb_ℤ, eqb_ℤ}

-- schemapb.DataType, as far as the code tells types apart.
pub data DataType : Type 0 where
  int64 varchar : DataType
  other : ℕ → DataType

-- A value of type `interface{}`: an int64, a string, or something else.
pub data Value : Type 0 where
  int64_value : ℤ → Value
  string_value : List ℕ → Value
  other_value : ℕ → Value

-- The two implementations of the PrimaryKey interface.
pub data PrimaryKey : Type 0 where
  int64_pk : ℤ → PrimaryKey
  varchar_pk : List ℕ → PrimaryKey

-- The comparisons of Int64PrimaryKey: false for a key of another type.
unfoldable pub int64_gt : ℤ → PrimaryKey → Bool
int64_gt v (int64_pk w) = if ltb_ℤ w v then true else false
int64_gt v (varchar_pk s) = false

unfoldable pub int64_ge : ℤ → PrimaryKey → Bool
int64_ge v (int64_pk w) = if leb_ℤ w v then true else false
int64_ge v (varchar_pk s) = false

unfoldable pub int64_lt : ℤ → PrimaryKey → Bool
int64_lt v (int64_pk w) = if ltb_ℤ v w then true else false
int64_lt v (varchar_pk s) = false

unfoldable pub int64_le : ℤ → PrimaryKey → Bool
int64_le v (int64_pk w) = if leb_ℤ v w then true else false
int64_le v (varchar_pk s) = false

unfoldable pub int64_eq : ℤ → PrimaryKey → Bool
int64_eq v (int64_pk w) = if eqb_ℤ v w then true else false
int64_eq v (varchar_pk s) = false

-- strings.Compare: -1, 0 or 1, by the first byte that differs.
unfoldable pub strings_compare : List ℕ → List ℕ → ℤ
strings_compare [] [] = pos 0
strings_compare [] (y ∷ ys) = negsuc 0
strings_compare (x ∷ xs) [] = pos 1
strings_compare (x ∷ xs) (y ∷ ys) =
    if ltb x y then negsuc 0 else if ltb y x then pos 1 else strings_compare xs ys

-- The comparisons of BaseStringPrimaryKey.
unfoldable pub string_gt : List ℕ → List ℕ → Bool
string_gt s t = ltb_ℤ (pos 0) (strings_compare s t)

unfoldable pub string_ge : List ℕ → List ℕ → Bool
string_ge s t = leb_ℤ (pos 0) (strings_compare s t)

unfoldable pub string_lt : List ℕ → List ℕ → Bool
string_lt s t = ltb_ℤ (strings_compare s t) (pos 0)

unfoldable pub string_le : List ℕ → List ℕ → Bool
string_le s t = leb_ℤ (strings_compare s t) (pos 0)

unfoldable pub string_eq : List ℕ → List ℕ → Bool
string_eq s t = eqb_ℤ (strings_compare s t) (pos 0)

-- The comparisons of VarCharPrimaryKey.
unfoldable pub varchar_gt : List ℕ → PrimaryKey → Bool
varchar_gt s (int64_pk w) = false
varchar_gt s (varchar_pk t) = string_gt s t

unfoldable pub varchar_ge : List ℕ → PrimaryKey → Bool
varchar_ge s (int64_pk w) = false
varchar_ge s (varchar_pk t) = string_ge s t

unfoldable pub varchar_lt : List ℕ → PrimaryKey → Bool
varchar_lt s (int64_pk w) = false
varchar_lt s (varchar_pk t) = string_lt s t

unfoldable pub varchar_le : List ℕ → PrimaryKey → Bool
varchar_le s (int64_pk w) = false
varchar_le s (varchar_pk t) = string_le s t

unfoldable pub varchar_eq : List ℕ → PrimaryKey → Bool
varchar_eq s (int64_pk w) = false
varchar_eq s (varchar_pk t) = string_eq s t

-- The methods of the interface, by the key's implementation.
unfoldable pub gt : PrimaryKey → PrimaryKey → Bool
unfolding int64_gt varchar_gt string_gt
gt (int64_pk v) key = int64_gt v key
gt (varchar_pk s) key = varchar_gt s key

unfoldable pub ge : PrimaryKey → PrimaryKey → Bool
unfolding int64_ge varchar_ge string_ge
ge (int64_pk v) key = int64_ge v key
ge (varchar_pk s) key = varchar_ge s key

unfoldable pub lt : PrimaryKey → PrimaryKey → Bool
unfolding int64_lt varchar_lt string_lt
lt (int64_pk v) key = int64_lt v key
lt (varchar_pk s) key = varchar_lt s key

unfoldable pub le : PrimaryKey → PrimaryKey → Bool
unfolding int64_le varchar_le string_le
le (int64_pk v) key = int64_le v key
le (varchar_pk s) key = varchar_le s key

unfoldable pub eq : PrimaryKey → PrimaryKey → Bool
unfolding int64_eq varchar_eq string_eq
eq (int64_pk v) key = int64_eq v key
eq (varchar_pk s) key = varchar_eq s key

-- SetValue of the two implementations, `fail tt` for a value of the wrong type.
unfoldable pub set_value : PrimaryKey → Value → Result (Unit {0}) PrimaryKey
set_value (int64_pk v) (int64_value w) = ok (int64_pk w)
set_value (int64_pk v) (string_value t) = fail tt
set_value (int64_pk v) (other_value k) = fail tt
set_value (varchar_pk s) (int64_value w) = fail tt
set_value (varchar_pk s) (string_value t) = ok (varchar_pk t)
set_value (varchar_pk s) (other_value k) = fail tt

unfoldable pub get_value : PrimaryKey → Value
get_value (int64_pk v) = int64_value v
get_value (varchar_pk s) = string_value s

abbrev pub type_of : PrimaryKey → DataType
type_of (int64_pk v) = int64
type_of (varchar_pk s) = varchar

-- Size, as an int64 holds it.
unfoldable pub size : PrimaryKey → ℕ
size (int64_pk v) = 16
size (varchar_pk s) = (8 * length s + 8) % 2 ^ 64

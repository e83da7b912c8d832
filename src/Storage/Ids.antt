-- ===== src/Storage/Ids.antt =====
-- storage/common/primary_key.go: primary keys from raw values, from column data and from the id
-- lists of the protocol, and back. `panic` and `none` are failed type assertions and nil pointers.
use mathlib.Core.Path.{subst}
use birdwatcher.Base.{
  ℕ, ◌≡◌, ◌↔◌, refl, sym, ap, Option, none, some, List, [], ◌∷◌, map, All, Result, ok, fail, panic,
  ◌>>=◌, ◌>>=?◌, >>=?_some, >>=?_of_some, arith,
}
use birdwatcher.Base.Int.{ℤ}
use birdwatcher.Storage.PrimaryKey.{
  PrimaryKey, int64_pk, varchar_pk, DataType, int64, varchar, other, Value, int64_value,
  string_value, other_value, type_of, get_value,
}

-- "not supported primary data type"; for column data also nil field data or nil scalar data.
pub data ParseError : Type 0 where
  unsupported nil_field nil_scalar : ParseError

unfoldable pub gen_primary_key_by_raw_data : Value → DataType → Result ParseError PrimaryKey
gen_primary_key_by_raw_data (int64_value v) int64 = ok (int64_pk v)
gen_primary_key_by_raw_data (string_value s) int64 = panic
gen_primary_key_by_raw_data (other_value k) int64 = panic
gen_primary_key_by_raw_data (int64_value v) varchar = panic
gen_primary_key_by_raw_data (string_value s) varchar = ok (varchar_pk s)
gen_primary_key_by_raw_data (other_value k) varchar = panic
gen_primary_key_by_raw_data data' (other t) = fail unsupported

unfoldable pub gen_int64_primary_keys : List ℤ → Result ParseError (List PrimaryKey)
unfolding gen_primary_key_by_raw_data
gen_int64_primary_keys [] = ok []
gen_int64_primary_keys (v ∷ vs) = do
  pk ← gen_primary_key_by_raw_data (int64_value v) int64
  pks ← gen_int64_primary_keys vs
  ok (pk ∷ pks)

unfoldable pub gen_varchar_primary_keys : List (List ℕ) → Result ParseError (List PrimaryKey)
unfolding gen_primary_key_by_raw_data
gen_varchar_primary_keys [] = ok []
gen_varchar_primary_keys (s ∷ ss) = do
  pk ← gen_primary_key_by_raw_data (string_value s) varchar
  pks ← gen_varchar_primary_keys ss
  ok (pk ∷ pks)

-- schemapb.ScalarField and FieldData. A getter of another kind of data gives an empty list.
pub data ScalarField : Type 0 where
  long_data : List ℤ → ScalarField
  string_data : List (List ℕ) → ScalarField
  other_data : ScalarField

pub record FieldData : Type 0 where
  pub data_type : DataType
  pub scalars : Option ScalarField

abbrev get_long_data : ScalarField → List ℤ
get_long_data (long_data vs) = vs
get_long_data (string_data ss) = []
get_long_data other_data = []

abbrev get_string_data : ScalarField → List (List ℕ)
get_string_data (long_data vs) = []
get_string_data (string_data ss) = ss
get_string_data other_data = []

-- The switch on the type of the column.
abbrev parse_scalars : DataType → ScalarField → Result ParseError (List PrimaryKey)
parse_scalars int64 field = ok (map int64_pk (get_long_data field))
parse_scalars varchar field = ok (map varchar_pk (get_string_data field))
parse_scalars (other t) field = fail unsupported

unfoldable pub parse_field_data2primary_keys :
    Option FieldData → Result ParseError (List PrimaryKey)
parse_field_data2primary_keys none = fail nil_field
parse_field_data2primary_keys (some field) = elim field.scalars [
  | none ↦ fail nil_scalar
  | some scalars ↦ parse_scalars field.data_type scalars
]

-- schemapb.IDs: the oneof field may be unset.
pub data Ids : Type 0 where
  int_id : List ℤ → Ids
  str_id : List (List ℕ) → Ids
  unset : Ids

unfoldable pub parse_ids2primary_keys : Ids → List PrimaryKey
parse_ids2primary_keys (int_id vs) = map int64_pk vs
parse_ids2primary_keys (str_id ss) = map varchar_pk ss
parse_ids2primary_keys unset = []

-- `pk.(*Int64PrimaryKey).Value` over all keys.
unfoldable pub int64_values : List PrimaryKey → Option (List ℤ)
int64_values [] = some []
int64_values (int64_pk v ∷ pks) = int64_values pks >>=? λ vs. some (v ∷ vs)
int64_values (varchar_pk s ∷ pks) = none

-- `pk.(*VarCharPrimaryKey).Value` over all keys.
unfoldable pub varchar_values : List PrimaryKey → Option (List (List ℕ))
varchar_values [] = some []
varchar_values (int64_pk v ∷ pks) = none
varchar_values (varchar_pk s ∷ pks) = varchar_values pks >>=? λ ss. some (s ∷ ss)

-- The first key decides the kind.
unfoldable pub parse_primary_keys2ids : List PrimaryKey → Option Ids
unfolding int64_values varchar_values
parse_primary_keys2ids [] = some unset
parse_primary_keys2ids (int64_pk v ∷ pks) =
    int64_values (int64_pk v ∷ pks) >>=? λ vs. some (int_id vs)
parse_primary_keys2ids (varchar_pk s ∷ pks) =
    varchar_values (varchar_pk s ∷ pks) >>=? λ ss. some (str_id ss)

abbrev pub Typed : DataType → List PrimaryKey → Type 0
Typed t = All λ (pk : PrimaryKey). type_of pk ≡ t

int64_values-Typed :
    (pks : List PrimaryKey)
    → Typed int64 pks
    → (vs : List ℤ) × (int64_values pks ≡ some vs) × (map int64_pk vs ≡ pks)
unfolding int64_values
int64_values-Typed [] h = ([], refl, refl)
int64_values-Typed (int64_pk v ∷ pks) (h, hs) =
    let (vs, e, m) = int64_values-Typed pks hs in
    (v ∷ vs, >>=?_of_some _ e, ap (◌∷◌ (int64_pk v)) m)
int64_values-Typed (varchar_pk s ∷ pks) (h, hs) = absurd (cc)

varchar_values-Typed :
    (pks : List PrimaryKey)
    → Typed varchar pks
    → (ss : List (List ℕ)) × (varchar_values pks ≡ some ss) × (map varchar_pk ss ≡ pks)
unfolding varchar_values
varchar_values-Typed [] h = ([], refl, refl)
varchar_values-Typed (int64_pk v ∷ pks) (h, hs) = absurd (cc)
varchar_values-Typed (varchar_pk s ∷ pks) (h, hs) =
    let (ss, e, m) = varchar_values-Typed pks hs in
    (s ∷ ss, >>=?_of_some _ e, ap (◌∷◌ (varchar_pk s)) m)

-- Keys of one type survive the way to the id list of the protocol and back, in their order.
pub ids_round_trip :
    (t : DataType) (pks : List PrimaryKey)
    → Typed t pks
    → (ids : Ids) × (parse_primary_keys2ids pks ≡ some ids) × (parse_ids2primary_keys ids ≡ pks)
unfolding parse_primary_keys2ids parse_ids2primary_keys
ids_round_trip t [] h = (unset, refl, refl)
ids_round_trip t (int64_pk v ∷ pks) (h, hs) =
    let (vs, e, m) =
      int64_values-Typed (int64_pk v ∷ pks)
        (refl, subst (λ (u : DataType). Typed u pks) (sym h) hs) in
    (int_id vs, >>=?_of_some _ e, m)
ids_round_trip t (varchar_pk s ∷ pks) (h, hs) =
    let (ss, e, m) =
      varchar_values-Typed (varchar_pk s ∷ pks)
        (refl, subst (λ (u : DataType). Typed u pks) (sym h) hs) in
    (str_id ss, >>=?_of_some _ e, m)

int64_values-some :
    (pks : List PrimaryKey) (vs : List ℤ) → int64_values pks ≡ some vs → Typed int64 pks
unfolding int64_values
int64_values-some [] vs e = tt
int64_values-some (int64_pk v ∷ pks) vs e =
    let (vs', e', last) = >>=?_some (int64_values pks) _ e in (refl, int64_values-some pks vs' e')
int64_values-some (varchar_pk s ∷ pks) vs e = absurd (cc)

varchar_values-some :
    (pks : List PrimaryKey) (ss : List (List ℕ)) → varchar_values pks ≡ some ss → Typed varchar pks
unfolding varchar_values
varchar_values-some [] ss e = tt
varchar_values-some (int64_pk v ∷ pks) ss e = absurd (cc)
varchar_values-some (varchar_pk s ∷ pks) ss e =
    let (ss', e', last) = >>=?_some (varchar_values pks) _ e in
    (refl, varchar_values-some pks ss' e')

-- Only keys of one type convert to an id list: where the conversion of a nonempty list gives one,
-- all keys have the type of the first.
pub parse_primary_keys2ids-Typed :
    (pk : PrimaryKey) (pks : List PrimaryKey) (ids : Ids)
    → parse_primary_keys2ids (pk ∷ pks) ≡ some ids
    → Typed (type_of pk) (pk ∷ pks)
unfolding parse_primary_keys2ids
parse_primary_keys2ids-Typed (int64_pk v) pks ids e =
    let (vs, e', last) = >>=?_some (int64_values (int64_pk v ∷ pks)) _ e in
    int64_values-some (int64_pk v ∷ pks) vs e'
parse_primary_keys2ids-Typed (varchar_pk s) pks ids e =
    let (ss, e', last) = >>=?_some (varchar_values (varchar_pk s ∷ pks)) _ e in
    varchar_values-some (varchar_pk s ∷ pks) ss e'

-- A key is made exactly from a value of the type asked for, and holds that value.
pub gen_primary_key_lem :
    (v : Value) (t : DataType) (pk : PrimaryKey)
    → (gen_primary_key_by_raw_data v t ≡ ok pk) ↔ ((get_value pk ≡ v) × (type_of pk ≡ t))
unfolding gen_primary_key_by_raw_data get_value
gen_primary_key_lem (int64_value v) int64 (int64_pk w) = (λ e. ground arith, λ (h, k). ground arith)
gen_primary_key_lem v t pk = (λ e. ground arith, λ (h, k). ground arith)

-- ===== src/Mq.antt =====
-- mq/msg.go and mq/utils.go: insert and delete messages. proto.Unmarshal is a parameter. The values of
-- fields, the trace context, the hash values and the position are opaque; the names of the collection
-- and its ids that a row's message takes over are one value, and the fields that it does not take over
-- are left out. A dim is not negative, and lengths are below 2 ^ 60, so that no product wraps around.
mod Fields
pub mod Rows
pub mod Delete
pub mod Bounds
mod Tests
use birdwatcher.Base.{
  ℕ, zero, suc, ◌+◌, ◌*◌, ◌/◌, ◌%◌, Bool, true, false, not, ◌&&◌, Option, none, some, ◌>>=?◌, List,
  [], ◌∷◌, ◌++◌, length, take, drop, get_elem?, ltb, leb, ◌==◌, if◌then◌else◌, Result, ok, fail,
  panic, ◌>>=◌,
}

pub data MqError : Type 0 where
  not_supported bad_dim not_divided mismatch not_bytes bad_message : MqError

-- The kinds of scalar data that the code knows, and another one
pub data ScalarKind : Type 0 where
  bool_data int_data long_data float_data double_data string_data : ScalarKind

-- schemapb.ScalarField and schemapb.VectorField
pub data Scalars : Type 0 where
  scalar : ScalarKind → List ℕ → Scalars
  other_scalar : Scalars

pub data Vectors : Type 0 where
  float_vector binary_vector : List ℕ → Vectors
  other_vector : Vectors

pub data Field : Type 0 where
  scalar_field : Scalars → Field
  vector_field : ℕ → Vectors → Field
  no_field : Field

-- schemapb.FieldData: its type, name and id, and the field.
pub record FieldData : Type 0 where
  pub about : ℕ
  pub field : Field

unfoldable pub get_num_rows_of_float_vector_field : List ℕ → ℕ → Result MqError ℕ
get_num_rows_of_float_vector_field data_ dim =
    if dim == 0
    then fail bad_dim
    else (if (length data_ % dim) == 0 then ok (length data_ / dim) else fail not_divided)

unfoldable pub get_num_rows_of_binary_vector_field : List ℕ → ℕ → Result MqError ℕ
get_num_rows_of_binary_vector_field data_ dim =
    if dim == 0
    then fail bad_dim
    else (if (dim % 8) == 0
        then (if ((8 * length data_) % dim) == 0
            then ok ((8 * length data_) / dim)
            else fail not_divided)
        else fail bad_dim)

unfoldable pub get_num_row_of_field : Field → Result MqError ℕ
unfolding get_num_rows_of_float_vector_field get_num_rows_of_binary_vector_field
get_num_row_of_field (scalar_field (scalar kind xs)) = ok (length xs)
get_num_row_of_field (scalar_field other_scalar) = fail not_supported
get_num_row_of_field (vector_field dim (float_vector xs)) =
    get_num_rows_of_float_vector_field xs dim
get_num_row_of_field (vector_field dim (binary_vector xs)) =
    get_num_rows_of_binary_vector_field xs dim
get_num_row_of_field (vector_field dim other_vector) = fail not_supported
get_num_row_of_field no_field = fail not_supported

-- data[a:b]; `none` is a panic. No slice has room behind its elements.
abbrev pub slice : List ℕ → ℕ → ℕ → Option (List ℕ)
slice xs a n = if leb (a + n) (length xs) then some (take n (drop a xs)) else none

-- AppendFieldData of one field to a field of a new message, which is nil.
unfoldable pub append_field : FieldData → ℕ → Option FieldData
append_field src idx = elim src.field [
  | scalar_field s ↦ elim s [
    | scalar kind xs ↦
        get_elem? xs idx >>=? λ x. some (record src { field = scalar_field (scalar kind (x ∷ [])) })
    | other_scalar ↦ none
  ]
  | vector_field dim v ↦ elim v [
    | float_vector xs ↦ slice xs (idx * dim) dim >>=? λ ys.
        some (record src { field = vector_field dim (float_vector ys) })
    | binary_vector xs ↦ slice xs (idx * (dim / 8)) (dim / 8) >>=? λ ys.
        some (record src { field = vector_field dim (binary_vector ys) })
    | other_vector ↦ none
  ]
  | no_field ↦ some (record src { field = no_field })
]

unfoldable pub append_field_data : List FieldData → ℕ → Option (List FieldData)
unfolding append_field
append_field_data [] idx = some []
append_field_data (f ∷ fs) idx =
    append_field f idx >>=? λ g. append_field_data fs idx >>=? λ gs. some (g ∷ gs)

-- Protobuf keeps a number that names no version.
pub data InsertDataVersion : Type 0 where
  row_based column_based : InsertDataVersion
  other_version : ℕ → InsertDataVersion

-- commonpb.MsgBase
pub record MsgBase : Type 0 where
  pub msg_id : ℕ
  pub timestamp : ℕ
  pub source_id : ℕ

-- msgpb.InsertRequest, with `none` for a nil Base; `place` has the ids and names of the collection,
-- the partition, the segment and the shard.
pub record InsertRequest : Type 0 where
  pub base : Option MsgBase
  pub place : ℕ
  pub version : InsertDataVersion
  pub timestamps : List ℕ
  pub row_ids : List ℕ
  pub row_data : List ℕ
  pub fields_data : List FieldData
  pub num_rows : ℕ

abbrev pub is_row_based : InsertDataVersion → Bool
is_row_based row_based = true
is_row_based column_based = false
is_row_based (other_version v) = false

abbrev pub is_column_based : InsertDataVersion → Bool
is_column_based row_based = false
is_column_based column_based = true
is_column_based (other_version v) = false

abbrev pub n_rows : InsertRequest → ℕ
n_rows it = if is_row_based it.version then length it.row_data else it.num_rows

unfoldable pub check_fields : List FieldData → ℕ → Result MqError (Unit {0})
unfolding get_num_row_of_field
check_fields [] rows = ok tt
check_fields (f ∷ fs) rows = do
  n ← get_num_row_of_field f.field
  if n == rows then check_fields fs rows else fail mismatch

unfoldable pub check_aligned : InsertRequest → Result MqError (Unit {0})
unfolding check_fields
check_aligned it = do
  u ← if is_column_based it.version then check_fields it.fields_data (n_rows it) else ok tt
  if length it.row_ids == length it.timestamps
      then (if length it.row_ids == n_rows it then ok tt else fail mismatch)
      else fail mismatch

-- The message of one row; `none` is a panic.
unfoldable pub row_based_index_request : InsertRequest → ℕ → Option InsertRequest
row_based_index_request it index = it.base >>=? λ base. get_elem? it.timestamps index >>=? λ ts.
    get_elem? it.row_ids index >>=? λ id. get_elem? it.row_data index >>=? λ row. some (record {
      base = some (record { msg_id = base.msg_id; timestamp = ts; source_id = base.source_id });
      place = it.place;
      version = row_based;
      timestamps = ts ∷ [];
      row_ids = id ∷ [];
      row_data = row ∷ [];
      fields_data = [];
      num_rows = 0;
    })

unfoldable pub column_based_index_request : InsertRequest → ℕ → Option InsertRequest
unfolding append_field_data
column_based_index_request it index = append_field_data it.fields_data index >>=? λ fields.
    it.base >>=? λ base. get_elem? it.timestamps index >>=? λ ts.
    get_elem? it.row_ids index >>=? λ id. some (record {
      base = some (record { msg_id = base.msg_id; timestamp = ts; source_id = base.source_id });
      place = it.place;
      version = column_based;
      timestamps = ts ∷ [];
      row_ids = id ∷ [];
      row_data = [];
      fields_data = fields;
      num_rows = 1;
    })

unfoldable pub index_request : InsertRequest → ℕ → Option InsertRequest
unfolding row_based_index_request column_based_index_request
index_request it index =
    if is_row_based it.version
    then row_based_index_request it index
    else column_based_index_request it index

-- The timestamps of a message in Unmarshal: the first one, then the least and the greatest.
abbrev pub widen : ℕ × ℕ → List ℕ → ℕ × ℕ
widen bounds [] = bounds
widen (begin, end) (ts ∷ tss) =
    widen (if ltb ts begin then ts else begin, if ltb end ts then ts else end) tss

unfoldable pub timestamp_bounds : List ℕ → ℕ × ℕ
timestamp_bounds [] = (0, 0)
timestamp_bounds (ts ∷ tss) = widen (ts, ts) (ts ∷ tss)

-- What Unmarshal gives: the request, and the bounds of its timestamps.
pub record Decoded {ℓ} (R : Type ℓ) : Type ℓ where
  pub request : R
  pub begin_timestamp : ℕ
  pub end_timestamp : ℕ

-- InsertMsg.Unmarshal on its input's bytes; `none` is an input of another type. `decode` is proto.Unmarshal.
unfoldable pub insert_unmarshal :
    (List ℕ → Option InsertRequest) → Option (List ℕ) → Result MqError (Decoded InsertRequest)
unfolding timestamp_bounds
insert_unmarshal decode none = fail not_bytes
insert_unmarshal decode (some bytes) = elim (decode bytes) [
  | none ↦ fail bad_message
  | some r ↦ ok (record {
    request = r;
    begin_timestamp = (timestamp_bounds r.timestamps).0;
    end_timestamp = (timestamp_bounds r.timestamps).1;
  })
]

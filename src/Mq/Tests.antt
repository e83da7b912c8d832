-- ===== src/Mq/Tests.antt =====
-- Insert and delete messages on concrete values.
use birdwatcher.Base.{◌≡◌, ◌≢◌, ◌↔◌, refl, inr, some, none, [], ◌∷◌, length, ok, panic, arith}
use birdwatcher.Base.Int.{pos}
use birdwatcher.Mq.{
  scalar, int_data, float_vector, binary_vector, scalar_field, vector_field, column_based,
  InsertRequest, Decoded, check_aligned, index_request, insert_unmarshal,
  get_num_rows_of_float_vector_field, get_num_rows_of_binary_vector_field, get_num_row_of_field,
  check_fields,
}
use birdwatcher.Mq.Rows.{Outcome, index_request-check_aligned}
use birdwatcher.Mq.Bounds.{HasBounds, insert_unmarshal-timestamps}
use birdwatcher.Mq.Delete.{
  DeleteRequest, delete_check_aligned, delete_unmarshal, said_rows, keys_count,
  delete_unmarshal-check_aligned,
}

-- Two rows of an int field, of float vectors of dim 2, and of binary vectors of dim 16.
abbrev two_rows : InsertRequest
two_rows = record {
  base = some (record { msg_id = 1; timestamp = 30; source_id = 2 });
  place = 7;
  version = column_based;
  timestamps = 30 ∷ 20 ∷ [];
  row_ids = 100 ∷ 101 ∷ [];
  row_data = [];
  fields_data =
      (record { about = 1; field = scalar_field (scalar int_data (5 ∷ 6 ∷ [])) })
      ∷ (record { about = 2; field = vector_field 2 (float_vector (1 ∷ 2 ∷ 3 ∷ 4 ∷ [])) })
      ∷ (record { about = 3; field = vector_field 16 (binary_vector (1 ∷ 2 ∷ 3 ∷ 4 ∷ [])) })
      ∷ [];
  num_rows = 2;
}

two_rows_aligned : check_aligned two_rows ≡ ok tt
unfolding check_aligned check_fields get_num_row_of_field get_num_rows_of_float_vector_field
    get_num_rows_of_binary_vector_field
two_rows_aligned = refl

index_request-check_aligned_example : Outcome two_rows.base (index_request two_rows 1)
index_request-check_aligned_example =
    index_request-check_aligned two_rows 1 two_rows_aligned (omega arith) (inr refl)

two_timestamps : two_rows.timestamps ≢ []
two_timestamps e = cc

insert_unmarshal-timestamps_example :
    (msg : Decoded InsertRequest) × (insert_unmarshal (λ bytes. some two_rows) (some (9 ∷ []))
      ≡ ok msg)
    × (msg.request ≡ two_rows)
    × HasBounds msg (30 ∷ 20 ∷ [])
insert_unmarshal-timestamps_example =
    insert_unmarshal-timestamps (λ bytes. some two_rows) (9 ∷ []) two_rows refl two_timestamps

-- A request of the old form.
abbrev old_delete : DeleteRequest
old_delete = record {
  primary_keys = none;
  int64_primary_keys = pos 4 ∷ pos 5 ∷ [];
  num_rows = 0;
  timestamps = 30 ∷ 20 ∷ [];
}

delete_unmarshal-check_aligned_example :
    (msg : Decoded DeleteRequest) × (delete_unmarshal (λ bytes. some old_delete) (some (9 ∷ []))
      ≡ ok msg)
    × (delete_check_aligned msg.request ≢ panic)
    × ((delete_check_aligned msg.request ≡ ok tt) ↔ (
        (said_rows old_delete ≡ keys_count old_delete)
        × (said_rows old_delete ≡ length old_delete.timestamps)))
delete_unmarshal-check_aligned_example =
    delete_unmarshal-check_aligned (λ bytes. some old_delete) (9 ∷ []) old_delete refl

-- ===== src/Mq/Delete.antt =====
-- mq/msg.go, mq/utils.go: delete messages. The fields of a request that
-- the code does not read are left out; NumRows is not negative.
use birdwatcher.Base.{
  ℕ, ◌≡◌, ◌≢◌, ◌↔◌, refl, Bool, true, false, Option, none, some, List, length, ◌==◌, ==_iff,
  if◌then◌else◌, Result, ok, fail, panic,
}
use birdwatcher.Base.Int.{ℤ}
use birdwatcher.Storage.Ids.{Ids, int_id, str_id, unset}
use birdwatcher.Mq.{MqError, not_bytes, bad_message, mismatch, Decoded, timestamp_bounds}

unfoldable pub get_size_of_ids : Ids → ℕ
get_size_of_ids (int_id xs) = length xs
get_size_of_ids (str_id xs) = length xs
get_size_of_ids unset = 0

-- msgpb.DeleteRequest, where `none` is a nil pointer.
pub record DeleteRequest : Type 0 where
  pub primary_keys : Option Ids
  pub int64_primary_keys : List ℤ
  pub num_rows : ℕ
  pub timestamps : List ℕ

-- Keys of an old request, which are of type int64.
unfoldable pub upgrade : DeleteRequest → DeleteRequest
upgrade r = elim r.primary_keys [
  | some ids ↦ r
  | none ↦ record r {
    primary_keys = some (int_id r.int64_primary_keys);
    num_rows = length r.int64_primary_keys;
  }
]

-- DeleteMsg.Unmarshal, with the input and `decode` as of InsertMsg.
unfoldable pub delete_unmarshal :
    (List ℕ → Option DeleteRequest) → Option (List ℕ) → Result MqError (Decoded DeleteRequest)
unfolding upgrade timestamp_bounds
delete_unmarshal decode none = fail not_bytes
delete_unmarshal decode (some bytes) = elim (decode bytes) [
  | none ↦ fail bad_message
  | some r ↦ ok (record {
    request = upgrade r;
    begin_timestamp = (timestamp_bounds r.timestamps).0;
    end_timestamp = (timestamp_bounds r.timestamps).1;
  })
]

-- DeleteMsg.CheckAligned, which panics where there are no keys.
unfoldable pub delete_check_aligned : DeleteRequest → Result MqError (Unit {0})
unfolding get_size_of_ids
delete_check_aligned r =
    if r.num_rows == length r.timestamps
    then elim r.primary_keys [
      | none ↦ panic
      | some ids ↦ if r.num_rows == get_size_of_ids ids then ok tt else fail mismatch
    ]
    else fail mismatch

-- How many keys a request has, of either kind.
abbrev pub keys_count : DeleteRequest → ℕ
unfolding get_size_of_ids
keys_count r = elim r.primary_keys [
  | none ↦ length r.int64_primary_keys
  | some ids ↦ get_size_of_ids ids
]

-- How many rows it says it has.
abbrev pub said_rows : DeleteRequest → ℕ
said_rows r = elim r.primary_keys [ none ↦ length r.int64_primary_keys | some ids ↦ r.num_rows ]

-- The two tests of CheckAligned.
both_tests :
    (a b : Bool) {P Q : Type 0}
    → ((a ≡ true) ↔ P)
    → ((b ≡ true) ↔ Q)
    → let m : Result MqError (Unit {0}) =
        if a then (if b then ok tt else fail mismatch) else fail mismatch in
      (m ≢ panic) × ((m ≡ ok tt) ↔ (Q × P))
both_tests true true p q = (λ e. absurd (cc), ((λ e. (q.0 refl, p.0 refl)), λ k. refl))
both_tests true false p q =
    (λ e. absurd (cc), ((λ e. absurd (cc)), λ k. absurd (let e = q.1 k.0 in cc)))
both_tests false b p q =
    (λ e. absurd (cc), ((λ e. absurd (cc)), λ k. absurd (let e = p.1 k.1 in cc)))

upgrade_lem :
    (keys : Option Ids) (ints : List ℤ) (n : ℕ) (ts : List ℕ)
    → let r : DeleteRequest = record {
      primary_keys = keys;
      int64_primary_keys = ints;
      num_rows = n;
      timestamps = ts;
    } in
      (delete_check_aligned (upgrade r) ≢ panic)
      × ((delete_check_aligned (upgrade r) ≡ ok tt)
          ↔ ((said_rows r ≡ keys_count r) × (said_rows r ≡ length r.timestamps)))
unfolding upgrade delete_check_aligned get_size_of_ids
upgrade_lem none ints n ts =
    both_tests (length ints == length ts) (length ints == length ints) (==_iff _ _) (==_iff _ _)
upgrade_lem (some ids) ints n ts =
    both_tests (n == length ts) (n == get_size_of_ids ids) (==_iff _ _) (==_iff _ _)

-- CheckAligned of a delete message that was unmarshalled never panics. It accepts the message
-- exactly if the number of rows is that of the keys and of the timestamps; the number of rows
-- of a request without a key list is that of its int64 keys.
pub delete_unmarshal-check_aligned :
    (decode : List ℕ → Option DeleteRequest) (bytes : List ℕ) (r : DeleteRequest)
    → decode bytes ≡ some r
    → (msg : Decoded DeleteRequest) × (delete_unmarshal decode (some bytes) ≡ ok msg)
      × (delete_check_aligned msg.request ≢ panic)
      × ((delete_check_aligned msg.request ≡ ok tt)
          ↔ ((said_rows r ≡ keys_count r) × (said_rows r ≡ length r.timestamps)))
unfolding delete_unmarshal
delete_unmarshal-check_aligned decode bytes r e =
    let lem = upgrade_lem r.primary_keys r.int64_primary_keys r.num_rows r.timestamps in
    (
      record {
        request = upgrade r;
        begin_timestamp = (timestamp_bounds r.timestamps).0;
        end_timestamp = (timestamp_bounds r.timestamps).1;
      },
      rw (delete_unmarshal, e) refl,
      lem.0,
      lem.1,
    )

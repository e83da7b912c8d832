-- ===== src/Storage/Tests.antt =====
-- Runs of the primary keys and the deletions, and each theorem at keys of both types.
use birdwatcher.Base.{
  ℕ, suc, ◌≡◌, ◌≢◌, ◌↔◌, ◌⊎◌, refl, Bool, true, false, some, List, [], ◌∷◌, ◌++◌, ok, fail, arith,
}
use birdwatcher.Base.Int.{pos, negsuc}
use birdwatcher.Storage.PrimaryKey.{
  PrimaryKey, int64_pk, varchar_pk, int64, type_of, lt, eq, varchar_lt, string_lt, strings_compare,
}
use birdwatcher.Storage.PrimaryKey.Order.{order_lem}
use birdwatcher.Storage.Ids.{
  int64_values, Ids, int_id, ids_round_trip, parse_primary_keys2ids, parse_ids2primary_keys,
}
use birdwatcher.Storage.PrimaryKeys
use birdwatcher.Storage.PrimaryKeys.{PrimaryKeys, int64_pks, varchar_pks, get, len, must_merge}
use birdwatcher.Storage.PrimaryKeys.Elements.{
  elements, Extends, append_cases, get_lem, must_merge_cases,
}
use birdwatcher.Storage.PrimaryKeys.Elements as Elements
use birdwatcher.Storage.DeltaData.{DeltaData, range, merge}
use birdwatcher.Storage.DeltaData.Deletions.{
  IsAligned, fold_until, range-fold_until, merge-IsAligned,
}

-- "a" and "ab"
abbrev short_key : PrimaryKey
short_key = varchar_pk (97 ∷ [])

abbrev long_key : PrimaryKey
long_key = varchar_pk (97 ∷ 98 ∷ [])

prefix_first : lt short_key long_key ≡ true
unfolding lt varchar_lt string_lt strings_compare
prefix_first = refl

abbrev numbers : List PrimaryKey
numbers = int64_pk (pos 7) ∷ int64_pk (negsuc 0) ∷ []

ids_round_trip_example :
    (ids : Ids) × (parse_primary_keys2ids numbers ≡ some ids)
    × (parse_ids2primary_keys ids ≡ numbers)
ids_round_trip_example = ids_round_trip int64 numbers (refl, (refl, tt))

to_ids : parse_primary_keys2ids numbers ≡ some (int_id (pos 7 ∷ negsuc 0 ∷ []))
unfolding parse_primary_keys2ids int64_values
to_ids = refl

abbrev held : PrimaryKeys
held = int64_pks (pos 7 ∷ [])

merge_self : Elements.IsSized held
unfolding PrimaryKeys.size PrimaryKeys.len
merge_self = refl

abbrev deletions : DeltaData
deletions = record {
  pks = some held;
  tss = 40 ∷ [];
  data_type = int64;
  del_row_count = 1;
  mem_size = 0;
}

deletions-IsAligned : IsAligned deletions held
deletions-IsAligned = record {
  holds = refl;
  typed = refl;
  paired = refl;
  counted = refl;
  sized = merge_self;
}

-- A callback that counts, and goes on.
abbrev count_all : ℕ → PrimaryKey → ℕ → ℕ × Bool
count_all n pk ts = (suc n, true)

range-fold_until_example :
    range deletions count_all 0 ≡ some (fold_until count_all 0 (elements held) (40 ∷ []))
range-fold_until_example =
    range-fold_until count_all deletions held 0 deletions-IsAligned (omega arith)

merge-IsAligned_example :
    ((dd' : DeltaData) × (held' : PrimaryKeys) × (merge deletions deletions ≡ ok dd')
      × IsAligned dd' held'
      × (elements held' ≡ elements held ++ elements held)
      × (dd'.tss ≡ 40 ∷ 40 ∷ []))
    ⊎ ((int64 ≢ int64) × (merge deletions deletions ≡ fail tt))
merge-IsAligned_example =
    merge-IsAligned deletions deletions held held deletions-IsAligned deletions-IsAligned

order_lem_example :
    ((eq short_key long_key ≡ true) ↔ (short_key ≡ long_key))
    × (lt short_key short_key ≡ false)
    × (lt short_key long_key ≡ true → lt long_key long_key ≡ true → lt short_key long_key ≡ true)
    × (type_of short_key ≡ type_of long_key
        → (lt short_key long_key ≡ true) ⊎ (short_key ≡ long_key) ⊎ (lt long_key short_key ≡ true))
order_lem_example = order_lem short_key long_key long_key

-- ===== src/Kv/Tests.antt =====
-- Runs of the stores on a few keys.
use birdwatcher.Base.{ℕ, ◌≡◌, refl, not, List, [], ◌∷◌, ◌++◌, select, Result, ok, fail, arith}
use birdwatcher.Base.Text.{same_text, has_prefix, split, join}
use birdwatcher.Kv.Client.{Pair, put_pair, put_pairs}
use birdwatcher.Kv.Client.Pairs.{Sorted-select}
use birdwatcher.Kv.Memory.{put_pair-Sorted, put_pairs-Sorted, memory, memory-IsEtcd, memory-Answers}
use birdwatcher.Kv.Paths.{clean, path_join, join_path}
use birdwatcher.Kv.Etcd.{
  KvError, key_not_found, default_load_option, load, save, multi_save, remove, remove_with_prefix,
  walk_with_prefix, get_all_root_path,
}
use birdwatcher.Kv.Etcd.Walk.{walk_with_prefix_pairs}
use birdwatcher.Kv.Etcd.RootPath.{name_of, get_all_root_path_names}
use birdwatcher.Kv.Etcd.Keys.{load-save, load-remove, load-multi_save}

-- "a/x", "a/y" and "b/z"
abbrev pub ax : List ℕ
ax = 97 ∷ 47 ∷ 120 ∷ []

abbrev pub ay : List ℕ
ay = 97 ∷ 47 ∷ 121 ∷ []

abbrev pub bz : List ℕ
bz = 98 ∷ 47 ∷ 122 ∷ []

abbrev pub store : memory.Store
store = (
  record { key = ax; value = 1 ∷ [] }
      ∷ record { key = ay; value = 2 ∷ [] }
      ∷ record { key = bz; value = 3 ∷ [] }
      ∷ [],
  ((refl, (refl, tt)), ((refl, tt), (tt, tt))),
)

-- A callback that keeps the values.
abbrev keep : List (List ℕ) → Pair → Result KvError (List (List ℕ))
keep vs p = ok (vs ++ (p.value ∷ []))

walk_with_prefix_pairs_example :
    walk_with_prefix memory [] keep 4 (97 ∷ []) 1 store [] ≡ ok ((1 ∷ []) ∷ (2 ∷ []) ∷ [])
unfolding path_join clean split join
walk_with_prefix_pairs_example =
    walk_with_prefix_pairs memory [] memory-IsEtcd keep store (97 ∷ []) 1 4 []
      (memory-Answers store) (omega arith)

get_all_root_path_names_example :
    get_all_root_path memory [] 4 store ≡ ok ((97 ∷ []) ∷ (98 ∷ []) ∷ [])
unfolding split name_of
get_all_root_path_names_example =
    get_all_root_path_names memory [] memory-IsEtcd store (memory-Answers store)
      (refl, (refl, (refl, tt))) 4 (omega arith)

abbrev with_nine : memory.Store
with_nine = (put_pair ay (9 ∷ []) store.0, put_pair-Sorted ay (9 ∷ []) store.0 store.1)

saved_ay : save memory [] ay (9 ∷ []) store ≡ ok with_nine
unfolding save join_path path_join clean split join
saved_ay = refl

-- "a/y" is given a new value.
load-save_example : load memory [] ay default_load_option with_nine ≡ ok (9 ∷ [])
unfolding join_path path_join clean split join
load-save_example =
    load-save memory [] memory-IsEtcd store with_nine ay (9 ∷ []) ay (memory-Answers store)
      (memory-Answers with_nine) saved_ay

-- "a/x" is removed, and all under "a".
abbrev without_ax : memory.Store
without_ax = (
  select (λ (p : Pair). not (same_text ax p.key)) store.0,
  Sorted-select (λ (p : Pair). not (same_text ax p.key)) store.0 store.1,
)

abbrev pub without_a : memory.Store
without_a = (
  select (λ (p : Pair). not (has_prefix (97 ∷ 47 ∷ []) p.key)) store.0,
  Sorted-select (λ (p : Pair). not (has_prefix (97 ∷ 47 ∷ []) p.key)) store.0 store.1,
)

removed_ax : remove memory [] ax store ≡ ok without_ax
unfolding remove join_path path_join clean split join
removed_ax = refl

removed_a : remove_with_prefix memory [] (97 ∷ []) store ≡ ok without_a
unfolding remove_with_prefix join_path path_join clean split join
removed_a = refl

load-remove_example :
    (load memory [] ay default_load_option without_ax ≡ ok (2 ∷ []))
    × (load memory [] ay default_load_option without_a ≡ fail key_not_found)
unfolding load join_path path_join clean split join
load-remove_example =
    load-remove memory [] memory-IsEtcd store without_ax without_a ax (97 ∷ []) ay
      (memory-Answers store) (memory-Answers without_ax) (memory-Answers without_a) removed_ax
      removed_a

abbrev two_puts : List Pair
two_puts = record { key = ay; value = 7 ∷ [] } ∷ record { key = ay; value = 8 ∷ [] } ∷ []

abbrev with_two : memory.Store
with_two = (put_pairs two_puts store.0, put_pairs-Sorted two_puts store.0 store.1)

saved_two : multi_save memory [] (ay ∷ ay ∷ []) ((7 ∷ []) ∷ (8 ∷ []) ∷ []) store ≡ ok with_two
unfolding multi_save
saved_two = refl

load-multi_save_example : load memory [] ay default_load_option with_two ≡ ok (8 ∷ [])
unfolding join_path path_join clean split join
load-multi_save_example =
    load-multi_save memory [] memory-IsEtcd store with_two (ay ∷ ay ∷ []) ((7 ∷ []) ∷ (8 ∷ []) ∷ [])
      two_puts ay (memory-Answers with_two) refl saved_two

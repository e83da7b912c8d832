-- ===== src/Kv/Tikv.antt =====
-- states/kv/kv.go, txnTiKV. The client of TiKV is seen through the pairs it holds, in the order of
-- their keys, as its documentation describes the calls. Iterators, snapshots and transactions are of
-- one moment; errors that arise in the middle of an iteration are left out, with deadlines and the
-- progress display.
pub mod Values
pub mod Backup
use birdwatcher.Base.{
  ℕ, zero, suc, ◌≡◌, Bool, true, false, not, ◌&&◌, ◌||◌, Option, none, some, List, [], ◌∷◌, ◌++◌,
  length, select, ◌==◌, if◌then◌else◌, Result, ok, fail, panic, ◌>>=◌,
}
use birdwatcher.Base.Text.{same_text, before, at_least, is_nonempty, split, has_prefix}
use birdwatcher.Kv.Client.{Pair, RangeEnd, put_pair}
use birdwatcher.Kv.Paths.{slash, path_join, join_path}
use birdwatcher.Kv.Backup.{Codec, marshalled, backup_meta, write_backup_bytes}
use birdwatcher.Kv.Etcd.{
  KvError, client_error, not_implemented, reserved_value, unfinished, attempt, keys_of, values_of,
  first_part, run_callback,
}
use birdwatcher.Kv.Etcd.Keys.{lookup}

-- The client. `none` is an error; Get of a key that is not there is one. PrefixNextKey is seen as the
-- test whether a key comes before it. `set` and `delete` are a transaction of one write, from Begin to
-- Commit; `begin` and `commit` are those of a transaction that writes nothing.
pub record TikvClient : Type 1 where
  pub Store : Type 0
  pub ends : RangeEnd
  pub pairs : Store → List Pair
  pub get : Store → List ℕ → Option (List ℕ)
  pub iter : Store → (List ℕ → Bool) → Option (List Pair)
  pub begin : Store → Option (Unit {0})
  pub commit : Store → Option (Unit {0})
  pub set : Store → List ℕ → List ℕ → Option Store
  pub delete : Store → List ℕ → Option Store
  pub delete_range : Store → (List ℕ → Bool) → Option Store

-- What the calls do when they succeed. An iterator goes over the pairs whose keys are in its range.
pub record IsTikv (C : TikvClient) : Type 0 where
  pub get_lem : (s : C.Store) (k v : List ℕ) → C.get s k ≡ some v → lookup k (C.pairs s) ≡ some v
  pub iter_lem :
      (s : C.Store) (r : List ℕ → Bool) (ps : List Pair)
      → C.iter s r ≡ some ps
      → ps ≡ select (λ (p : Pair). r p.key) (C.pairs s)
  pub set_lem :
      (s t : C.Store) (k v : List ℕ) → C.set s k v ≡ some t → C.pairs t ≡ put_pair k v (C.pairs s)
  pub delete_lem :
      (s t : C.Store) (k : List ℕ)
      → C.delete s k ≡ some t
      → C.pairs t ≡ select (λ (p : Pair). not (same_text k p.key)) (C.pairs s)
  pub delete_range_lem :
      (s t : C.Store) (r : List ℕ → Bool)
      → C.delete_range s r ≡ some t
      → C.pairs t ≡ select (λ (p : Pair). not (r p.key)) (C.pairs s)

-- "__milvus_reserved_empty_tikv_value_DO_NOT_USE"
abbrev pub empty_value_string : List ℕ
empty_value_string =
    95 ∷ 95 ∷ 109 ∷ 105 ∷ 108 ∷ 118 ∷ 117 ∷ 115 ∷ 95 ∷ 114 ∷ 101 ∷ 115 ∷ 101 ∷ 114 ∷ 118 ∷ 101 ∷ 100
    ∷ 95 ∷ 101 ∷ 109 ∷ 112 ∷ 116 ∷ 121 ∷ 95 ∷ 116 ∷ 105 ∷ 107 ∷ 118 ∷ 95 ∷ 118 ∷ 97 ∷ 108 ∷ 117
    ∷ 101 ∷ 95 ∷ 68 ∷ 79 ∷ 95 ∷ 78 ∷ 79 ∷ 84 ∷ 95 ∷ 85 ∷ 83 ∷ 69 ∷ []

unfoldable pub is_empty_byte : List ℕ → Bool
is_empty_byte value = same_text value empty_value_string || not (is_nonempty value)

unfoldable pub convert_empty_byte_to_string : List ℕ → List ℕ
unfolding is_empty_byte
convert_empty_byte_to_string value = if is_empty_byte value then [] else value

-- TiKV takes no empty value; the reserved one stands for it.
unfoldable pub convert_empty_string_to_byte : List ℕ → Result KvError (List ℕ)
convert_empty_string_to_byte value =
    if length value == 0
    then ok empty_value_string
    else if same_text value empty_value_string
    then fail reserved_value
    else ok value

unfoldable pub converted : List Pair → List Pair
unfolding convert_empty_byte_to_string
converted [] = []
converted (p ∷ ps) = record p { value = convert_empty_byte_to_string p.value } ∷ converted ps

module _ (C : TikvClient) (root_path : List ℕ) where
  abbrev pub tikv_key : List ℕ → List ℕ
  unfolding join_path
  tikv_key key = join_path (root_path ∷ key ∷ [])

  -- From a prefix up to the next key behind those under it.
  abbrev pub under : List ℕ → List ℕ → Bool
  under prefix k = at_least k prefix && C.ends.before_end prefix k

  unfoldable pub tikv_load : List ℕ → C.Store → Result KvError (List ℕ)
  unfolding convert_empty_byte_to_string
  tikv_load key s = do val ← attempt (C.get s (tikv_key key)); ok (convert_empty_byte_to_string val)

  -- The loop over an iterator.
  unfoldable pub tikv_load_with_prefix :
      List ℕ → C.Store → Result KvError (List (List ℕ) × List (List ℕ))
  unfolding converted
  tikv_load_with_prefix prefix s = do
    ps ← attempt (C.iter s (under (tikv_key prefix)))
    ok (keys_of (converted ps), values_of (converted ps))

  unfoldable pub tikv_save : List ℕ → List ℕ → C.Store → Result KvError C.Store
  unfolding convert_empty_string_to_byte
  tikv_save key value s = do
    bytes ← convert_empty_string_to_byte value
    attempt (C.set s (tikv_key key) bytes)

  unfoldable pub tikv_multi_save : List (List ℕ) → List (List ℕ) → C.Store → Result KvError C.Store
  tikv_multi_save keys values s = fail not_implemented

  unfoldable pub tikv_remove : List ℕ → C.Store → Result KvError C.Store
  tikv_remove key s = attempt (C.delete s (tikv_key key))

  unfoldable pub tikv_remove_with_prefix : List ℕ → C.Store → Result KvError C.Store
  tikv_remove_with_prefix prefix s = attempt (C.delete_range s (under (tikv_key prefix)))

  -- An error of Load means that there is nothing to remove.
  unfoldable pub tikv_remove_with_prev_kv :
      List ℕ → C.Store → Result KvError (Option Pair × C.Store)
  unfolding tikv_load tikv_remove
  tikv_remove_with_prev_kv key s = elim (tikv_load key s) [
    | ok prev ↦ tikv_remove key s >>= λ t. ok (some (record { key = key; value = prev }), t)
    | fail e ↦ ok (none, s)
    | panic ↦ panic
  ]

  abbrev pub zip_pairs : List (List ℕ) → List (List ℕ) → Result KvError (List Pair)
  zip_pairs [] vals = ok []
  zip_pairs (k ∷ keys) [] = panic
  zip_pairs (k ∷ keys) (v ∷ vals) = do
    kvs ← zip_pairs keys vals
    ok (record { key = k; value = v } ∷ kvs)

  unfoldable pub tikv_remove_with_prefix_and_prev_kv :
      List ℕ → C.Store → Result KvError (List Pair × C.Store)
  unfolding tikv_load_with_prefix tikv_remove_with_prefix
  tikv_remove_with_prefix_and_prev_kv prefix s = do
    (keys, vals) ← tikv_load_with_prefix prefix s
    t ← tikv_remove_with_prefix prefix s
    kvs ← zip_pairs keys vals
    ok (kvs, t)

  -- " " and "~"
  abbrev pub between : List ℕ → List ℕ → Bool
  between start k = at_least k start && before k (126 ∷ [])

  -- GetAllRootPath: an iterator in each turn, of which the first key is read.
  unfoldable pub tikv_root_path_turn :
      (List (List ℕ) → List ℕ → Result KvError (List (List ℕ)))
      → List (List ℕ)
      → List Pair
      → Result KvError (List (List ℕ))
  unfolding split
  tikv_root_path_turn next apps [] = ok apps
  tikv_root_path_turn next apps (p ∷ ps) =
      let name = first_part (split slash p.key) in
      elim (is_nonempty name) [
        | true ↦ next (apps ++ (name ∷ [])) (name ++ (48 ∷ []))
        | false ↦ ok apps
      ]

  unfoldable pub tikv_root_path_loop :
      ℕ → List (List ℕ) → List ℕ → C.Store → Result KvError (List (List ℕ))
  unfolding tikv_root_path_turn
  tikv_root_path_loop zero apps start s = fail unfinished
  tikv_root_path_loop (suc fuel) apps start s =
      attempt (C.iter s (between start))
      >>= tikv_root_path_turn (λ apps start. tikv_root_path_loop fuel apps start s) apps

  unfoldable pub tikv_get_all_root_path : ℕ → C.Store → Result KvError (List (List ℕ))
  unfolding tikv_root_path_loop
  tikv_get_all_root_path fuel s = tikv_root_path_loop fuel [] (32 ∷ []) s

  -- The value that the callback is given, for an empty one too.
  unfoldable pub tikv_walk_with_prefix {ℓ} :
      {A : Type ℓ} → (A → Pair → Result KvError A) → List ℕ → C.Store → A → Result KvError A
  unfolding path_join converted
  tikv_walk_with_prefix fn prefix s a = do
    ps ← attempt (C.iter s (under (path_join (root_path ∷ prefix ∷ []))))
    run_callback fn (converted ps) a

  -- BackupKV: the loop over the second iterator does not move behind a key that does not start with the
  -- base path.
  module _ (codec : Codec) where
    unfoldable pub tikv_backup_loop :
        ℕ → List ℕ → ℕ → List Pair → List ℕ → ℕ → Result KvError (List ℕ × ℕ)
    unfolding write_backup_bytes
    tikv_backup_loop zero base batch_size ps w i = fail unfinished
    tikv_backup_loop (suc fuel) base batch_size [] w i = ok (w, i)
    tikv_backup_loop (suc fuel) base batch_size (p ∷ ps) w i = elim (has_prefix base p.key) [
      | false ↦ tikv_backup_loop fuel base batch_size (p ∷ ps) w i
      | true ↦ marshalled (codec.marshal p) >>= λ bs. elim (batch_size == 0) [
        | true ↦ panic
        | false ↦ tikv_backup_loop fuel base batch_size ps (write_backup_bytes w bs) (suc i)
      ]
    ]

    -- The last line of the progress divides by the number of pairs. An error of the commit comes when all
    -- is written.
    unfoldable pub tikv_backup_kv :
        ℕ → List ℕ → List ℕ → ℕ → List ℕ → C.Store → Result KvError (List ℕ)
    unfolding join_path backup_meta write_backup_bytes tikv_backup_loop
    tikv_backup_kv fuel base prefix batch_size w s = do
      txn ← attempt (C.begin s)
      ps ← attempt (C.iter s (under (join_path (base ∷ prefix ∷ []))))
      bs ← marshalled (codec.marshal_header (backup_meta (length ps) base))
      (w, i) ← tikv_backup_loop fuel base batch_size ps (write_backup_bytes w bs) 0
      elim (length ps == 0) [
        | true ↦ panic
        | false ↦ attempt (C.commit s) >>= λ u. ok (write_backup_bytes w [])
      ]

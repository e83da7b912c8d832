-- ===== src/Kv/Etcd.antt =====
-- states/kv/kv.go, etcdKV, and states/kv/options.go. The store is read and changed by this client alone
-- between two calls; revisions, deadlines and the progress display are left out.
pub mod Walk
pub mod RootPath
pub mod Keys
use birdwatcher.Base.{
  ℕ, zero, suc, ◌≡◌, Bool, true, false, Option, none, some, List, [], ◌∷◌, ◌++◌, ◌==◌,
  if◌then◌else◌, Result, ok, fail, panic, ◌>>=◌,
}
use birdwatcher.Base.Text.{ends_with, split, has_prefix}
use birdwatcher.Kv.Client.{
  Pair, Range, single, with_prefix, from_key, to_prefix_end, Content, whole, keys_only, count_only,
  Request, Response, EtcdClient,
}
use birdwatcher.Kv.Paths.{slash, path_join, join_path}

-- `unfinished` is no error of the code: the fuel of a loop is spent. The text is that of a callback's
-- error.
pub data KvError : Type 0 where
  client_error key_not_found not_implemented reserved_value marshal_error unfinished : KvError
  callback_error : List ℕ → KvError

abbrev pub attempt {ℓ} : {A : Type ℓ} → Option A → Result KvError A
attempt none = fail client_error
attempt (some a) = ok a

pub attempt_ok {ℓ} : {A : Type ℓ} (o : Option A) {a : A} → attempt o ≡ ok a → o ≡ some a
attempt_ok none h = absurd (cc)
attempt_ok (some b) h = cc

-- loadOption
pub record LoadOption : Type 0 where
  pub with_keys_only : Bool

abbrev pub default_load_option : LoadOption
default_load_option = record { with_keys_only = false }

-- EtcdOptions
abbrev pub etcd_options : LoadOption → Content
etcd_options o = if o.with_keys_only then keys_only else whole

-- resp.Kvs[0].Value
abbrev pub first_value : List Pair → Result KvError (List ℕ)
first_value [] = panic
first_value (p ∷ ps) = ok p.value

abbrev pub keys_of : List Pair → List (List ℕ)
keys_of [] = []
keys_of (p ∷ ps) = p.key ∷ keys_of ps

abbrev pub values_of : List Pair → List (List ℕ)
values_of [] = []
values_of (p ∷ ps) = p.value ∷ values_of ps

-- The puts of MultiSave: a key without a value at its index is a panic.
abbrev pub puts : List (List ℕ) → List (List ℕ) → Result KvError (List Pair)
puts [] values = ok []
puts (k ∷ keys) [] = panic
puts (k ∷ keys) (v ∷ values) = do ops ← puts keys values; ok (record { key = k; value = v } ∷ ops)

abbrev pub head? {ℓ} : {A : Type ℓ} → List A → Option A
head? [] = none
head? (x ∷ xs) = some x

-- parts[0]; strings.Split gives a part at least.
abbrev pub first_part : List (List ℕ) → List ℕ
first_part [] = []
first_part (part ∷ parts) = part

abbrev pub add_app : List (List ℕ) → List ℕ → List (List ℕ)
add_app apps [] = apps
add_app apps (c ∷ cs) = apps ++ ((c ∷ cs) ∷ [])

-- The loop over a page in GetAllRootPath: the names found and the key to go on from.
unfoldable pub root_page : List Pair → List (List ℕ) → List ℕ → List (List ℕ) × List ℕ
unfolding split
root_page [] apps current = (apps, current)
root_page (p ∷ ps) apps current =
    let name = first_part (split slash p.key) in
    root_page ps (add_app apps name) (name ++ (48 ∷ []))

-- The key behind that of resp.Kvs[len(resp.Kvs)-1].
abbrev pub next_key : List Pair → Result KvError (List ℕ)
next_key [] = panic
next_key (p ∷ []) = ok (p.key ++ (0 ∷ []))
next_key (p ∷ q ∷ ps) = next_key (q ∷ ps)

-- A callback on each pair of a page, with the state it keeps.
abbrev pub run_callback {ℓ} :
    {A : Type ℓ} → (A → Pair → Result KvError A) → List Pair → A → Result KvError A
run_callback fn [] a = ok a
run_callback fn (p ∷ ps) a = fn a p >>= run_callback fn ps

module _ (C : EtcdClient) (root_path : List ℕ) where
  abbrev pub full_key : List ℕ → List ℕ
  unfolding join_path
  full_key key = join_path (root_path ∷ key ∷ [])

  unfoldable pub load : List ℕ → LoadOption → C.Store → Result KvError (List ℕ)
  unfolding join_path
  load key opt s = do
    resp ← attempt (
        C.get s
          (record { key = full_key key; range = single; limit = 0; content = etcd_options opt }))
    if resp.count == 0 then fail key_not_found else first_value resp.kvs

  unfoldable pub load_with_prefix :
      List ℕ → LoadOption → C.Store → Result KvError (List (List ℕ) × List (List ℕ))
  unfolding join_path
  load_with_prefix key opt s = do
    resp ← attempt (
        C.get s (record {
          key = full_key key;
          range = with_prefix;
          limit = 0;
          content = etcd_options opt;
        }))
    ok (keys_of resp.kvs, values_of resp.kvs)

  unfoldable pub save : List ℕ → List ℕ → C.Store → Result KvError C.Store
  save key value s = attempt (C.put s (full_key key) value)

  unfoldable pub multi_save : List (List ℕ) → List (List ℕ) → C.Store → Result KvError C.Store
  multi_save keys values s = do ops ← puts keys values; attempt (C.put_all s ops)

  abbrev pub second {ℓ κ} : {A : Type ℓ} {B : Type κ} → A × B → Result KvError B
  second (a, b) = ok b

  unfoldable pub remove : List ℕ → C.Store → Result KvError C.Store
  remove key s = attempt (C.delete s (full_key key) single) >>= second

  -- The prefix ends with a slash, so as not to remove other keys.
  abbrev pub with_slash : List ℕ → List ℕ
  with_slash key = if ends_with slash key then key else key ++ (slash ∷ [])

  unfoldable pub remove_with_prefix : List ℕ → C.Store → Result KvError C.Store
  remove_with_prefix prefix s =
      attempt (C.delete s (with_slash (full_key prefix)) with_prefix) >>= second

  abbrev pub first_removed : List Pair × C.Store → Result KvError (Option Pair × C.Store)
  first_removed (prev, t) = ok (head? prev, t)

  unfoldable pub remove_with_prev_kv : List ℕ → C.Store → Result KvError (Option Pair × C.Store)
  remove_with_prev_kv key s = attempt (C.delete s (full_key key) single) >>= first_removed

  -- The response is read before the error is looked at, and there is none with an error.
  unfoldable pub remove_with_prefix_and_prev_kv :
      List ℕ → C.Store → Result KvError (List Pair × C.Store)
  remove_with_prefix_and_prev_kv prefix s = elim (C.delete s (full_key prefix) with_prefix) [
    | none ↦ panic
    | some (prev_kvs, t) ↦ ok (prev_kvs, t)
  ]

  -- GetAllRootPath, a page of one key in each turn.
  unfoldable pub root_path_loop :
      ℕ → List (List ℕ) → List ℕ → C.Store → Result KvError (List (List ℕ))
  unfolding root_page
  root_path_loop zero apps current s = fail unfinished
  root_path_loop (suc fuel) apps current s = do
    resp ←
        attempt
          (C.get s (record { key = current; range = from_key; limit = 1; content = keys_only }))
    (apps, current) ← ok (root_page resp.kvs apps current)
    elim resp.more [ false ↦ ok apps | true ↦ root_path_loop fuel apps current s ]

  unfoldable pub get_all_root_path : ℕ → C.Store → Result KvError (List (List ℕ))
  unfolding root_path_loop
  get_all_root_path fuel s = root_path_loop fuel [] [] s

  module _ {ℓ} {A : Type ℓ} (fn : A → Pair → Result KvError A) where
    unfoldable pub walk_loop : ℕ → List ℕ → ℕ → List ℕ → C.Store → A → Result KvError A
    walk_loop zero prefix batch key s a = fail unfinished
    walk_loop (suc fuel) prefix batch key s a = do
      resp ← attempt (
          C.get s
            (record { key = key; range = to_prefix_end prefix; limit = batch; content = whole }))
      a ← run_callback fn resp.kvs a
      elim resp.more [
        | false ↦ ok a
        | true ↦ next_key resp.kvs >>= λ key. walk_loop fuel prefix batch key s a
      ]

    unfoldable pub walk_with_prefix : ℕ → List ℕ → ℕ → C.Store → A → Result KvError A
    unfolding walk_loop path_join
    walk_with_prefix fuel prefix pagination_size s a =
        let prefix = path_join (root_path ∷ prefix ∷ []) in
        walk_loop fuel prefix pagination_size prefix s a

-- ===== src/Storage/DeltaData.antt =====
-- storage/delta_data.go: the deletions of a segment, keys and their timestamps side by side. `none`
-- is a panic.
pub mod Deletions
use birdwatcher.Base.{
  ℕ, zero, suc, ◌+◌, ◌^◌, Bool, true, false, Option, none, some, List, [], ◌∷◌, ◌++◌, ltb,
  get_elem?, if◌then◌else◌, Result, ok, fail, panic, ◌>>=?◌ as ◌>>=◌,
}
use birdwatcher.Base.Word.{add64}
use birdwatcher.Storage.PrimaryKey.{PrimaryKey, DataType, int64, varchar, other}
use birdwatcher.Storage.PrimaryKeys
use birdwatcher.Storage.PrimaryKeys.{PrimaryKeys}

-- `pks` is `none` while it is the nil interface; `del_row_count` and `mem_size` are int64.
pub record DeltaData : Type 0 where
  pub pks : Option PrimaryKeys
  pub tss : List ℕ
  pub data_type : DataType
  pub del_row_count : ℕ
  pub mem_size : ℕ

abbrev new_pks : DataType → Option PrimaryKeys
new_pks int64 = some PrimaryKeys.new_int64_primary_keys
new_pks varchar = some PrimaryKeys.new_varchar_primary_keys
new_pks (other t) = none

unfoldable pub new_delta_data : DataType → DeltaData
new_delta_data t = record {
  pks = new_pks t;
  tss = [];
  data_type = t;
  del_row_count = 0;
  mem_size = 0;
}

unfoldable pub append : DeltaData → PrimaryKey → ℕ → Option DeltaData
append dd pk ts = do
  held ← dd.pks
  held' ← PrimaryKeys.must_append held (pk ∷ [])
  some (record dd {
    pks = some held';
    tss = dd.tss ++ (ts ∷ []);
    del_row_count = add64 dd.del_row_count 1;
  })

-- The loop of Range over the indices from `i`, `rounds` of them, until the callback says stop. The
-- callback carries a state of its own, which stands for whatever it does.
unfoldable pub range_loop {ℓ} :
    {S : Type ℓ} → DeltaData → (S → PrimaryKey → ℕ → S × Bool) → ℕ → ℕ → S → Option S
range_loop dd f zero i s = some s
range_loop dd f (suc rounds) i s = do
  held ← dd.pks
  pk ← PrimaryKeys.get held i
  ts ← get_elem? dd.tss i
  let (s', more) = f s pk ts
  elim more [ true ↦ range_loop dd f rounds (i + 1) s' | false ↦ some s' ]

-- A count above the int64 range is negative, and the loop does nothing.
abbrev rounds_of : ℕ → ℕ
rounds_of count = if ltb count (2 ^ 63) then count else 0

unfoldable pub range {ℓ} : {S : Type ℓ} → DeltaData → (S → PrimaryKey → ℕ → S × Bool) → S → Option S
unfolding range_loop
range dd f s = range_loop dd f (rounds_of dd.del_row_count) 0 s

abbrev same_type : DataType → DataType → Bool
same_type int64 int64 = true
same_type varchar varchar = true
same_type (other s) (other t) = if ltb s t then false else if ltb t s then false else true
same_type _ _ = false

-- `dd.pks.MustMerge(add.pks)`
abbrev merge_pks : Option PrimaryKeys → Option PrimaryKeys → Option PrimaryKeys
merge_pks held others = do pks ← held; more ← others; PrimaryKeys.must_merge pks more

-- `fail tt` is "data type not match".
unfoldable pub merge : DeltaData → DeltaData → Result (Unit {0}) DeltaData
merge dd add =
    if same_type dd.data_type add.data_type
    then elim (merge_pks dd.pks add.pks) [
      | none ↦ panic
      | some pks ↦ ok (record dd {
        pks = some pks;
        tss = dd.tss ++ add.tss;
        del_row_count = add64 dd.del_row_count add.del_row_count;
      })
    ]
    else fail tt

-- ===== src/Kv/TikvTests.antt =====
-- Runs of the store of TiKV.
use birdwatcher.Base.{
  ℕ, ◌≡◌, refl, sym, some-inj, not, some, List, [], ◌∷◌, ◌++◌, select, Result, ok, arith,
}
use birdwatcher.Base.Text.{same_text, split, join}
use birdwatcher.Kv.Client.{Pair, put_pair}
use birdwatcher.Kv.Memory.{memory}
use birdwatcher.Kv.Tests.{ay, bz, store}
use birdwatcher.Kv.BackupTests.{bytes_of, codec}
use birdwatcher.Binlog.Bytes.{put_little_endian}
use birdwatcher.Kv.Backup.Complete.{frame}
use birdwatcher.Kv.Paths.{clean, path_join, join_path}
use birdwatcher.Kv.Etcd.{KvError}
use birdwatcher.Kv.Etcd.Keys.{lookup}
use birdwatcher.Kv.Backup.{backup_meta}
use birdwatcher.Kv.Tikv.{
  TikvClient, IsTikv, empty_value_string, convert_empty_string_to_byte, tikv_load, tikv_save,
  tikv_backup_kv,
}
use birdwatcher.Kv.Tikv.Values.{tikv_load-save}
use birdwatcher.Kv.Tikv.Backup.{pairs_under, tikv_backup_kv_lem}

-- A store in memory
abbrev tikv : TikvClient
tikv = record {
  Store = List Pair;
  ends = memory.ends;
  pairs = λ s. s;
  get = λ s k. lookup k s;
  iter = λ s r. some (select (λ (p : Pair). r p.key) s);
  begin = λ s. some tt;
  commit = λ s. some tt;
  set = λ s k v. some (put_pair k v s);
  delete = λ s k. some (select (λ (p : Pair). not (same_text k p.key)) s);
  delete_range = λ s r. some (select (λ (p : Pair). not (r p.key)) s);
}

tikv-IsTikv : IsTikv tikv
tikv-IsTikv = record {
  get_lem = λ s k v e. e;
  iter_lem = λ s r ps e. sym (some-inj e);
  set_lem = λ s t k v e. sym (some-inj e);
  delete_lem = λ s t k e. sym (some-inj e);
  delete_range_lem = λ s t r e. sym (some-inj e);
}

saved_empty : tikv_save tikv [] ay [] store.0 ≡ ok (put_pair ay empty_value_string store.0)
unfolding tikv_save convert_empty_string_to_byte join_path path_join clean split join
saved_empty = refl

-- "a/y" is given the empty value.
tikv_load-save_example : tikv_load tikv [] ay (put_pair ay empty_value_string store.0) ≡ ok []
unfolding join_path path_join clean split join
tikv_load-save_example =
    tikv_load-save tikv [] tikv-IsTikv store.0 (put_pair ay empty_value_string store.0) ay []
      empty_value_string saved_empty refl

abbrev keep : List (List ℕ) → Pair → Result KvError (List (List ℕ))
keep vs p = ok (vs ++ (p.value ∷ []))

-- The backup of "b" has the one key under it, the last of the store.
abbrev under_b : List Pair
under_b = record { key = bz; value = 3 ∷ [] } ∷ []

tikv_backup_kv_lem_example :
    (under_b ≡ pairs_under tikv [] codec bytes_of (98 ∷ []) 2 [] store.0)
    × (tikv_backup_kv tikv [] codec 2 (98 ∷ []) [] 2 [] store.0
        ≡ ok (
            1 ∷ 0 ∷ 0 ∷ 0 ∷ 0 ∷ 0 ∷ 0 ∷ 0 ∷ 1 ∷ 5 ∷ 0 ∷ 0 ∷ 0 ∷ 0 ∷ 0 ∷ 0 ∷ 0 ∷ 3 ∷ 98 ∷ 47 ∷ 122
            ∷ 3 ∷ 0 ∷ 0 ∷ 0 ∷ 0 ∷ 0 ∷ 0 ∷ 0 ∷ 0 ∷ []))
unfolding join_path path_join clean split join backup_meta frame put_little_endian
tikv_backup_kv_lem_example =
    tikv_backup_kv_lem tikv [] codec bytes_of (98 ∷ []) 2 tikv-IsTikv 2 [] [] (1 ∷ []) store.0
      under_b refl refl (λ e. absurd (omega (arith, e))) ((refl, refl), tt) (omega arith)

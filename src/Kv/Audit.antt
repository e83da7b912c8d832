-- ===== src/Kv/Audit.antt =====
-- states/kv/kv_audit.go: a store that keeps a log of its changes. The log is a list of messages;
-- their bytes, of proto.Marshal, go through writeData. Errors of the file are printed only,
-- so that a write always takes place here.
pub mod Undo
use birdwatcher.Base.{
  ℕ, zero, suc, Bool, true, false, List, [], ◌∷◌, ◌++◌, length, Result, ok, fail, panic, ◌>>=◌, ltb,
  if◌then◌else◌,
}
use birdwatcher.Binlog.Bytes.{put_little_endian}
use birdwatcher.Kv.Client.{Pair, EtcdClient}
use birdwatcher.Kv.Etcd.{
  KvError, not_implemented, default_load_option, load, load_with_prefix, save, remove,
  remove_with_prefix,
}

-- The part of MetaKV that the log is kept for.
pub record MetaKv : Type 1 where
  pub Store : Type 0
  pub kv_load : List ℕ → Store → Result KvError (List ℕ)
  pub kv_load_with_prefix : List ℕ → Store → Result KvError (List (List ℕ) × List (List ℕ))
  pub kv_save : List ℕ → List ℕ → Store → Result KvError Store
  pub kv_remove : List ℕ → Store → Result KvError Store
  pub kv_remove_with_prefix : List ℕ → Store → Result KvError Store

-- etcdKV as such a store
abbrev pub etcd_kv : EtcdClient → List ℕ → MetaKv
etcd_kv C root_path = record {
  Store = C.Store;
  kv_load = λ key s. load C root_path key default_load_option s;
  kv_load_with_prefix = λ key s. load_with_prefix C root_path key default_load_option s;
  kv_save = λ key value s. save C root_path key value s;
  kv_remove = λ key s. remove C root_path key s;
  kv_remove_with_prefix = λ key s. remove_with_prefix C root_path key s;
}

-- models.AuditOpType
pub data AuditOpType : Type 0 where
  op_del op_put op_put_before op_put_after : AuditOpType

-- The header of an operation, with the number of entries it announces, and an entry.
pub data AuditMessage : Type 0 where
  audit_header : AuditOpType → ℕ → AuditMessage
  audit_entry : List ℕ → List ℕ → AuditMessage

-- writeData
unfoldable pub write_data : List ℕ → List ℕ → List ℕ
unfolding put_little_endian
write_data file bytes =
    let file = file ++ put_little_endian 8 (length bytes) in
    if ltb 0 (length bytes) then file ++ bytes else file

-- Each call returns an error or the new store, and the log in any case.
pub record Audited {ℓ} (A : Type ℓ) : Type ℓ where
  pub log : List AuditMessage
  pub result : Result KvError A

module _ (M : MetaKv) where
  unfoldable pub audit_save : List ℕ → List ℕ → M.Store → List AuditMessage → Audited M.Store
  audit_save key value s log = elim (M.kv_save key value s) [
    | ok t ↦ record {
      log =
          log
          ++ (audit_header op_put 2
              ∷ audit_header op_put_before 1
              ∷ audit_entry key value
              ∷ audit_header op_put_after 1
              ∷ []);
      result = ok t;
    }
    | fail e ↦ record {
      log = log ++ (audit_header op_put 2 ∷ audit_header op_put_after 1 ∷ []);
      result = fail e;
    }
    | panic ↦ record { log = log ++ (audit_header op_put 2 ∷ []); result = panic }
  ]

  unfoldable pub audit_multi_save :
      List (List ℕ) → List (List ℕ) → M.Store → List AuditMessage → Audited M.Store
  audit_multi_save keys values s log = record { log = log; result = fail not_implemented }

  -- The value of a key and the store without it.
  unfoldable pub load_and_remove : List ℕ → M.Store → Result KvError (List ℕ × M.Store)
  load_and_remove key s = do val ← M.kv_load key s; t ← M.kv_remove key s; ok (val, t)

  unfoldable pub audit_remove : List ℕ → M.Store → List AuditMessage → Audited M.Store
  unfolding load_and_remove
  audit_remove key s log = elim (load_and_remove key s) [
    | ok x ↦ record {
      log = log ++ (audit_header op_del 1 ∷ audit_entry key x.0 ∷ []);
      result = ok x.1;
    }
    | fail e ↦ record { log = log; result = fail e }
    | panic ↦ record { log = log; result = panic }
  ]

  unfoldable pub load_and_remove_with_prefix :
      List ℕ → M.Store → Result KvError ((List (List ℕ) × List (List ℕ)) × M.Store)
  load_and_remove_with_prefix key s = do
    kvs ← M.kv_load_with_prefix key s
    t ← M.kv_remove_with_prefix key s
    ok (kvs, t)

  -- The loop over the keys, with the value at the index of each.
  unfoldable pub audit_entries :
      List (List ℕ) → List (List ℕ) → M.Store → List AuditMessage → Audited M.Store
  audit_entries [] values t log = record { log = log; result = ok t }
  audit_entries (k ∷ keys) [] t log = record { log = log; result = panic }
  audit_entries (k ∷ keys) (v ∷ values) t log =
      audit_entries keys values t (log ++ (audit_entry k v ∷ []))

  unfoldable pub audit_remove_with_prefix : List ℕ → M.Store → List AuditMessage → Audited M.Store
  unfolding load_and_remove_with_prefix audit_entries
  audit_remove_with_prefix key s log = elim (load_and_remove_with_prefix key s) [
    | ok x ↦ audit_entries x.0.0 x.0.1 x.1 (log ++ (audit_header op_del 1 ∷ []))
    | fail e ↦ record { log = log; result = fail e }
    | panic ↦ record { log = log; result = panic }
  ]

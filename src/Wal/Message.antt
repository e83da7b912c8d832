-- ===== src/Wal/Message.antt =====
-- The messages of the log, an interface of another repository (milvus/pkg, streaming/util/message),
-- and its transaction builder. Nothing of it is defined here: a message is the values that its
-- methods return, and the builder is a parameter with the behaviour that the buffers rely on.
use Prim.Native.String.{String}
use birdwatcher.Base.{ℕ, ◌+◌, ◌≡◌, Bool, Option, some}

-- message.MessageType, as far as the code tells types apart.
pub data MessageType : Type 0 where
  begin_txn commit_txn rollback_txn time_tick : MessageType
  other : ℕ → MessageType

-- message.ImmutableMessage: TimeTick(), MessageID().Marshal(), EstimateSize(), the TxnID of
-- TxnContext() (`none` for a nil context), MessageType(), VChannel(), IsPersisted().
pub record Message : Type 0 where
  pub tick : ℕ
  pub message_id : String
  pub estimate_size : ℕ
  pub txn_context : Option ℕ
  pub message_type : MessageType
  pub vchannel : String
  pub is_persisted : Bool

-- message.ImmutableTxnMessageBuilder, and the conversions AsImmutable{Begin,Commit,Rollback}Txn-
-- MessageV2: `decodes` says that a conversion returns no error; where it does, it returns no message.
pub record TxnBuilders : Type 1 where
  pub Builder : Type 0
  pub decodes : Message → Bool
  pub new_builder : Message → Builder
  pub add : Builder → Message → Builder
  pub estimate_size : Builder → ℕ
  pub expired_time_tick : Builder → ℕ
  -- `none` is an error of Build.
  pub build : Builder → Message → Option Message
  pub estimate_size-new_builder : (m : Message) → estimate_size (new_builder m) ≡ m.estimate_size
  pub estimate_size-add :
      (b : Builder) (m : Message) → estimate_size (add b m) ≡ estimate_size b + m.estimate_size
  -- The message of a transaction has the time tick of its commit.
  pub tick-build :
      (b : Builder) (commit : Message) {m : Message}
      → build b commit ≡ some m
      → m.tick ≡ commit.tick

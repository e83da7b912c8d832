-- ===== src/Wal/TxnBuffer.antt =====
-- wal/utility/txn_buffer.go: messages of a transaction are held until it commits, and dropped when
-- it rolls back or expires. `none` is a panic: a method called on a nil message or a nil context.
pub mod Effect
pub mod Totality
pub mod Accounting
pub mod Isolation
pub mod Commit
pub mod Ticks
pub mod Expiry
use birdwatcher.Base.{
  ℕ, Option, none, some, List, [], ◌∷◌, ◌++◌, leb, if◌then◌else◌, ◌>>=?◌ as ◌>>=◌,
}
use birdwatcher.Base.Dict.{lookup, set, delete}
use birdwatcher.Base.Word.{add64, sub64}
use birdwatcher.Wal.Message.{
  Message, MessageType, begin_txn, commit_txn, rollback_txn, time_tick, other, TxnBuilders,
}

-- `builders` is the map from transaction ids to builders, `bytes` an `int`.
pub record TxnBuffer (T : TxnBuilders) : Type 0 where
  pub builders : List (ℕ × T.Builder)
  pub bytes : ℕ

-- `append(result, newTxnMsg)` where the message is not nil.
abbrev pub to_list : Option Message → List Message
to_list none = []
to_list (some m) = m ∷ []

module _ (T : TxnBuilders) where
  unfoldable pub new_txn_buffer : TxnBuffer T
  new_txn_buffer = record { builders = []; bytes = 0 }

  -- The `As…MessageV2` conversion at the head of a handler; on its error the handler logs, and
  -- reads the txn id of the nil message for that.
  abbrev convert : Message → Option ℕ
  convert msg = if T.decodes msg then msg.txn_context else none

  unfoldable pub handle_begin_txn : TxnBuffer T → Message → Option (TxnBuffer T)
  handle_begin_txn b msg = do
    id ← convert msg
    elim (lookup id b.builders) [
      | some builder ↦ some b
      | none ↦ some (record {
        builders = set id (T.new_builder msg) b.builders;
        bytes = add64 b.bytes msg.estimate_size;
      })
    ]

  -- The message built, if any: an unknown id and a failed Build give none.
  unfoldable pub handle_commit_txn : TxnBuffer T → Message → Option (TxnBuffer T × Option Message)
  handle_commit_txn b msg = do
    id ← convert msg
    elim (lookup id b.builders) [
      | none ↦ some (b, none)
      | some builder ↦ some (
        record { builders = delete id b.builders; bytes = sub64 b.bytes (T.estimate_size builder) },
        T.build builder msg,
      )
    ]

  unfoldable pub handle_rollback_txn : TxnBuffer T → Message → Option (TxnBuffer T)
  handle_rollback_txn b msg = do
    id ← convert msg
    elim (lookup id b.builders) [
      | none ↦ some b
      | some builder ↦ some (record {
        builders = delete id b.builders;
        bytes = sub64 b.bytes (T.estimate_size builder);
      })
    ]

  -- `builder.Add` changes the builder that the map points to.
  unfoldable pub handle_txn_body_message : TxnBuffer T → Message → Option (TxnBuffer T)
  handle_txn_body_message b msg = do
    id ← msg.txn_context
    elim (lookup id b.builders) [
      | none ↦ some b
      | some builder ↦ some (record {
        builders = set id (T.add builder msg) b.builders;
        bytes = add64 b.bytes msg.estimate_size;
      })
    ]

  -- The body of the loop over the map: one entry, which is dropped once it has expired.
  unfoldable pub clear_entry : ℕ → TxnBuffer T → ℕ × T.Builder → TxnBuffer T
  clear_entry ts b (id, builder) =
      if leb (T.expired_time_tick builder) ts
      then record {
        builders = delete id b.builders;
        bytes = sub64 b.bytes (T.estimate_size builder);
      }
      else b

  -- The loop over the entries, in any order that `range` takes.
  unfoldable pub clear_loop : ℕ → List (ℕ × T.Builder) → TxnBuffer T → TxnBuffer T
  unfolding clear_entry
  clear_loop ts [] b = b
  clear_loop ts (e ∷ es) b = clear_loop ts es (clear_entry ts b e)

  unfoldable pub clear_expired_txn : TxnBuffer T → ℕ → TxnBuffer T
  clear_expired_txn b ts = clear_loop ts b.builders b

  abbrev no_message : TxnBuffer T → Option (TxnBuffer T × List Message)
  no_message b = some (b, [])

  -- The switch on the message type.
  abbrev dispatch : TxnBuffer T → Message → MessageType → Option (TxnBuffer T × List Message)
  dispatch b msg begin_txn = do b' ← handle_begin_txn b msg; no_message b'
  dispatch b msg commit_txn = do (b', built) ← handle_commit_txn b msg; some (b', to_list built)
  dispatch b msg rollback_txn = do b' ← handle_rollback_txn b msg; no_message b'
  dispatch b msg time_tick = do b' ← handle_txn_body_message b msg; no_message b'
  dispatch b msg (other k) = do b' ← handle_txn_body_message b msg; no_message b'

  -- The body of the loop of HandleImmutableMessages: the buffer, and what joins the result.
  unfoldable pub handle_message : TxnBuffer T → Message → Option (TxnBuffer T × List Message)
  handle_message b msg = elim msg.txn_context [
    | none ↦ some (b, msg ∷ [])
    | some id ↦ dispatch b msg msg.message_type
  ]

  unfoldable pub handle_loop :
      TxnBuffer T → List Message → List Message → Option (TxnBuffer T × List Message)
  handle_loop b result [] = some (b, result)
  handle_loop b result (msg ∷ msgs) = do
    (b', out) ← handle_message b msg
    handle_loop b' (result ++ out) msgs

  unfoldable pub handle_immutable_messages :
      TxnBuffer T → List Message → ℕ → Option (TxnBuffer T × List Message)
  handle_immutable_messages b msgs ts = do
    (b', result) ← handle_loop b [] msgs
    some (clear_expired_txn b' ts, result)

-- ===== src/Wal/Scanner.antt =====
-- wal/adaptor/scanner_adaptor.go: the scanner that reads a channel's log, and hands its messages on
-- in time tick order. The two event loops run concurrently; their meeting points, a message taken
-- from upstream and a message handed to the consumer, are the steps here, in any order.
pub mod Invariant
pub mod Order
use Prim.Native.String.{String}
use text.Mathlib.Text.{◌==◌ as str_eq}
use birdwatcher.Base.{
  ℕ, ◌≡◌, Bool, true, false, not, ◌&&◌, ◌||◌, Option, none, some, List, [], ◌∷◌, ◌++◌, ltb, ◌==◌,
  if◌then◌else◌, ◌>>=?◌ as ◌>>=◌,
}
use birdwatcher.Wal.Message.{
  Message, MessageType, begin_txn, commit_txn, rollback_txn, time_tick, other, TxnBuilders,
}
use birdwatcher.Wal.Typeutil.{StringSet, MessageHeap, MessageQueue}
use birdwatcher.Wal.ReorderBuffer
use birdwatcher.Wal.ReorderBuffer.{ReorderBuffer}
use birdwatcher.Wal.TxnBuffer
use birdwatcher.Wal.TxnBuffer.{TxnBuffer}
use birdwatcher.Wal.PendingQueue
use birdwatcher.Wal.PendingQueue.{PendingQueue}

-- The containers and the builder that the scanner's parts are made of.
pub record Parts : Type 1 where
  pub heaps : MessageHeap
  pub sets : StringSet
  pub txns : TxnBuilders
  pub queues : MessageQueue

-- ReadOption.VChannel, and the filter that options.GetFilterFunc makes (`none` is the nil function).
pub record ScannerOptions : Type 0 where
  pub vchannel : String
  pub filter_func : Option (Message → Bool)

-- scannerAdaptorImpl, the fields that the loops change.
pub record Scanner (P : Parts) : Type 0 where
  pub reorder_buffer : ReorderBuffer P.heaps P.sets
  pub pending_queue : PendingQueue P.queues
  pub txn_buffer : TxnBuffer P.txns

abbrev pub is_time_tick : MessageType → Bool
is_time_tick time_tick = true
is_time_tick begin_txn = false
is_time_tick commit_txn = false
is_time_tick rollback_txn = false
is_time_tick (other k) = false

-- `s.filterFunc != nil && !s.filterFunc(msg)`
abbrev pub filtered_out : Option (Message → Bool) → Message → Bool
filtered_out none msg = false
filtered_out (some f) msg = not (f msg)

-- The message is bound to another vchannel than the one selected.
abbrev pub off_channel : String → Message → Bool
off_channel vchannel msg =
    not (str_eq msg.vchannel "") && (not (str_eq vchannel "") && not (str_eq vchannel msg.vchannel))

abbrev is_empty : List Message → Bool
is_empty [] = true
is_empty (m ∷ ms) = false

-- message.HandleResult: the error of a cancelled context, a message handed on, or one received.
pub data HandleResult : Type 0 where
  cancelled : HandleResult
  message_handled : HandleResult
  incoming : Message → HandleResult

-- ChanMessageHandler.Handle: which results its select can give, for the upstream channel and the
-- message that it is offered. A nil channel is never chosen.
pub data Handles (upstream : Bool) (next : Option Message) : HandleResult → Type 0 where
  done : Handles upstream next cancelled
  receives : (m : Message) → upstream ≡ true → Handles upstream next (incoming m)
  sends : (m : Message) → next ≡ some m → Handles upstream next message_handled

module _ (P : Parts) (opts : ScannerOptions) where
  unfoldable pub new_scanner : Scanner P
  new_scanner = record {
    reorder_buffer = ReorderBuffer.new_reorder_buffer P.heaps P.sets;
    pending_queue = PendingQueue.new_pending_queue P.queues;
    txn_buffer = TxnBuffer.new_txn_buffer P.txns;
  }

  -- The confirmed messages join the queue, and the time tick behind them: always if it is
  -- persisted, else only if nothing waits.
  unfoldable pub enqueue : PendingQueue P.queues → List Message → Message → PendingQueue P.queues
  enqueue queue msgs msg =
      let queue' = if is_empty msgs then queue else PendingQueue.add P.queues queue msgs in
      if msg.is_persisted || PendingQueue.len P.queues queue' == 0
      then PendingQueue.add P.queues queue' (msg ∷ [])
      else queue'

  -- The branch of handleUpstream for a time tick message.
  unfoldable pub handle_time_tick : Scanner P → Message → Option (Scanner P)
  unfolding enqueue
  handle_time_tick s msg =
      let (buffer, messages) =
        ReorderBuffer.pop_util_time_tick P.heaps P.sets s.reorder_buffer msg.tick in
      do
        (txn_buffer, msgs) ←
            TxnBuffer.handle_immutable_messages P.txns s.txn_buffer messages msg.tick
        some (record {
          reorder_buffer = buffer;
          txn_buffer = txn_buffer;
          pending_queue = enqueue s.pending_queue msgs msg;
        })

  -- `none` is a panic of one of the parts. An error of Push is logged only.
  unfoldable pub handle_upstream : Scanner P → Message → Option (Scanner P)
  handle_upstream s msg =
      if filtered_out opts.filter_func msg
      then some s
      else if is_time_tick msg.message_type
      then handle_time_tick s msg
      else if off_channel opts.vchannel msg
      then some s
      else some
          (record s { reorder_buffer = (ReorderBuffer.push P.heaps P.sets s.reorder_buffer msg).0 })

  -- Whether the loop offers the upstream channel: not while more than 16 messages wait.
  unfoldable pub offers_upstream : Scanner P → Bool
  offers_upstream s = not (ltb 16 (PendingQueue.len P.queues s.pending_queue))

  -- One round of consumeEventLoop after Handle has answered. On an error the loop returns, and the
  -- state stays.
  unfoldable pub consume : Scanner P → HandleResult → Option (Scanner P)
  consume s cancelled = some s
  consume s message_handled = do
    queue ← PendingQueue.unsafe_advance P.queues s.pending_queue
    some (record s { pending_queue = queue })
  consume s (incoming m) = handle_upstream s m

-- A run of consumeEventLoop from `s`: what it has received, the latest first, and what it has
-- handed to the consumer, in order.
pub data Run (P : Parts) (opts : ScannerOptions) (s : Scanner P)
    : Scanner P → List Message → List Message → Type 0 where
  start : Run P opts s s [] []
  receive :
      {t u : Scanner P} {ins outs : List Message} (m : Message)
      → Run P opts s t ins outs
      → Handles (offers_upstream P opts t) (P.queues.next t.pending_queue.queue) (incoming m)
      → consume P opts t (incoming m) ≡ some u
      → Run P opts s u (m ∷ ins) outs
  send :
      {t u : Scanner P} {ins outs : List Message} (m : Message)
      → Run P opts s t ins outs
      → P.queues.next t.pending_queue.queue ≡ some m
      → consume P opts t message_handled ≡ some u
      → Run P opts s u ins (outs ++ (m ∷ []))

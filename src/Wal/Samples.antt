-- ===== src/Wal/Samples.antt =====
-- Messages for the tests.
use Prim.Native.String.{String}
use birdwatcher.Base.{ℕ, false, Option, none}
use birdwatcher.Wal.Message.{Message, MessageType, other}

abbrev pub message : ℕ → String → Option ℕ → MessageType → Message
message tick id txn type = record {
  tick = tick;
  message_id = id;
  estimate_size = 10;
  txn_context = txn;
  message_type = type;
  vchannel = "v1";
  is_persisted = false;
}

abbrev pub insert_at : ℕ → String → Message
insert_at tick id = message tick id none (other 1)

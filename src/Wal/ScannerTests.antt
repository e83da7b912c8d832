-- ===== src/Wal/ScannerTests.antt =====
-- A run of the scanner, and the theorems of the queue and the scanner at it.
use birdwatcher.Base.{◌≡◌, refl, true, none, some, [], ◌∷◌, arith}
use birdwatcher.Base.Word.{add64, sub64}
use birdwatcher.Wal.Message.{Message, time_tick}
use birdwatcher.Wal.Samples.{message, insert_at}
use birdwatcher.Wal.Reference.{list_queue, list_parts}
use birdwatcher.Wal.ReorderBuffer.{new_reorder_buffer, pop_util_time_tick, pop_loop, take_out, push}
use birdwatcher.Wal.ReorderBuffer.Order.{AtMost, Ordered}
use birdwatcher.Wal.TxnBuffer.{
  new_txn_buffer, handle_immutable_messages, handle_loop, handle_message, clear_expired_txn,
  clear_loop,
}
use birdwatcher.Wal.PendingQueue.{
  add_sizes, add, unsafe_advance, len, new_pending_queue, waiting, IsCounted, add-IsCounted,
}
use birdwatcher.Wal.Scanner.{
  ScannerOptions, Scanner, Run, start, receive, send, receives, new_scanner, enqueue,
  handle_time_tick, handle_upstream, offers_upstream, consume, incoming, message_handled,
}
use birdwatcher.Wal.Scanner.Invariant.{IsValid, new_scanner-IsValid, Run-IsValid}
use birdwatcher.Wal.Scanner.Order.{confirmed_up_to, Run-Ordered}

abbrev opts : ScannerOptions
opts = record { vchannel = ""; filter_func = none }

abbrev plain : Message
plain = insert_at 4 "p"

abbrev tick : Message
tick = message 5 "k" none time_tick

abbrev holding : Scanner list_parts
holding = record {
  reorder_buffer = record {
    message_ids = "p" ∷ [];
    message_heap = plain ∷ [];
    last_pop_time_tick = 0;
    bytes = 10;
  };
  pending_queue = record { queue = []; bytes = 0 };
  txn_buffer = record { builders = []; bytes = 0 };
}

abbrev confirmed : Scanner list_parts
confirmed = record {
  reorder_buffer = record {
    message_ids = [];
    message_heap = [];
    last_pop_time_tick = 5;
    bytes = 0;
  };
  pending_queue = record { queue = plain ∷ []; bytes = 10 };
  txn_buffer = record { builders = []; bytes = 0 };
}

abbrev sent : Scanner list_parts
sent = record confirmed { pending_queue = record { queue = []; bytes = 0 } }

takes_plain : consume list_parts opts (new_scanner list_parts opts) (incoming plain) ≡ some holding
unfolding consume handle_upstream push new_scanner new_reorder_buffer new_txn_buffer
    new_pending_queue add64
takes_plain = refl

takes_tick : handle_upstream list_parts opts holding tick ≡ some confirmed
unfolding handle_upstream handle_time_tick enqueue pop_util_time_tick pop_loop take_out
    handle_immutable_messages handle_loop handle_message clear_expired_txn clear_loop add add_sizes
    len add64 sub64
takes_tick = refl

sends_plain : consume list_parts opts confirmed message_handled ≡ some sent
unfolding consume unsafe_advance sub64
sends_plain = refl

takes_tick_step : consume list_parts opts holding (incoming tick) ≡ some confirmed
unfolding consume
takes_tick_step = takes_tick

offers : offers_upstream list_parts opts (new_scanner list_parts opts) ≡ true
unfolding offers_upstream len new_scanner new_pending_queue
offers = refl

offers_again : offers_upstream list_parts opts holding ≡ true
unfolding offers_upstream len
offers_again = refl

three_rounds :
    Run list_parts opts (new_scanner list_parts opts) sent (tick ∷ plain ∷ []) (plain ∷ [])
three_rounds =
    send plain
      (receive tick (receive plain start (receives plain offers) takes_plain)
        (receives tick offers_again) takes_tick_step)
      refl sends_plain

Run-IsValid_example : IsValid list_parts sent
Run-IsValid_example = Run-IsValid list_parts opts three_rounds (new_scanner-IsValid list_parts opts)

Run-Ordered_example :
    Ordered (plain ∷ []) × AtMost (confirmed_up_to list_parts opts (tick ∷ plain ∷ [])) (plain ∷ [])
Run-Ordered_example = Run-Ordered list_parts opts three_rounds (omega arith)

holding-IsValid : IsValid list_parts holding
holding-IsValid =
    Run-IsValid list_parts opts (receive plain start (receives plain offers) takes_plain)
      (new_scanner-IsValid list_parts opts)

add-IsCounted_example :
    IsCounted list_queue (add list_queue confirmed.pending_queue (tick ∷ []))
    × (waiting list_queue (add list_queue confirmed.pending_queue (tick ∷ [])) ≡ plain ∷ tick ∷ [])
add-IsCounted_example = add-IsCounted list_queue confirmed.pending_queue (tick ∷ []) refl

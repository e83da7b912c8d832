-- ===== src/Wal/ReorderBuffer.antt =====
-- wal/utility/reorder_buffer.go: messages are held until a time tick confirms them, and leave in
-- the order of their time ticks.
pub mod Order
pub mod Invariant
pub mod History
use birdwatcher.Base.{
  ℕ, zero, suc, true, false, Option, none, some, List, [], ◌∷◌, ◌++◌, ltb, leb, if◌then◌else◌,
}
use birdwatcher.Base.Word.{add64, sub64}
use birdwatcher.Wal.Message.{Message}
use birdwatcher.Wal.Typeutil.{StringSet, MessageHeap}

-- ErrTimeTickVoilation, or "message is duplicated".
pub data PushError : Type 0 where
  time_tick_violation message_duplicated : PushError

pub record ReorderBuffer (H : MessageHeap) (S : StringSet) : Type 0 where
  pub message_ids : S.Set
  pub message_heap : H.Heap
  pub last_pop_time_tick : ℕ
  pub bytes : ℕ

module _ (H : MessageHeap) (S : StringSet) where
  unfoldable pub new_reorder_buffer : ReorderBuffer H S
  new_reorder_buffer = record {
    message_ids = S.empty;
    message_heap = H.empty;
    last_pop_time_tick = 0;
    bytes = 0;
  }

  -- The buffer after the call, and the error, if any. A refused message leaves it as it was.
  unfoldable pub push : ReorderBuffer H S → Message → ReorderBuffer H S × Option PushError
  push r msg =
      if ltb msg.tick r.last_pop_time_tick
      then (r, some time_tick_violation)
      else if S.contain msg.message_id r.message_ids
      then (r, some message_duplicated)
      else (
        record r {
          message_heap = H.push r.message_heap msg;
          message_ids = S.insert msg.message_id r.message_ids;
          bytes = add64 r.bytes msg.estimate_size;
        },
        none,
      )

  -- The body of the loop of PopUtilTimeTick: the top message is `msg`, and `rest` is left of the
  -- heap once it is popped.
  unfoldable pub take_out : ReorderBuffer H S → Message → H.Heap → ReorderBuffer H S
  take_out r msg rest = record r {
    bytes = sub64 r.bytes msg.estimate_size;
    message_ids = S.remove msg.message_id r.message_ids;
    message_heap = rest;
  }

  -- The loop, on fuel: it goes on while the heap's top is not above `timetick`.
  unfoldable pub pop_loop :
      ℕ → ℕ → ReorderBuffer H S → List Message → ReorderBuffer H S × List Message
  unfolding take_out
  pop_loop zero timetick r res = (r, res)
  pop_loop (suc fuel) timetick r res = elim (H.pop r.message_heap) [
    | none ↦ (r, res)
    | some (msg, rest) ↦ elim (leb msg.tick timetick) [
      | true ↦ pop_loop fuel timetick (take_out r msg rest) (res ++ (msg ∷ []))
      | false ↦ (r, res)
    ]
  ]

  -- Each round takes one message out, so the heap's length is enough fuel.
  unfoldable pub pop_util_time_tick : ReorderBuffer H S → ℕ → ReorderBuffer H S × List Message
  pop_util_time_tick r timetick =
      let (r', res) = pop_loop (H.len r.message_heap) timetick r [] in
      (record r' { last_pop_time_tick = timetick }, res)

  unfoldable pub len : ReorderBuffer H S → ℕ
  len r = H.len r.message_heap

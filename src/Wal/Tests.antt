-- ===== src/Wal/Tests.antt =====
-- Runs of the log reader on small inputs, and the theorems at such inputs.
use mathlib.Core.List.{Perm}
use birdwatcher.Base.{◌≡◌, refl, some, List, [], ◌∷◌, ◌++◌, arith}
use birdwatcher.Wal.Reference.{list_set, list_heap}
use birdwatcher.Wal.Samples.{insert_at}
use birdwatcher.Wal.ReorderBuffer.{
  ReorderBuffer, new_reorder_buffer, push, pop_loop, pop_util_time_tick, time_tick_violation,
  message_duplicated,
}
use birdwatcher.Wal.ReorderBuffer.Order.{Popped, Ordered, contents, pop_util_time_tick-Popped}
use birdwatcher.Wal.ReorderBuffer.Invariant as Reorder
use birdwatcher.Wal.ReorderBuffer.History.{Call, pushes, pops, run, accepted, run-perm, run-Ordered}

abbrev buffer : ReorderBuffer list_heap list_set
buffer = record {
  message_ids = "c" ∷ "a" ∷ "b" ∷ [];
  message_heap = insert_at 7 "c" ∷ insert_at 3 "a" ∷ insert_at 5 "b" ∷ [];
  last_pop_time_tick = 2;
  bytes = 30;
}

buffer-IsValid : Reorder.IsValid list_heap list_set buffer
buffer-IsValid = record {
  indexed = record { ids = λ k. refl; distinct = (refl, (refl, (refl, tt))); counted = refl };
  fresh = omega arith;
}

-- Popping up to tick 5 gives the messages at 3 and 5, in that order.
pop_two :
    (pop_util_time_tick list_heap list_set buffer 5).1 ≡ insert_at 3 "a" ∷ insert_at 5 "b" ∷ []
unfolding pop_util_time_tick pop_loop
pop_two = refl

push_old : (push list_heap list_set buffer (insert_at 1 "d")).1 ≡ some time_tick_violation
unfolding push
push_old = refl

push_again : (push list_heap list_set buffer (insert_at 9 "a")).1 ≡ some message_duplicated
unfolding push
push_again = refl

pop_util_time_tick-Popped_example :
    Popped 5
      (contents list_heap list_set buffer)
      (pop_util_time_tick list_heap list_set buffer 5).1
      (contents list_heap list_set (pop_util_time_tick list_heap list_set buffer 5).0)
    × ((pop_util_time_tick list_heap list_set buffer 5).0.last_pop_time_tick ≡ 5)
pop_util_time_tick-Popped_example = pop_util_time_tick-Popped list_heap list_set buffer 5

abbrev calls : List Call
calls = pushes (insert_at 4 "d") ∷ pops 4 ∷ pushes (insert_at 4 "e") ∷ pops 8 ∷ []

run-perm_example :
    let r = new_reorder_buffer list_heap list_set in
    Perm (accepted list_heap list_set r calls) (
      (run list_heap list_set r calls).1
      ++ contents list_heap list_set (run list_heap list_set r calls).0)
run-perm_example = run-perm list_heap list_set calls

run-Ordered_example : Ordered (run list_heap list_set buffer calls).1
run-Ordered_example = run-Ordered list_heap list_set buffer calls buffer-IsValid (omega arith)

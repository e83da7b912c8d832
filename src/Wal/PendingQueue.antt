-- ===== src/Wal/PendingQueue.antt =====
-- wal/utility/pending_queue.go: the confirmed messages that wait for the consumer, with their size.
use birdwatcher.Base.{
  ℕ, ◌+◌, ◌%◌, ◌^◌, ◌≡◌, ◌⊎◌, ◌∙◌, ap, Option, none, some, List, [], ◌∷◌, ◌++◌, arith, inl, inr,
  Option-cases, length,
}
use birdwatcher.Base.Perms.{sum_by, sum_by-append}
use birdwatcher.Base.Word.{add64, sub64}
use birdwatcher.Wal.Message.{Message}
use birdwatcher.Wal.Typeutil.{MessageQueue}

-- `bytes` is an `int`.
pub record PendingQueue (Q : MessageQueue) : Type 0 where
  pub queue : Q.Queue
  pub bytes : ℕ

-- The loop of Add over the messages.
unfoldable pub add_sizes : ℕ → List Message → ℕ
add_sizes bytes [] = bytes
add_sizes bytes (m ∷ ms) = add_sizes (add64 bytes m.estimate_size) ms

module _ (Q : MessageQueue) where
  unfoldable pub new_pending_queue : PendingQueue Q
  new_pending_queue = record { queue = Q.empty; bytes = 0 }

  unfoldable pub add : PendingQueue Q → List Message → PendingQueue Q
  add q msg = record { bytes = add_sizes q.bytes msg; queue = Q.add q.queue msg }

  unfoldable pub add_one : PendingQueue Q → Message → PendingQueue Q
  add_one q msg = record { bytes = add64 q.bytes msg.estimate_size; queue = Q.add_one q.queue msg }

  -- `none` is a panic: the size of the nil message that Next shows on an empty queue.
  unfoldable pub unsafe_advance : PendingQueue Q → Option (PendingQueue Q)
  unsafe_advance q = elim (Q.next q.queue) [
    | none ↦ none
    | some m ↦
        some (record { bytes = sub64 q.bytes m.estimate_size; queue = Q.unsafe_advance q.queue })
  ]

  unfoldable pub len : PendingQueue Q → ℕ
  len q = Q.len q.queue

  abbrev pub waiting : PendingQueue Q → List Message
  waiting q = Q.to_list q.queue

  abbrev pub size_of : Message → ℕ
  size_of m = m.estimate_size

  -- The byte count is the size of the messages that wait, as an `int` holds it.
  abbrev pub IsCounted : PendingQueue Q → Type 0
  IsCounted q = q.bytes ≡ sum_by size_of (waiting q) % 2 ^ 64

  add_sizes-sum_by :
      (t : ℕ) (ms : List Message) → add_sizes (t % 2 ^ 64) ms ≡ (t + sum_by size_of ms) % 2 ^ 64
  unfolding add_sizes add64
  add_sizes-sum_by t [] = omega arith
  add_sizes-sum_by t (m ∷ ms) =
      ap (λ (x : ℕ). add_sizes x ms) (omega arith)
      ∙ add_sizes-sum_by (t + m.estimate_size) ms
      ∙ omega arith

  pub new_pending_queue-IsCounted : IsCounted new_pending_queue
  unfolding new_pending_queue
  new_pending_queue-IsCounted = rw Q.to_list-empty

  -- Messages join at the end, and the byte count follows.
  pub add-IsCounted :
      (q : PendingQueue Q) (ms : List Message)
      → IsCounted q
      → IsCounted (add q ms) × (waiting (add q ms) ≡ waiting q ++ ms)
  unfolding add
  add-IsCounted q ms c = (
    ap (λ (x : ℕ). add_sizes x ms) c
        ∙ add_sizes-sum_by (sum_by size_of (waiting q)) ms
        ∙ rw (Q.to_list-add q.queue ms, sum_by-append size_of (waiting q) ms),
    Q.to_list-add q.queue ms,
  )

  pub add_one-IsCounted :
      (q : PendingQueue Q) (m : Message)
      → IsCounted q
      → IsCounted (add_one q m) × (waiting (add_one q m) ≡ waiting q ++ (m ∷ []))
  unfolding add_one add64
  add_one-IsCounted q m c = (
    rw (Q.to_list-add_one q.queue m, sum_by-append size_of (waiting q) (m ∷ [])) (omega arith),
    Q.to_list-add_one q.queue m,
  )

  -- Advancing drops the message at the front and its size; on the empty queue it panics.
  pub unsafe_advance_lem :
      (q : PendingQueue Q)
      → IsCounted q
      → ((waiting q ≡ []) × (unsafe_advance q ≡ none))
        ⊎ ((m : Message) × (q' : PendingQueue Q) × (unsafe_advance q ≡ some q')
            × (waiting q ≡ m ∷ waiting q')
            × IsCounted q')
  unfolding unsafe_advance sub64
  unsafe_advance_lem q c = elim (Option-cases (Q.next q.queue)) [
    | inl e ↦ inl (Q.next_none q.queue e, rw (e, unsafe_advance))
    | inr (m, e) ↦ inr (
      m,
      record { bytes = sub64 q.bytes m.estimate_size; queue = Q.unsafe_advance q.queue },
      rw (e, unsafe_advance),
      Q.next_some q.queue m e,
      omega (arith, ap (sum_by size_of) (Q.next_some q.queue m e)),
    )
  ]

  pub len-waiting : (q : PendingQueue Q) → len q ≡ length (waiting q)
  unfolding len
  len-waiting q = Q.len-to_list q.queue

  pub waiting-new : waiting new_pending_queue ≡ []
  unfolding new_pending_queue
  waiting-new = Q.to_list-empty

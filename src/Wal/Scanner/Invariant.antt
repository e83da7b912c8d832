-- ===== src/Wal/Scanner/Invariant.antt =====
-- The scanner's parts stay sound, round after round.
use birdwatcher.Base.{
  ℕ, ◌+◌, ◌≡◌, ◌≢◌, ◌⊎◌, refl, sym, ◌∙◌, ap, inl, inr, Bool, true, false, ◌||◌, some, List, [], ◌∷◌,
  ◌++◌, ◌==◌, length, length-append, Bool-cases, >>=?_some, some-inj, if◌then◌else◌, arith,
}
use mathlib.Core.Path.{subst}
use mathlib.Core.List.{append-nil, append_assoc}
use birdwatcher.Wal.Message.{Message}
use birdwatcher.Wal.ReorderBuffer
use birdwatcher.Wal.ReorderBuffer.Invariant as Reorder
use birdwatcher.Wal.TxnBuffer
use birdwatcher.Wal.TxnBuffer.Accounting
use birdwatcher.Wal.PendingQueue
use birdwatcher.Wal.PendingQueue.{PendingQueue, waiting, IsCounted, add-IsCounted}
use birdwatcher.Wal.Scanner.{
  Parts, ScannerOptions, Scanner, new_scanner, enqueue, handle_time_tick, handle_upstream, consume,
  Run, start, receive, send, HandleResult, cancelled, message_handled, incoming, is_time_tick,
  filtered_out, off_channel, is_empty,
}

pub record IsValid (P : Parts) (s : Scanner P) : Type 0 where
  pub reorder : Reorder.IsValid P.heaps P.sets s.reorder_buffer
  pub txn : Accounting.IsValid P.txns s.txn_buffer
  pub pending : IsCounted P.queues s.pending_queue

-- What stands behind the confirmed messages in the queue: the time tick or nothing.
abbrev pub trailing : Bool → Message → List Message
trailing true m = m ∷ []
trailing false m = []

module _ (P : Parts) (opts : ScannerOptions) where
  pub new_scanner-IsValid : IsValid P (new_scanner P opts)
  unfolding new_scanner
  new_scanner-IsValid = record {
    reorder = Reorder.new_reorder_buffer-IsValid P.heaps P.sets;
    txn = Accounting.new_txn_buffer-IsValid P.txns;
    pending = PendingQueue.new_pending_queue-IsCounted P.queues;
  }

  abbrev Adds : PendingQueue P.queues → List Message → PendingQueue P.queues → Type 0
  Adds q ms q' = IsCounted P.queues q' × (waiting P.queues q' ≡ waiting P.queues q ++ ms)

  added :
      (q : PendingQueue P.queues) (ms : List Message)
      → IsCounted P.queues q
      → Adds q ms (if is_empty ms then q else PendingQueue.add P.queues q ms)
  added q [] c = (c, sym (append-nil _))
  added q (m ∷ ms) c = add-IsCounted P.queues q (m ∷ ms) c

  -- The first step of `enqueue`: the confirmed messages.
  abbrev with_messages : PendingQueue P.queues → List Message → PendingQueue P.queues
  with_messages q ms = if is_empty ms then q else PendingQueue.add P.queues q ms

  -- Whether the time tick message joins the queue too.
  abbrev pub takes_tick : PendingQueue P.queues → List Message → Message → Bool
  takes_tick q ms m = m.is_persisted || PendingQueue.len P.queues (with_messages q ms) == 0

  trail :
      (q q' : PendingQueue P.queues) (ms : List Message) (m : Message) (b : Bool)
      → Adds q ms q'
      → Adds q (ms ++ trailing b m) (if b then PendingQueue.add P.queues q' (m ∷ []) else q')
  trail q q' ms m true (c, w) =
      let (c', w') = add-IsCounted P.queues q' (m ∷ []) c in
      (c', w' ∙ ap (λ (xs : List Message). xs ++ (m ∷ [])) w ∙ append_assoc _ ms (m ∷ []))
  trail q q' ms m false (c, w) = (c, w ∙ ap (◌++◌ (waiting P.queues q)) (sym (append-nil ms)))

  -- What a time tick Adds to the queue, in order: the confirmed messages, and behind them the time
  -- tick message, if it is persisted or nothing else would wait.
  pub enqueue_adds :
      (q : PendingQueue P.queues) (ms : List Message) (m : Message)
      → IsCounted P.queues q
      → IsCounted P.queues (enqueue P opts q ms m)
        × (waiting P.queues (enqueue P opts q ms m)
            ≡ waiting P.queues q ++ (ms ++ trailing (takes_tick q ms m) m))
  unfolding enqueue
  enqueue_adds q ms m c = trail q (with_messages q ms) ms m (takes_tick q ms m) (added q ms c)

  -- The rounds of a time tick, taken apart.
  pub time_tick_parts :
      (s s' : Scanner P) (m : Message)
      → handle_time_tick P opts s m ≡ some s'
      → let (buffer, popped) =
          ReorderBuffer.pop_util_time_tick P.heaps P.sets s.reorder_buffer m.tick in
        (txns : TxnBuffer.TxnBuffer P.txns) × (msgs : List Message)
        × (TxnBuffer.handle_immutable_messages P.txns s.txn_buffer popped m.tick
            ≡ some (txns, msgs))
        × (s' ≡ record {
          reorder_buffer = buffer;
          pending_queue = enqueue P opts s.pending_queue msgs m;
          txn_buffer = txns;
        })
  unfolding handle_time_tick
  time_tick_parts s s' m e =
      let ((txns, msgs), handled, last) = >>=?_some _ _ e in
      (txns, msgs, handled, sym (some-inj last))

  handle_time_tick-IsValid :
      (s s' : Scanner P) (m : Message)
      → handle_time_tick P opts s m ≡ some s'
      → IsValid P s
      → IsValid P s'
  handle_time_tick-IsValid s s' m e v =
      let (txns, msgs, handled, same) = time_tick_parts s s' m e in
      subst (IsValid P) (sym same) (record {
        reorder =
            Reorder.pop_util_time_tick-IsValid P.heaps P.sets s.reorder_buffer m.tick v.reorder;
        txn =
            Accounting.handle_immutable_messages-IsValid P.txns s.txn_buffer txns _ msgs m.tick
              handled v.txn;
        pending = (enqueue_adds s.pending_queue msgs m v.pending).0;
      })

  -- The branches of handleUpstream, each with the condition that leads to it.
  pub data Upstream (s : Scanner P) (m : Message) (s' : Scanner P) : Type 0 where
    drops :
        (filtered_out opts.filter_func m ≡ true) ⊎ (is_time_tick m.message_type ≡ false)
        → s' ≡ s
        → Upstream s m s'
    confirms :
        filtered_out opts.filter_func m ≡ false
        → is_time_tick m.message_type ≡ true
        → handle_time_tick P opts s m ≡ some s'
        → Upstream s m s'
    holds :
        is_time_tick m.message_type ≡ false
        → s'
          ≡ record s { reorder_buffer = (ReorderBuffer.push P.heaps P.sets s.reorder_buffer m).0 }
        → Upstream s m s'

  pub handle_upstream-Upstream :
      (s s' : Scanner P) (m : Message) → handle_upstream P opts s m ≡ some s' → Upstream s m s'
  unfolding handle_upstream
  handle_upstream-Upstream s s' m e = elim (Bool-cases (filtered_out opts.filter_func m)) [
    | inl out ↦ drops (inl out) (ground arith)
    | inr keep ↦ elim (Bool-cases (is_time_tick m.message_type)) [
      | inl tick ↦ confirms keep tick (ground arith)
      | inr plain ↦ elim (Bool-cases (off_channel opts.vchannel m)) [
        | inl off ↦ drops (inr plain) (ground arith)
        | inr on ↦ holds plain (ground arith)
      ]
    ]
  ]

  handle_upstream-IsValid :
      (s s' : Scanner P) (m : Message)
      → handle_upstream P opts s m ≡ some s'
      → IsValid P s
      → IsValid P s'
  handle_upstream-IsValid s s' m e v = go (handle_upstream-Upstream s s' m e)
    where
      go : Upstream s m s' → IsValid P s'
      go (drops why same) = subst (IsValid P) (sym same) v
      go (confirms keep tick handled) = handle_time_tick-IsValid s s' m handled v
      go (holds plain same) = subst (IsValid P) (sym same) (record {
        reorder = Reorder.push-IsValid P.heaps P.sets s.reorder_buffer m v.reorder;
        txn = v.txn;
        pending = v.pending;
      })

  advanced :
      (s s' : Scanner P)
      → consume P opts s message_handled ≡ some s'
      → (queue : PendingQueue P.queues) × (PendingQueue.unsafe_advance P.queues s.pending_queue
          ≡ some queue)
        × (s' ≡ record s { pending_queue = queue })
  unfolding consume
  advanced s s' e =
      let (queue, moved, last) =
        >>=?_some (PendingQueue.unsafe_advance P.queues s.pending_queue) _ e in
      (queue, moved, sym (some-inj last))

  -- The queue after one message was handed on: that message was its front.
  pub sent_parts :
      (s s' : Scanner P)
      → IsValid P s
      → consume P opts s message_handled ≡ some s'
      → (front : Message) × (queue : PendingQueue P.queues) × (s'
          ≡ record s { pending_queue = queue })
        × (waiting P.queues s.pending_queue ≡ front ∷ waiting P.queues queue)
        × IsCounted P.queues queue
  sent_parts s s' v e =
      let (queue, moved, same) = advanced s s' e in
      elim (PendingQueue.unsafe_advance_lem P.queues s.pending_queue v.pending) [
        | inl (none_left, stuck) ↦ absurd (cc)
        | inr (front, queue', moved', w, c) ↦ (
          front,
          queue',
          same
              ∙ ap (λ (q : PendingQueue P.queues). record s { pending_queue = q })
                  (some-inj (sym moved ∙ moved')),
          w,
          c,
        )
      ]

  consume-IsValid :
      (s s' : Scanner P) (r : HandleResult)
      → consume P opts s r ≡ some s'
      → IsValid P s
      → IsValid P s'
  unfolding consume
  consume-IsValid s s' cancelled e v = subst (IsValid P) (some-inj e) v
  consume-IsValid s s' message_handled e v =
      let (front, queue, same, w, c) = sent_parts s s' v e in
      subst (IsValid P) (sym same) (record { reorder = v.reorder; txn = v.txn; pending = c })
  consume-IsValid s s' (incoming m) e v = handle_upstream-IsValid s s' m e v

  -- In every state that the consume loop reaches the message ids, the builders and the byte
  -- counts of the three buffers are right.
  pub Run-IsValid :
      {s t : Scanner P} {ins outs : List Message}
      → Run P opts s t ins outs
      → IsValid P s
      → IsValid P t
  Run-IsValid start v = v
  Run-IsValid (receive {t = t} {u = u} m r h e) v =
      consume-IsValid t u (incoming m) e (Run-IsValid r v)
  Run-IsValid (send {t = t} {u = u} m r n e) v =
      consume-IsValid t u message_handled e (Run-IsValid r v)

  something_behind :
      (w ms : List Message) (b : Bool) (m : Message) (n : ℕ)
      → length w + length ms ≡ n
      → (b ≡ false → n ≢ 0)
      → w ++ (ms ++ trailing b m) ≢ []
  something_behind w ms true m n h k e =
      omega (arith, ap length e, length-append w (ms ++ (m ∷ [])), length-append ms (m ∷ []))
  something_behind w ms false m n h k e =
      k refl (omega (arith, ap length e, length-append w (ms ++ []), length-append ms []))

  wakes :
      (q : PendingQueue P.queues) (ms : List Message) (m : Message)
      → IsCounted P.queues q
      → waiting P.queues (enqueue P opts q ms m) ≢ []
  wakes q ms m c e =
      something_behind (waiting P.queues q) ms (takes_tick q ms m) m
        (PendingQueue.len P.queues (with_messages q ms))
        (omega (
          arith,
          PendingQueue.len-waiting P.queues (with_messages q ms),
          ap length (added q ms c).1,
          length-append (waiting P.queues q) ms,
        ))
        (λ f. ground arith) (sym (enqueue_adds q ms m c).1 ∙ e)

  -- After a time tick that passes the filter the queue of the consumer is not empty.
  time_tick_wakes :
      (s s' : Scanner P) (m : Message)
      → IsValid P s
      → filtered_out opts.filter_func m ≡ false
      → is_time_tick m.message_type ≡ true
      → handle_upstream P opts s m ≡ some s'
      → waiting P.queues s'.pending_queue ≢ []
  unfolding handle_upstream
  time_tick_wakes s s' m v keep tick e none_left =
      let (txns, msgs, handled, same) = time_tick_parts s s' m (ground arith) in
      wakes s.pending_queue msgs m v.pending
        (ap (λ (t : Scanner P). waiting P.queues t.pending_queue) (sym same) ∙ none_left)

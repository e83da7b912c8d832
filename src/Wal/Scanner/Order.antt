-- ===== src/Wal/Scanner/Order.antt =====
-- The order in which the scanner hands messages to its consumer.
use birdwatcher.Base.{
  ℕ, ◌≤◌, ◌≡◌, sym, ◌∙◌, Bool, true, false, not, ◌&&◌, some, List, [], ◌∷◌, ◌++◌, All-map,
  All-append, if◌then◌else◌, arith,
}
use mathlib.Core.Path.{subst}
use mathlib.Core.List.{append_assoc}
use birdwatcher.Base.Perms.{All-perm, All-left}
use birdwatcher.Wal.Message.{Message}
use birdwatcher.Wal.ReorderBuffer
use birdwatcher.Wal.ReorderBuffer.Order as Reorder
use birdwatcher.Wal.ReorderBuffer.Order.{AtMost, AtLeast, Ordered, Ordered-append}
use birdwatcher.Wal.ReorderBuffer.History
use birdwatcher.Wal.TxnBuffer.Ticks
use birdwatcher.Wal.PendingQueue
use birdwatcher.Wal.PendingQueue.{PendingQueue, waiting, IsCounted}
use birdwatcher.Wal.Scanner.{
  Parts, ScannerOptions, Scanner, Run, start, receive, send, new_scanner, handle_time_tick, consume,
  message_handled, is_time_tick, filtered_out,
}
use birdwatcher.Wal.Scanner.Invariant as Sound
use birdwatcher.Wal.Scanner.Invariant.{
  IsValid, Run-IsValid, Upstream, drops, confirms, holds, handle_upstream-Upstream, time_tick_parts,
  sent_parts, trailing, takes_tick, enqueue_adds,
}

-- Messages in time tick order, none above `t`.
abbrev pub OrderedTo : ℕ → List Message → Type 0
OrderedTo t ms = Ordered ms × AtMost t ms

-- A confirmed round joins what came before: its messages lie between the last time tick and the new
-- one, and the time tick itself stands at the end or is left out.
OrderedTo-join :
    (t : ℕ) (m : Message) (b : Bool) (before msgs : List Message)
    → t ≤ m.tick
    → OrderedTo t before
    → Ordered msgs
    → AtLeast t msgs
    → AtMost m.tick msgs
    → OrderedTo m.tick (before ++ (msgs ++ trailing b m))
OrderedTo-join t m true before msgs le (o, most) om lm mm = (
  Ordered-append t before _ o most (All-append _ msgs (m ∷ []) lm (le, tt))
      (Ordered-append m.tick msgs (m ∷ []) om mm (omega arith, tt) (tt, tt)),
  All-append _ before _ (All-map (λ x h. omega arith) before most)
      (All-append _ msgs (m ∷ []) mm (omega arith, tt)),
)
OrderedTo-join t m false before msgs le (o, most) om lm mm = (
  Ordered-append t before _ o most (All-append _ msgs [] lm tt)
      (Ordered-append m.tick msgs [] om mm tt tt),
  All-append _ before _ (All-map (λ x h. omega arith) before most) (All-append _ msgs [] mm tt),
)

module _ (P : Parts) (opts : ScannerOptions) where
  -- A time tick message that the filter lets through.
  abbrev pub confirms_tick : Message → Bool
  confirms_tick m = not (filtered_out opts.filter_func m) && is_time_tick m.message_type

  -- The last time tick confirmed by the messages received, the latest first.
  abbrev pub confirmed_up_to : List Message → ℕ
  confirmed_up_to [] = 0
  confirmed_up_to (m ∷ ins) = if confirms_tick m then m.tick else confirmed_up_to ins

  -- The confirmed time ticks do not fall: what the log promises of a channel.
  abbrev pub TicksRise : List Message → Type 0
  TicksRise [] = Unit {0}
  TicksRise (m ∷ ins) = (confirmed_up_to ins ≤ confirmed_up_to (m ∷ ins)) × TicksRise ins

  -- All that was handed on and all that waits, in order, up to the last confirmed time tick.
  record IsStreaming (s : Scanner P) (ins outs : List Message) : Type 0 where
    bound : s.reorder_buffer.last_pop_time_tick ≡ confirmed_up_to ins
    stream : OrderedTo (confirmed_up_to ins) (outs ++ waiting P.queues s.pending_queue)

  IsStreaming-drop :
      (s s' : Scanner P) (m : Message) (ins outs : List Message)
      → confirms_tick m ≡ false
      → s' ≡ s
      → IsStreaming s ins outs
      → IsStreaming s' (m ∷ ins) outs
  IsStreaming-drop s s' m ins outs plain same i =
      subst (λ t. IsStreaming t (m ∷ ins) outs) (sym same)
        (record { bound = i.bound ∙ rw plain; stream = rw plain i.stream })

  IsStreaming-hold :
      (s s' : Scanner P) (m : Message) (ins outs : List Message)
      → confirms_tick m ≡ false
      → s' ≡ record s { reorder_buffer = (ReorderBuffer.push P.heaps P.sets s.reorder_buffer m).0 }
      → IsStreaming s ins outs
      → IsStreaming s' (m ∷ ins) outs
  IsStreaming-hold s s' m ins outs plain same i =
      subst (λ t. IsStreaming t (m ∷ ins) outs) (sym same)
        (record {
          bound = History.last-push P.heaps P.sets s.reorder_buffer m ∙ i.bound ∙ rw plain;
          stream = rw plain i.stream;
        })

  IsStreaming-confirm :
      (s s' : Scanner P) (m : Message) (ins outs : List Message)
      → confirms_tick m ≡ true
      → confirmed_up_to ins ≤ m.tick
      → handle_time_tick P opts s m ≡ some s'
      → IsValid P s
      → IsStreaming s ins outs
      → IsStreaming s' (m ∷ ins) outs
  IsStreaming-confirm s s' m ins outs tick le e v i =
      let (txns, msgs, handled, same) = time_tick_parts P opts s s' m e in
      let (d, last) = Reorder.pop_util_time_tick-Popped P.heaps P.sets s.reorder_buffer m.tick in
      let (om, lm, mm) =
        Ticks.handle_immutable_messages-Ordered P.txns s.txn_buffer txns _ msgs m.tick
          s.reorder_buffer.last_pop_time_tick m.tick handled d.ordered
          (All-left _ _ _ (All-perm _ d.split v.reorder.fresh)) d.confirmed in
      let (counted, joined) = enqueue_adds P opts s.pending_queue msgs m v.pending in
      subst (λ t. IsStreaming t (m ∷ ins) outs) (sym same)
        (record {
          bound = last ∙ rw tick;
          stream =
              rw
                (
                  tick,
                  joined,
                  ← append_assoc outs (waiting P.queues s.pending_queue)
                      (msgs ++ trailing (takes_tick P opts s.pending_queue msgs m) m),
                )
                (OrderedTo-join (confirmed_up_to ins) m _ _ msgs le i.stream om
                  (subst (λ t. AtLeast t msgs) i.bound lm) mm);
        })

  IsStreaming-receive :
      (s s' : Scanner P) (m : Message) (ins outs : List Message)
      → Upstream P opts s m s'
      → confirmed_up_to ins ≤ confirmed_up_to (m ∷ ins)
      → IsValid P s
      → IsStreaming s ins outs
      → IsStreaming s' (m ∷ ins) outs
  IsStreaming-receive s s' m ins outs (drops why same) le v i =
      IsStreaming-drop s s' m ins outs (ground arith) same i
  IsStreaming-receive s s' m ins outs (confirms keep tick e) le v i =
      let passes : confirms_tick m ≡ true = ground arith in
      IsStreaming-confirm s s' m ins outs passes (ground arith) e v i
  IsStreaming-receive s s' m ins outs (holds plain same) le v i =
      IsStreaming-hold s s' m ins outs (ground arith) same i

  IsStreaming-send :
      (s s' : Scanner P) (m : Message) (ins outs : List Message)
      → P.queues.next s.pending_queue.queue ≡ some m
      → consume P opts s message_handled ≡ some s'
      → IsValid P s
      → IsStreaming s ins outs
      → IsStreaming s' ins (outs ++ (m ∷ []))
  IsStreaming-send s s' m ins outs n e v i =
      let (front, queue, same, w, c) = sent_parts P opts s s' v e in
      let front_is : front ∷ waiting P.queues queue ≡ m ∷ waiting P.queues queue =
        cc (P.queues.next_some _ m n) in
      subst (λ t. IsStreaming t ins (outs ++ (m ∷ []))) (sym same)
        (record {
          bound = i.bound;
          stream =
              rw (append_assoc outs (m ∷ []) (waiting P.queues queue)) (
                subst (λ xs. OrderedTo (confirmed_up_to ins) (outs ++ xs)) (w ∙ front_is) i.stream);
        })

  new_scanner-IsStreaming : IsStreaming (new_scanner P opts) [] []
  unfolding new_scanner
  new_scanner-IsStreaming = record {
    bound = History.last-new P.heaps P.sets;
    stream = rw (PendingQueue.waiting-new P.queues) (tt, tt);
  }

  Run-IsStreaming :
      {s t : Scanner P} {ins outs : List Message}
      → Run P opts s t ins outs
      → IsValid P s
      → IsStreaming s [] []
      → TicksRise ins
      → IsStreaming t ins outs
  Run-IsStreaming start v i up = i
  Run-IsStreaming (receive {t = t} {u = u} {ins = ins} {outs = outs} m r h e) v i (le, up) =
      IsStreaming-receive t u m ins outs
        (handle_upstream-Upstream P opts t u m (unfold consume in e)) le (Run-IsValid P opts r v)
        (Run-IsStreaming r v i up)
  Run-IsStreaming (send {t = t} {u = u} {ins = ins} {outs = outs} m r n e) v i up =
      IsStreaming-send t u m ins outs n e (Run-IsValid P opts r v) (Run-IsStreaming r v i up)

  All-Ordered-left : (xs ys : List Message) → Ordered (xs ++ ys) → Ordered xs
  All-Ordered-left [] ys o = tt
  All-Ordered-left (x ∷ xs) ys (l, o) = (All-left _ xs ys l, All-Ordered-left xs ys o)

  -- While the time ticks of the log do not fall, the scanner hands messages to its consumer in
  -- time tick order, and none above the last confirmed time tick, however receiving and sending
  -- interleave.
  pub Run-Ordered :
      {t : Scanner P} {ins outs : List Message}
      → Run P opts (new_scanner P opts) t ins outs
      → TicksRise ins
      → Ordered outs × AtMost (confirmed_up_to ins) outs
  Run-Ordered {ins = ins} {outs = outs} r up =
      let i = Run-IsStreaming r (Sound.new_scanner-IsValid P opts) new_scanner-IsStreaming up in
      (All-Ordered-left outs _ i.stream.0, All-left _ outs _ i.stream.1)

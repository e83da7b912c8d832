-- ===== src/Wal/TxnBuffer/Totality.antt =====
-- When the transaction buffer answers, and does not panic.
use birdwatcher.Base.Dict.{lookup}
use birdwatcher.Base.{
  none, Bool-cases, inl, inr, ◌>>=?◌, >>=?_some, select, Bool, true, ℕ, ◌≡◌, refl, Option, some,
  List, [], ◌∷◌, ◌++◌, All, ◌∙◌, >>=?_of_some,
}
use birdwatcher.Wal.Message.{
  MessageType, begin_txn, commit_txn, rollback_txn, time_tick, other, Message, TxnBuilders,
}
use birdwatcher.Wal.TxnBuffer.{
  TxnBuffer, handle_begin_txn, handle_commit_txn, handle_rollback_txn, handle_txn_body_message,
  dispatch, handle_message, handle_loop, handle_immutable_messages, clear_expired_txn,
}
use birdwatcher.Wal.TxnBuffer.Effect.{
  Effect, passes, begins, repeats, commits, rolls_back, grows, ignores, panics,
  handle_message-Effect,
}

module _ (T : TxnBuilders) where
  abbrev Answers {ℓ} : {A : Type ℓ} → Option A → Type ℓ
  Answers {A = A} o = (a : A) × (o ≡ some a)

  abbrev pub Decodes : Message → Type 0
  Decodes m = T.decodes m ≡ true

  Effect-Answers :
      {b : TxnBuffer T} {m : Message} {r : Option (TxnBuffer T × List Message)}
      → Effect T b m r
      → Decodes m
      → Answers r
  Effect-Answers (passes e) d = (_, refl)
  Effect-Answers (begins id e t l) d = (_, refl)
  Effect-Answers (repeats id builder e t l) d = (_, refl)
  Effect-Answers (commits id builder e t l) d = (_, refl)
  Effect-Answers (rolls_back id builder e t l) d = (_, refl)
  Effect-Answers (grows id builder e t l) d = (_, refl)
  Effect-Answers (ignores id e t l) d = (_, refl)
  Effect-Answers (panics id e t n) d = absurd (cc)

  handle_loop-Answers :
      (b : TxnBuffer T) (result ms : List Message)
      → All Decodes ms
      → Answers (handle_loop T b result ms)
  unfolding handle_loop
  handle_loop-Answers b result [] h = ((b, result), refl)
  handle_loop-Answers b result (m ∷ ms) (h, hs) =
      let ((b', out), e) = Effect-Answers (handle_message-Effect T b m) h in
      let (p, e') = handle_loop-Answers b' (result ++ out) ms hs in (p, >>=?_of_some _ e ∙ e')

  bind-Answers {ℓ κ} :
      {A : Type ℓ} {B : Type κ} (o : Option A) (f : A → Option B)
      → Answers o
      → ((a : A) → Answers (f a))
      → Answers (o >>=? f)
  bind-Answers o f (a, e) h = let (c, e') = h a in (c, >>=?_of_some f e ∙ e')

  cases-Answers :
      {B : Type 0} (o : Option T.Builder) (x : B) (g : T.Builder → B)
      → Answers (elim o [ none ↦ some x | some builder ↦ some (g builder) ])
  cases-Answers none x g = (x, refl)
  cases-Answers (some builder) x g = (g builder, refl)

  first-Answers {ℓ κ} :
      {A : Type ℓ} {B : Type κ} (o : Option A) (f : A → Option B) {b : B}
      → (o >>=? f) ≡ some b
      → Answers o
  first-Answers o f h = let (a, e, _) = >>=?_some o f h in (a, e)

  -- Whether a message is handled does not depend on the buffer.
  dispatch-Answers :
      (b c : TxnBuffer T) (m : Message) (t : MessageType) (p : TxnBuffer T × List Message)
      → dispatch T b m t ≡ some p
      → Answers (dispatch T c m t)
  unfolding handle_begin_txn handle_commit_txn handle_rollback_txn handle_txn_body_message
  dispatch-Answers b c m begin_txn p h =
      let first = first-Answers _ _ (first-Answers _ _ h).1 in
      bind-Answers (handle_begin_txn T c m) _
        (bind-Answers _ _ first (λ id. cases-Answers (lookup id c.builders) _ (λ builder. c)))
        (λ a. (_, refl))
  dispatch-Answers b c m commit_txn p h =
      let first = first-Answers _ _ (first-Answers _ _ h).1 in
      bind-Answers (handle_commit_txn T c m) _
        (bind-Answers _ _ first (λ id. cases-Answers (lookup id c.builders) _ _)) (λ a. (_, refl))
  dispatch-Answers b c m rollback_txn p h =
      let first = first-Answers _ _ (first-Answers _ _ h).1 in
      bind-Answers (handle_rollback_txn T c m) _
        (bind-Answers _ _ first (λ id. cases-Answers (lookup id c.builders) _ _)) (λ a. (_, refl))
  dispatch-Answers b c m time_tick p h =
      let first = first-Answers _ _ (first-Answers _ _ h).1 in
      bind-Answers (handle_txn_body_message T c m) _
        (bind-Answers _ _ first (λ id. cases-Answers (lookup id c.builders) _ _)) (λ a. (_, refl))
  dispatch-Answers b c m (other k) p h =
      let first = first-Answers _ _ (first-Answers _ _ h).1 in
      bind-Answers (handle_txn_body_message T c m) _
        (bind-Answers _ _ first (λ id. cases-Answers (lookup id c.builders) _ _)) (λ a. (_, refl))

  message-Answers :
      (b c : TxnBuffer T) (m : Message) (o : Option ℕ) {p : TxnBuffer T × List Message}
      → (elim o [ none ↦ some (b, m ∷ []) | some id ↦ dispatch T b m m.message_type ]) ≡ some p
      → Answers {A = TxnBuffer T × List Message}
          (elim o [ none ↦ some (c, m ∷ []) | some id ↦ dispatch T c m m.message_type ])
  message-Answers b c m none h = (_, refl)
  message-Answers b c m (some id) h = dispatch-Answers b c m m.message_type _ h

  -- So a loop that does not panic does not either on some of its messages.
  pub handle_loop-select-Answers :
      (f : Message → Bool) (b c : TxnBuffer T) (result result' ms : List Message)
      (p : TxnBuffer T × List Message)
      → handle_loop T b result ms ≡ some p
      → Answers (handle_loop T c result' (select f ms))
  unfolding handle_loop handle_message
  handle_loop-select-Answers f b c result result' [] p h = (_, refl)
  handle_loop-select-Answers f b c result result' (m ∷ ms) p h =
      let (q, e, rest) = >>=?_some (handle_message T b m) _ h in
      elim (Bool-cases (f m)) [
        | inr away ↦ rw away (handle_loop-select-Answers f q.0 c (result ++ q.1) result' ms p rest)
        | inl kept ↦ rw kept (
            bind-Answers (handle_message T c m) _ (message-Answers b c m m.txn_context e) (λ r.
              handle_loop-select-Answers f q.0 r.0 (result ++ q.1) (result' ++ r.1) ms p rest))
      ]

  -- HandleImmutableMessages returns a result where every message converts.
  pub handle_immutable_messages_returns :
      (b : TxnBuffer T) (ms : List Message) (ts : ℕ)
      → All Decodes ms
      → (p : TxnBuffer T × List Message) × (handle_immutable_messages T b ms ts ≡ some p)
  unfolding handle_immutable_messages
  handle_immutable_messages_returns b ms ts h =
      let ((b', out), e) = handle_loop-Answers b [] ms h in
      ((clear_expired_txn T b' ts, out), >>=?_of_some _ e)

-- ===== src/LogBuffer/Ids.antt =====
-- log_buffer.rs: the identities of subscribers.
use watercontroller.Base.{
  ap, ℕ, ◌+◌, ◌<◌, ◌≡◌, refl, true, false, not, List, [], ◌∷◌, ◌++◌, ◌==◌, arith, retain, ltb,
  length, Bool-cases, inl, inr,
}
use watercontroller.LogBuffer.{
  LogRecord, LogBuffer, Subscriber, new, push, fan_out, subscribe, unsubscribe,
}

-- What happens to a buffer.
pub data Event : Type 0 where
  pushed : LogRecord → Event
  subscribed : (channel_capacity : ℕ) → Event
  unsubscribed : (id : ℕ) → Event

unfoldable pub step : Event → LogBuffer → LogBuffer
step (pushed rec) b = push rec b
step (subscribed cap) b = (subscribe cap b).0
step (unsubscribed id) b = unsubscribe id b

unfoldable pub run : List Event → LogBuffer → LogBuffer
run [] b = b
run (e ∷ es) b = run es (step e b)

-- Every identity is one that was given out.
abbrev Below : ℕ → List Subscriber → Type 0
Below n [] = Unit
Below n (s ∷ ss) = (s.id < n) × Below n ss

fan_out-Below :
    (n : ℕ) (rec : LogRecord) (ss : List Subscriber) → Below n ss → Below n (fan_out rec ss)
unfolding fan_out
fan_out-Below n rec [] h = tt
fan_out-Below n rec (s ∷ ss) (h, hs) =
    let rest = fan_out-Below n rec ss hs in
    elim (Bool-cases s.connected) [
      | inl e ↦ elim (Bool-cases (ltb (length s.queue) s.channel_capacity)) [
        | inl k ↦ rw (e, Below, k) (h, rest)
        | inr k ↦ rw (e, Below, k) (h, rest)
      ]
      | inr e ↦ rw (e, Below) rest
    ]

retain-Below :
    (n id : ℕ) (ss : List Subscriber) → Below n ss → Below n (retain (λ s. not (s.id == id)) ss)
retain-Below n id [] h = tt
retain-Below n id (s ∷ ss) (h, hs) = elim (Bool-cases (s.id == id)) [
  | inl e ↦ rw (e, retain) (retain-Below n id ss hs)
  | inr e ↦ rw (e, retain) (h, retain-Below n id ss hs)
]

snoc-Below :
    (n : ℕ) (s : Subscriber) (ss : List Subscriber)
    → Below n ss
    → s.id < n + 1
    → Below (n + 1) (ss ++ s ∷ [])
snoc-Below n s [] h k = (k, tt)
snoc-Below n s (t ∷ ss) (h, hs) k = (omega arith, snoc-Below n s ss hs k)

step-Below :
    (e : Event) (b : LogBuffer)
    → Below b.next_subscriber_id b.subscribers
    → Below (step e b).next_subscriber_id (step e b).subscribers
unfolding step push subscribe unsubscribe
step-Below (pushed rec) b h = fan_out-Below b.next_subscriber_id rec b.subscribers h
step-Below (subscribed cap) b h = snoc-Below b.next_subscriber_id _ b.subscribers h (omega arith)
step-Below (unsubscribed id) b h = retain-Below b.next_subscriber_id id b.subscribers h

run-Below :
    (es : List Event) (b : LogBuffer)
    → Below b.next_subscriber_id b.subscribers
    → Below (run es b).next_subscriber_id (run es b).subscribers
unfolding run
run-Below [] b h = h
run-Below (e ∷ es) b h = run-Below es (step e b) (step-Below e b h)

retain-snoc :
    (n : ℕ) (s : Subscriber) (ss : List Subscriber)
    → Below n ss
    → s.id ≡ n
    → retain (λ t. not (t.id == n)) (ss ++ s ∷ []) ≡ ss
retain-snoc n s [] h e = let same : s.id == n ≡ true = ground (arith, e) in rw (same, retain) refl
retain-snoc n s (t ∷ ss) (h, hs) e =
    let other : t.id == n ≡ false = ground (arith, h) in
    rw (other, retain) (ap (λ l. t ∷ l) (retain-snoc n s ss hs e))

-- In a buffer that started empty, after any records, subscriptions and their ends, a new subscription
-- that is ended at once by the identity it was given leaves the other subscribers as they were: no
-- identity is ever given out twice.
pub unsubscribe-subscribe :
    (capacity channel_capacity : ℕ) (es : List Event)
    → let b = run es (new capacity) in
      let (b', id) = subscribe channel_capacity b in (unsubscribe id b').subscribers ≡ b.subscribers
unfolding subscribe unsubscribe
unsubscribe-subscribe capacity channel_capacity es =
    let b = run es (new capacity) in
    retain-snoc b.next_subscriber_id _ b.subscribers (run-Below es (new capacity) tt) refl

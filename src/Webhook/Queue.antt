-- ===== src/Webhook/Queue.antt =====
-- The bounded queue in front of the task that posts: what it keeps of a burst, and in what order the
-- task gets it.
use watercontroller.Base.{
  ap, ◌∙◌, sym, ℕ, zero, suc, ◌+◌, ◌≤◌, ◌≡◌, refl, true, false, List, [], ◌∷◌, ◌++◌, arith, length,
  take, ltb, length-append, length-take, snoc-append, append-nil,
}
use watercontroller.Webhook.{WebhookEvent}
use watercontroller.Webhook.Dispatch.{Dispatcher, queued, dispatch, receive, burst}

-- Events that the task takes until the queue is empty.
unfoldable pub drain : ℕ → Dispatcher → List WebhookEvent
drain zero d = []
drain (suc n) d = let rest = drain n (receive d).0 in (receive d).1 ++ rest

take-nil : (n : ℕ) → take {A = WebhookEvent} n [] ≡ []
take-nil zero = refl
take-nil (suc n) = refl

-- With room for `n` more events.
burst-queued :
    (cap n : ℕ) (evs held : List WebhookEvent)
    → length held + n ≡ cap
    → burst evs (queued cap held) ≡ queued cap (held ++ take n evs)
unfolding burst dispatch
burst-queued cap n [] held h =
    ap (queued cap) (sym (ap (λ l. held ++ l) (take-nil n) ∙ append-nil held))
burst-queued cap zero (ev ∷ evs) held h =
    let full : ltb (length held) cap ≡ false = ground (arith, h) in
    rw full (burst-queued cap zero evs held h)
burst-queued cap (suc n) (ev ∷ evs) held h =
    let room : ltb (length held) cap ≡ true = ground (arith, h) in
    rw room (
      burst-queued cap n evs (held ++ ev ∷ []) (omega (arith, length-append held (ev ∷ [])))
      ∙ ap (queued cap) (snoc-append held ev (take n evs)))

drain-queued :
    (n cap : ℕ) (held : List WebhookEvent) → length held ≤ n → drain n (queued cap held) ≡ held
unfolding drain receive
drain-queued zero cap [] h = refl
drain-queued zero cap (ev ∷ held) h = absurd (omega arith)
drain-queued (suc n) cap [] h = drain-queued n cap [] (omega arith)
drain-queued (suc n) cap (ev ∷ held) h = ap (λ l. ev ∷ l) (drain-queued n cap held (omega arith))

-- Of a burst of events into an empty queue, while no task takes any, the task gets as many as the
-- queue has places, the first ones, in the order in which they were dispatched, if it runs as many
-- turns.
pub drain-burst :
    (cap n : ℕ) (evs : List WebhookEvent)
    → cap ≤ n
    → drain n (burst evs (queued cap [])) ≡ take cap evs
drain-burst cap n evs h =
    ap (drain n) (burst-queued cap cap evs [] (omega arith))
    ∙ drain-queued n cap (take cap evs) (omega (arith, length-take cap evs))

-- ===== src/Webhook/Dispatch.antt =====
-- The dispatchers of events: `NoopDispatcher` and `RecordingDispatcher` of webhook.rs, and the
-- bounded queues in front of the tasks that post (crates/firmware/src/webhook_dispatch.rs,
-- crates/firmware-nostd/src/webhook.rs, crates/host/src/webhook_dispatch.rs).
use watercontroller.Base.{
  ℕ, String, Bool, true, false, List, [], ◌∷◌, ◌++◌, ◌&&◌, length, ltb, str_eq, retain,
  if◌then◌else◌,
}
use watercontroller.Webhook.{
  EventKind, WebhookConfig, WebhookEvent, VarMap, as_str, render_template,
}

-- `queued cap pending` is a channel of capacity `cap` with the events that no task has taken yet.
pub data Dispatcher : Type 0 where
  noop : Dispatcher
  recording : List WebhookEvent → Dispatcher
  queued : ℕ → List WebhookEvent → Dispatcher

-- `try_send` on a full channel drops the event.
unfoldable pub dispatch : WebhookEvent → Dispatcher → Dispatcher
dispatch ev noop = noop
dispatch ev (recording evs) = recording (evs ++ ev ∷ [])
dispatch ev (queued cap pending) =
    queued cap (if ltb (length pending) cap then pending ++ ev ∷ [] else pending)

-- `RecordingDispatcher::take`.
unfoldable pub take : Dispatcher → Dispatcher × List WebhookEvent
take (recording evs) = (recording [], evs)
take d = (d, [])

-- What one more turn of the task's loop takes from the queue.
unfoldable pub receive : Dispatcher → Dispatcher × List WebhookEvent
receive (queued cap (ev ∷ pending)) = (queued cap pending, ev ∷ [])
receive d = (d, [])

-- `w.events.iter().any(|e| *e == kind)`; the names tell the kinds apart.
subscribes : EventKind → List EventKind → Bool
subscribes kind [] = false
subscribes kind (e ∷ es) =
    let rest = subscribes kind es in if str_eq (as_str e) (as_str kind) then true else rest

-- The subscribers of an event, in the order of the configuration, each with the body that is posted
-- to it: `handle_event` up to the posts.
bodies : VarMap → List WebhookConfig → List (WebhookConfig × String)
bodies vars [] = []
bodies vars (wh ∷ whs) = (wh, render_template wh.body_template vars) ∷ bodies vars whs

unfoldable pub deliveries : List WebhookConfig → WebhookEvent → List (WebhookConfig × String)
unfolding bodies subscribes
deliveries webhooks event =
    bodies event.vars (retain (λ w. w.enabled && subscribes event.kind w.events) webhooks)

abbrev pub pending : Dispatcher → List WebhookEvent
pending noop = []
pending (recording evs) = evs
pending (queued cap evs) = evs

-- The events that a queue of capacity `cap` holds after a burst that no task takes from.
unfoldable pub burst : List WebhookEvent → Dispatcher → Dispatcher
burst [] d = d
burst (ev ∷ evs) d = burst evs (dispatch ev d)

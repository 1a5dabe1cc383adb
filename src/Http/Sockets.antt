-- ===== src/Http/Sockets.antt =====
-- http_server.rs: the subscribers of the log over WebSocket.
use watercontroller.Base.{
  ℕ, ◌-◌, ◌*◌, ◌≤◌, ◌<◌, ◌≡◌, arith, Bool, false, not, ◌&&◌, List, [], ◌∷◌, ◌++◌, length,
  length-append, retain, Bool-cases, inl, inr, ltb, leb, All, if◌then◌else◌,
}

abbrev pub ws_sender_cap : ℕ
ws_sender_cap = 4

-- `Duration::from_secs(120)`.
abbrev pub ws_sender_max_age : ℕ
ws_sender_max_age = 120 * 1000

-- An `EspHttpWsDetachedSender` by a number, with the time of its insertion.
pub record Sender : Type 0 where
  pub id : ℕ
  pub inserted : ℕ

-- `while g.len() >= WS_SENDER_CAP { g.remove(0); }`.
unfoldable pub evict : List Sender → List Sender
evict [] = []
evict (s ∷ g) = let rest = evict g in if leb ws_sender_cap (length (s ∷ g)) then rest else s ∷ g

-- A new session whose snapshot was sent and whose sender was made.
unfoldable pub subscribe : Sender → List Sender → List Sender
unfolding evict
subscribe sender g = evict g ++ (sender ∷ [])

-- The sweep before a record is sent: `is_closed` is what the senders say at that moment.
unfoldable pub sweep : (ℕ → Bool) → ℕ → List Sender → List Sender
sweep is_closed now g =
    retain (λ s. not (is_closed s.id) && ltb (now - s.inserted) ws_sender_max_age) g

pub data Event : Type 0 where
  connected : Sender → Event
  logged : (ℕ → Bool) → ℕ → Event

unfoldable pub step : Event → List Sender → List Sender
unfolding subscribe sweep
step (connected s) g = subscribe s g
step (logged is_closed now) g = sweep is_closed now g

unfoldable pub run : List Event → List Sender → List Sender
unfolding step
run [] g = g
run (e ∷ es) g = run es (step e g)

evict-bound : (g : List Sender) → length (evict g) < ws_sender_cap
unfolding evict
evict-bound [] = omega arith
evict-bound (s ∷ g) = ground (arith, evict-bound g)

retain-bound : (p : Sender → Bool) (g : List Sender) → length (retain p g) ≤ length g
retain-bound p [] = omega arith
retain-bound p (s ∷ g) = ground (arith, retain-bound p g)

-- The sender says that it is open, and it is younger than two minutes.
abbrev pub IsLive : (ℕ → Bool) → ℕ → Sender → Type 0
IsLive is_closed now s = (is_closed s.id ≡ false) × (now - s.inserted < ws_sender_max_age)

sweep-All :
    (is_closed : ℕ → Bool) (now : ℕ) (g : List Sender)
    → All (IsLive is_closed now) (sweep is_closed now g)
unfolding sweep
sweep-All is_closed now [] = tt
sweep-All is_closed now (s ∷ g) =
    elim (Bool-cases (not (is_closed s.id) && ltb (now - s.inserted) ws_sender_max_age)) [
      | inl e ↦ rw (e, All) ((ground (arith, e), ground (arith, e)), sweep-All is_closed now g)
      | inr e ↦ rw (e, All) (sweep-All is_closed now g)
    ]

step-bound :
    (e : Event) (g : List Sender) → length g ≤ ws_sender_cap → length (step e g) ≤ ws_sender_cap
unfolding step subscribe sweep
step-bound (connected s) g h = omega (arith, length-append (evict g) (s ∷ []), evict-bound g)
step-bound (logged c now) g h = omega (arith, retain-bound _ g)

run-bound :
    (es : List Event) (g : List Sender)
    → length g ≤ ws_sender_cap
    → length (run es g) ≤ ws_sender_cap
unfolding run
run-bound [] g h = h
run-bound (e ∷ es) g h = run-bound es (step e g) (step-bound e g h)

-- However many clients connect and whatever the sweeps find, never more than four senders are kept,
-- and a record goes to senders only that say that they are open and are younger than two minutes.
pub run_lem :
    (es : List Event) (g : List Sender) (is_closed : ℕ → Bool) (now : ℕ)
    → length g ≤ ws_sender_cap
    → (length (run es g) ≤ ws_sender_cap)
      × All (IsLive is_closed now) (step (logged is_closed now) (run es g))
unfolding step
run_lem es g is_closed now h = (run-bound es g h, sweep-All is_closed now (run es g))

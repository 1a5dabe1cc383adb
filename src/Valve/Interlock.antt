-- ===== src/Valve/Interlock.antt =====
-- water_valve.rs: the two motor directions over whole runs.
use watercontroller.Base.{
  ℕ, ◌+◌, ◌≤◌, ◌≡◌, Bool, true, false, Option, none, some, List, [], ◌∷◌, arith, if◌then◌else◌,
}
use watercontroller.Valve.{
  ValveTiming, ValveOutputs, WaterValve, Phase, idle, turning_on, turning_off, settle_ms,
  set_timing, turn_on, turn_off, tick,
}

-- What happens to a valve: its methods, and time that passes.
pub data Event : Type 0 where
  advance : ℕ → Event
  set : ValveTiming → Event
  command : Bool → Event
  ticked : Event

-- `opened` and `closed` are the times of the last ticks that drove the motor in that direction,
-- which the code does not see.
pub record World : Type 0 where
  pub now : ℕ
  pub valve : WaterValve
  pub opened : Option ℕ
  pub closed : Option ℕ

abbrev pub outputs : World → ValveOutputs
outputs w = (tick w.now w.valve).1

unfoldable pub step : Event → World → World
step (advance d) w = record w { now = w.now + d }
step (set t) w = record w { valve = set_timing t w.valve }
step (command true) w = record w { valve = turn_on w.now w.valve }
step (command false) w = record w { valve = turn_off w.now w.valve }
step ticked w = record w {
  valve = (tick w.now w.valve).0;
  opened = if (outputs w).open_motor then some w.now else w.opened;
  closed = if (outputs w).close_motor then some w.now else w.closed;
}

unfoldable pub run : List Event → World → World
run [] w = w
run (e ∷ es) w = run es (step e w)

abbrev pub start : WaterValve → ℕ → World
start v now = record { now = now; valve = v; opened = none; closed = none }

-- The time that is asked about lies no later than `t`, if there is one.
abbrev pub UpTo : ℕ → Option ℕ → Type 0
UpTo t none = Unit
UpTo t (some a) = a ≤ t

-- A pulse in the other direction lies before the start of a sequence.
abbrev Apart : Phase → Option ℕ → Option ℕ → Type 0
Apart (turning_on s) opened closed = UpTo s closed
Apart (turning_off s) opened closed = UpTo s opened
Apart _ opened closed = Unit

record Inv (w : World) : Type 0 where
  opened_past : UpTo w.now w.opened
  closed_past : UpTo w.now w.closed
  apart : Apart w.valve.phase w.opened w.closed

UpTo-le : (s t : ℕ) (o : Option ℕ) → s ≤ t → UpTo s o → UpTo t o
UpTo-le s t none h u = tt
UpTo-le s t (some a) h u = omega arith

step-Inv : (e : Event) (w : World) → Inv w → Inv (step e w)
unfolding step set_timing turn_on turn_off tick
step-Inv (advance d) w v = record {
  opened_past = UpTo-le w.now (w.now + d) w.opened (omega arith) v.opened_past;
  closed_past = UpTo-le w.now (w.now + d) w.closed (omega arith) v.closed_past;
  apart = v.apart;
}
step-Inv (set t) w v = record {
  opened_past = v.opened_past;
  closed_past = v.closed_past;
  apart = v.apart;
}
step-Inv (command true) w v = ground arith
step-Inv (command false) w v = ground arith
step-Inv ticked w v = ground arith

run-Inv : (es : List Event) (w : World) → Inv w → Inv (run es w)
unfolding run
run-Inv [] w v = v
run-Inv (e ∷ es) w v = run-Inv es (step e w) (step-Inv e w v)

outputs_apart :
    (w : World) (t : ℕ)
    → Inv w
    → ((outputs w).open_motor ≡ true → w.closed ≡ some t → t + settle_ms ≤ w.now)
      × ((outputs w).close_motor ≡ true → w.opened ≡ some t → t + settle_ms ≤ w.now)
unfolding tick
outputs_apart w t v = ground arith

outputs_exclusive :
    (v : WaterValve) (now : ℕ)
    → let o = (tick now v).1 in
      ((o.open_motor ≡ true → (o.close_motor ≡ false) × (o.drain ≡ false))
        × (o.close_motor ≡ true → (o.open_motor ≡ false) × (o.drain ≡ false)))
unfolding tick
outputs_exclusive v now = ground arith

-- A valve that starts between sequences never has two outputs driven by one tick, and whatever
-- commands, changes of the timing, ticks and delays follow, a tick drives the motor in one direction
-- no sooner than a settle window (1 s) after the last tick that drove it in the other direction.
pub interlock :
    (v : WaterValve) (now : ℕ) (es : List Event) (t : ℕ)
    → v.phase ≡ idle
    → let w = run es (start v now) in
      let o = outputs w in
      (o.open_motor ≡ true
        → (o.close_motor ≡ false) × (o.drain ≡ false) × (w.closed ≡ some t → t + settle_ms ≤ w.now))
      × (o.close_motor ≡ true
          → (o.open_motor ≡ false)
            × (o.drain ≡ false)
            × (w.opened ≡ some t → t + settle_ms ≤ w.now))
interlock v now es t at_rest =
    let w = run es (start v now) in
    let i : Inv w = run-Inv es (start v now) (ground arith) in
    let (a, b) = outputs_exclusive w.valve w.now in
    let (c, d) = outputs_apart w t i in (λ h. ((a h).0, (a h).1, c h), λ h. ((b h).0, (b h).1, d h))

-- ===== src/Valve/Sequence.antt =====
-- water_valve.rs: the course of one open or close sequence, of the drain, and of commands that come
-- in between.
use watercontroller.Base.{
  ℕ, ◌+◌, ◌≤◌, ◌<◌, ◌≡◌, ◌⊎◌, refl, inl, inr, Bool, true, false, ◌&&◌, List, [], ◌∷◌, arith, All,
  ltb, leb, ◌==◌, if◌then◌else◌,
}
use watercontroller.Valve.{
  ValveTiming, ValveOutputs, WaterValve, Phase, idle, turning_on, turning_off, draining, settle_ms,
  motor_run_ms, drain_hold_ms, sequence_ms, nothing, on, off, is_busy, state, turn_on, turn_off,
  tick,
}

-- What may happen before the end of a sequence: ticks and commands, each at its time.
pub data Event : Type 0 where
  command : Bool → ℕ → Event
  ticked : ℕ → Event

abbrev at_time : Event → ℕ
at_time (command b t) = t
at_time (ticked t) = t

unfoldable pub step : Event → WaterValve → WaterValve
step (command true t) v = turn_on t v
step (command false t) v = turn_off t v
step (ticked t) v = (tick t v).0

unfoldable pub run : List Event → WaterValve → WaterValve
run [] v = v
run (e ∷ es) v = run es (step e v)

-- Every event comes before `start + span`.
abbrev pub Within : ℕ → List Event → Type 0
Within t es = All (λ e. at_time e < t) es

abbrev Starts : Phase → ℕ → Type 0
Starts p s = (p ≡ turning_on s) ⊎ (p ≡ turning_off s)

step_unmoved :
    (e : Event) (v : WaterValve) (s : ℕ)
    → Starts v.phase s
    → at_time e < s + sequence_ms v.timing
    → step e v ≡ v
unfolding step turn_on turn_off tick
step_unmoved (command true t) v s p h = ground arith
step_unmoved (command false t) v s p h = ground arith
step_unmoved (ticked t) v s p h = ground arith

run_unmoved :
    (es : List Event) (v : WaterValve) (s : ℕ)
    → Starts v.phase s
    → Within (s + sequence_ms v.timing) es
    → run es v ≡ v
unfolding run
run_unmoved [] v s p w = refl
run_unmoved (e ∷ es) v s p (h, hs) =
    let same = step_unmoved e v s p h in rw same (run_unmoved es v s p hs)

-- The reference course of a sequence that began at `s`: the motor is driven from the end of the
-- first settle window for the run time of the motor.
abbrev pub pulsing : ValveTiming → ℕ → ℕ → Bool
pulsing timing s t = leb (s + settle_ms) t && ltb t (s + settle_ms + motor_run_ms timing)

open_from :
    (v : WaterValve) (s t : ℕ)
    → v.phase ≡ turning_on s
    → s ≤ t
    → (t < s + sequence_ms v.timing
        → tick t v ≡ (v, record nothing { open_motor = pulsing v.timing s t }))
      × (s + sequence_ms v.timing ≤ t
          → tick t v ≡ (record v { phase = idle; user_state = true }, nothing))
unfolding tick
open_from v s t p h = (ground arith, ground arith)

-- A command to open that finds the valve closed at time `s` starts a sequence that ticks and further
-- commands before its end do not move: a tick at `t` drives the opening motor exactly in the pulse
-- window after `s` and nothing else, and the first tick at or after the end leaves the valve open
-- and at rest.
pub open_sequence :
    (v : WaterValve) (s t : ℕ) (es : List Event)
    → v.phase ≡ idle
    → v.user_state ≡ false
    → Within (s + sequence_ms v.timing) es
    → s ≤ t
    → let w = run es (turn_on s v) in
      (is_busy w ≡ true)
      × (t < s + sequence_ms v.timing
          → tick t w ≡ (w, record nothing { open_motor = pulsing v.timing s t }))
      × (s + sequence_ms v.timing ≤ t → (state (tick t w).0 ≡ on) × ((tick t w).1 ≡ nothing))
open_sequence v s t es p u w h =
    let started : WaterValve = record v { phase = turning_on s } in
    let begin : turn_on s v ≡ started = unfold turn_on in ground arith in
    rw begin (
      rw (run_unmoved es started s (inl refl) w)
        (unfold tick is_busy state in (refl, ground arith, ground arith)))

-- What the tick at `t` that ends a close sequence leaves, and what it drives.
abbrev drained : ℕ → WaterValve → WaterValve
drained t v = record v {
  phase = if drain_hold_ms v.timing == 0 then idle else draining t;
  user_state = false;
}

abbrev pub drain_only : Bool → ValveOutputs
drain_only b = record nothing { drain = b }

-- A command to close that finds the valve open at time `s` starts a sequence that ticks and further
-- commands before its end do not move: a tick at `t` drives the closing motor exactly in the pulse
-- window after `s`, and the first tick at or after the end leaves the valve closed and not busy, and
-- drives the drain unless its hold time is 0.
pub close_sequence :
    (v : WaterValve) (s t : ℕ) (es : List Event)
    → v.phase ≡ idle
    → v.user_state ≡ true
    → Within (s + sequence_ms v.timing) es
    → s ≤ t
    → let w = run es (turn_off s v) in
      (is_busy w ≡ true)
      × (t < s + sequence_ms v.timing
          → tick t w ≡ (w, record nothing { close_motor = pulsing v.timing s t }))
      × (s + sequence_ms v.timing ≤ t
          → (tick t w ≡ (drained t v, drain_only (ltb 0 (drain_hold_ms v.timing))))
            × (is_busy (tick t w).0 ≡ false)
            × (state (tick t w).0 ≡ off))
close_sequence v s t es p u w h =
    let started : WaterValve = record v { phase = turning_off s } in
    let begin : turn_off s v ≡ started = unfold turn_off in ground arith in
    rw begin (
      rw (run_unmoved es started s (inr refl) w)
        (unfold tick is_busy state in (refl, ground arith, ground arith)))

-- Ticks alone, each at its time.
unfoldable pub ticks : List ℕ → WaterValve → WaterValve
ticks [] v = v
ticks (t ∷ ts) v = ticks ts (tick t v).0

-- The time `t` lies in the hold time of a drain that began at `s`.
abbrev pub Holding : ValveTiming → ℕ → ℕ → Type 0
Holding timing s t = (s ≤ t) × (t < s + drain_hold_ms timing)

ticks_draining :
    (ts : List ℕ) (v : WaterValve) (s : ℕ)
    → v.phase ≡ draining s
    → All (Holding v.timing s) ts
    → ticks ts v ≡ v
unfolding ticks
ticks_draining [] v s p h = refl
ticks_draining (t ∷ ts) v s p ((q, r), hs) =
    let same : (tick t v).0 ≡ v = unfold tick in ground arith in
    rw same (ticks_draining ts v s p hs)

-- A valve that has drained since `s` drives the drain and nothing else until the hold time has
-- passed, whatever ticks come before; the first tick after that switches it off and leaves the valve
-- at rest; and a command to open cuts the drain short at once.
pub drain_phase :
    (v : WaterValve) (s t : ℕ) (ts : List ℕ)
    → v.phase ≡ draining s
    → All (Holding v.timing s) ts
    → s ≤ t
    → let w = ticks ts v in
      (t < s + drain_hold_ms v.timing → tick t w ≡ (v, drain_only true))
      × (s + drain_hold_ms v.timing ≤ t → tick t w ≡ (record v { phase = idle }, nothing))
      × (turn_on t w ≡ record v { phase = turning_on t })
      × ((tick t (turn_on t w)).1 ≡ nothing)
drain_phase v s t ts p h q =
    rw (ticks_draining ts v s p h)
      (unfold tick turn_on in (ground arith, ground arith, ground arith, ground arith))

-- What a sequence leads to, and how long after its start it is over.
abbrev pub goal : WaterValve → Phase → Bool
goal v (turning_on s) = true
goal v (turning_off s) = false
goal v _ = v.user_state

abbrev pub deadline : WaterValve → Phase → ℕ
deadline v idle = 0
deadline v (turning_on s) = s + sequence_ms v.timing
deadline v (turning_off s) = s + sequence_ms v.timing
deadline v (draining s) = s + drain_hold_ms v.timing

-- From any state a valve that is only ticked comes to rest in the state that its sequence leads to:
-- at the second tick at the latest, if the first comes after the deadline of the phase and the second
-- a drain hold time later. From there on no tick drives anything or changes the state.
pub settles :
    (v : WaterValve) (t1 t2 t3 : ℕ)
    → deadline v v.phase ≤ t1
    → t1 + drain_hold_ms v.timing ≤ t2
    → let w = ticks (t1 ∷ t2 ∷ []) v in
      (w.phase ≡ idle) × (w.user_state ≡ goal v v.phase) × (tick t3 w ≡ (w, nothing))
unfolding ticks tick
settles v t1 t2 t3 h k = ground arith

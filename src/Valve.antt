-- ===== src/Valve.antt =====
-- crates/core/src/water_valve.rs: the state machine of the motorized valve and its drain.
pub mod Interlock
pub mod Sequence
mod Tests
use watercontroller.Base.{ℕ, ◌+◌, ◌-◌, ◌*◌, Bool, true, false, not, ltb, leb, ◌==◌, if◌then◌else◌}

abbrev pub settle_ms : ℕ
settle_ms = 1000

-- Both fields are `u32`; they are widened to `u64` before every use.
pub record ValveTiming : Type 0 where
  pub motor_run_secs : ℕ
  pub drain_secs : ℕ

abbrev pub default_timing : ValveTiming
default_timing = record { motor_run_secs = 14; drain_secs = 300 }

abbrev pub motor_run_ms : ValveTiming → ℕ
motor_run_ms t = t.motor_run_secs * 1000

abbrev pub drain_hold_ms : ValveTiming → ℕ
drain_hold_ms t = t.drain_secs * 1000

abbrev pub sequence_ms : ValveTiming → ℕ
sequence_ms t = settle_ms + motor_run_ms t + settle_ms

pub data WaterState : Type 0 where
  off turning_on on turning_off : WaterState

pub record ValveOutputs : Type 0 where
  pub open_motor : Bool
  pub close_motor : Bool
  pub drain : Bool

-- `ValveOutputs::default()`, and the values with one output driven.
abbrev pub nothing : ValveOutputs
nothing = record { open_motor = false; close_motor = false; drain = false }

abbrev pub opening : ValveOutputs
opening = record nothing { open_motor = true }

abbrev pub closing : ValveOutputs
closing = record nothing { close_motor = true }

abbrev pub draining_out : ValveOutputs
draining_out = record nothing { drain = true }

pub data Phase : Type 0 where
  idle : Phase
  turning_on : ℕ → Phase
  turning_off : ℕ → Phase
  draining : ℕ → Phase

pub record WaterValve : Type 0 where
  pub phase : Phase
  pub user_state : Bool
  pub timing : ValveTiming

unfoldable pub with_timing : ValveTiming → WaterValve
with_timing timing = record { phase = idle; user_state = false; timing = timing }

abbrev pub new : WaterValve
unfolding with_timing
new = with_timing default_timing

unfoldable pub set_timing : ValveTiming → WaterValve → WaterValve
set_timing timing v = record v { timing = timing }

unfoldable pub restore : Bool → WaterValve → WaterValve
restore user_on v = record v { user_state = user_on }

phase_is_busy : Phase → Bool
phase_is_busy idle = false
phase_is_busy (draining start_ms) = false
phase_is_busy _ = true

unfoldable pub is_busy : WaterValve → Bool
unfolding phase_is_busy
is_busy v = phase_is_busy v.phase

phase_state : Phase → Bool → WaterState
phase_state (turning_on start_ms) user_state = WaterState.turning_on
phase_state (turning_off start_ms) user_state = WaterState.turning_off
phase_state (draining start_ms) user_state = off
phase_state idle user_state = if user_state then on else off

unfoldable pub state : WaterValve → WaterState
unfolding phase_state
state v = phase_state v.phase v.user_state

turn_on_from : Phase → ℕ → WaterValve → WaterValve
turn_on_from idle now_ms v = if not v.user_state then record v { phase = turning_on now_ms } else v
turn_on_from (draining start_ms) now_ms v = record v { phase = turning_on now_ms }
turn_on_from _ now_ms v = v

unfoldable pub turn_on : ℕ → WaterValve → WaterValve
unfolding turn_on_from
turn_on now_ms v = turn_on_from v.phase now_ms v

turn_off_from : Phase → ℕ → WaterValve → WaterValve
turn_off_from idle now_ms v = if v.user_state then record v { phase = turning_off now_ms } else v
turn_off_from _ now_ms v = v

unfoldable pub turn_off : ℕ → WaterValve → WaterValve
unfolding turn_off_from
turn_off now_ms v = turn_off_from v.phase now_ms v

-- What drives the motor `pulse` within a sequence that is not over.
abbrev motor : ℕ → ℕ → ValveOutputs → ValveOutputs
motor elapsed motor_run pulse =
    if ltb elapsed settle_ms
    then nothing
    else if ltb elapsed (settle_ms + motor_run)
    then pulse
    else nothing

-- The `match self.phase` of `tick`.
tick_from : Phase → ℕ → WaterValve → WaterValve × ValveOutputs
tick_from idle now_ms v = (v, nothing)
tick_from (turning_on start_ms) now_ms v =
    let elapsed = now_ms - start_ms in
    if leb (sequence_ms v.timing) elapsed
    then (record v { phase = idle; user_state = true }, nothing)
    else (v, motor elapsed (motor_run_ms v.timing) opening)
tick_from (turning_off start_ms) now_ms v =
    let elapsed = now_ms - start_ms in
    if leb (sequence_ms v.timing) elapsed
    then (if drain_hold_ms v.timing == 0
        then (record v { phase = idle; user_state = false }, nothing)
        else (record v { phase = draining now_ms; user_state = false }, draining_out))
    else (v, motor elapsed (motor_run_ms v.timing) closing)
tick_from (draining start_ms) now_ms v =
    if leb (drain_hold_ms v.timing) (now_ms - start_ms)
    then (record v { phase = idle }, nothing)
    else (v, draining_out)

unfoldable pub tick : ℕ → WaterValve → WaterValve × ValveOutputs
unfolding tick_from
tick now_ms v = tick_from v.phase now_ms v

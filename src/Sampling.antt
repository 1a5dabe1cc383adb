-- ===== src/Sampling.antt =====
-- The sampling of battery, pressure and flow: `spawn_sensor_task` of crates/firmware/src/main.rs, and
-- `sensor_task` of crates/firmware-nostd/src/sensors.rs. A calibration that panics ends the thread,
-- which is `none`.
pub mod Window
mod Tests
use Prim.Native.Nat.{max}
use watercontroller.Base.{
  ℕ, ◌+◌, ◌-◌, ◌%◌, Bool, Option, none, some, List, [], ◌∷◌, ◌==◌, ◌||◌, leb, length, if◌then◌else◌,
}
use watercontroller.Config.{Config, SensorsConfig, Calibration}
use watercontroller.State.{Sensors}
use watercontroller.Calibration.{Float, apply}
use watercontroller.Pulse.{Inner, accumulate}
use watercontroller.Sampling.Window.{Ring, put, averaged, slide}

infixl 1 ◌>>=◌
-- A panic ends the thread.
abbrev ◌>>=◌ {ℓ κ} : {A : Type ℓ} {B : Type κ} → Option A → (A → Option B) → Option B
none >>= next = none
some a >>= next = next a

-- The conversions to `f32` and the start of a sum.
pub record Casts (f : Float) : Type 0 where
  pub of_nat : ℕ → f.F32
  pub zero_f : f.F32

-- What the peripherals show in one turn.
pub record Probe : Type 0 where
  pub now_ms : ℕ
  pub battery_raw : ℕ
  pub pressure_raw : ℕ
  -- `pcnt.count()`, or the register of the counter.
  pub pulses : ℕ

module _ (f : Float) (c : Casts f) where
  open f use {F32, add, mul, div}
  open c use {of_nat, zero_f}

  sum_from : F32 → List F32 → F32
  sum_from acc [] = acc
  sum_from acc (x ∷ xs) = sum_from (add acc x) xs

  -- `iter().sum::<f32>() / len as f32`.
  unfoldable pub mean : List F32 → F32
  unfolding sum_from
  mean xs = div (sum_from zero_f xs) (of_nat (length xs))

  -- The second stage after the first.
  chained : Calibration F32 → Option F32 → Option F32
  chained stage2 none = none
  chained stage2 (some x) = apply f stage2 x

  unfoldable pub pressure : SensorsConfig F32 → ℕ → Option F32
  unfolding chained
  pressure cfg raw = chained cfg.pressure_stage2 (apply f cfg.pressure_stage1 (of_nat raw))

  unfoldable pub battery : SensorsConfig F32 → ℕ → Option F32
  battery cfg raw = apply f cfg.battery (of_nat raw)

  -- The variables of the thread, and the part of the snapshot that it writes.
  pub record Thread : Type 0 where
    pub bat_window : List F32
    pub last_battery_ms : ℕ
    pub last_pressure_ms : ℕ
    pub last_flow_ms : ℕ
    pub last_pulse_count : ℕ
    pub shown : Sensors F32

  -- `now_ms.saturating_sub(last) >= period || last == 0`.
  abbrev pub is_due : ℕ → ℕ → ℕ → Bool
  is_due now_ms last period = leb period (now_ms - last) || last == 0

  abbrev pub show_battery : List F32 → Sensors F32 → Sensors F32
  show_battery window s = record s { battery_v = some (mean window) }

  with_battery : ℕ → Option F32 → Thread → Option Thread
  with_battery now_ms none t = none
  with_battery now_ms (some v) t =
      let window = slide v t.bat_window in
      some (record t {
        bat_window = window;
        last_battery_ms = now_ms;
        shown = show_battery window t.shown;
      })

  with_pressure : ℕ → Option F32 → Thread → Option Thread
  with_pressure now_ms none t = none
  with_pressure now_ms (some bar) t =
      some
        (record t { last_pressure_ms = now_ms; shown = record t.shown { pressure_bar = some bar } })

  battery_turn : SensorsConfig F32 → Probe → Thread → Option Thread
  unfolding with_battery
  battery_turn cfg r t =
      if is_due r.now_ms t.last_battery_ms 600000
      then with_battery r.now_ms (battery cfg r.battery_raw) t
      else some t

  pressure_turn : SensorsConfig F32 → Probe → Thread → Option Thread
  unfolding with_pressure
  pressure_turn cfg r t =
      if is_due r.now_ms t.last_pressure_ms 60000
      then with_pressure r.now_ms (pressure cfg r.pressure_raw) t
      else some t

  -- `lph` and `total`, of a difference of pulses, the seconds and the pulses so far.
  abbrev pub show_flow : SensorsConfig F32 → ℕ → F32 → ℕ → Sensors F32 → Sensors F32
  show_flow cfg delta elapsed_s pulses s = record s {
    flow_lph = some (mul (div (of_nat delta) elapsed_s) cfg.flow_lph_per_pps);
    total_l = some (mul (of_nat pulses) cfg.flow_l_per_pulse);
  }

  flow_turn : SensorsConfig F32 → Probe → Thread → Thread
  flow_turn cfg r t =
      let elapsed_s = div (of_nat (max (r.now_ms - t.last_flow_ms) 1)) (of_nat 1000) in
      if is_due r.now_ms t.last_flow_ms 60000
      then record t {
        last_pulse_count = r.pulses;
        last_flow_ms = r.now_ms;
        shown = show_flow cfg (r.pulses - t.last_pulse_count) elapsed_s r.pulses t.shown;
      }
      else t

  -- One turn of the loop of `spawn_sensor_task`.
  unfoldable pub sensor_turn : SensorsConfig F32 → Probe → Thread → Option Thread
  unfolding battery_turn pressure_turn flow_turn
  sensor_turn cfg r t = do
    t1 ← battery_turn cfg r t
    t2 ← pressure_turn cfg r t1
    some (flow_turn cfg r t2)

  -- The variables of `sensor_task`.
  pub record Task : Type 0 where
    pub counter : Inner
    pub bat : Ring F32
    pub secs : ℕ
    pub pulses_at_last_flow : ℕ
    pub shown : Sensors F32

  filled : Option F32 → Task → Option Task
  filled none t = none
  filled (some v) t =
      let bat = put v t.bat in
      some (record t { bat = bat; shown = show_battery (averaged bat) t.shown })

  pressed : Option F32 → Task → Option Task
  pressed none t = none
  pressed (some bar) t = some (record t { shown = record t.shown { pressure_bar = some bar } })

  -- `secs == 10 || secs % 600 == 0`.
  task_battery : SensorsConfig F32 → Probe → Task → Option Task
  unfolding filled
  task_battery cfg r t =
      if t.secs == 10 || t.secs % 600 == 0 then filled (battery cfg r.battery_raw) t else some t

  task_pressure : SensorsConfig F32 → Probe → Task → Option Task
  unfolding pressed
  task_pressure cfg r t =
      if t.secs % 60 == 0 then pressed (pressure cfg r.pressure_raw) t else some t

  task_flow : SensorsConfig F32 → Task → Task
  task_flow cfg t =
      if t.secs % 60 == 0
      then record t {
        pulses_at_last_flow = t.counter.total;
        shown =
            show_flow cfg (t.counter.total - t.pulses_at_last_flow) (of_nat 60) t.counter.total
              t.shown;
      }
      else t

  -- One turn of the loop of `sensor_task`.
  unfoldable pub task_turn : SensorsConfig F32 → Probe → Task → Option Task
  unfolding task_battery task_pressure task_flow
  task_turn cfg r t = do
    let t0 = record t { secs = t.secs + 1; counter = accumulate r.pulses t.counter }
    t1 ← task_battery cfg r t0
    t2 ← task_pressure cfg r t1
    some (task_flow cfg t2)

-- ===== src/Pulse.antt =====
-- The pulse counters: crates/firmware/src/hw_pcnt.rs and the accumulation of
-- crates/firmware-nostd/src/sensors.rs. An `i16` is the number of its value above the least one, so 0
-- is 32768 here.
pub mod Wrap
mod Tests
use Prim.Native.Nat.{min}
use watercontroller.Base.{
  ℕ, ◌+◌, ◌-◌, ◌*◌, ◌%◌, ◌^◌, Option, none, some, Bool, List, [], ◌∷◌, leb, ltb, if◌then◌else◌,
}

abbrev pub i16_zero : ℕ
i16_zero = 2 ^ 15

abbrev pub i64_max : ℕ
i64_max = 2 ^ 63 - 1

-- `Inner`. The total never falls and starts at 0.
pub record Inner : Type 0 where
  pub last_raw : ℕ
  pub total : ℕ

abbrev pub cleared : Inner
cleared = record { last_raw = i16_zero; total = 0 }

-- The difference of two readings, or 0 if it is not positive. A wrap adds
-- `i16::MAX - last_raw + raw + 1`.
abbrev pub delta : ℕ → ℕ → ℕ
delta raw last_raw = if leb last_raw raw then raw - last_raw else raw + 2 ^ 15 - last_raw

-- `get_counter_value().unwrap_or(0)`.
abbrev pub raw_of : Option ℕ → ℕ
raw_of none = i16_zero
raw_of (some raw) = raw

-- `EspPulseCounter::count`: the state after it, whose total is what it returns.
unfoldable pub count : Option ℕ → Inner → Inner
count read s =
    let raw = raw_of read in
    record { last_raw = raw; total = min (s.total + delta raw s.last_raw) i64_max }

-- `raw.wrapping_sub(last_raw)`, if it is positive.
abbrev pub wrapping_delta : ℕ → ℕ → ℕ
wrapping_delta raw last_raw =
    let d = (raw + 2 ^ 16 - last_raw) % 2 ^ 16 in if ltb d (2 ^ 15) then d else 0

-- The accumulation of `sensor_task`, once a second.
unfoldable pub accumulate : ℕ → Inner → Inner
accumulate raw s = record { last_raw = raw; total = s.total + wrapping_delta raw s.last_raw }

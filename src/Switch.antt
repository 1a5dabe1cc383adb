-- ===== src/Switch.antt =====
-- crates/core/src/switch.rs: a switch with an optional auto-off timer.
pub mod Timer
mod Tests
use watercontroller.Base.{
  ℕ, ◌-◌, ◌*◌, ◌%◌, ◌^◌, Bool, true, false, Option, none, some, leb, if◌then◌else◌,
}

-- `core::time::Duration`, in milliseconds: the program makes one by `from_secs` only.
abbrev pub Duration : Type 0
Duration = ℕ

abbrev pub from_secs : ℕ → Duration
from_secs secs = secs * 1000

-- `d.as_millis() as u64`.
abbrev pub as_millis : Duration → ℕ
as_millis d = d % 2 ^ 64

pub record TimedSwitch : Type 0 where
  pub on : Bool
  pub on_since : Option ℕ
  pub auto_off : Option Duration
  pub override_auto_off : Option Duration

unfoldable pub new : Option Duration → TimedSwitch
new auto_off = record { on = false; on_since = none; auto_off = auto_off; override_auto_off = none }

unfoldable pub is_on : TimedSwitch → Bool
is_on s = s.on

unfoldable pub set_auto_off : Option Duration → TimedSwitch → TimedSwitch
set_auto_off auto_off s = record s { auto_off = auto_off }

unfoldable pub turn_on : ℕ → TimedSwitch → TimedSwitch
turn_on now_ms s =
    if s.on then s else record s { on = true; on_since = some now_ms; override_auto_off = none }

unfoldable pub turn_on_for : ℕ → Duration → TimedSwitch → TimedSwitch
turn_on_for now_ms duration s =
    if s.on
    then s
    else record s { on = true; on_since = some now_ms; override_auto_off = some duration }

unfoldable pub turn_off : ℕ → TimedSwitch → TimedSwitch
turn_off _ s = record s { on = false; on_since = none; override_auto_off = none }

-- `self.override_auto_off.or(self.auto_off)`.
abbrev pub or_else : Option Duration → Option Duration → Option Duration
or_else none b = b
or_else (some a) b = some a

-- The body of `tick` behind its three guards.
expire : ℕ → Option Duration → Option ℕ → TimedSwitch → TimedSwitch × Bool
unfolding turn_off
expire now_ms (some d) (some t0) s =
    if leb (as_millis d) (now_ms - t0) then (turn_off now_ms s, true) else (s, false)
expire now_ms _ _ s = (s, false)

unfoldable pub tick : ℕ → TimedSwitch → TimedSwitch × Bool
unfolding expire
tick now_ms s =
    if s.on then expire now_ms (or_else s.override_auto_off s.auto_off) s.on_since s else (s, false)

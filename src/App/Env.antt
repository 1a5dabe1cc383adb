-- ===== src/App/Env.antt =====
-- What app.rs takes from outside the repository or from the platform: `f32`, the clock, the store and
-- the JSON codec of the alarm history.
use watercontroller.Base.{ℕ, ℤ, String, Bool, List}
use watercontroller.State.{AlarmEvent}
use watercontroller.Nvs.{NvsStore}
use watercontroller.Config.Persist.{Codec}

pub record Platform : Type 1 where
  pub F32 : Type 0
  pub zero_f : F32
  -- `a >= b`.
  pub ge : F32 → F32 → Bool
  -- `format!("{v:.1}")`.
  pub fixed_1 : F32 → String
  pub nvs : NvsStore
  pub history : Codec (List (AlarmEvent F32))

-- What the methods of `Clock` return at one moment: `now()`, printed and in seconds, and
-- `monotonic_ms()`.
pub record Reading : Type 0 where
  pub rfc3339 : String
  pub timestamp : ℤ
  pub monotonic_ms : ℕ

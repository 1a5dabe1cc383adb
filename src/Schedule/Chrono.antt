-- ===== src/Schedule/Chrono.antt =====
-- The part of chrono's `NaiveDateTime` that schedule.rs uses, and what it relies on.
use watercontroller.Base.{ℕ, ◌+◌, ◌≤◌, ◌≡◌, Bool, true, leb}

pub record Calendar : Type 1 where
  pub DateTime : Type 0
  -- `a <= b`.
  pub le : DateTime → DateTime → Bool
  pub with_second : ℕ → DateTime → DateTime
  pub with_nanosecond : ℕ → DateTime → DateTime
  -- `t + Duration::minutes(1)` and `t - Duration::seconds(1)`.
  pub plus_minute : DateTime → DateTime
  pub minus_second : DateTime → DateTime
  pub hour : DateTime → ℕ
  pub minute : DateTime → ℕ
  -- `weekday().num_days_from_monday()`.
  pub weekday : DateTime → ℕ

-- Date-times are counted in whole minutes, `minutes`, from the first that chrono has; `at` is the
-- start of a minute.
pub record CalendarLaws (c : Calendar) : Type 1 where
  pub minutes : c.DateTime → ℕ
  pub at : ℕ → c.DateTime
  pub minutes-at : (m : ℕ) → minutes (at m) ≡ m
  -- Seconds and nanoseconds set to 0 give the start of the minute.
  pub floor-at : (t : c.DateTime) → c.with_nanosecond 0 (c.with_second 0 t) ≡ at (minutes t)
  pub plus_minute-at : (m : ℕ) → c.plus_minute (at m) ≡ at (m + 1)
  -- A second before the start of a minute lies in the minute before.
  pub minus_second-at : (m : ℕ) → minutes (c.minus_second (at (m + 1))) ≡ m
  -- The order respects the minutes, and is theirs between starts of minutes.
  pub le-at : (m n : ℕ) → c.le (at m) (at n) ≡ leb m n
  pub le_minutes : (a b : c.DateTime) → c.le a b ≡ true → minutes a ≤ minutes b

-- ===== src/Schedule/Seconds.antt =====
-- A calendar with no dates, for tests of schedule.rs.
use watercontroller.Base.{ℕ, ◌+◌, ◌-◌, ◌*◌, ◌/◌, ◌%◌, arith, leb}
use watercontroller.Schedule.Chrono.{Calendar, CalendarLaws}

-- Seconds since a Monday at midnight.
abbrev pub seconds : Calendar
seconds = record {
  DateTime = ℕ;
  le = leb;
  with_second = λ s t. t / 60 * 60 + s;
  with_nanosecond = λ n t. t;
  plus_minute = λ t. t + 60;
  minus_second = λ t. t - 1;
  hour = λ t. t / 3600 % 24;
  minute = λ t. t / 60 % 60;
  weekday = λ t. t / 86_400 % 7;
}

unfoldable pub seconds_laws : CalendarLaws seconds
seconds_laws = record {
  minutes = λ t. t / 60;
  at = λ m. m * 60;
  minutes-at = λ m. omega arith;
  floor-at = λ t. omega arith;
  plus_minute-at = λ m. omega arith;
  minus_second-at = λ m. omega arith;
  le-at = λ m n. ground arith;
  le_minutes = λ a b h. ground arith;
}

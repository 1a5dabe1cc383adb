-- ===== src/Schedule.antt =====
-- crates/core/src/schedule.rs: the rules, and which of them fall due between two moments. The date
-- arithmetic is that of the chrono crate, which is a parameter.
pub mod Chrono
pub mod Range
pub mod Seconds
mod Tests
use watercontroller.Base.{
  ℕ, zero, suc, ◌*◌, String, Bool, true, false, not, Option, none, some, List, [], ◌∷◌, ◌++◌, ◌==◌,
  ◌&&◌, if◌then◌else◌, retain,
}
use Chrono.{Calendar}

pub data Action : Type 0 where
  switch : (id : String) → Action
  water_control : (on : Bool) → Action

pub record Rule : Type 0 where
  pub id : String
  pub action : Action
  pub hours : List ℕ
  pub minutes : List ℕ
  pub days_of_week : List ℕ
  pub enabled : Bool
  pub duration_secs : Option ℕ

pub record Schedule : Type 0 where
  pub rules : List Rule

-- `slice::contains`.
pub contains : List ℕ → ℕ → Bool
contains [] n = false
contains (x ∷ xs) n = let rest = contains xs n in if x == n then true else rest

-- `max_iters`: 25 h.
abbrev pub max_iters : ℕ
max_iters = 25 * 60

module _ (c : Calendar) where
  open c use {DateTime, le, with_second, with_nanosecond, plus_minute, minus_second}

  -- `w` is `w.num_days_from_monday() as u8`.
  matches_dow : Rule → ℕ → Bool
  unfolding contains
  matches_dow r w = elim r.days_of_week [ [] ↦ true | _ ∷ _ ↦ contains r.days_of_week w ]

  unfoldable pub matches_minute : Rule → DateTime → Bool
  unfolding matches_dow
  matches_minute r dt =
      if not r.enabled
      then false
      else if not (contains r.hours (c.hour dt))
      then false
      else if not (contains r.minutes (c.minute dt))
      then false
      else matches_dow r (c.weekday dt)

  unfoldable pub floor_to_minute : DateTime → DateTime
  floor_to_minute dt = with_nanosecond 0 (with_second 0 dt)

  -- The `for` loop over the rules.
  abbrev pub due : List Rule → DateTime → List Rule
  due rules t = retain (λ r. matches_minute r t) rules

  -- The `while` loop: `left` is `max_iters - iters`.
  unfoldable pub scan : ℕ → List Rule → DateTime → DateTime → List Rule → List Rule
  scan zero rules t end hits = hits
  scan (suc left) rules t end hits =
      let next = scan left rules (plus_minute t) end (hits ++ due rules t) in
      if le t end then next else hits

  unfoldable pub evaluate_range : Schedule → DateTime → DateTime → List Rule
  evaluate_range s last now =
      if le now last
      then []
      else scan max_iters s.rules (plus_minute (floor_to_minute last)) (floor_to_minute now) []

  unfoldable pub evaluate_minute : Schedule → DateTime → List Rule
  evaluate_minute s now = evaluate_range s (minus_second (floor_to_minute now)) now

-- The schedule of a device that has no configuration.
abbrev pub default_schedule : Schedule
default_schedule = record {
  rules =
      record {
        id = "riego_exterior";
        action = switch "sprinkler_1";
        hours = 10 ∷ 22 ∷ [];
        minutes = 0 ∷ [];
        days_of_week = [];
        enabled = true;
        duration_secs = none;
      }
      ∷ record {
        id = "riego_interior";
        action = switch "sprinkler_2";
        hours = 10 ∷ 22 ∷ [];
        minutes = 30 ∷ [];
        days_of_week = [];
        enabled = true;
        duration_secs = none;
      }
      ∷ [];
}

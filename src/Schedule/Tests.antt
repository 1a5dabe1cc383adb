-- ===== src/Schedule/Tests.antt =====
-- schedule.rs: the source's tests on a calendar with no dates, and an instance of the theorem.
use watercontroller.Base.{ℕ, ◌+◌, ◌*◌, ◌≡◌, refl, List, [], ◌∷◌, arith}
use watercontroller.Schedule.{
  scan, floor_to_minute, evaluate_range, matches_minute, default_schedule, due,
}
use watercontroller.Schedule.Seconds.{seconds, seconds_laws}
use watercontroller.Schedule.Range.{due_after, fired, fired_once}

abbrev time : ℕ → ℕ → ℕ
time h m = h * 3600 + m * 60

yaml_default_fires_at_10 :
    evaluate_range seconds default_schedule (time 9 59) (time 10 0 + 30)
    ≡ due seconds default_schedule.rules (time 10 0)
unfolding evaluate_range scan floor_to_minute matches_minute
yaml_default_fires_at_10 = refl

-- The clock jumped from 9:55 to 10:31.
missed_minutes_are_recovered :
    evaluate_range seconds default_schedule (time 9 55) (time 10 31) ≡ default_schedule.rules
unfolding evaluate_range scan floor_to_minute matches_minute
missed_minutes_are_recovered = refl

no_double_fire_at_minute_boundary :
    evaluate_range seconds default_schedule (time 10 0) (time 10 1) ≡ []
unfolding evaluate_range scan floor_to_minute matches_minute
no_double_fire_at_minute_boundary = refl

abbrev checks : List ℕ
checks = (time 9 59 + 30) ∷ time 10 0 ∷ (time 10 0 + 30) ∷ time 10 31 ∷ []

fired_once_example :
    fired seconds seconds_laws default_schedule (time 9 59) checks
    ≡ due_after seconds seconds_laws default_schedule.rules (9 * 60 + 59) 32
unfolding seconds_laws
fired_once_example =
    fired_once seconds seconds_laws default_schedule (time 9 59) checks (omega arith)

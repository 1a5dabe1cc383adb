-- ===== src/Switch/Tests.antt =====
-- switch.rs: the source's tests on concrete times, and instances of the theorems.
use watercontroller.Base.{◌≡◌, refl, true, false, none, some, List, [], ◌∷◌, arith, ◌<◌, ◌-◌}
use watercontroller.Switch.{TimedSwitch, from_secs, as_millis, new, set_auto_off, turn_on, tick}
use watercontroller.Switch.Timer.{
  IsValid, Event, advance, ticked, on, step, run, start, run-ticked_within,
}

abbrev timer : TimedSwitch
timer = new (some (from_secs 5))

auto_off_fires_after_duration :
    ((tick 4999 (turn_on 0 timer)).0.on ≡ true) × ((tick 5000 (turn_on 0 timer)).0.on ≡ false)
unfolding new turn_on tick
auto_off_fires_after_duration = (refl, refl)

turn_on_resets_clock_only_when_off : (tick 5000 (turn_on 2000 (turn_on 0 timer))).0.on ≡ false
unfolding new turn_on tick
turn_on_resets_clock_only_when_off = refl

set_auto_off_shortens_live_window :
    (tick 4001 (set_auto_off (some (from_secs 3)) (turn_on 0 (new (some (from_secs 60)))))).1 ≡ true
unfolding new turn_on tick set_auto_off
set_auto_off_shortens_live_window = refl

set_auto_off_to_none_keeps_switch_on :
    (tick 60_000 (set_auto_off none (turn_on 0 timer))).0.on ≡ true
unfolding new turn_on tick set_auto_off
set_auto_off_to_none_keeps_switch_on = refl

abbrev busy : List Event
busy = on ∷ advance 2000 ∷ on ∷ ticked ∷ []

run-ticked_within_example :
    let w = step ticked (run busy (start (some 5000))) in w.now - w.lit < as_millis 5000
unfolding run step new turn_on tick
run-ticked_within_example = run-ticked_within (some 5000) busy 5000 refl refl

new-IsValid : IsValid timer
unfolding new
new-IsValid = ground arith

-- ===== src/App/Tests.antt =====
-- app.rs: runs of a device, and instances of the theorems.
use watercontroller.Base.{
  inl, ℕ, ◌*◌, ◌≡◌, ◌≢◌, refl, arith, ap, true, false, Option, none, some, List, [], ◌∷◌,
}
use watercontroller.State.{from_water_state}
use watercontroller.Nvs.{KeyLaws, full, NvsLaws-KeyLaws}
use watercontroller.Nvs.Fake.{fake, fake_laws, lookup, without}
use watercontroller.App.Env.{Platform}
use watercontroller.Switch
use watercontroller.Valve
use watercontroller.App.{
  App, water_control, with_nvs, switch_command, record_alarm_event, emit_event,
}
use watercontroller.App.FlowAlarm.{
  evaluate_flow_alarm, apply_rule, set_alarm, next_elapsed, fire_alarm,
}
use watercontroller.App.Tick.{tick, drive, persist_valve}
use watercontroller.App.Run.{Event, run, step, observe, ticked, commanded, observed}
use watercontroller.Schedule.{evaluate_range, scan, matches_minute, floor_to_minute}
use watercontroller.Schedule.Seconds.{seconds}
use watercontroller.App.ScheduleTask.{turn, turn_lem}
use watercontroller.App.Bench.{burst, bench, guarded, at_once, boot}
use watercontroller.App.Latch.{run-latched, tick-fires}
use watercontroller.App.Sustained.{Flowing, ticks, ticks-fire}
use watercontroller.App.Persist.{with_nvs-run, with_nvs-tick}

abbrev leak : Event bench
leak =
    observed
      (record {
        battery_v = none;
        pressure_bar = none;
        flow_lph = some 150;
        total_l = none;
        loop_time_ms = none;
      })
      (record { wifi = none; mqtt_connected = false; wifi_rssi_dbm = none })
      (record { free_heap_bytes = none; min_free_heap_bytes = none; reset_reason = none }) 0

abbrev second : ℕ → Event bench
second n = ticked (n * 1000) (at_once (n * 1000))

-- A leak starts while the valve is closed.
abbrev leaking : App bench
leaking = run bench (leak ∷ second 1 ∷ second 2 ∷ []) boot

abbrev fired : App bench
fired = (tick bench 3000 (at_once 3000) leaking).0

leaking_alarm :
    (leaking.state.alarm ≡ record { active = false; elapsed_secs = 1 })
    × (leaking.config.flow_alarm.duration_secs ≡ 2)
    × (leaking.flow_alarm_last_check_ms ≡ some 2000)
unfolding run step tick drive evaluate_flow_alarm apply_rule set_alarm next_elapsed persist_valve
    switch_command emit_event record_alarm_event with_nvs observe fire_alarm from_water_state
    Switch.is_on Switch.tick Switch.new lookup Valve.tick Valve.with_timing Valve.is_busy
    Valve.turn_off
leaking_alarm = (refl, refl, refl)

fired_alarm :
    (fired.state.alarm.active ≡ true)
    × (fired.config.flow_alarm.enabled ≡ true)
    × (fired.alarm_history ≡ burst ∷ [])
unfolding run step tick drive evaluate_flow_alarm apply_rule set_alarm next_elapsed persist_valve
    switch_command emit_event record_alarm_event with_nvs observe fire_alarm from_water_state
    Switch.is_on Switch.tick Switch.new lookup Valve.tick Valve.with_timing Valve.is_busy
    Valve.turn_off
fired_alarm = (refl, refl, refl)

-- Somebody opens the valve again.
run-latched_example :
    let b =
      (tick bench 4000
        (at_once 4000)
        (run bench (commanded 3500 (water_control true) ∷ []) fired)).0 in
    (b.state.alarm.active ≡ true) × (Valve.state b.valve ≢ Valve.on)
run-latched_example =
    run-latched bench fired (commanded 3500 (water_control true) ∷ []) 4000 (at_once 4000)
      (fired_alarm.0, fired_alarm.1) (tt, tt)

two : leaking.config.flow_alarm.duration_secs ≢ 0
two e = omega (arith, leaking_alarm.1)

leaking_inactive : leaking.state.alarm.active ≡ false
leaking_inactive = ap (λ a. a.active) leaking_alarm.0

leaking-Flowing : Flowing bench leaking
unfolding run step tick drive evaluate_flow_alarm apply_rule set_alarm next_elapsed persist_valve
    switch_command emit_event record_alarm_event with_nvs observe fire_alarm from_water_state
    Switch.is_on Switch.tick Switch.new lookup Valve.tick Valve.with_timing Valve.is_busy
    Valve.turn_off
leaking-Flowing = record { enabled = refl; dry_1 = refl; dry_2 = refl; above = refl }

tick-fires_example : (tick bench 3000 (at_once 3000) leaking).1.sprinkler_1 ≡ false
tick-fires_example =
    (tick-fires bench 3000 (at_once 3000) leaking two leaking_inactive fired_alarm.0).1

ticks-fire_example :
    (ticks bench ((3000, at_once 3000) ∷ (4000, at_once 4000) ∷ []) leaking).state.alarm.active
    ≡ true
ticks-fire_example =
    ticks-fire bench 2000 3000 (at_once 3000) ((4000, at_once 4000) ∷ []) leaking leaking-Flowing
      leaking_alarm.2 (omega (arith, leaking_alarm.1)) (omega (arith, leaking_alarm.1))
      (omega arith, omega arith, (omega arith, omega arith, tt))

-- A store that takes no writes, on a device whose valve was open at the last one.
abbrev worn : Platform
worn = record bench {
  nvs = record fake { set = λ m key value. (some full, m); remove = λ m key. (some full, m) };
}

worn_laws : KeyLaws worn.nvs
worn_laws = record {
  get-set = λ s k j b h. absurd (ground (arith, h));
  get-remove = λ s k j h. absurd (ground (arith, h));
  get-set_other = λ s k j b ne. refl;
  get-remove_other = λ s k j ne. refl;
}

abbrev was_open : Option worn.nvs.Store
was_open = some (("wc.valve", 1 ∷ []) ∷ [])

-- A close whose state cannot be written: the valve is closed, and comes back open.
abbrev closing : List (Event worn)
closing =
    commanded 10 (water_control false)
    ∷ ticked 20000 (at_once 20000)
    ∷ ticked 90000 (at_once 90000)
    ∷ []

with_nvs-run_example :
    (with_nvs worn guarded
      (run worn closing (with_nvs worn guarded was_open)).store).valve.user_state
    ≡ true
unfolding run step tick drive evaluate_flow_alarm apply_rule set_alarm next_elapsed persist_valve
    switch_command with_nvs Switch.is_on Switch.tick Switch.new lookup without Valve.tick
    Valve.with_timing Valve.turn_off Valve.is_busy Valve.restore from_water_state
with_nvs-run_example =
    with_nvs-run worn worn_laws (λ s on e h. refl) guarded guarded was_open closing true refl

-- The first tick ends the sequence of the command.
with_nvs-tick_example :
    let a =
      (tick bench 20000
        (at_once 20000)
        (run bench (commanded 10 (water_control true) ∷ []) boot)).0 in
    ((with_nvs bench guarded a.store).valve.user_state ≡ a.valve.user_state)
    × ((with_nvs bench guarded a.store).valve.phase ≡ Valve.idle)
unfolding run step tick drive evaluate_flow_alarm apply_rule set_alarm next_elapsed persist_valve
    switch_command with_nvs Switch.is_on Switch.tick Switch.new lookup without Valve.tick
    Valve.with_timing Valve.turn_on Valve.is_busy from_water_state
with_nvs-tick_example =
    with_nvs-tick bench (NvsLaws-KeyLaws fake_laws) (λ s on. refl) guarded guarded (some [])
      (commanded 10 (water_control true) ∷ []) 20000 (at_once 20000) (λ e. ground arith)

-- A command whose sequence is not over is lost with the power: the store has the state before it.
half_open :
    (with_nvs bench guarded
      (tick bench 20
        (at_once 20)
        (run bench (commanded 10 (water_control true) ∷ []) boot)).0.store).valve.user_state
    ≡ false
unfolding run step tick drive evaluate_flow_alarm apply_rule set_alarm next_elapsed persist_valve
    switch_command with_nvs Switch.is_on Switch.tick Switch.new lookup without Valve.tick
    Valve.with_timing Valve.turn_on Valve.is_busy Valve.restore from_water_state
half_open = refl

-- The rule at 10:00 turns the first sprinkler on.
turn_lem_example : Switch.is_on (turn bench seconds (λ i. 5) 35_940 36_060 boot).0.sprinkler1 ≡ true
unfolding evaluate_range scan matches_minute floor_to_minute with_nvs
turn_lem_example = (turn_lem bench seconds (λ i. 5) 35_940 36_060 boot).0 (inl refl)

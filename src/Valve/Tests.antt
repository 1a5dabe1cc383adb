-- ===== src/Valve/Tests.antt =====
-- water_valve.rs: the source's tests on concrete times, and instances of the theorems.
use watercontroller.Base.{◌≤◌, ◌<◌, ◌+◌, ◌≡◌, refl, true, false, some, List, [], ◌∷◌, arith}
use watercontroller.Valve.{
  WaterValve, idle, draining, turning_on, on, off, nothing, opening, closing, draining_out,
  default_timing, new, with_timing, state, is_busy, turn_on, turn_off, set_timing, tick, settle_ms,
}
use watercontroller.Valve.Interlock
use watercontroller.Valve.Interlock.{interlock}
use watercontroller.Valve.Sequence
use watercontroller.Valve.Sequence.{
  open_sequence, close_sequence, drain_phase, settles, ticks, drain_only,
}

turn_on_sequence_matches_yaml :
    let v = turn_on 0 new in
    ((tick 999 v).1 ≡ nothing)
    × ((tick 1000 v).1 ≡ opening)
    × ((tick 14_999 v).1 ≡ opening)
    × ((tick 15_000 v).1 ≡ nothing)
    × (state (tick 16_000 v).0 ≡ on)
unfolding with_timing turn_on tick state
turn_on_sequence_matches_yaml = (refl, refl, refl, refl, refl)

abbrev opened : WaterValve
opened = record { phase = idle; user_state = true; timing = default_timing }

turn_off_sequence_drives_close_then_drain :
    let v = turn_off 20_000 opened in
    ((tick 21_500 v).1 ≡ closing)
    × ((tick 35_500 v).1 ≡ nothing)
    × ((tick 36_000 v).1 ≡ draining_out)
    × ((tick 335_999 (tick 36_000 v).0).1 ≡ draining_out)
    × ((tick 336_000 (tick 36_000 v).0).1 ≡ nothing)
unfolding turn_off tick
turn_off_sequence_drives_close_then_drain = (refl, refl, refl, refl, refl)

drain_secs_zero_skips_draining_phase :
    let v = set_timing (record { motor_run_secs = 1; drain_secs = 0 }) (turn_off 4000 opened) in
    (tick 7000 v).0.phase ≡ idle
unfolding set_timing turn_off tick
drain_secs_zero_skips_draining_phase = refl

abbrev there_and_back : List Interlock.Event
there_and_back =
    Interlock.command true
    ∷ Interlock.advance 1500
    ∷ Interlock.ticked
    ∷ Interlock.advance 15_000
    ∷ Interlock.ticked
    ∷ Interlock.command false
    ∷ Interlock.advance 1000
    ∷ []

interlock_example :
    let w = Interlock.run there_and_back (Interlock.start new 0) in
    ((Interlock.outputs w).open_motor ≡ true
      → ((Interlock.outputs w).close_motor ≡ false)
        × ((Interlock.outputs w).drain ≡ false)
        × (w.closed ≡ some 1500 → 1500 + settle_ms ≤ w.now))
    × ((Interlock.outputs w).close_motor ≡ true
        → ((Interlock.outputs w).open_motor ≡ false)
          × ((Interlock.outputs w).drain ≡ false)
          × (w.opened ≡ some 1500 → 1500 + settle_ms ≤ w.now))
unfolding with_timing
interlock_example = interlock new 0 there_and_back 1500 refl

-- The premises of that instance are met: the last tick drives the closing motor.
there_and_back_drives :
    let w = Interlock.run there_and_back (Interlock.start new 0) in
    ((Interlock.outputs w).close_motor ≡ true) × (w.opened ≡ some 1500)
unfolding Interlock.run Interlock.step with_timing turn_on turn_off tick
there_and_back_drives = (refl, refl)

abbrev pestered : List Sequence.Event
pestered = Sequence.ticked 500 ∷ Sequence.command false 2000 ∷ Sequence.command true 15_999 ∷ []

open_sequence_example :
    let w = Sequence.run pestered (turn_on 0 new) in
    (is_busy w ≡ true)
    × (2000 < 16_000
        → tick 2000 w ≡ (w, record nothing { open_motor = Sequence.pulsing default_timing 0 2000 }))
    × (16_000 ≤ 2000 → (state (tick 2000 w).0 ≡ on) × ((tick 2000 w).1 ≡ nothing))
unfolding with_timing
open_sequence_example = open_sequence new 0 2000 pestered refl refl (omega arith) (omega arith)

close_sequence_example : state (tick 16_000 (Sequence.run pestered (turn_off 0 opened))).0 ≡ off
close_sequence_example =
    ((close_sequence opened 0 16_000 pestered refl refl (omega arith) (omega arith)).2
      (omega arith)).2

abbrev dripping : WaterValve
dripping = record { phase = draining 36_000; user_state = false; timing = default_timing }

settles_example :
    let w = ticks (16_000 ∷ 316_000 ∷ []) (record opened { phase = turning_on 0 }) in
    (w.phase ≡ idle) × (w.user_state ≡ true) × (tick 400_000 w ≡ (w, nothing))
settles_example =
    settles (record opened { phase = turning_on 0 }) 16_000 316_000 400_000 (omega arith)
      (omega arith)

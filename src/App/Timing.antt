-- ===== src/App/Timing.antt =====
-- app.rs: the flow alarm where the ticks are less than a second apart.
use watercontroller.Base.{
  ap, ◌∙◌, ℕ, ◌+◌, ◌<◌, ◌≡◌, ◌≢◌, refl, false, Option, none, some, List, [], ◌∷◌, arith,
}
use watercontroller.Config.{Config}
use watercontroller.App.{
  App, switch_command, with_nvs, replace_config_section, set_webhook_dispatcher, emit_event,
  fire_schedule_sprinkler,
}
use watercontroller.App.Env.{Platform}
use watercontroller.App.FlowAlarm.{Fired, delta_s, next_elapsed, clear_flow_alarm, set_alarm}
use watercontroller.App.Tick.{drive, tick}
use watercontroller.App.Run.{
  Event, step, run, observe, ticked, commanded, scheduled, observed, configured, cleared,
  dispatched_by,
}
use watercontroller.App.Alarm.{Core, core, judged, tick-core, command-core, schedule-core}

-- Less than a second since the last tick.
abbrev pub Soon : Option ℕ → ℕ → Type 0
Soon none now = Unit
Soon (some t) now = now < t + 1000

-- delta-Soon: such a tick counts no time.
delta-Soon : (last : Option ℕ) (now : ℕ) → Soon last now → delta_s last now ≡ 0
delta-Soon none now h = refl
delta-Soon (some t) now h = omega arith

module _ (p : Platform) where
  -- Any calls, with ticks less than a second apart and at least one second asked for by every
  -- new configuration.
  abbrev pub Fast : Option ℕ → List (Event p) → Type 0
  Fast last [] = Unit
  Fast last (ticked now f ∷ es) = Soon last now × Fast (some now) es
  Fast last (configured t cfg section ∷ es) = (cfg.flow_alarm.duration_secs ≢ 0) × Fast last es
  Fast last (e ∷ es) = Fast last es

  -- Nothing is counted.
  record Idle (last : Option ℕ) (c : Core p) : Type 0 where
    asks : c.config.flow_alarm.duration_secs ≢ 0
    silent : c.alarm.active ≡ false
    at_zero : c.alarm.elapsed_secs ≡ 0
    checked : c.last ≡ last

  judged-Idle :
      (now : ℕ) (last : Option ℕ) (a : App p)
      → Soon last now
      → Idle last (core p a)
      → Idle (some now) (record { config = a.config; alarm = judged p now a; last = some now })
  unfolding drive next_elapsed
  judged-Idle now last a h i =
      let z : delta_s a.flow_alarm_last_check_ms now ≡ 0 =
        ap (λ l. delta_s l now) i.checked ∙ delta-Soon last now h in
      ground (arith, z)

  tick-Idle :
      (now : ℕ) (f : Fired) (last : Option ℕ) (a : App p)
      → Soon last now
      → Idle last (core p a)
      → Idle (some now) (core p (tick p now f a).0)
  tick-Idle now f last a h i = rw (tick-core p now f a) (judged-Idle now last a h i)

  run-Idle :
      (last : Option ℕ) (es : List (Event p)) (a : App p)
      → Fast last es
      → Idle last (core p a)
      → (run p es a).state.alarm.active ≡ false
  unfolding run step observe replace_config_section emit_event set_webhook_dispatcher
      clear_flow_alarm set_alarm
  run-Idle last [] a h i = i.silent
  run-Idle last (ticked now f ∷ es) a (h, hs) i =
      run-Idle (some now) es (tick p now f a).0 hs (tick-Idle now f last a h i)
  run-Idle last (commanded now c ∷ es) a h i =
      run-Idle last es (switch_command p now c a).0 h (rw (command-core p now c a) i)
  run-Idle last (scheduled now id d ∷ es) a h i =
      run-Idle last es (fire_schedule_sprinkler p now id d a).0 h
        (rw (schedule-core p now id d a) i)
  run-Idle last (observed s n d t ∷ es) a h i = run-Idle last es (observe p s n d t a) h i
  run-Idle last (configured t cfg section ∷ es) a (h, hs) i =
      run-Idle last es (replace_config_section p t cfg section a) hs (ground arith)
  run-Idle last (cleared t ∷ es) a h i = run-Idle last es (clear_flow_alarm p t a) h (ground arith)
  run-Idle last (dispatched_by d ∷ es) a h i = run-Idle last es (set_webhook_dispatcher p d a) h i

  -- From a start with an alarm time of at least one second, through any readings of the flow, any
  -- commands and any other calls (a new configuration asks for at least one second too), the flow
  -- alarm never becomes active if the ticks are less than a second apart.
  pub run-Fast :
      (cfg : Config p.F32) (store : Option p.nvs.Store) (es : List (Event p))
      → cfg.flow_alarm.duration_secs ≢ 0
      → Fast none es
      → (run p es (with_nvs p cfg store)).state.alarm.active ≡ false
  unfolding with_nvs
  run-Fast cfg store es nz h = run-Idle none es (with_nvs p cfg store) h (ground arith)

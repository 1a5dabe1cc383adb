-- ===== src/App/Latch.antt =====
-- app.rs: what a latched flow alarm does.
use watercontroller.Base.{
  All, ap, sym, ◌∙◌, ℕ, ◌≤◌, ◌≡◌, ◌≢◌, refl, true, false, some, List, [], ◌∷◌, arith,
}
use watercontroller.State.{from_water_state}
use watercontroller.Switch
use watercontroller.Valve
use watercontroller.Valve.{WaterValve}
use watercontroller.App.{
  App, water_control, switch_command, emit_event, record_alarm_event, fire_schedule_sprinkler,
  replace_config_section, set_webhook_dispatcher,
}
use watercontroller.App.Env.{Platform}
use watercontroller.App.FlowAlarm.{
  Fired, delta_s, is_on, unwrap_or, fire_alarm, set_alarm, next_elapsed, apply_rule,
  evaluate_flow_alarm,
}
use watercontroller.App.Tick.{drive, persist_valve, tick}
use watercontroller.App.Run.{
  Event, step, run, observe, ticked, commanded, scheduled, observed, configured, cleared,
  dispatched_by,
}
use watercontroller.App.Alarm.{core, judged, tick-core, command-core, schedule-core}

busy-ne-on : (v : WaterValve) → Valve.is_busy v ≡ true → Valve.state v ≢ Valve.on
unfolding Valve.is_busy Valve.state
busy-ne-on v h = ground arith

turn_off-ne-on : (now : ℕ) (v : WaterValve) → Valve.state (Valve.turn_off now v) ≢ Valve.on
unfolding Valve.turn_off Valve.state
turn_off-ne-on now v = ground arith

shown-ne-on :
    (v : WaterValve) → is_on (from_water_state (Valve.state v)) ≡ false → Valve.state v ≢ Valve.on
unfolding Valve.state from_water_state
shown-ne-on v h = ground arith

module _ (p : Platform) where
  -- A command to close leaves the valve closed, or in a sequence.
  close-ne-on :
      (now : ℕ) (a : App p)
      → Valve.state (switch_command p now (water_control false) a).0.valve ≢ Valve.on
  unfolding switch_command
  close-ne-on now a = ground (arith, busy-ne-on a.valve, turn_off-ne-on now a.valve)

  fire-ne-on :
      (now : ℕ) (f : Fired) (flow : p.F32) (a : App p)
      → Valve.state (fire_alarm p now f flow a).valve ≢ Valve.on
  unfolding fire_alarm
  fire-ne-on now f flow a = close-ne-on f.commanded_ms _

  -- Firing changes neither the alarm nor what is shown of the switches.
  fire-state :
      (now : ℕ) (f : Fired) (flow : p.F32) (a : App p) → (fire_alarm p now f flow a).state ≡ a.state
  unfolding fire_alarm switch_command emit_event record_alarm_event
  fire-state now f flow a = ground arith

  persist-valve : (a : App p) → (persist_valve p a).valve ≡ a.valve
  unfolding persist_valve
  persist-valve a = ground arith

  persist-state : (a : App p) → (persist_valve p a).state ≡ a.state
  unfolding persist_valve
  persist-state a = ground arith

  -- The snapshot shows the valve as it is.
  abbrev Mirrored : App p → Type 0
  Mirrored a = a.state.switches.water_control ≡ from_water_state (Valve.state a.valve)

  -- The two ways to stay on are refused: a latched alarm sees the valve on and closes it.
  apply_rule-ne-on :
      (now delta : ℕ) (f : Fired) (a : App p)
      → Mirrored a
      → (apply_rule p now f delta a).state.alarm.active ≡ true
      → Valve.state (apply_rule p now f delta a).valve ≢ Valve.on
  unfolding apply_rule set_alarm
  apply_rule-ne-on now delta f a m h =
      let shown : is_on a.state.switches.water_control ≡ false → Valve.state a.valve ≢ Valve.on =
        λ e. shown-ne-on a.valve (ap is_on (sym m) ∙ e) in
      let elapsed = next_elapsed p delta a in
      let fired =
        fire-ne-on now f (unwrap_or a.state.sensors.flow_lph p.zero_f)
          (set_alarm p true elapsed a) in
      let closed = close-ne-on f.commanded_ms (set_alarm p a.state.alarm.active elapsed a) in
      ground (arith, shown, fired, closed)

  evaluate-ne-on :
      (now : ℕ) (f : Fired) (a : App p)
      → Mirrored a
      → (evaluate_flow_alarm p now f a).state.alarm.active ≡ true
      → Valve.state (evaluate_flow_alarm p now f a).valve ≢ Valve.on
  unfolding evaluate_flow_alarm set_alarm
  evaluate-ne-on now f a m h =
      let checked = record a { flow_alarm_last_check_ms = some now } in
      let ruled = apply_rule-ne-on now (delta_s a.flow_alarm_last_check_ms now) f checked m in
      ground (arith, ruled)

  -- In every state of the device, a tick after which the alarm is active leaves the valve closed or
  -- in a sequence, never open.
  pub tick-closes :
      (now : ℕ) (f : Fired) (a : App p)
      → let b = (tick p now f a).0 in b.state.alarm.active ≡ true → Valve.state b.valve ≢ Valve.on
  unfolding tick drive
  tick-closes now f a =
      let b = evaluate_flow_alarm p now f (drive p now a) in
      λ h e.
        evaluate-ne-on now f (drive p now a) refl
          (ap (λ s. s.alarm.active) (sym (persist-state b)) ∙ h)
          (ap Valve.state (sym (persist-valve b)) ∙ e)

  -- What happens while nobody clears the alarm or disables the rule.
  abbrev pub Keeps : Event p → Type 0
  Keeps (configured t cfg section) = cfg.flow_alarm.enabled ≡ true
  Keeps (cleared t) = ⊥
  Keeps _ = Unit

  abbrev Latched : App p → Type 0
  Latched a = (a.state.alarm.active ≡ true) × (a.config.flow_alarm.enabled ≡ true)

  of-core : (a b : App p) → core p a ≡ core p b → Latched b → Latched a
  of-core a b e h =
      (ap (λ c. c.alarm.active) e ∙ h.0, ap (λ c. c.config.flow_alarm.enabled) e ∙ h.1)

  Latched-drive :
      (now : ℕ) (a : App p)
      → Latched a
      → judged p now a ≡ record {
        active = true;
        elapsed_secs = next_elapsed p (delta_s a.flow_alarm_last_check_ms now) (drive p now a);
      }
  unfolding drive
  Latched-drive now a h = rw (h.0, h.1) refl

  step-Latched : (e : Event p) (a : App p) → Keeps e → Latched a → Latched (step p e a)
  unfolding step observe replace_config_section emit_event set_webhook_dispatcher
  step-Latched (ticked now f) a k h =
      let e = tick-core p now f a in
      let on : judged p now a ≡ record {
        active = true;
        elapsed_secs = next_elapsed p (delta_s a.flow_alarm_last_check_ms now) (drive p now a);
      } =
        Latched-drive now a h in
      (
        ap (λ c. c.alarm.active) e ∙ ap (λ x. x.active) on,
        ap (λ c. c.config.flow_alarm.enabled) e ∙ h.1,
      )
  step-Latched (commanded now c) a k h =
      of-core (switch_command p now c a).0 a (command-core p now c a) h
  step-Latched (scheduled now id d) a k h =
      of-core (fire_schedule_sprinkler p now id d a).0 a (schedule-core p now id d a) h
  step-Latched (observed s n d t) a k h = h
  step-Latched (configured t cfg section) a k h = (h.0, k)
  step-Latched (cleared t) a k h = absurd k
  step-Latched (dispatched_by d) a k h = h

  run-Latched : (es : List (Event p)) (a : App p) → All Keeps es → Latched a → Latched (run p es a)
  unfolding run
  run-Latched [] a k h = h
  run-Latched (e ∷ es) a (k, ks) h = run-Latched es (step p e a) ks (step-Latched e a k h)

  -- From a state with the alarm active and its rule enabled, through any calls that neither clear the
  -- alarm nor disable the rule (commands to open the valve, schedules, new configurations, readings
  -- and ticks among them), the alarm stays active and every tick leaves the valve closed or in a
  -- sequence.
  pub run-latched :
      (a : App p) (es : List (Event p)) (now : ℕ) (f : Fired)
      → (a.state.alarm.active ≡ true) × (a.config.flow_alarm.enabled ≡ true)
      → All Keeps es
      → let b = (tick p now f (run p es a)).0 in
        (b.state.alarm.active ≡ true) × (Valve.state b.valve ≢ Valve.on)
  unfolding step
  run-latched a es now f h k =
      let active = (step-Latched (ticked now f) (run p es a) tt (run-Latched es a k h)).0 in
      (active, tick-closes now f (run p es a) active)

  judged-fires :
      (now : ℕ) (a : App p)
      → a.config.flow_alarm.duration_secs ≢ 0
      → a.state.alarm.active ≡ false
      → (judged p now a).active ≡ true
      → (a.config.flow_alarm.enabled ≡ true)
        × (Switch.is_on (Switch.tick now a.sprinkler1).0 ≡ false)
        × (Switch.is_on (Switch.tick now a.sprinkler2).0 ≡ false)
        × (p.ge (unwrap_or a.state.sensors.flow_lph p.zero_f) a.config.flow_alarm.threshold_lph
            ≡ true)
        × (a.config.flow_alarm.duration_secs ≤ (judged p now a).elapsed_secs)
  unfolding drive next_elapsed
  judged-fires now a nz i h = ground arith

  -- A tick makes an alarm active that was not only if its rule is enabled, no sprinkler is on, the
  -- flow has reached the threshold and has lasted for the configured time by the count of the alarm,
  -- if that time is not zero.
  pub tick-fires :
      (now : ℕ) (f : Fired) (a : App p)
      → a.config.flow_alarm.duration_secs ≢ 0
      → a.state.alarm.active ≡ false
      → let (b, out) = tick p now f a in
        b.state.alarm.active ≡ true
        → (a.config.flow_alarm.enabled ≡ true)
          × (out.sprinkler_1 ≡ false)
          × (out.sprinkler_2 ≡ false)
          × (p.ge (unwrap_or a.state.sensors.flow_lph p.zero_f) a.config.flow_alarm.threshold_lph
              ≡ true)
          × (a.config.flow_alarm.duration_secs ≤ b.state.alarm.elapsed_secs)
  unfolding tick
  tick-fires now f a nz i h =
      let e = ap (λ c. c.alarm) (tick-core p now f a) in
      let fired : (judged p now a).active ≡ true = ap (λ x. x.active) (sym e) ∙ h in
      let due = judged-fires now a nz i fired in
      (due.0, due.1, due.2, due.3, ground (arith, due.4, ap (λ x. x.elapsed_secs) e))

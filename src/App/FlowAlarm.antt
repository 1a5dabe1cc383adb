-- ===== src/App/FlowAlarm.antt =====
-- app.rs: the rule of the flow alarm, `evaluate_flow_alarm` and `clear_flow_alarm`.
use watercontroller.Base.{
  ℕ, ◌-◌, ◌/◌, ◌%◌, ◌^◌, Bool, true, false, not, Option, none, some, ◌&&◌, ◌||◌, leb,
  saturating_add, max_zero, to_string, if◌then◌else◌,
}
use watercontroller.State.{WaterControlState}
use watercontroller.Webhook
use watercontroller.Webhook.{with_var}
use watercontroller.App.{App, water_control, record_alarm_event, emit_event, switch_command}
use watercontroller.App.Env.{Platform, Reading}

-- The readings of the clock for the history, for the event and for the command to close.
pub record Fired : Type 0 where
  pub recorded : Reading
  pub emitted : Reading
  pub commanded_ms : ℕ

-- Elapsed time since the evaluation before, in whole seconds: `((now_ms - t) / 1000) as u32`.
abbrev pub delta_s : Option ℕ → ℕ → ℕ
delta_s none now_ms = 0
delta_s (some t) now_ms = (now_ms - t) / 1000 % 2 ^ 32

abbrev pub is_on : WaterControlState → Bool
is_on WaterControlState.on = true
is_on _ = false

abbrev pub unwrap_or {ℓ} : {A : Type ℓ} → Option A → A → A
unwrap_or none d = d
unwrap_or (some x) d = x

module _ (p : Platform) where
  open p use {F32, zero_f, ge, fixed_1}

  -- The branch `if just_fired`, with the flow, the threshold and the duration.
  unfoldable pub fire_alarm : ℕ → Fired → F32 → App p → App p
  fire_alarm now_ms f flow a =
      let cfg = a.config.flow_alarm in
      let a1 =
        record_alarm_event p
          (record {
            epoch_secs = max_zero f.recorded.timestamp;
            uptime_ms = now_ms;
            flow_lph = flow;
            duration_secs = cfg.duration_secs;
          })
          a in
      let event = with_var "duration_secs" (to_string cfg.duration_secs) (
        with_var "threshold_lph" (fixed_1 cfg.threshold_lph)
          (with_var "flow_lph" (fixed_1 flow) (Webhook.new Webhook.flow_alarm_fire))) in
      (switch_command p f.commanded_ms (water_control false) (emit_event p f.emitted event a1)).0

  unfoldable pub set_alarm : Bool → ℕ → App p → App p
  set_alarm active elapsed_secs a = record a {
    state = record a.state { alarm = record { active = active; elapsed_secs = elapsed_secs } };
  }

  -- `s.alarm.elapsed_secs` after the update.
  unfoldable pub next_elapsed : ℕ → App p → ℕ
  next_elapsed delta a =
      if a.state.switches.sprinkler_1
        || a.state.switches.sprinkler_2
        || not (ge (unwrap_or a.state.sensors.flow_lph zero_f) a.config.flow_alarm.threshold_lph)
      then 0
      else saturating_add a.state.alarm.elapsed_secs delta

  -- The rule, where it is enabled.
  unfoldable pub apply_rule : ℕ → Fired → ℕ → App p → App p
  unfolding set_alarm
  apply_rule now_ms f delta a =
      let elapsed = next_elapsed delta a in
      let was_active = a.state.alarm.active in
      if not was_active && leb a.config.flow_alarm.duration_secs elapsed
      then fire_alarm now_ms f (unwrap_or a.state.sensors.flow_lph zero_f)
          (set_alarm true elapsed a)
      else if was_active && is_on a.state.switches.water_control
      then (switch_command p f.commanded_ms (water_control false)
          (set_alarm was_active elapsed a)).0
      else set_alarm was_active elapsed a

  unfoldable pub evaluate_flow_alarm : ℕ → Fired → App p → App p
  unfolding set_alarm
  evaluate_flow_alarm now_ms f a =
      let delta = delta_s a.flow_alarm_last_check_ms now_ms in
      let checked = record a { flow_alarm_last_check_ms = some now_ms } in
      if a.config.flow_alarm.enabled
      then apply_rule now_ms f delta checked
      else set_alarm false 0 checked

  unfoldable pub clear_flow_alarm : Reading → App p → App p
  unfolding set_alarm
  clear_flow_alarm t a =
      if a.state.alarm.active
      then emit_event p t (Webhook.new Webhook.flow_alarm_clear) (set_alarm false 0 a)
      else set_alarm false 0 a

-- ===== src/App/Alarm.antt =====
-- app.rs: what a tick and the other calls do to the alarm and to the configuration.
use watercontroller.Base.{
  ◌∙◌, ℕ, ◌≡◌, refl, Bool, true, false, Option, some, ◌||◌, arith, leb, String, if◌then◌else◌,
}
use watercontroller.State.{Sensors, FlowAlarm}
use watercontroller.Switch
use watercontroller.Switch.{TimedSwitch}
use watercontroller.Config.{Config}
use watercontroller.Webhook.{WebhookEvent}
use watercontroller.App.{
  App, SwitchCommand, switch_command, fire_schedule_sprinkler, emit_event, record_alarm_event,
  water_control,
}
use watercontroller.App.Env.{Platform, Reading}
use watercontroller.App.FlowAlarm.{
  Fired, delta_s, unwrap_or, fire_alarm, set_alarm, next_elapsed, apply_rule, evaluate_flow_alarm,
}
use watercontroller.App.Tick.{drive, persist_valve, tick}

module _ (p : Platform) where
  open p use {F32}

  -- The configuration, the snapshot and the time of the last check: what the rule reads.
  pub record Core : Type 0 where
    pub config : Config F32
    pub alarm : FlowAlarm
    pub last : Option ℕ

  abbrev pub core : App p → Core
  core a = record { config = a.config; alarm = a.state.alarm; last = a.flow_alarm_last_check_ms }

  fire-core :
      (now : ℕ) (f : Fired) (flow : F32) (a : App p) → core (fire_alarm p now f flow a) ≡ core a
  unfolding fire_alarm switch_command emit_event record_alarm_event
  fire-core now f flow a = ground arith

  pub persist-core : (a : App p) → core (persist_valve p a) ≡ core a
  unfolding persist_valve
  persist-core a = ground arith

  pub command-core :
      (now : ℕ) (c : SwitchCommand) (a : App p) → core (switch_command p now c a).0 ≡ core a
  unfolding switch_command
  command-core now c a = ground arith

  pub schedule-core :
      (now : ℕ) (id : String) (d : Option ℕ) (a : App p)
      → core (fire_schedule_sprinkler p now id d a).0 ≡ core a
  unfolding fire_schedule_sprinkler
  schedule-core now id d a = ground arith

  pub emit-state : (t : Reading) (e : WebhookEvent) (a : App p) → core (emit_event p t e a) ≡ core a
  unfolding emit_event
  emit-state t e a = refl

  -- The alarm after the rule.
  abbrev pub ruled : ℕ → App p → FlowAlarm
  ruled delta a =
      let elapsed = next_elapsed p delta a in
      record {
        active = a.state.alarm.active || leb a.config.flow_alarm.duration_secs elapsed;
        elapsed_secs = elapsed;
      }

  apply_rule-core :
      (now delta : ℕ) (f : Fired) (a : App p)
      → core (apply_rule p now f delta a) ≡ record (core a) { alarm = ruled delta a }
  unfolding apply_rule set_alarm
  apply_rule-core now delta f a =
      let elapsed = next_elapsed p delta a in
      let flow = unwrap_or a.state.sensors.flow_lph p.zero_f in
      ground (
        arith,
        fire-core now f flow (set_alarm p true elapsed a),
        command-core f.commanded_ms (water_control false)
            (set_alarm p a.state.alarm.active elapsed a),
      )

  -- The alarm after a tick at `now`.
  abbrev pub judged : ℕ → App p → FlowAlarm
  judged now a =
      if a.config.flow_alarm.enabled
      then ruled (delta_s a.flow_alarm_last_check_ms now) (drive p now a)
      else record { active = false; elapsed_secs = 0 }

  pub tick-core :
      (now : ℕ) (f : Fired) (a : App p)
      → core (tick p now f a).0
        ≡ record { config = a.config; alarm = judged now a; last = some now }
  unfolding tick drive evaluate_flow_alarm set_alarm next_elapsed
  tick-core now f a =
      let d = drive p now a in
      let checked = record d { flow_alarm_last_check_ms = some now } in
      let kept = persist-core (evaluate_flow_alarm p now f d) in
      let rule = apply_rule-core now (delta_s a.flow_alarm_last_check_ms now) f checked in
      kept ∙ ground (arith, rule)

  -- What the rule reads beside the alarm.
  pub record Inputs : Type 0 where
    pub sprinkler1 : TimedSwitch
    pub sprinkler2 : TimedSwitch
    pub sensors : Sensors F32

  abbrev pub inputs : App p → Inputs
  inputs a = record {
    sprinkler1 = a.sprinkler1;
    sprinkler2 = a.sprinkler2;
    sensors = a.state.sensors;
  }

  fire-inputs :
      (now : ℕ) (f : Fired) (flow : F32) (a : App p) → inputs (fire_alarm p now f flow a) ≡ inputs a
  unfolding fire_alarm switch_command emit_event record_alarm_event
  fire-inputs now f flow a = ground arith

  close-inputs :
      (now : ℕ) (on : Bool) (a : App p)
      → inputs (switch_command p now (water_control on) a).0 ≡ inputs a
  unfolding switch_command
  close-inputs now on a = ground arith

  apply_rule-inputs :
      (now delta : ℕ) (f : Fired) (a : App p) → inputs (apply_rule p now f delta a) ≡ inputs a
  unfolding apply_rule set_alarm
  apply_rule-inputs now delta f a =
      let elapsed = next_elapsed p delta a in
      let flow = unwrap_or a.state.sensors.flow_lph p.zero_f in
      ground (
        arith,
        fire-inputs now f flow (set_alarm p true elapsed a),
        close-inputs f.commanded_ms false (set_alarm p a.state.alarm.active elapsed a),
      )

  persist-inputs : (a : App p) → inputs (persist_valve p a) ≡ inputs a
  unfolding persist_valve
  persist-inputs a = ground arith

  pub tick-inputs :
      (now : ℕ) (f : Fired) (a : App p)
      → inputs (tick p now f a).0 ≡ record {
        sprinkler1 = (Switch.tick now a.sprinkler1).0;
        sprinkler2 = (Switch.tick now a.sprinkler2).0;
        sensors = a.state.sensors;
      }
  unfolding tick drive evaluate_flow_alarm set_alarm
  tick-inputs now f a =
      let d = drive p now a in
      let checked = record d { flow_alarm_last_check_ms = some now } in
      let kept = persist-inputs (evaluate_flow_alarm p now f d) in
      let rule = apply_rule-inputs now (delta_s a.flow_alarm_last_check_ms now) f checked in
      kept ∙ ground (arith, rule)

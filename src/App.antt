-- ===== src/App.antt =====
-- crates/core/src/app.rs: the device as a whole. A method returns the new state beside its result.
-- Every reading of the clock that a method makes is an argument of it.
pub mod Env
pub mod FlowAlarm
pub mod Tick
pub mod Events
pub mod Run
pub mod ScheduleTask
pub mod Alarm
pub mod History
pub mod Latch
pub mod Timing
pub mod Sustained
pub mod Persist
pub mod Bench
mod Tests
use Prim.Native.Nat.{min}
use watercontroller.Base.{
  last_of, push_ring, ℕ, ◌+◌, ◌-◌, ◌*◌, ◌/◌, ◌%◌, ◌^◌, String, Bool, true, false, not, Option, none,
  some, List, [], ◌∷◌, ◌++◌, ◌&&◌, ◌||◌, ◌==◌, leb, length, drop, bool_eq, saturating_add, max_zero,
  to_string, str_eq, if◌then◌else◌,
}
use watercontroller.Switch
use watercontroller.Switch.{TimedSwitch, Duration, from_secs}
use watercontroller.Valve
use watercontroller.Valve.{WaterValve, ValveOutputs}
use watercontroller.State.{
  DeviceSnapshot, WaterControlState, AlarmEvent, default_snapshot, from_water_state,
}
use watercontroller.State
use watercontroller.Webhook
use watercontroller.Webhook.{WebhookEvent, VarMap, insert_if_vacant, with_var}
use watercontroller.Webhook.Dispatch.{Dispatcher, noop, dispatch}
use watercontroller.Config.{Config}
use watercontroller.Nvs.{Bytes}
use Env.{Platform, Reading}

abbrev pub alarm_history_cap : ℕ
alarm_history_cap = 16

abbrev pub nvs_alarm_history : String
nvs_alarm_history = "wc.almhist"

abbrev pub nvs_valve_state : String
nvs_valve_state = "wc.valve"

-- `SwitchCommand` and `CommandOutcome` of crates/core/src/api.rs.
pub data SwitchCommand : Type 0 where
  sprinkler_1 sprinkler_2 water_control : (on : Bool) → SwitchCommand

pub data CommandOutcome : Type 0 where
  ok : CommandOutcome
  busy : (reason : String) → CommandOutcome

pub record TickOutputs : Type 0 where
  pub sprinkler_1 : Bool
  pub sprinkler_2 : Bool
  pub valve : ValveOutputs

module _ (p : Platform) where
  open p use {F32, zero_f, ge, fixed_1, nvs, history}

  -- `AppInner`. The clock is not here, and each lock is one field.
  pub record App : Type 0 where
    pub state : DeviceSnapshot F32
    pub config : Config F32
    pub valve : WaterValve
    pub sprinkler1 : TimedSwitch
    pub sprinkler2 : TimedSwitch
    pub store : Option nvs.Store
    pub last_persisted_valve : Option Bool
    pub flow_alarm_last_check_ms : Option ℕ
    pub alarm_history : List (AlarmEvent F32)
    pub webhooks : Dispatcher

  abbrev pub auto_off_or_none : ℕ → Option Duration
  auto_off_or_none secs = if secs == 0 then none else some (from_secs secs)

  -- `nvs.as_ref().and_then(|n| n.get(key))`.
  abbrev pub read_nvs : Option nvs.Store → String → Option Bytes
  read_nvs none key = none
  read_nvs (some s) key = nvs.get s key

  -- `b.first().copied().map(|x| x != 0)`.
  abbrev pub first_bit : Option Bytes → Option Bool
  first_bit (some (x ∷ bytes)) = some (not (x == 0))
  first_bit _ = none

  parse_history : Option (List (AlarmEvent F32)) → List (AlarmEvent F32)
  parse_history none = []
  parse_history (some v) = last_of alarm_history_cap v

  read_history : Option Bytes → List (AlarmEvent F32)
  unfolding parse_history
  read_history none = []
  read_history (some b) = parse_history (history.from_slice b)

  restore_valve : Option Bool → WaterValve → WaterValve
  restore_valve none v = v
  restore_valve (some on) v = Valve.restore on v

  unfoldable pub with_nvs : Config F32 → Option nvs.Store → App
  unfolding restore_valve read_history
  with_nvs config store =
      let restored_state = first_bit (read_nvs store nvs_valve_state) in
      record {
        state = default_snapshot;
        config = config;
        valve = restore_valve restored_state (Valve.with_timing config.switches.valve_timing);
        sprinkler1 = Switch.new (auto_off_or_none config.switches.sprinkler_1_auto_off_secs);
        sprinkler2 = Switch.new (auto_off_or_none config.switches.sprinkler_2_auto_off_secs);
        store = store;
        last_persisted_valve = restored_state;
        flow_alarm_last_check_ms = none;
        alarm_history = read_history (read_nvs store nvs_alarm_history);
        webhooks = noop;
      }

  unfoldable pub set_webhook_dispatcher : Dispatcher → App → App
  set_webhook_dispatcher d a = record a { webhooks = d }

  -- The standard variables, each put in if it is not there.
  unfoldable pub standard_vars : Config F32 → Reading → WebhookEvent → WebhookEvent
  standard_vars cfg t ev =
      let v1 = insert_if_vacant "event" (Webhook.as_str ev.kind) ev.vars in
      let v2 = insert_if_vacant "event_label" (Webhook.label ev.kind) v1 in
      let v3 = insert_if_vacant "iso_ts" t.rfc3339 v2 in
      let v4 = insert_if_vacant "device" cfg.wifi.hostname v3 in
      record ev { vars = insert_if_vacant "uptime_s" (to_string (t.monotonic_ms / 1000)) v4 }

  unfoldable pub emit_event : Reading → WebhookEvent → App → App
  emit_event t ev a = record a { webhooks = dispatch (standard_vars a.config t ev) a.webhooks }

  -- The bounded ring: the oldest event makes room if there are 16.
  unfoldable pub push_alarm : AlarmEvent F32 → List (AlarmEvent F32) → List (AlarmEvent F32)
  push_alarm ev h = push_ring alarm_history_cap ev h

  write_history : Option Bytes → nvs.Store → nvs.Store
  write_history none s = s
  write_history (some bytes) s = (nvs.set s nvs_alarm_history bytes).1

  persist_history : List (AlarmEvent F32) → Option nvs.Store → Option nvs.Store
  unfolding write_history
  persist_history h none = none
  persist_history h (some s) = some (write_history (history.to_vec h) s)

  unfoldable pub record_alarm_event : AlarmEvent F32 → App → App
  unfolding persist_history push_alarm
  record_alarm_event ev a =
      let h = push_alarm ev a.alarm_history in
      record a { store = persist_history h a.store; alarm_history = h }

  -- `replace_config_section`, and `replace_config` at the section "all".
  unfoldable pub replace_config_section : Reading → Config F32 → String → App → App
  replace_config_section t cfg section a =
      emit_event t (with_var "section" section (Webhook.new Webhook.config_changed)) (record a {
        sprinkler1 =
            Switch.set_auto_off (auto_off_or_none cfg.switches.sprinkler_1_auto_off_secs)
              a.sprinkler1;
        sprinkler2 =
            Switch.set_auto_off (auto_off_or_none cfg.switches.sprinkler_2_auto_off_secs)
              a.sprinkler2;
        valve = Valve.set_timing cfg.switches.valve_timing a.valve;
        config = cfg;
      })

  -- `match duration_secs { Some(d) => s.turn_on_for(…), None => s.turn_on(…) }`.
  scheduled_on : ℕ → Option ℕ → TimedSwitch → TimedSwitch
  scheduled_on now none s = Switch.turn_on now s
  scheduled_on now (some d) s = Switch.turn_on_for now (from_secs d) s

  unfoldable pub fire_schedule_sprinkler : ℕ → String → Option ℕ → App → App × Bool
  unfolding scheduled_on
  fire_schedule_sprinkler now id duration_secs a =
      if str_eq id "sprinkler_1"
      then (record a { sprinkler1 = scheduled_on now duration_secs a.sprinkler1 }, true)
      else if str_eq id "sprinkler_2"
      then (record a { sprinkler2 = scheduled_on now duration_secs a.sprinkler2 }, true)
      else (a, false)

  abbrev switched : Bool → ℕ → TimedSwitch → TimedSwitch
  switched on now s = if on then Switch.turn_on now s else Switch.turn_off now s

  unfoldable pub switch_command : ℕ → SwitchCommand → App → App × CommandOutcome
  switch_command now (sprinkler_1 on) a =
      (record a { sprinkler1 = switched on now a.sprinkler1 }, ok)
  switch_command now (sprinkler_2 on) a =
      (record a { sprinkler2 = switched on now a.sprinkler2 }, ok)
  switch_command now (water_control on) a =
      if Valve.is_busy a.valve then (a, busy "valve sequence in progress") else (
        record a { valve = if on then Valve.turn_on now a.valve else Valve.turn_off now a.valve },
        ok,
      )

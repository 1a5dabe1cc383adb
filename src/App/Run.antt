-- ===== src/App/Run.antt =====
-- app.rs: the calls of `App` that the tasks of the firmware make, one after the other.
use watercontroller.Base.{ℕ, String, Option, List, [], ◌∷◌}
use watercontroller.State.{Sensors, Network, Diagnostics}
use watercontroller.Config.{Config}
use watercontroller.Webhook.Dispatch.{Dispatcher}
use watercontroller.App.{
  App, SwitchCommand, switch_command, fire_schedule_sprinkler, replace_config_section,
  set_webhook_dispatcher,
}
use watercontroller.App.Env.{Platform, Reading}
use watercontroller.App.FlowAlarm.{Fired, clear_flow_alarm}
use watercontroller.App.Tick.{tick}

module _ (p : Platform) where
  open p use {F32}

  -- `observed` is what the tasks hand to `update_state`: the sensors, the network, the diagnostics and
  -- the uptime.
  pub data Event : Type 0 where
    ticked : (now_ms : ℕ) (f : Fired) → Event
    commanded : (now_ms : ℕ) (cmd : SwitchCommand) → Event
    scheduled : (now_ms : ℕ) (id : String) (duration_secs : Option ℕ) → Event
    observed : Sensors F32 → Network → Diagnostics → (uptime_ms : ℕ) → Event
    configured : Reading → Config F32 → (section : String) → Event
    cleared : Reading → Event
    dispatched_by : Dispatcher → Event

  unfoldable pub observe : Sensors F32 → Network → Diagnostics → ℕ → App p → App p
  observe sensors network diagnostics uptime_ms a = record a {
    state = record a.state {
      sensors = sensors;
      network = network;
      diagnostics = diagnostics;
      uptime_ms = uptime_ms;
    };
  }

  unfoldable pub step : Event → App p → App p
  step (ticked now f) a = (tick p now f a).0
  step (commanded now cmd) a = (switch_command p now cmd a).0
  step (scheduled now id d) a = (fire_schedule_sprinkler p now id d a).0
  step (observed s n d t) a = observe s n d t a
  step (configured t cfg section) a = replace_config_section p t cfg section a
  step (cleared t) a = clear_flow_alarm p t a
  step (dispatched_by d) a = set_webhook_dispatcher p d a

  unfoldable pub run : List Event → App p → App p
  run [] a = a
  run (e ∷ es) a = run es (step e a)

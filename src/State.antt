-- ===== src/State.antt =====
-- crates/core/src/state.rs: the device state that the other parts read, with `F` for `f32`, and
-- `WifiState` of crates/core/src/traits.rs.
use watercontroller.Base.{ℕ, ℤ, String, Bool, false, Option, none}
use watercontroller.Valve
use watercontroller.Valve.{WaterState}

pub record Sensors (F : Type 0) : Type 0 where
  pub battery_v : Option F
  pub pressure_bar : Option F
  pub flow_lph : Option F
  pub total_l : Option F
  pub loop_time_ms : Option ℕ

pub data WaterControlState : Type 0 where
  off on transitioning : WaterControlState

-- `WaterControlState::from`.
unfoldable pub from_water_state : WaterState → WaterControlState
from_water_state Valve.off = WaterControlState.off
from_water_state Valve.on = WaterControlState.on
from_water_state _ = transitioning

pub record Switches : Type 0 where
  pub sprinkler_1 : Bool
  pub sprinkler_2 : Bool
  pub water_control : WaterControlState

pub data WifiState : Type 0 where
  disconnected : WifiState
  connecting : (ssid : String) → WifiState
  connected : (ssid ip : String) → WifiState
  ap_mode : (ssid ip : String) → WifiState

pub record Network : Type 0 where
  pub wifi : Option WifiState
  pub mqtt_connected : Bool
  pub wifi_rssi_dbm : Option ℤ

pub record Diagnostics : Type 0 where
  pub free_heap_bytes : Option ℕ
  pub min_free_heap_bytes : Option ℕ
  pub reset_reason : Option String

pub record FlowAlarm : Type 0 where
  pub active : Bool
  pub elapsed_secs : ℕ

pub record AlarmEvent (F : Type 0) : Type 0 where
  pub epoch_secs : ℕ
  pub uptime_ms : ℕ
  pub flow_lph : F
  pub duration_secs : ℕ

pub record DeviceSnapshot (F : Type 0) : Type 0 where
  pub sensors : Sensors F
  pub switches : Switches
  pub network : Network
  pub diagnostics : Diagnostics
  pub alarm : FlowAlarm
  pub uptime_ms : ℕ
  pub firmware_version : String

-- `DeviceSnapshot::default()`, by which `DeviceState::new` starts.
abbrev pub default_snapshot : {F : Type 0} → DeviceSnapshot F
default_snapshot = record {
  sensors = record {
    battery_v = none;
    pressure_bar = none;
    flow_lph = none;
    total_l = none;
    loop_time_ms = none;
  };
  switches = record {
    sprinkler_1 = false;
    sprinkler_2 = false;
    water_control = WaterControlState.off;
  };
  network = record { wifi = none; mqtt_connected = false; wifi_rssi_dbm = none };
  diagnostics = record { free_heap_bytes = none; min_free_heap_bytes = none; reset_reason = none };
  alarm = record { active = false; elapsed_secs = 0 };
  uptime_ms = 0;
  firmware_version = "";
}

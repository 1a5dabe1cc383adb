-- ===== src/Mqtt.antt =====
-- crates/core/src/mqtt_dispatch.rs: the connection to the broker. The client is the one of
-- crates/host/src/fakes.rs, which keeps what is published and subscribed.
pub mod Discovery
pub mod Entities
pub mod Routing
pub mod Announced
pub mod Connect
mod Tests
use watercontroller.Base.{
  ℕ, ℤ, ◌/◌, String, Bool, true, false, Option, none, some, List, [], ◌∷◌, ascii, ◌++◌, ◌||◌, ◌&&◌,
  ◌==◌, ◌<>◌, map, strip_prefix, split_once, str_eq, to_string, if◌then◌else◌,
}
use watercontroller.Nvs.{Bytes}
use watercontroller.State.{DeviceSnapshot, WaterControlState}
use watercontroller.Config.{Config}
use watercontroller.App.{
  App, SwitchCommand, sprinkler_1, sprinkler_2, water_control, switch_command,
}
use watercontroller.App.Env.{Platform}
use Discovery.{
  DeviceContext, DiscoveryMsg, Payload, availability_topic, sensor_state_topic, switch_state_topic,
  switch_command_topic,
}
use Entities.{all_messages}

-- Equality of byte strings.
unfoldable pub bytes_eq : Bytes → Bytes → Bool
bytes_eq [] [] = true
bytes_eq (x ∷ xs) (y ∷ ys) = let rest = bytes_eq xs ys in x == y && rest
bytes_eq _ _ = false

unfoldable pub parse_switch : Bytes → Option Bool
parse_switch payload =
    if bytes_eq payload (ascii "ON")
      || bytes_eq payload (ascii "on")
      || bytes_eq payload (ascii "1")
      || bytes_eq payload (ascii "true")
    then some true
    else if bytes_eq payload (ascii "OFF")
        || bytes_eq payload (ascii "off")
        || bytes_eq payload (ascii "0")
        || bytes_eq payload (ascii "false")
    then some false
    else none

-- The `match key`.
unfoldable pub keyed : String → Bool → Option SwitchCommand
keyed key on =
    if str_eq key "sprinkler_1"
    then some (sprinkler_1 on)
    else if str_eq key "sprinkler_2"
    then some (sprinkler_2 on)
    else if str_eq key "water_control"
    then some (water_control on)
    else none

commanded : String → Option Bool → Option SwitchCommand
commanded key none = none
commanded key (some on) = keyed key on

suffixed : Bytes → Option (String × String) → Option SwitchCommand
unfolding commanded
suffixed payload none = none
suffixed payload (some (key, suffix)) =
    if str_eq suffix "set" then commanded key (parse_switch payload) else none

-- '/' has the code 47.
prefixed : Bytes → Option String → Option SwitchCommand
unfolding suffixed
prefixed payload none = none
prefixed payload (some rest) = suffixed payload (split_once 47 rest)

unfoldable pub parse_command : String → String → Bytes → Option SwitchCommand
unfolding prefixed
parse_command base_topic topic payload = prefixed payload (strip_prefix (base_topic <> "/") topic)

-- What `format!` makes of the numbers that are published, with `fixed_n` for `{v:.n}`.
pub record Printer (F : Type 0) : Type 0 where
  pub fixed_1 : F → String
  pub fixed_2 : F → String
  pub fixed_3 : F → String
  pub signed : ℤ → String

pub record PublishOpts : Type 0 where
  pub retained : Bool
  pub qos : ℕ

-- The bytes of a message, before they are encoded.
pub data Body : Type 0 where
  text : String → Body
  json : Payload → Body

pub record Publish : Type 0 where
  pub topic : String
  pub payload : Body
  pub opts : PublishOpts

-- `FakeMqtt`. The handler that `on_connect` installs is known by the base topic that it has taken.
pub record Client : Type 0 where
  pub published : List Publish
  pub subscriptions : List String
  pub handler : Option String

abbrev pub retained : PublishOpts
retained = record { retained = true; qos = 1 }

unfoldable pub publish : String → Body → Client → Client
publish topic payload m = record m {
  published = m.published ++ record { topic = topic; payload = payload; opts = retained } ∷ [];
}

unfoldable pub subscribe : String → Client → Client
subscribe topic m = record m { subscriptions = m.subscriptions ++ topic ∷ [] }

unfoldable pub publish_all : List DiscoveryMsg → Client → Client
publish_all [] m = m
publish_all (msg ∷ msgs) m = publish_all msgs (publish msg.topic (json msg.payload) m)

abbrev pub context : {F : Type 0} → Config F → String → DeviceContext
context cfg firmware_version = record {
  base_topic = cfg.mqtt.base_topic;
  discovery_prefix = cfg.mqtt.ha_discovery_prefix;
  device_id = cfg.wifi.hostname;
  friendly_name = "Doremorwater";
  sw_version = firmware_version;
  manufacturer = "homebrew";
  model = "watercontroller";
}

unfoldable pub on_connect : {F : Type 0} → Config F → String → Client → Client
on_connect cfg firmware_version m =
    let ctx = context cfg firmware_version in
    let m1 = publish_all (all_messages ctx) m in
    let m2 = publish (cfg.mqtt.base_topic <> "/status") (text "online") m1 in
    let m3 = subscribe (switch_command_topic ctx "sprinkler_1") m2 in
    let m4 = subscribe (switch_command_topic ctx "sprinkler_2") m3 in
    let m5 = subscribe (switch_command_topic ctx "water_control") m4 in
    record m5 { handler = some cfg.mqtt.base_topic }

unfoldable pub publish_offline : {F : Type 0} → Config F → Client → Client
publish_offline cfg m = publish (cfg.mqtt.base_topic <> "/status") (text "offline") m

-- `if let Some(v) = … { publish(…) }`.
publish_some : {A : Type 0} → DeviceContext → String → (A → String) → Option A → Client → Client
publish_some ctx key print none m = m
publish_some ctx key print (some v) m = publish (sensor_state_topic ctx key) (text (print v)) m

abbrev pub on_off : Bool → Body
on_off on = if on then text "ON" else text "OFF"

abbrev pub shows_on : WaterControlState → Bool
shows_on WaterControlState.off = false
shows_on _ = true

-- `ctx` is `self.context(&cfg)`.
unfoldable pub publish_state :
    {F : Type 0} → Printer F → DeviceContext → DeviceSnapshot F → Client → Client
unfolding publish_some
publish_state pr ctx snap m =
    let m1 = publish_some ctx "battery" pr.fixed_2 snap.sensors.battery_v m in
    let m2 = publish_some ctx "pressure" pr.fixed_2 snap.sensors.pressure_bar m1 in
    let m3 = publish_some ctx "water_flow" pr.fixed_1 snap.sensors.flow_lph m2 in
    let m4 = publish_some ctx "water_total" pr.fixed_3 snap.sensors.total_l m3 in
    let m5 = publish_some ctx "wifi_rssi" pr.signed snap.network.wifi_rssi_dbm m4 in
    let m6 = publish_some ctx "free_heap" to_string snap.diagnostics.free_heap_bytes m5 in
    let m7 =
      publish (sensor_state_topic ctx "uptime") (text (to_string (snap.uptime_ms / 1000))) m6 in
    let m8 = publish_some ctx "reset_reason" (λ r. r) snap.diagnostics.reset_reason m7 in
    let m9 = publish (switch_state_topic ctx "sprinkler_1") (on_off snap.switches.sprinkler_1) m8 in
    let m10 =
      publish (switch_state_topic ctx "sprinkler_2") (on_off snap.switches.sprinkler_2) m9 in
    let m11 =
      publish (switch_state_topic ctx "water_control")
        (on_off (shows_on snap.switches.water_control)) m10 in
    publish (sensor_state_topic ctx "flow_alarm") (on_off snap.alarm.active) m11

module _ (p : Platform) where
  obeyed : ℕ → Option SwitchCommand → App p → App p
  obeyed now none a = a
  obeyed now (some cmd) a = (switch_command p now cmd a).0

  -- A message that arrives: the handler, if one is installed, at the time `now`.
  unfoldable pub inject : ℕ → Client → String → Bytes → App p → App p
  unfolding obeyed
  inject now m topic payload a = elim m.handler [
    | none ↦ a
    | some base_topic ↦ obeyed now (parse_command base_topic topic payload) a
  ]

-- ===== src/Broker.antt =====
-- crates/firmware-nostd/src/mqtt.rs: the session with the broker. The client is rust-mqtt, of which each
-- call succeeds or fails; what it has sent is kept as the one of Mqtt.antt keeps it. A count of seconds
-- has fewer than 16 digits in the life of a device, so the text of the uptime is never cut.
pub mod Same
mod Tests
use watercontroller.Base.{
  ℕ, ◌+◌, ◌/◌, String, Bool, true, false, Option, none, some, List, [], ◌∷◌, ◌<>◌, to_string,
  if◌then◌else◌,
}
use watercontroller.Nvs.{Bytes}
use watercontroller.State.{DeviceSnapshot, WaterControlState}
use watercontroller.Config.{Config}
use watercontroller.App.{App, SwitchCommand, switch_command}
use watercontroller.App.Env.{Platform}
use watercontroller.App.Run as Calls
use watercontroller.Mqtt as Core
use watercontroller.Mqtt.{Client, Body, text, json, context, parse_command}
use watercontroller.Mqtt.Discovery.{
  DeviceContext, DiscoveryMsg, sensor_state_topic, switch_state_topic, switch_command_topic,
}
use watercontroller.Mqtt.Entities.{all_messages}

-- The client, with the number of calls so far.
pub record Link : Type 0 where
  pub client : Client
  pub calls : ℕ

-- `Ok(())`, or an error, which ends the session.
pub data Outcome : Type 0 where
  ok : Link → Outcome
  ended : Link → Outcome

abbrev pub fw_version : String
fw_version = "wc-nostd"

-- The closure `sw`.
abbrev pub on_off : Bool → Body
on_off on = if on then text "ON" else text "OFF"

abbrev pub is_on : WaterControlState → Bool
is_on WaterControlState.on = true
is_on WaterControlState.transitioning = true
is_on WaterControlState.off = false

-- `ok n` says whether the call of number `n` succeeds.
module _ (answers : ℕ → Bool) where
  abbrev pub counted : Client → Link → Link
  counted m l = record { client = m; calls = l.calls + 1 }

  -- `client.send_message(topic, payload, QoS1, true).await?`, and what follows it.
  abbrev pub send_message : String → Body → Link → (Link → Outcome) → Outcome
  send_message topic payload l next = elim (answers l.calls) [
    | true ↦ next (counted (Core.publish topic payload l.client) l)
    | false ↦ ended (counted l.client l)
  ]

  -- `client.subscribe_to_topic(topic).await?`.
  abbrev pub subscribe_to_topic : String → Link → (Link → Outcome) → Outcome
  subscribe_to_topic topic l next = elim (answers l.calls) [
    | true ↦ next (counted (Core.subscribe topic l.client) l)
    | false ↦ ended (counted l.client l)
  ]

  unfoldable pub send_all : List DiscoveryMsg → Link → (Link → Outcome) → Outcome
  send_all [] l next = next l
  send_all (msg ∷ msgs) l next =
      send_message msg.topic (json msg.payload) l (λ l'. send_all msgs l' next)

  unfoldable pub subscribe_keys : DeviceContext → List String → Link → Outcome
  subscribe_keys ctx [] l = ok l
  subscribe_keys ctx (key ∷ keys) l =
      subscribe_to_topic (switch_command_topic ctx key) l (λ l'. subscribe_keys ctx keys l')

  -- `run_session` from the connection to the loop.
  unfoldable pub on_connected : {F : Type 0} → Config F → Link → Outcome
  unfolding send_all subscribe_keys
  on_connected cfg l =
      let ctx = context cfg fw_version in
      send_all (all_messages ctx) l (λ l1.
        send_message (cfg.mqtt.base_topic <> "/status") (text "online") l1
          (λ l2. subscribe_keys ctx ("sprinkler_1" ∷ "sprinkler_2" ∷ "water_control" ∷ []) l2))

  unfoldable pub publish_state : {F : Type 0} → DeviceContext → DeviceSnapshot F → Link → Outcome
  publish_state ctx snap l =
      let sw =
        λ (key : String) (on : Bool). send_message (switch_state_topic ctx key) (on_off on) in
      send_message (sensor_state_topic ctx "uptime") (text (to_string (snap.uptime_ms / 1000))) l
        (λ l1. sw "sprinkler_1" snap.switches.sprinkler_1 l1 (λ l2.
          sw "sprinkler_2" snap.switches.sprinkler_2 l2 (λ l3.
            sw "water_control" (is_on snap.switches.water_control) l3 (λ l4.
              send_message (sensor_state_topic ctx "flow_alarm") (on_off snap.alarm.active) l4
                ok))))

  module _ (p : Platform) where
    -- What ends a wait of the loop: the timer, a message at a time `now`, or an error of the client; and
    -- between the waits the calls of other tasks.
    pub data Event : Type 0 where
      timer broken : Event
      message : (now : ℕ) (topic : String) (payload : Bytes) → Event
      other : Calls.Event p → Event

    -- `up` is `MQTT_UP`.
    pub record Session : Type 0 where
      pub app : App p
      pub link : Link
      pub up : Bool

    abbrev pub obey : ℕ → Option SwitchCommand → App p → App p
    obey now none a = a
    obey now (some cmd) a = (switch_command p now cmd a).0

    -- An error leaves `run_session`, and `mqtt_task` clears the flag.
    abbrev pub settled : App p → Outcome → Session
    settled a (ok l) = record { app = a; link = l; up = true }
    settled a (ended l) = record { app = a; link = l; up = false }

    -- One turn of the loop, with the configuration of the start of the session; a session that has ended
    -- takes no more messages.
    unfoldable pub turn : Config p.F32 → Event → Session → Session
    unfolding publish_state
    turn cfg (other e) s = record s { app = Calls.step p e s.app }
    turn cfg timer s =
        if s.up
        then settled s.app (publish_state (context cfg fw_version) s.app.state s.link)
        else s
    turn cfg broken s = record s { up = false }
    turn cfg (message now topic payload) s =
        if s.up
        then record s { app = obey now (parse_command cfg.mqtt.base_topic topic payload) s.app }
        else s

    unfoldable pub serve : Config p.F32 → List Event → Session → Session
    unfolding turn
    serve cfg [] s = s
    serve cfg (e ∷ es) s = serve cfg es (turn cfg e s)

    -- `run_session` after `connect_to_broker`, and what comes after it.
    unfoldable pub run_session : List Event → App p → Link → Session
    unfolding on_connected serve
    run_session es a l = serve a.config es (settled a (on_connected a.config l))

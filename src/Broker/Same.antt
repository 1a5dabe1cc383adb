-- ===== src/Broker/Same.antt =====
-- A session of crates/firmware-nostd/src/mqtt.rs beside the integration of
-- crates/core/src/mqtt_dispatch.rs.
use watercontroller.Base.{
  sym, ℕ, ◌+◌, ◌/◌, ◌<>◌, to_string, ◌≡◌, refl, ap, ◌∙◌, String, Bool, true, false, none, some,
  Option, List, [], ◌∷◌, All, arith, Option-cases, inl, inr,
}
use watercontroller.Nvs.{Bytes}
use watercontroller.State.{DeviceSnapshot, WaterControlState}
use watercontroller.Config.{Config}
use watercontroller.App.{
  App, SwitchCommand, replace_config_section, emit_event, set_webhook_dispatcher,
}
use watercontroller.App.Env.{Platform, Reading}
use watercontroller.App.FlowAlarm.{clear_flow_alarm}
use watercontroller.App.Alarm.{command-core, schedule-core, tick-core}
use watercontroller.App.Run as Calls
use watercontroller.Mqtt as Core
use watercontroller.Mqtt.{Client, Printer, Body, context, parse_command, shows_on}
use watercontroller.Mqtt.Discovery.{
  DeviceContext, DiscoveryMsg, sensor_state_topic, switch_state_topic, switch_command_topic,
}
use watercontroller.Mqtt.Entities.{all_messages}
use watercontroller.Broker.{
  Link, Outcome, ok, ended, counted, on_off, fw_version, is_on, send_message, subscribe_to_topic,
  send_all, subscribe_keys, on_connected, publish_state, Event, timer, broken, message, other,
  Session, obey, turn, serve, run_session,
}

-- The values that this firmware does not publish left out.
abbrev pub bare : {F : Type 0} → DeviceSnapshot F → DeviceSnapshot F
bare s = record s {
  sensors = record {
    battery_v = none;
    pressure_bar = none;
    flow_lph = none;
    total_l = none;
    loop_time_ms = none;
  };
  network = record s.network { wifi_rssi_dbm = none };
  diagnostics = record s.diagnostics { free_heap_bytes = none; reset_reason = none };
}

-- The client once the handler of the core's integration is installed.
abbrev pub installed : String → Client → Client
installed base_topic m = record m { handler = some base_topic }

is_on-shows_on : (w : WaterControlState) → is_on w ≡ shows_on w
is_on-shows_on WaterControlState.off = refl
is_on-shows_on WaterControlState.on = refl
is_on-shows_on WaterControlState.transitioning = refl

abbrev subscribe_all : DeviceContext → List String → Client → Client
subscribe_all ctx [] m = m
subscribe_all ctx (key ∷ keys) m =
    subscribe_all ctx keys (Core.subscribe (switch_command_topic ctx key) m)

module _ (answers : ℕ → Bool) (up : (n : ℕ) → answers n ≡ true) where
  send_message-ok :
      (topic : String) (payload : Body) (l : Link) (next : Link → Outcome)
      → send_message answers topic payload l next
        ≡ next (counted answers (Core.publish topic payload l.client) l)
  send_message-ok topic payload l next =
      ap
        (λ (b : Bool). elim b [
          | true ↦ next (counted answers (Core.publish topic payload l.client) l)
          | false ↦ ended (counted answers l.client l)
        ])
        (up l.calls)

  subscribe_to_topic-ok :
      (topic : String) (l : Link) (next : Link → Outcome)
      → subscribe_to_topic answers topic l next
        ≡ next (counted answers (Core.subscribe topic l.client) l)
  subscribe_to_topic-ok topic l next =
      ap
        (λ (b : Bool). elim b [
          | true ↦ next (counted answers (Core.subscribe topic l.client) l)
          | false ↦ ended (counted answers l.client l)
        ])
        (up l.calls)

  send_all-ok :
      (msgs : List DiscoveryMsg) (l : Link) (next : Link → Outcome)
      → (k : ℕ) × (send_all answers msgs l next
          ≡ next (record { client = Core.publish_all msgs l.client; calls = k }))
  unfolding send_all Core.publish_all
  send_all-ok [] l next = (l.calls, refl)
  send_all-ok (msg ∷ msgs) l next =
      let (k, h) =
        send_all-ok msgs
          (record {
            client = Core.publish msg.topic (Core.json msg.payload) l.client;
            calls = l.calls + 1;
          })
          next in
      (
        k,
        send_message-ok msg.topic (Core.json msg.payload) l (λ l'. send_all answers msgs l' next)
            ∙ h,
      )

  subscribe_keys-ok :
      (ctx : DeviceContext) (keys : List String) (l : Link)
      → (k : ℕ) × (subscribe_keys answers ctx keys l
          ≡ ok (record { client = subscribe_all ctx keys l.client; calls = k }))
  unfolding subscribe_keys
  subscribe_keys-ok ctx [] l = (l.calls, refl)
  subscribe_keys-ok ctx (key ∷ keys) l =
      let topic = switch_command_topic ctx key in
      let next = λ (l' : Link). subscribe_keys answers ctx keys l' in
      let (k, h) = subscribe_keys-ok ctx keys (counted answers (Core.subscribe topic l.client) l) in
      (k, subscribe_to_topic-ok topic l next ∙ h)

  on_connected-ok :
      {F : Type 0} (cfg : Config F) (l : Link)
      → (l' : Link) × (on_connected answers cfg l ≡ ok l')
        × (installed cfg.mqtt.base_topic l'.client ≡ Core.on_connect cfg fw_version l.client)
  unfolding on_connected Core.on_connect
  on_connected-ok cfg l =
      let ctx = context cfg fw_version in
      let status = cfg.mqtt.base_topic <> "/status" in
      let keys = "sprinkler_1" ∷ "sprinkler_2" ∷ "water_control" ∷ [] in
      let subscribed = λ (l2 : Link). subscribe_keys answers ctx keys l2 in
      let online = λ (l1 : Link). send_message answers status (Core.text "online") l1 subscribed in
      let (k, announced) = send_all-ok (all_messages ctx) l online in
      let l1 : Link = record { client = Core.publish_all (all_messages ctx) l.client; calls = k } in
      let l2 = counted answers (Core.publish status (Core.text "online") l1.client) l1 in
      let (j, last) = subscribe_keys-ok ctx keys l2 in
      (
        record { client = subscribe_all ctx keys l2.client; calls = j },
        announced ∙ send_message-ok status (Core.text "online") l1 subscribed ∙ last,
        refl,
      )

  publish_state-ok :
      {F : Type 0} (pr : Printer F) (ctx : DeviceContext) (snap : DeviceSnapshot F)
      (base_topic : String) (l : Link)
      → (l' : Link) × (publish_state answers ctx snap l ≡ ok l')
        × (installed base_topic l'.client
            ≡ Core.publish_state pr ctx (bare snap) (installed base_topic l.client))
  unfolding publish_state Core.publish_state Core.publish
  publish_state-ok pr ctx snap base_topic l =
      let t1 = sensor_state_topic ctx "uptime" in
      let b1 = Core.text (to_string (snap.uptime_ms / 1000)) in
      let t2 = switch_state_topic ctx "sprinkler_1" in
      let b2 = on_off snap.switches.sprinkler_1 in
      let t3 = switch_state_topic ctx "sprinkler_2" in
      let b3 = on_off snap.switches.sprinkler_2 in
      let t4 = switch_state_topic ctx "water_control" in
      let b4 = on_off (is_on snap.switches.water_control) in
      let t5 = sensor_state_topic ctx "flow_alarm" in
      let b5 = on_off snap.alarm.active in
      let sent =
        λ (t : String) (b : Body) (k : Link). counted answers (Core.publish t b k.client) k in
      let n4 = λ (k : Link). send_message answers t5 b5 k ok in
      let n3 = λ (k : Link). send_message answers t4 b4 k n4 in
      let n2 = λ (k : Link). send_message answers t3 b3 k n3 in
      let n1 = λ (k : Link). send_message answers t2 b2 k n2 in
      let l1 = sent t1 b1 l in
      let l2 = sent t2 b2 l1 in
      let l3 = sent t3 b3 l2 in
      let l4 = sent t4 b4 l3 in
      (
        sent t5 b5 l4,
        send_message-ok t1 b1 l n1
            ∙ send_message-ok t2 b2 l1 n2
            ∙ send_message-ok t3 b3 l2 n3
            ∙ send_message-ok t4 b4 l3 n4
            ∙ send_message-ok t5 b5 l4 ok,
        ap (λ (on : Bool). installed base_topic (sent t5 b5 (sent t4 (on_off on) l3)).client)
            (is_on-shows_on snap.switches.water_control),
      )

module _ (answers : ℕ → Bool) (up : (n : ℕ) → answers n ≡ true) (p : Platform)
    (pr : Printer p.F32) where
  open p use {F32}

  -- A new configuration leaves the topics and the name of the device as they are.
  abbrev pub KeepsContext : Config F32 → Calls.Event p → Type 0
  KeepsContext cfg (Calls.configured t new section) =
      context new fw_version ≡ context cfg fw_version
  KeepsContext cfg _ = Unit

  -- No error of the client, and no new topics.
  abbrev pub IsCalm : Config F32 → Event answers p → Type 0
  IsCalm cfg broken = ⊥
  IsCalm cfg (other e) = KeepsContext cfg e
  IsCalm cfg _ = Unit

  -- What the core's integration does at the same event. It reads the configuration anew each time that
  -- it publishes.
  abbrev pub core_turn : Event answers p → App p × Client → App p × Client
  core_turn timer (a, m) = (a, Core.publish_state pr (context a.config fw_version) (bare a.state) m)
  core_turn broken (a, m) = (a, m)
  core_turn (message now topic payload) (a, m) = (Core.inject p now m topic payload a, m)
  core_turn (other e) (a, m) = (Calls.step p e a, m)

  abbrev pub core_serve : List (Event answers p) → App p × Client → App p × Client
  core_serve [] r = r
  core_serve (e ∷ es) r = core_serve es (core_turn e r)

  abbrev pub seen : Config F32 → Session answers p → App p × Client
  seen cfg s = (s.app, installed cfg.mqtt.base_topic s.link.client)

  inject-obey :
      (cfg : Config F32) (now : ℕ) (m : Client) (topic : String) (payload : Bytes) (a : App p)
      → Core.inject p now (installed cfg.mqtt.base_topic m) topic payload a
        ≡ obey answers p now (parse_command cfg.mqtt.base_topic topic payload) a
  unfolding Core.inject
  inject-obey cfg now m topic payload a =
      elim (Option-cases (parse_command cfg.mqtt.base_topic topic payload)) [
        | inl e ↦ rw e refl
        | inr (c, e) ↦ rw e refl
      ]

  obey-config :
      (now : ℕ) (cmd : Option SwitchCommand) (a : App p)
      → (obey answers p now cmd a).config ≡ a.config
  obey-config now none a = refl
  obey-config now (some cmd) a = ap (λ c. c.config) (command-core p now cmd a)

  cleared-config : (t : Reading) (a : App p) → (clear_flow_alarm p t a).config ≡ a.config
  unfolding clear_flow_alarm emit_event
  cleared-config t a = ground arith

  -- The topics in memory stay those of the start.
  step-context :
      (cfg : Config F32) (e : Calls.Event p) (a : App p)
      → KeepsContext cfg e
      → context a.config fw_version ≡ context cfg fw_version
      → context (Calls.step p e a).config fw_version ≡ context cfg fw_version
  unfolding Calls.step Calls.observe replace_config_section emit_event set_webhook_dispatcher
  step-context cfg (Calls.ticked now f) a k h =
      ap (λ c. context c.config fw_version) (tick-core p now f a) ∙ h
  step-context cfg (Calls.commanded now c) a k h =
      ap (λ c. context c.config fw_version) (command-core p now c a) ∙ h
  step-context cfg (Calls.scheduled now id d) a k h =
      ap (λ c. context c.config fw_version) (schedule-core p now id d a) ∙ h
  step-context cfg (Calls.observed s n d t) a k h = h
  step-context cfg (Calls.configured t new section) a k h = k
  step-context cfg (Calls.cleared t) a k h = ap (λ c. context c fw_version) (cleared-config t a) ∙ h
  step-context cfg (Calls.dispatched_by d) a k h = h

  turn-core :
      (cfg : Config F32) (e : Event answers p) (s : Session answers p)
      → IsCalm cfg e
      → s.up ≡ true
      → context s.app.config fw_version ≡ context cfg fw_version
      → ((turn answers p cfg e s).up ≡ true)
        × (core_turn e (seen cfg s) ≡ seen cfg (turn answers p cfg e s))
        × (context (turn answers p cfg e s).app.config fw_version ≡ context cfg fw_version)
  unfolding turn
  turn-core cfg timer s h u c =
      let ctx = context cfg fw_version in
      let (l', sent, same) =
        publish_state-ok answers up pr ctx s.app.state cfg.mqtt.base_topic s.link in
      let m = installed cfg.mqtt.base_topic s.link.client in
      let published =
        ap (λ (x : DeviceContext). (s.app, Core.publish_state pr x (bare s.app.state) m)) c
        ∙ ap (λ (k : Client). (s.app, k)) (sym same) in
      rw (u, sent) (refl, published, c)
  turn-core cfg broken s h u c = elim h [ ]
  turn-core cfg (message now topic payload) s h u c =
      let m = installed cfg.mqtt.base_topic s.link.client in
      let cmd = parse_command cfg.mqtt.base_topic topic payload in
      rw u (
        refl,
        ap (λ (a : App p). (a, m)) (inject-obey cfg now s.link.client topic payload s.app),
        ap (λ (k : Config F32). context k fw_version) (obey-config now cmd s.app) ∙ c,
      )
  turn-core cfg (other e) s h u c = (u, refl, step-context cfg e s.app h c)

  serve-core :
      (cfg : Config F32) (es : List (Event answers p)) (s : Session answers p)
      → All (IsCalm cfg) es
      → s.up ≡ true
      → context s.app.config fw_version ≡ context cfg fw_version
      → ((serve answers p cfg es s).up ≡ true)
        × (core_serve es (seen cfg s) ≡ seen cfg (serve answers p cfg es s))
  unfolding serve
  serve-core cfg [] s h u c = (u, refl)
  serve-core cfg (e ∷ es) s (h, hs) u c =
      let (u', first, c') = turn-core cfg e s h u c in
      let (v, later) = serve-core cfg es (turn answers p cfg e s) hs u' c' in
      (v, ap (core_serve es) first ∙ later)

  -- A session in which no call of the client fails, and during which no new configuration changes the
  -- topics or the name of the device, does what the core's integration does from its connection on, at
  -- the same events, with the configuration read anew each time: it leaves the same application, and has
  -- published and subscribed to the same, in the same order, but for the measured values that this
  -- firmware leaves out. And it stays up.
  pub run_session-core :
      (es : List (Event answers p)) (a : App p) (l : Link)
      → All (IsCalm a.config) es
      → let s = run_session answers p es a l in
        (s.up ≡ true)
        × (core_serve es (a, Core.on_connect a.config fw_version l.client)
            ≡ (s.app, installed a.config.mqtt.base_topic s.link.client))
  unfolding run_session
  run_session-core es a l h =
      let (l', connected, same) = on_connected-ok answers up a.config l in
      let start : Session answers p = record { app = a; link = l'; up = true } in
      let (u, later) = serve-core a.config es start h refl refl in
      rw connected (u, ap (λ (m : Client). core_serve es (a, m)) (sym same) ∙ later)

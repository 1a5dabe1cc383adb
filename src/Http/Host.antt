-- ===== src/Http/Host.antt =====
-- crates/host/src/http.rs: the server of the host build, which asks for no token and saves nothing.
-- axum has read the body and its JSON when a handler is called.
use watercontroller.Base.{
  String, Bool, true, false, Option, none, some, List, [], ◌∷◌, ◌++◌, ◌≡◌, refl, arith, Bool-cases,
  inl, inr, Option-cases, find, take, is_empty, str_eq, if◌then◌else◌,
}
use watercontroller.Switch.{TimedSwitch}
use watercontroller.Valve.{WaterValve, is_busy}
use watercontroller.State.{DeviceSnapshot}
use watercontroller.Config.{Config, WifiCreds, redact_secrets_for_api, merge_preserving_secrets}
use watercontroller.Config.Persist.{Codec, save}
use watercontroller.Config.Persist
use watercontroller.Webhook.{webhooks_max}
use watercontroller.App.{
  App, SwitchCommand, sprinkler_1, sprinkler_2, water_control, switch_command, emit_event,
  replace_config_section,
}
use watercontroller.App.Env.{Platform}
use watercontroller.App.FlowAlarm.{clear_flow_alarm}
use watercontroller.Http
use watercontroller.Http.{
  Request, require_auth, Answer, api_error, text, empty, snapshot, section, outcome, events,
  WifiCall, connect, reconnect, Server,
}
use watercontroller.Http.Sections.{
  SectionName, SectionType, wifi, mqtt, switches, sensors, schedule, https, wireguard, time, auth,
  flow_alarm, webhooks, get_section, apply_section, keep_passwords,
}
use watercontroller.Http.Routes
use watercontroller.Http.Routes.{
  serve, Json, Moment, parsed, TestReq, Handled, json_ct, into_response, status_of, scanned, pushed,
  config_decoded, section_decoded, put_section, save_and_replace, switch_decoded, test_decoded,
}

-- A request as its handler gets it. `get_config` has what `q.contains_key("all")` says.
pub data HostRequest (F : Type 0) : Type 0 where
  get_status get_history get_scan post_reconnect post_alarm_clear post_reset : HostRequest F
  get_config : (all : Bool) → HostRequest F
  put_config : Config F → HostRequest F
  get_sect : SectionName → HostRequest F
  put_sect : (n : SectionName) → SectionType F n → HostRequest F
  post_switch : SwitchCommand → HostRequest F
  post_test : TestReq → HostRequest F

-- The loop of `put_wifi`: a network without a password gets that of the first stored one with its SSID.
unfoldable pub host_networks : List WifiCreds → List WifiCreds → List WifiCreds
host_networks stored [] = []
host_networks stored (net ∷ nets) =
    let found = find (λ n. str_eq n.ssid net.ssid) stored in
    let filled : WifiCreds = elim found [
      | some o ↦ record net { password = o.password }
      | none ↦ net
    ] in
    (if is_empty net.password then filled else net) ∷ host_networks stored nets

-- The configuration that the `put_*` handlers hand to the application, one clause each. What a client
-- left empty is assigned one after the other.
unfoldable pub host_update : {F : Type 0} (n : SectionName) → SectionType F n → Config F → Config F
unfolding host_networks
host_update wifi new cfg = record cfg {
  wifi = record new { networks = host_networks cfg.wifi.networks new.networks };
}
host_update mqtt new cfg =
    let new1 = if is_empty new.password then record new { password = cfg.mqtt.password } else new in
    let new2 =
      if is_empty new1.client_key_pem
      then record new1 { client_key_pem = cfg.mqtt.client_key_pem }
      else new1 in
    record cfg { mqtt = new2 }
host_update switches new cfg = record cfg { switches = new }
host_update sensors new cfg = record cfg { sensors = new }
host_update schedule new cfg = record cfg { schedule = new }
host_update https new cfg = record cfg {
  https = if is_empty new.key_pem then record new { key_pem = cfg.https.key_pem } else new;
}
host_update wireguard new cfg =
    let new1 =
      if is_empty new.private_key
      then record new { private_key = cfg.wireguard.private_key }
      else new in
    let new2 =
      if is_empty new1.peer_preshared_key
      then record new1 { peer_preshared_key = cfg.wireguard.peer_preshared_key }
      else new1 in
    record cfg { wireguard = new2 }
host_update time new cfg = record cfg { timezone = new.timezone; sntp_servers = new.sntp_servers }
host_update auth new cfg =
    if is_empty new.admin_token then cfg else record cfg { admin_token = new.admin_token }
host_update flow_alarm new cfg = record cfg { flow_alarm = new }
host_update webhooks new cfg = record cfg { webhooks = take webhooks_max new }

-- What the `get_*` handlers answer, of the redacted configuration or of the whole one.
unfoldable pub host_section : {F : Type 0} (n : SectionName) → Config F → SectionType F n
host_section wifi cfg = (redact_secrets_for_api cfg).wifi
host_section mqtt cfg = (redact_secrets_for_api cfg).mqtt
host_section switches cfg = cfg.switches
host_section sensors cfg = cfg.sensors
host_section schedule cfg = cfg.schedule
host_section https cfg = (redact_secrets_for_api cfg).https
host_section wireguard cfg = (redact_secrets_for_api cfg).wireguard
host_section time cfg = record { timezone = cfg.timezone; sntp_servers = cfg.sntp_servers }
host_section auth cfg = record { admin_token = "" }
host_section flow_alarm cfg = cfg.flow_alarm
host_section webhooks cfg = cfg.webhooks

-- `s.wifi.connect(&networks)` at the end of `put_wifi`.
abbrev host_pushed : {F : Type 0} → SectionName → Config F → List WifiCall
host_pushed wifi cfg = connect cfg.wifi.networks ∷ []
host_pushed _ cfg = []

-- The section that the event of a `PUT` names.
abbrev section_word : SectionName → String
section_word webhooks = "webhooks"
section_word _ = "all"

module _ (p : Platform) where
  open p use {F32}

  -- `AppState`.
  pub record AppState : Type 0 where
    pub app : App p
    pub wifi : List WifiCall

  unfoldable pub host_put_section :
      (n : SectionName) → Moment → SectionType F32 n → AppState → AppState
  unfolding host_update
  host_put_section n m new s =
      let cfg = host_update n new s.app.config in
      record s {
        app = replace_config_section p m.reading cfg (section_word n) s.app;
        wifi = s.wifi ++ host_pushed n cfg;
      }

  unfoldable pub host_handle : HostRequest F32 → Moment → AppState → Answer F32 × AppState
  unfolding host_put_section host_section
  host_handle get_status m s = (into_response 200 json_ct (snapshot s.app.state), s)
  host_handle (get_config all) m s = (
    into_response 200 json_ct (
        Http.config
          (elim all [ true ↦ s.app.config | false ↦ redact_secrets_for_api s.app.config ])),
    s,
  )
  host_handle (put_config u) m s = (
    into_response 204 [] empty,
    record s {
      app =
          replace_config_section p m.reading (merge_preserving_secrets s.app.config u) "all" s.app;
    },
  )
  host_handle (get_sect n) m s =
      (into_response 200 json_ct (section n (host_section n s.app.config)), s)
  host_handle (put_sect n new) m s = (into_response 204 [] empty, host_put_section n m new s)
  host_handle (post_switch cmd) m s =
      let (app, out) = switch_command p m.now_ms cmd s.app in
      (into_response (status_of out) json_ct (outcome out), record s { app = app })
  host_handle get_scan m s = (scanned m.scan, s)
  host_handle post_reconnect m s =
      (into_response 204 [] empty, record s { wifi = s.wifi ++ (reconnect ∷ []) })
  host_handle post_alarm_clear m s =
      (into_response 204 [] empty, record s { app = clear_flow_alarm p m.reading s.app })
  host_handle get_history m s = (into_response 200 json_ct (events s.app.alarm_history), s)
  host_handle (post_test t) m s = (
    into_response 202 [] empty,
    record s { app = emit_event p m.reading (record { kind = t.kind; vars = t.vars }) s.app },
  )
  host_handle post_reset m s = (
    into_response 501 json_ct
        (api_error (text "factory reset is only implemented on real devices")),
    s,
  )

  -- What the two servers share: the configuration, the actuators, the snapshot and the supervisor.
  pub record View : Type 0 where
    config : Config F32
    sprinkler1 : TimedSwitch
    sprinkler2 : TimedSwitch
    valve : WaterValve
    state : DeviceSnapshot F32
    wifi : List WifiCall

  abbrev pub view : App p → List WifiCall → View
  view a calls = record {
    config = a.config;
    sprinkler1 = a.sprinkler1;
    sprinkler2 = a.sprinkler2;
    valve = a.valve;
    state = a.state;
    wifi = calls;
  }

-- The loop of the host build does what the one of the firmware does.
host_networks-keep_passwords :
    (stored nets : List WifiCreds) → host_networks stored nets ≡ keep_passwords stored nets
unfolding host_networks keep_passwords
host_networks-keep_passwords stored [] = refl
host_networks-keep_passwords stored (net ∷ nets) =
    let later = host_networks-keep_passwords stored nets in
    elim (Bool-cases (is_empty net.password)) [
      | inl e ↦ elim (Option-cases (find (λ n. str_eq n.ssid net.ssid) stored)) [
        | inl g ↦ rw (e, g, later) refl
        | inr (o, g) ↦ rw (e, g, later) refl
      ]
      | inr e ↦ rw (e, later) refl
    ]

-- A section that is put into the configuration by the host build is what the firmware makes of it.
host_update-apply_section :
    {F : Type 0} (n : SectionName) (new : SectionType F n) (cfg : Config F)
    → host_update n new cfg ≡ apply_section n new cfg
unfolding host_update apply_section
host_update-apply_section wifi new cfg =
    rw (host_networks-keep_passwords cfg.wifi.networks new.networks) refl
host_update-apply_section mqtt new cfg = elim (Bool-cases (is_empty new.password)) [
  | inl e ↦ elim (Bool-cases (is_empty new.client_key_pem)) [
    | inl g ↦ rw (e, g) refl
    | inr g ↦ rw (e, g) refl
  ]
  | inr e ↦ elim (Bool-cases (is_empty new.client_key_pem)) [
    | inl g ↦ rw (e, g) refl
    | inr g ↦ rw (e, g) refl
  ]
]
host_update-apply_section switches new cfg = refl
host_update-apply_section sensors new cfg = refl
host_update-apply_section schedule new cfg = refl
host_update-apply_section https new cfg = elim (Bool-cases (is_empty new.key_pem)) [
  | inl e ↦ rw e refl
  | inr e ↦ rw e refl
]
host_update-apply_section wireguard new cfg = elim (Bool-cases (is_empty new.private_key)) [
  | inl e ↦ elim (Bool-cases (is_empty new.peer_preshared_key)) [
    | inl g ↦ rw (e, g) refl
    | inr g ↦ rw (e, g) refl
  ]
  | inr e ↦ elim (Bool-cases (is_empty new.peer_preshared_key)) [
    | inl g ↦ rw (e, g) refl
    | inr g ↦ rw (e, g) refl
  ]
]
host_update-apply_section time new cfg = refl
host_update-apply_section auth new cfg = elim (Bool-cases (is_empty new.admin_token)) [
  | inl e ↦ rw e refl
  | inr e ↦ rw e refl
]
host_update-apply_section flow_alarm new cfg = refl
host_update-apply_section webhooks new cfg = refl

-- The answer to a `GET` of a section.
host_section-get_section :
    {F : Type 0} (n : SectionName) (cfg : Config F)
    → host_section n cfg ≡ get_section n (redact_secrets_for_api cfg)
unfolding host_section get_section redact_secrets_for_api
host_section-get_section wifi cfg = refl
host_section-get_section mqtt cfg = refl
host_section-get_section switches cfg = refl
host_section-get_section sensors cfg = refl
host_section-get_section schedule cfg = refl
host_section-get_section https cfg = refl
host_section-get_section wireguard cfg = refl
host_section-get_section time cfg = refl
host_section-get_section auth cfg = refl
host_section-get_section flow_alarm cfg = refl
host_section-get_section webhooks cfg = refl

host_pushed-pushed :
    {F : Type 0} (n : SectionName) (cfg : Config F) → host_pushed n cfg ≡ pushed n cfg
host_pushed-pushed wifi cfg = refl
host_pushed-pushed _ cfg = refl

module _ (p : Platform) (codec : Codec (Config p.F32)) (default : Config p.F32)
    (json : Json p.F32) where
  open p use {F32}

  -- What the firmware makes of the same request, once it has read its JSON. A factory reset and the
  -- configuration as a whole are not among them.
  abbrev pub device_handle : HostRequest F32 → Moment → Request → Server p → Option (Handled p)
  device_handle get_status m req s = some (serve p codec default json Routes.get_status m req s)
  device_handle get_history m req s = some (serve p codec default json Routes.get_history m req s)
  device_handle get_scan m req s = some (serve p codec default json Routes.get_scan m req s)
  device_handle (get_sect n) m req s = some (serve p codec default json (Routes.get_sect n) m req s)
  device_handle post_reconnect m req s =
      some (serve p codec default json Routes.post_reconnect m req s)
  device_handle post_alarm_clear m req s =
      some (serve p codec default json Routes.post_alarm_clear m req s)
  device_handle (put_config u) m req s = some (config_decoded p codec default json m (parsed u) s)
  device_handle (put_sect n new) m req s =
      some (section_decoded p codec default json n m (parsed new) s)
  device_handle (post_switch cmd) m req s =
      some (switch_decoded p codec default json m (parsed cmd) s)
  device_handle (post_test t) m req s = some (test_decoded p codec default json m (parsed t) s)
  device_handle _ m req s = none

  -- One answer, and one view of the state.
  abbrev pub Mirrors : Option (Handled p) → Answer F32 × AppState p → Type 0
  Mirrors none y = Unit
  Mirrors (some x) y = (y.0 ≡ x.0) × (view p y.1.app y.1.wifi ≡ view p x.1.app x.1.wifi)

  -- The host build with the state of a device, and without its store.
  abbrev pub host_of : Server p → AppState p
  host_of s = record { app = record s.app { store = none }; wifi = s.wifi }

  -- A request to one of the handlers of the JSON API, whose body has been read as what the handler
  -- takes, is answered by the host build as by the firmware and leaves the same configuration,
  -- actuators, snapshot and calls of the Wi-Fi supervisor, but for a factory reset and a `GET` of the
  -- whole configuration, if the request passes the check of the token and the firmware's saves succeed.
  pub host_handle-Mirrors :
      (q : HostRequest F32) (m : Moment) (req : Request) (s : Server p)
      → require_auth p req s.app ≡ true
      → ((cfg : Config F32) → (save p.nvs codec default cfg s.nvs).0 ≡ Persist.ok tt)
      → Mirrors (device_handle q m req s) (host_handle p q m (host_of s))
  unfolding host_handle host_put_section serve put_section save_and_replace replace_config_section
      emit_event clear_flow_alarm switch_command
  host_handle-Mirrors get_status m req s a h = (refl, refl)
  host_handle-Mirrors get_history m req s a h = (refl, refl)
  host_handle-Mirrors get_scan m req s a h = (refl, refl)
  host_handle-Mirrors (get_sect n) m req s a h =
      rw (host_section-get_section n s.app.config) (refl, refl)
  host_handle-Mirrors post_reconnect m req s a h = rw a (refl, refl)
  host_handle-Mirrors post_alarm_clear m req s a h = rw a (refl, ground arith)
  host_handle-Mirrors (put_config u) m req s a h =
      rw (h (merge_preserving_secrets s.app.config u)) (refl, refl)
  host_handle-Mirrors (put_sect n new) m req s a h =
      let cfg = apply_section n new s.app.config in
      rw (host_update-apply_section n new s.app.config, host_pushed-pushed n cfg, h cfg)
        (refl, refl)
  host_handle-Mirrors (post_switch (sprinkler_1 on)) m req s a h = (refl, refl)
  host_handle-Mirrors (post_switch (sprinkler_2 on)) m req s a h = (refl, refl)
  host_handle-Mirrors (post_switch (water_control on)) m req s a h =
      elim (Bool-cases (is_busy s.app.valve)) [
        | inl e ↦ rw e (refl, refl)
        | inr e ↦ rw e (refl, refl)
      ]
  host_handle-Mirrors (post_test t) m req s a h = (refl, refl)
  host_handle-Mirrors _ m req s a h = tt

-- ===== src/Http/Routes.antt =====
-- http_server.rs: the handlers, in the order in which `register_handlers` registers them.
use watercontroller.Base.{
  ℕ, String, Bool, true, false, Option, none, some, List, [], ◌∷◌, ◌++◌, ◌&&◌, contains, str_eq,
  if◌then◌else◌,
}
use watercontroller.Config.{Config, redact_secrets_for_api, merge_preserving_secrets}
use watercontroller.Config.Persist
use watercontroller.Config.Persist.{Codec, ConfigError, Result, save, factory_reset}
use watercontroller.Nvs.{Bytes}
use watercontroller.Webhook.{EventKind, VarMap}
use watercontroller.App.{
  App, SwitchCommand, CommandOutcome, busy, switch_command, emit_event, replace_config_section,
}
use watercontroller.App
use watercontroller.App.Env.{Platform, Reading}
use watercontroller.App.FlowAlarm.{clear_flow_alarm}
use watercontroller.Http.{
  Method, get, put, post, Request, text, printed, config_error, WifiScanResult, Payload, empty,
  index_html, diag, api_error, snapshot, config, section, outcome, networks, events, uploaded,
  Answer, respond, io_error, no_handler, WifiCall, connect, reconnect, Server, require_auth,
}
use watercontroller.Http.Sections.{
  SectionName, SectionType, wifi, mqtt, switches, sensors, schedule, https, wireguard, time, auth,
  flow_alarm, webhooks, path_of, get_section, apply_section,
}
use watercontroller.Http.Body.{Received, complete, too_large, io, read_body}
use watercontroller.Http.Update.{EspOta, Outcome, error, accepted, upload}

pub data Decoded {ℓ} (A : Type ℓ) : Type ℓ where
  parsed : A → Decoded A
  invalid : String → Decoded A

pub record TestReq : Type 0 where
  pub kind : EventKind
  pub vars : VarMap

-- `serde_json::from_slice` at the types that the handlers read.
pub record Json (F : Type 0) : Type 0 where
  pub config : Bytes → Decoded (Config F)
  pub section : (n : SectionName) → Bytes → Decoded (SectionType F n)
  pub switch : Bytes → Decoded SwitchCommand
  pub test : Bytes → Decoded TestReq

pub data ScanResult : Type 0 where
  found : List WifiScanResult → ScanResult
  no_scan : String → ScanResult

-- What a handler gets from the clock, the radio and the updater.
pub record Moment : Type 0 where
  pub now_ms : ℕ
  pub reading : Reading
  pub scan : ScanResult
  pub ota : EspOta

pub data Route : Type 0 where
  index get_status get_config get_diag put_config : Route
  get_sect put_sect : SectionName → Route
  post_switch post_ota probe get_scan post_reconnect post_alarm_clear get_history : Route
  post_test post_reset : Route

abbrev pub same_method : Method → Method → Bool
same_method get get = true
same_method put put = true
same_method post post = true
same_method _ _ = false

abbrev pub Registered : Type 0
Registered = List (Method × String × Route)

-- `register_section` at one section.
abbrev pub register_section : SectionName → Registered → Registered
register_section n rs = (get, path_of n, get_sect n) ∷ (put, path_of n, put_sect n) ∷ rs

abbrev pub captive_probe_paths : List String
captive_probe_paths =
    "/generate_204" ∷ "/gen_204" ∷ "/hotspot-detect.html" ∷ "/library/test/success.html"
    ∷ "/connecttest.txt" ∷ "/ncsi.txt" ∷ "/redirect" ∷ "/success.txt" ∷ []

abbrev probes : List String → Registered → Registered
probes [] rs = rs
probes (path ∷ paths) rs = (get, path, probe) ∷ probes paths rs

abbrev sections : List SectionName → Registered → Registered
sections [] rs = rs
sections (n ∷ ns) rs = register_section n (sections ns rs)

-- The handlers of requests. The websocket of the log, `/ws/logs`, is no request with an answer: its
-- senders are in Http/Sockets.antt.
abbrev pub registered : Registered
registered =
    (get, "/", index)
    ∷ (get, "/api/status", get_status)
    ∷ (get, "/api/config", get_config)
    ∷ (get, "/api/diag", get_diag)
    ∷ (put, "/api/config", put_config)
    ∷ sections
        (wifi ∷ mqtt ∷ switches ∷ sensors ∷ schedule ∷ https ∷ wireguard ∷ time ∷ auth ∷ flow_alarm
          ∷ webhooks ∷ [])
        ((post, "/api/switch", post_switch)
          ∷ (post, "/api/ota", post_ota)
          ∷ probes captive_probe_paths (
              (get, "/api/wifi/scan", get_scan)
              ∷ (post, "/api/wifi/reconnect", post_reconnect)
              ∷ (post, "/api/alarm/clear", post_alarm_clear)
              ∷ (get, "/api/alarm/history", get_history)
              ∷ (post, "/api/webhooks/test", post_test)
              ∷ (post, "/api/factory_reset", post_reset)
              ∷ []))

-- The handler of a method and a path.
unfoldable pub route_of : Method → String → Registered → Option Route
route_of m path [] = none
route_of m path ((m', path', r) ∷ rs) =
    let rest = route_of m path rs in if same_method m' m && str_eq path' path then some r else rest

abbrev pub json_ct : List (String × String)
json_ct = ("Content-Type", "application/json") ∷ []

abbrev pub html_ct : List (String × String)
html_ct = ("Content-Type", "text/html; charset=utf-8") ∷ []

module _ {F : Type 0} where
  abbrev pub into_response : ℕ → List (String × String) → Payload F → Answer F
  into_response status headers body =
      respond (record { status = status; headers = headers; body = body })

  abbrev pub write_unauthorized : Answer F
  write_unauthorized =
      into_response 401 json_ct
        (api_error (text "missing or invalid Authorization: Bearer <admin_token>"))

  -- The list that the section "wifi" pushes to the supervisor, before the save.
  abbrev pub pushed : SectionName → Config F → List WifiCall
  pushed wifi cfg = connect cfg.wifi.networks ∷ []
  pushed _ cfg = []

  abbrev pub scanned : ScanResult → Answer F
  scanned (found list) = into_response 200 json_ct (networks list)
  scanned (no_scan msg) = into_response 503 json_ct (api_error (text msg))

abbrev pub status_of : CommandOutcome → ℕ
status_of App.ok = 200
status_of (busy reason) = 409

abbrev pub Handled : Platform → Type 0
Handled p = Answer p.F32 × Server p

module _ (p : Platform) (codec : Codec (Config p.F32)) (default : Config p.F32)
    (json : Json p.F32) where
  open p use {F32, nvs}

  abbrev pub saved : Result (Unit {0}) → nvs.Store → Moment → Config F32 → Server p → Handled p
  saved (Persist.err e) st m cfg s = (
    into_response 500 json_ct (api_error (config_error "nvs save: " e)),
    record s { nvs = st; app = record s.app { store = some st } },
  )
  saved (Persist.ok _) st m cfg s = (
    into_response 204 [] empty,
    record s {
      nvs = st;
      app = replace_config_section p m.reading cfg "all" (record s.app { store = some st });
    },
  )

  -- The end of both `PUT` handlers: the save, and `replace_config`.
  unfoldable pub save_and_replace : Moment → Config F32 → Server p → Handled p
  save_and_replace m cfg s = let (r, st) = save p.nvs codec default cfg s.nvs in saved r st m cfg s

  abbrev pub invalid_json : String → Answer F32
  invalid_json e = into_response 400 json_ct (api_error (printed "invalid json: " e))

  abbrev pub body_too_large : Answer F32
  body_too_large = into_response 413 json_ct (api_error (text "body too large"))

  abbrev pub config_decoded : Moment → Decoded (Config F32) → Server p → Handled p
  config_decoded m (invalid e) s = (invalid_json e, s)
  config_decoded m (parsed u) s = save_and_replace m (merge_preserving_secrets s.app.config u) s

  abbrev pub config_received : Moment → Received → Server p → Handled p
  config_received m io s = (io_error, s)
  config_received m (too_large b) s = (body_too_large, s)
  config_received m (complete b) s = config_decoded m (json.config b) s

  unfoldable pub put_section : (n : SectionName) → Moment → SectionType F32 n → Server p → Handled p
  put_section n m new s =
      let cfg = apply_section n new s.app.config in
      save_and_replace m cfg (record s { wifi = s.wifi ++ pushed n cfg })

  abbrev pub section_decoded :
      (n : SectionName) → Moment → Decoded (SectionType F32 n) → Server p → Handled p
  section_decoded n m (invalid e) s = (invalid_json e, s)
  section_decoded n m (parsed new) s = put_section n m new s

  abbrev pub section_received : (n : SectionName) → Moment → Received → Server p → Handled p
  section_received n m io s = (io_error, s)
  section_received n m (too_large b) s = (body_too_large, s)
  section_received n m (complete b) s = section_decoded n m (json.section n b) s

  abbrev pub switch_decoded : Moment → Decoded SwitchCommand → Server p → Handled p
  switch_decoded m (invalid e) s = (invalid_json e, s)
  switch_decoded m (parsed cmd) s =
      let (app, out) = switch_command p m.now_ms cmd s.app in
      (into_response (status_of out) json_ct (outcome out), record s { app = app })

  -- The loop of these two handlers stops at the limit and takes what was read.
  abbrev pub switch_received : Moment → Received → Server p → Handled p
  switch_received m io s = (io_error, s)
  switch_received m (too_large b) s = switch_decoded m (json.switch b) s
  switch_received m (complete b) s = switch_decoded m (json.switch b) s

  abbrev pub test_decoded : Moment → Decoded TestReq → Server p → Handled p
  test_decoded m (invalid e) s = (into_response 400 json_ct (api_error (printed "invalid: " e)), s)
  test_decoded m (parsed t) s = (
    into_response 202 [] empty,
    record s { app = emit_event p m.reading (record { kind = t.kind; vars = t.vars }) s.app },
  )

  abbrev pub test_received : Moment → Received → Server p → Handled p
  test_received m io s = (io_error, s)
  test_received m (too_large b) s = test_decoded m (json.test b) s
  test_received m (complete b) s = test_decoded m (json.test b) s

  abbrev pub ota_answer : Outcome → Server p → Handled p
  ota_answer (error status e) s = (into_response status json_ct (api_error e), s)
  ota_answer (accepted total) s =
      (into_response 202 json_ct (uploaded total), record s { restarting = true })

  abbrev pub erased : Result (Unit {0}) → Server p → Handled p
  erased (Persist.err e) s =
      (into_response 500 json_ct (api_error (config_error "erase failed: " e)), s)
  erased (Persist.ok _) s = (into_response 202 [] empty, record s { restarting = true })

  -- A handler that begins with `require_auth`.
  abbrev pub authorized : Request → Server p → Handled p → Handled p
  authorized req s handled = if require_auth p req s.app then handled else (write_unauthorized, s)

  unfoldable pub serve : Route → Moment → Request → Server p → Handled p
  unfolding put_section save_and_replace
  serve index m req s = (into_response 200 html_ct index_html, s)
  serve get_status m req s = (into_response 200 json_ct (snapshot s.app.state), s)
  serve get_config m req s =
      if contains "all" req.uri
      then authorized req s (into_response 200 json_ct (config s.app.config), s)
      else (into_response 200 json_ct (config (redact_secrets_for_api s.app.config)), s)
  serve get_diag m req s = (into_response 200 json_ct diag, s)
  serve put_config m req s = authorized req s (config_received m (read_body [] req.reads) s)
  serve (get_sect n) m req s = (
    into_response 200 json_ct (section n (get_section n (redact_secrets_for_api s.app.config))),
    s,
  )
  serve (put_sect n) m req s = authorized req s (section_received n m (read_body [] req.reads) s)
  serve post_switch m req s = authorized req s (switch_received m (read_body [] req.reads) s)
  serve post_ota m req s =
      let (out, slot) = upload m.ota req.reads s.slot in
      authorized req s (ota_answer out (record s { slot = slot }))
  serve probe m req s = (into_response 302 (("Location", "/") ∷ []) empty, s)
  serve get_scan m req s = (scanned m.scan, s)
  serve post_reconnect m req s =
      authorized req s (into_response 204 [] empty, record s { wifi = s.wifi ++ (reconnect ∷ []) })
  serve post_alarm_clear m req s =
      authorized req s
        (into_response 204 [] empty, record s { app = clear_flow_alarm p m.reading s.app })
  serve get_history m req s = (into_response 200 json_ct (events s.app.alarm_history), s)
  serve post_test m req s = authorized req s (test_received m (read_body [] req.reads) s)
  serve post_reset m req s =
      let (r, st) = factory_reset p.nvs codec default s.nvs in
      authorized req s (erased r (record s { nvs = st; app = record s.app { store = some st } }))

  unfoldable pub handle : Moment → Request → Server p → Handled p
  unfolding serve route_of
  handle m req s = elim (route_of req.method req.path registered) [
    | none ↦ (no_handler, s)
    | some r ↦ serve r m req s
  ]

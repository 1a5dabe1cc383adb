-- ===== src/WebApi.antt =====
-- crates/firmware-nostd/src/webapi.rs: the JSON API of the firmware without an operating system. The
-- JSON that a handler returns is its value, and serde_json is a parameter.
pub mod Merge
pub mod Stored
mod Tests
use watercontroller.Base.{
  String, Bool, true, false, Option, none, some, List, [], ◌∷◌, is_empty, str_eq, if◌then◌else◌,
}
use watercontroller.State.{DeviceSnapshot}
use watercontroller.Nvs.{Bytes}
use watercontroller.Config.{Config, redact_secrets_for_api, restore_secrets_from}
use watercontroller.Config.Persist
use watercontroller.Config.Persist.{Codec, ConfigError, Result, save, factory_reset}
use watercontroller.App.{
  SwitchCommand, CommandOutcome, switch_command, emit_event, replace_config_section,
}
use watercontroller.App.Env.{Platform}
use watercontroller.App.FlowAlarm.{clear_flow_alarm}
use watercontroller.Http.{Server}
use watercontroller.Http.Routes.{Decoded, parsed, invalid, TestReq, Moment}

-- `serde_json::Value`, with `F` for a number. The order of the entries of an object is not read.
mutual
  pub data Value (F : Type 0) : Type 0 where
    null : Value F
    boolean : Bool → Value F
    number : F → Value F
    string : String → Value F
    array : Items F → Value F
    object : Entries F → Value F

  pub data Items (F : Type 0) : Type 0 where
    no_item : Items F
    item : Value F → Items F → Items F

  pub data Entries (F : Type 0) : Type 0 where
    no_entry : Entries F
    entry : (key : String) → Value F → Entries F → Entries F

module _ {F : Type 0} where
  -- `map.get(key)`.
  unfoldable pub get : String → Entries F → Option (Value F)
  get key no_entry = none
  get key (entry k v m) = let rest = get key m in if str_eq k key then some v else rest

  -- The value of a key that is there is replaced, and another key is put in.
  unfoldable pub set : String → Value F → Entries F → Entries F
  set key value no_entry = entry key value no_entry
  set key value (entry k v m) =
      let rest = set key value m in if str_eq k key then entry k value m else entry k v rest

  -- `matches!(v, Value::String(s) if s.is_empty())`.
  abbrev pub is_blank : Value F → Bool
  is_blank (string s) = is_empty s
  is_blank _ = false

-- `merge(target, overlay)`: the value that it leaves in `target`.
unfoldable mutual
  unfolding get set

  pub merge : {F : Type 0} → Value F → Value F → Value F
  merge (object t) (object o) = object (merge_entries t o)
  merge t o = o

  pub merge_entries : {F : Type 0} → Entries F → Entries F → Entries F
  merge_entries t no_entry = t
  merge_entries {F = F} t (entry k v o) =
      let skipped = merge_entries t o in
      let value : Value F = elim (get k t) [ none ↦ v | some tv ↦ merge tv v ] in
      let merged = merge_entries (set k value t) o in if is_blank v then skipped else merged

-- A section of `Section`.
pub data Section : Type 0 where
  wifi mqtt https switches sensors flow_alarm timezone sntp_servers schedule wireguard : Section
  admin_token webhooks : Section

-- `Section::parse`.
unfoldable pub parse : String → Option Section
parse name =
    if str_eq name "wifi"
    then some wifi
    else if str_eq name "mqtt"
    then some mqtt
    else if str_eq name "https"
    then some https
    else if str_eq name "switches"
    then some switches
    else if str_eq name "sensors"
    then some sensors
    else if str_eq name "flow_alarm"
    then some flow_alarm
    else if str_eq name "timezone"
    then some timezone
    else if str_eq name "sntp_servers"
    then some sntp_servers
    else if str_eq name "schedule"
    then some schedule
    else if str_eq name "wireguard"
    then some wireguard
    else if str_eq name "admin_token"
    then some admin_token
    else if str_eq name "webhooks"
    then some webhooks
    else none

-- `JsonView`: the whole configuration, the redacted one, or a section of the redacted one.
pub data JsonView (F : Type 0) : Type 0 where
  full redacted : Config F → JsonView F
  section_of : Config F → Section → JsonView F

pub data ApiResp (F : Type 0) : Type 0 where
  stream : JsonView F → ApiResp F
  diag no_networks result_ok rebooting no_content : ApiResp F
  status : DeviceSnapshot F → ApiResp F
  outcome : CommandOutcome → ApiResp F
  error : String → ApiResp F
  json_error : String → String → ApiResp F
  store_error : String → ConfigError → ApiResp F

-- `serde_json::{from_slice, to_value, from_value}` at the types of the handlers.
pub record SerdeJson (F : Type 0) : Type 0 where
  pub config : Bytes → Decoded (Config F)
  pub value : Bytes → Decoded (Value F)
  pub switch : Bytes → Decoded SwitchCommand
  pub test : Bytes → Decoded TestReq
  pub to_value : Config F → Option (Value F)
  pub from_value : Value F → Decoded (Config F)

module _ (p : Platform) (codec : Codec (Config p.F32)) (default : Config p.F32)
    (json : SerdeJson p.F32) where
  open p use {F32, nvs}

  abbrev not_found : ApiResp F32
  not_found = error "unknown endpoint"

  unfoldable pub api_get : String → Bool → Server p → ApiResp F32
  api_get seg all s =
      if str_eq seg "diag"
      then diag
      else if str_eq seg "status"
      then status s.app.state
      else if str_eq seg "config"
      then stream
          (if all then full s.app.config else redacted (redact_secrets_for_api s.app.config))
      else not_found

  abbrev pub Handled : Type 0
  Handled = ApiResp F32 × Server p

  abbrev pub with_store : nvs.Store → Server p → Server p
  with_store st s = record s { nvs = st; app = record s.app { store = some st } }

  abbrev pub saved : Result (Unit {0}) → Moment → Config F32 → Server p → Handled
  saved (Persist.err e) m cfg s = (store_error "nvs save failed: " e, s)
  saved (Persist.ok _) m cfg s =
      (result_ok, record s { app = replace_config_section p m.reading cfg "all" s.app })

  -- The end of `api_put` and of `config_section_put`.
  unfoldable pub restore_and_save : Moment → Config F32 → Server p → Handled
  restore_and_save m incoming s =
      let cfg = restore_secrets_from s.app.config incoming in
      let (r, st) = save p.nvs codec default cfg s.nvs in saved r m cfg (with_store st s)

  abbrev pub put_decoded : Moment → String → Decoded (Config F32) → Server p → Handled
  put_decoded m what (invalid e) s = (json_error what e, s)
  put_decoded m what (parsed incoming) s = restore_and_save m incoming s

  unfoldable pub api_put : Moment → String → Bytes → Server p → Handled
  unfolding restore_and_save
  api_put m seg body s =
      if str_eq seg "config"
      then put_decoded m "bad config json: " (json.config body) s
      else (not_found, s)

  abbrev pub switch_decoded : Moment → Decoded SwitchCommand → Server p → Handled
  switch_decoded m (invalid e) s = (json_error "bad switch command: " e, s)
  switch_decoded m (parsed cmd) s =
      let (app, out) = switch_command p m.now_ms cmd s.app in (outcome out, record s { app = app })

  abbrev pub erased : Result (Unit {0}) → Server p → Handled
  erased (Persist.err e) s = (store_error "erase failed: " e, s)
  erased (Persist.ok _) s = (rebooting, record s { restarting = true })

  unfoldable pub api_post : Moment → String → Bytes → Server p → Handled
  api_post m seg body s =
      let (r, st) = factory_reset p.nvs codec default s.nvs in
      if str_eq seg "switch"
      then switch_decoded m (json.switch body) s
      else if str_eq seg "factory_reset"
      then erased r (with_store st s)
      else (not_found, s)

  unfoldable pub wifi_get : String → ApiResp F32
  wifi_get action = if str_eq action "scan" then no_networks else not_found

  unfoldable pub wifi_post : String → ApiResp F32
  wifi_post action = if str_eq action "reconnect" then no_content else not_found

  unfoldable pub alarm_post : Moment → String → Server p → Handled
  alarm_post m action s =
      if str_eq action "clear"
      then (no_content, record s { app = clear_flow_alarm p m.reading s.app })
      else (not_found, s)

  abbrev pub test_decoded : Moment → Decoded TestReq → Server p → Handled
  test_decoded m (invalid e) s = (json_error "bad json: " e, s)
  test_decoded m (parsed t) s = (
    result_ok,
    record s { app = emit_event p m.reading (record { kind = t.kind; vars = t.vars }) s.app },
  )

  unfoldable pub webhooks_post : Moment → String → Bytes → Server p → Handled
  webhooks_post m action body s =
      if str_eq action "test" then test_decoded m (json.test body) s else (not_found, s)

  unfoldable pub config_section_get : String → Server p → ApiResp F32
  unfolding parse
  config_section_get section s = elim (parse section) [
    | some sec ↦ stream (section_of (redact_secrets_for_api s.app.config) sec)
    | none ↦ error "unknown config section"
  ]

  -- `full.get_mut(section)`, and the merge into it.
  abbrev pub merged : String → Value F32 → Value F32 → Option (Value F32)
  merged section incoming (object m) = elim (get section m) [
    | some target ↦ some (object (set section (merge target incoming) m))
    | none ↦ none
  ]
  merged section incoming _ = none

  abbrev pub section_merged : Moment → Option (Value F32) → Server p → Handled
  section_merged m none s = (error "unknown config section", s)
  section_merged m (some tree) s = put_decoded m "invalid config: " (json.from_value tree) s

  abbrev pub section_valued : Moment → String → Value F32 → Option (Value F32) → Server p → Handled
  section_valued m section incoming none s = (error "config serialize failed", s)
  section_valued m section incoming (some tree) s =
      section_merged m (merged section incoming tree) s

  abbrev pub section_decoded : Moment → String → Decoded (Value F32) → Server p → Handled
  section_decoded m section (invalid e) s = (json_error "bad json: " e, s)
  section_decoded m section (parsed incoming) s =
      section_valued m section incoming (json.to_value s.app.config) s

  unfoldable pub config_section_put : Moment → String → Bytes → Server p → Handled
  unfolding restore_and_save merge
  config_section_put m section body s = section_decoded m section (json.value body) s

-- ===== src/Serial.antt =====
-- crates/firmware/src/serial_cli.rs: the console on the serial line. What a command prints is a list of
-- replies; the parts that only print (help, the tables of tasks and of the heap) are one reply each.
pub mod Line
pub mod Stored
pub mod Commas
mod Tests
use watercontroller.Base.{
  ℕ, ◌+◌, ◌&&◌, leb, ascii, String, Bool, true, false, Option, none, some, List, [], ◌∷◌, ◌++◌,
  ◌==◌, not, length, retain, is_empty, str_eq, if◌then◌else◌,
}
use watercontroller.State.{WifiState}
use watercontroller.Config.{Config, WifiCreds}
use watercontroller.Config.Persist
use watercontroller.Config.Persist.{Codec, ConfigError, Result, save}
use watercontroller.Webhook
use watercontroller.Webhook.{EventKind}
use watercontroller.Webhook.Kinds.{from_wire}
use watercontroller.App.{replace_config_section, emit_event}
use watercontroller.App.Env.{Platform}
use watercontroller.App.FlowAlarm.{clear_flow_alarm}
use watercontroller.Http.{Server, connect, reconnect}
use watercontroller.Http.Routes.{Moment, ScanResult}

pub data LogLevel : Type 0 where
  off error warn info debug trace : LogLevel

-- A change of the list of networks.
pub data Edit : Type 0 where
  add : (ssid password : String) → Edit
  del : (ssid : String) → Edit
  clear : Edit

-- What the words of a line ask for.
pub data Command : Type 0 where
  help state wifi_list wifi_connect wifi_scan tasks mem alarm_status alarm_clear : Command
  webhook_list ap_info https_show reset factory_reset nothing : Command
  edit : Edit → Command
  log : LogLevel → Command
  webhook_fire : (kind : String) → Command
  https_set : (on : Bool) → Command
  usage : String → Command
  unknown : String → Command

pub data Reply : Type 0 where
  shown : Command → Reply
  added removed no_such : (ssid : String) → Reply
  cleared : (n : ℕ) → Reply
  save_failed reset_failed : ConfigError → Reply
  signaled level_set alarm_cleared : Reply
  emitted unknown_kind : (kind : String) → Reply
  https_is : (enabled : Bool) → Reply
  networks_saved : List (String × Bool) → Reply

abbrev first_or_empty : List String → String
first_or_empty [] = ""
first_or_empty (w ∷ ws) = w

abbrev same_codes : List ℕ → List ℕ → Bool
same_codes [] [] = true
same_codes (a ∷ s) (b ∷ t) = let rest = same_codes s t in if a == b then rest else false
same_codes _ _ = false

abbrev lower : List ℕ → List ℕ
lower [] = []
lower (c ∷ cs) = (if leb 65 c && leb c 90 then c + 32 else c) ∷ lower cs

-- `level_str.to_ascii_lowercase()` is one of the names.
abbrev is_level : String → List String → Bool
is_level w [] = false
is_level w (name ∷ names) =
    let rest = is_level w names in if same_codes (lower (ascii w)) (ascii name) then true else rest

unfoldable pub level_of : String → Option LogLevel
level_of w =
    if is_level w ("off" ∷ "none" ∷ [])
    then some off
    else if is_level w ("error" ∷ [])
    then some error
    else if is_level w ("warn" ∷ "warning" ∷ [])
    then some warn
    else if is_level w ("info" ∷ [])
    then some info
    else if is_level w ("debug" ∷ [])
    then some debug
    else if is_level w ("trace" ∷ "verbose" ∷ [])
    then some trace
    else none

abbrev log_usage : Command
log_usage = usage "log <off|error|warn|info|debug|trace>"

abbrev level_command : Option LogLevel → Command
level_command none = log_usage
level_command (some l) = log l

abbrev log_words : List String → Command
log_words [] = log_usage
log_words (w ∷ ws) = level_command (level_of w)

-- An `ssid` that is missing or empty is refused; a missing password is empty.
abbrev add_words : String → String → Command
add_words ssid password =
    if is_empty ssid then usage "wifi add <ssid> [password]" else edit (add ssid password)

abbrev del_words : String → Command
del_words ssid = if is_empty ssid then usage "wifi del <ssid>" else edit (del ssid)

abbrev rest_of : List String → List String
rest_of [] = []
rest_of (w ∷ ws) = ws

unfoldable pub wifi_words : List String → Command
wifi_words [] = usage "wifi <list|add|del|clear|connect|scan>"
wifi_words (w ∷ ws) =
    if str_eq w "list"
    then wifi_list
    else if str_eq w "add"
    then add_words (first_or_empty ws) (first_or_empty (rest_of ws))
    else if str_eq w "del"
    then del_words (first_or_empty ws)
    else if str_eq w "clear"
    then edit clear
    else if str_eq w "connect"
    then wifi_connect
    else if str_eq w "scan"
    then wifi_scan
    else usage "wifi <list|add|del|clear|connect|scan>"

abbrev alarm_words : List String → Command
alarm_words [] = usage "alarm <status|clear>"
alarm_words (w ∷ ws) =
    if str_eq w "status"
    then alarm_status
    else if str_eq w "clear"
    then alarm_clear
    else usage "alarm <status|clear>"

abbrev fire_words : List String → Command
fire_words [] = usage "webhook fire <event_kind>"
fire_words (w ∷ ws) = webhook_fire w

abbrev webhook_words : List String → Command
webhook_words [] = usage "webhook <list|fire <event_kind>>"
webhook_words (w ∷ ws) =
    if str_eq w "list"
    then webhook_list
    else if str_eq w "fire"
    then fire_words ws
    else usage "webhook <list|fire <event_kind>>"

abbrev https_words : List String → Command
https_words [] = https_show
https_words (w ∷ ws) =
    if str_eq w "on" then https_set true else if str_eq w "off" then https_set false else https_show

-- The `match` of `dispatch` on the words of a line.
unfoldable pub command_of : List String → Command
unfolding wifi_words level_of
command_of [] = nothing
command_of (w ∷ ws) =
    if str_eq w "help"
    then help
    else if str_eq w "state"
    then state
    else if str_eq w "wifi"
    then wifi_words ws
    else if str_eq w "log"
    then log_words ws
    else if str_eq w "tasks"
    then tasks
    else if str_eq w "mem"
    then mem
    else if str_eq w "alarm"
    then alarm_words ws
    else if str_eq w "webhook"
    then webhook_words ws
    else if str_eq w "ap-info"
    then ap_info
    else if str_eq w "https"
    then https_words ws
    else if str_eq w "reset"
    then reset
    else if str_eq w "factory_reset"
    then factory_reset
    else unknown w

-- `nets.retain(|n| n.ssid != ssid)`.
abbrev pub without_ssid : String → List WifiCreds → List WifiCreds
without_ssid ssid nets = retain (λ n. not (str_eq n.ssid ssid)) nets

-- The closures that `modify_networks` gets, with their summaries.
unfoldable pub apply_edit : Edit → List WifiCreds → List WifiCreds × Reply
apply_edit (add ssid password) nets =
    (without_ssid ssid nets ++ record { ssid = ssid; password = password } ∷ [], added ssid)
apply_edit (del ssid) nets =
    let left = without_ssid ssid nets in
    (left, if length left == length nets then no_such ssid else removed ssid)
apply_edit clear nets = ([], cleared (length nets))

-- `list_networks`: the SSIDs, and whether there is a password.
unfoldable pub list_networks : List WifiCreds → List (String × Bool)
list_networks [] = []
list_networks (n ∷ nets) = (n.ssid, not (is_empty n.password)) ∷ list_networks nets

-- The device, and the level of its log.
pub record Console (p : Platform) : Type 0 where
  pub server : Server p
  pub level : Option LogLevel

module _ (p : Platform) (codec : Codec (Config p.F32)) (default : Config p.F32) where
  open p use {F32, nvs}

  abbrev pub with_store : nvs.Store → Server p → Server p
  with_store st s = record s { nvs = st; app = record s.app { store = some st } }

  -- What follows a save: an error, or `replace_config`.
  abbrev pub kept : Result (Unit {0}) → Moment → Config F32 → Server p → Server p
  kept (Persist.err e) m cfg s = s
  kept (Persist.ok _) m cfg s = record s {
    app = replace_config_section p m.reading cfg "all" s.app;
  }

  abbrev reply_of : Result (Unit {0}) → Reply → Reply
  reply_of (Persist.err e) r = save_failed e
  reply_of (Persist.ok _) r = r

  abbrev pub signal : Result (Unit {0}) → List WifiCreds → Server p → Server p
  signal (Persist.err e) nets s = s
  signal (Persist.ok _) nets s = record s { wifi = s.wifi ++ connect nets ∷ [] }

  unfoldable pub modify_networks : Moment → Edit → Server p → Server p × Reply
  unfolding apply_edit
  modify_networks m e s =
      let (nets, summary) = apply_edit e s.app.config.wifi.networks in
      let cfg = record s.app.config { wifi = record s.app.config.wifi { networks = nets } } in
      let (r, st) = save p.nvs codec default cfg s.nvs in
      (signal r nets (kept r m cfg (with_store st s)), reply_of r summary)

  unfoldable pub set_https : Moment → Bool → Server p → Server p × Reply
  set_https m on s =
      let cfg = record s.app.config { https = record s.app.config.https { enabled = on } } in
      let (r, st) = save p.nvs codec default cfg s.nvs in
      (kept r m cfg (with_store st s), reply_of r (https_is on))

  unfoldable pub fire_webhook : Moment → String → Server p → Server p × Reply
  unfolding from_wire emit_event
  fire_webhook m kind_str s = elim (from_wire kind_str) [
    | none ↦ (s, unknown_kind kind_str)
    | some kind ↦
        (record s { app = emit_event p m.reading (Webhook.new kind) s.app }, emitted kind_str)
  ]

  abbrev pub reset_done : Result (Unit {0}) → Server p → Server p × Reply
  reset_done (Persist.err e) s = (s, reset_failed e)
  reset_done (Persist.ok _) s = (record s { restarting = true }, shown factory_reset)

  abbrev on_server : Server p × Reply → Console p → Console p × List Reply
  on_server (s, r) c = (record c { server = s }, r ∷ [])

  unfoldable pub execute : Moment → Command → Console p → Console p × List Reply
  unfolding modify_networks set_https fire_webhook list_networks
  execute m nothing c = (c, [])
  execute m (edit e) c = on_server (modify_networks m e c.server) c
  execute m wifi_list c = (c, networks_saved (list_networks c.server.app.config.wifi.networks) ∷ [])
  execute m wifi_connect c = (
    record c { server = record c.server { wifi = c.server.wifi ++ reconnect ∷ [] } },
    signaled ∷ [],
  )
  execute m (log l) c = (record c { level = some l }, level_set ∷ [])
  execute m alarm_clear c = (
    record c { server = record c.server { app = clear_flow_alarm p m.reading c.server.app } },
    alarm_cleared ∷ [],
  )
  execute m (webhook_fire kind_str) c = on_server (fire_webhook m kind_str c.server) c
  execute m (https_set on) c = on_server (set_https m on c.server) c
  execute m https_show c = (c, https_is c.server.app.config.https.enabled ∷ [])
  execute m reset c =
      (record c { server = record c.server { restarting = true } }, shown reset ∷ [])
  execute m factory_reset c =
      let (r, st) = Persist.factory_reset p.nvs codec default c.server.nvs in
      on_server (reset_done r (with_store st c.server)) c
  execute m cmd c = (c, shown cmd ∷ [])

  unfoldable pub dispatch : Moment → List String → Console p → Console p × List Reply
  unfolding execute command_of
  dispatch m words c = execute m (command_of words) c

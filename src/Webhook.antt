-- ===== src/Webhook.antt =====
-- crates/core/src/webhook.rs: the events, their variables, and the body template.
pub mod Kinds
pub mod Vars
pub mod Dispatch
pub mod Queue
mod Tests
use watercontroller.Base.{
  ℕ, String, Bool, true, false, Option, none, some, List, [], ◌∷◌, ◌<>◌, str_eq, str_ltb, replace,
  if◌then◌else◌,
}

pub data EventKind : Type 0 where
  flow_alarm_fire flow_alarm_clear boot panic_boot schedule_fire wifi_flap : EventKind
  mqtt_down ota_completed ota_rollback water_budget_exceeded : EventKind
  config_changed manual_valve_off : EventKind

unfoldable pub as_str : EventKind → String
as_str flow_alarm_fire = "flow_alarm.fire"
as_str flow_alarm_clear = "flow_alarm.clear"
as_str boot = "boot"
as_str panic_boot = "panic_boot"
as_str schedule_fire = "schedule.fire"
as_str wifi_flap = "wifi.flap"
as_str mqtt_down = "mqtt.down"
as_str ota_completed = "ota.completed"
as_str ota_rollback = "ota.rollback"
as_str water_budget_exceeded = "water_budget.exceeded"
as_str config_changed = "config.changed"
as_str manual_valve_off = "manual.valve_off"

unfoldable pub label : EventKind → String
label flow_alarm_fire = "Flow alarm fired"
label flow_alarm_clear = "Flow alarm cleared"
label boot = "Device booted"
label panic_boot = "Device rebooted after a crash"
label schedule_fire = "Schedule rule fired"
label wifi_flap = "WiFi reconnect storm"
label mqtt_down = "MQTT broker unreachable"
label ota_completed = "OTA update completed"
label ota_rollback = "OTA rolled back"
label water_budget_exceeded = "Water budget exceeded"
label config_changed = "Configuration changed"
label manual_valve_off = "Water valve manually closed"

-- `EventKind::all()`, in declaration order.
abbrev pub all : List EventKind
all =
    flow_alarm_fire ∷ flow_alarm_clear ∷ boot ∷ panic_boot ∷ schedule_fire ∷ wifi_flap ∷ mqtt_down
    ∷ ota_completed ∷ ota_rollback ∷ water_budget_exceeded ∷ config_changed ∷ manual_valve_off ∷ []

pub data WebhookKind : Type 0 where
  generic slack discord home_assistant : WebhookKind

pub record HeaderEntry : Type 0 where
  pub name : String
  pub value : String

pub record WebhookConfig : Type 0 where
  pub enabled : Bool
  pub url : String
  pub kind : WebhookKind
  pub events : List EventKind
  pub method : String
  pub headers : List HeaderEntry
  pub body_template : String

abbrev pub webhooks_max : ℕ
webhooks_max = 4

-- `BTreeMap<String, String>`: the entries, in the order of their keys.
abbrev pub VarMap : Type 0
VarMap = List (String × String)

pub record WebhookEvent : Type 0 where
  pub kind : EventKind
  pub vars : VarMap

-- `vars.get(key)`.
unfoldable pub get : String → VarMap → Option String
get key [] = none
get key ((k, v) ∷ m) = let rest = get key m in if str_eq k key then some v else rest

-- `vars.insert(key, value)`: a key that is there keeps its place and gets the new value.
unfoldable pub insert : String → String → VarMap → VarMap
insert key value [] = (key, value) ∷ []
insert key value ((k, v) ∷ m) =
    let rest = insert key value m in
    if str_eq k key
    then (key, value) ∷ m
    else if str_ltb key k
    then (key, value) ∷ (k, v) ∷ m
    else (k, v) ∷ rest

-- `if let Entry::Vacant(e) = vars.entry(key) { e.insert(value); }`.
unfoldable pub insert_if_vacant : String → String → VarMap → VarMap
unfolding get insert
insert_if_vacant key value m = elim (get key m) [ none ↦ insert key value m | some _ ↦ m ]

unfoldable pub new : EventKind → WebhookEvent
new kind = record { kind = kind; vars = [] }

unfoldable pub with_var : String → String → WebhookEvent → WebhookEvent
unfolding insert
with_var key value ev = record ev { vars = insert key value ev.vars }

abbrev placeholder : String → String
placeholder k = "{{" <> k <> "}}"

unfoldable pub render_template : String → VarMap → String
render_template out [] = out
render_template out ((k, v) ∷ vars) = render_template (replace (placeholder k) v out) vars

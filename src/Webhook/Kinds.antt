-- ===== src/Webhook/Kinds.antt =====
-- webhook.rs: the names of the events on the wire.
use watercontroller.Base.{
  String, Bool, true, false, Option, none, some, List, [], ◌∷◌, ◌≡◌, refl, arith, All, str_eq,
  str_eq_iff, if◌then◌else◌,
}
use watercontroller.Webhook.{
  EventKind, as_str, all, flow_alarm_fire, flow_alarm_clear, boot, panic_boot, schedule_fire,
  wifi_flap, mqtt_down, ota_completed, ota_rollback, water_budget_exceeded, config_changed,
  manual_valve_off,
}

-- The names of the `#[serde(rename = …)]` attributes, by which `serde` reads an `EventKind`.
abbrev renames : List (String × EventKind)
renames =
    ("flow_alarm.fire", flow_alarm_fire)
    ∷ ("flow_alarm.clear", flow_alarm_clear)
    ∷ ("boot", boot)
    ∷ ("panic_boot", panic_boot)
    ∷ ("schedule.fire", schedule_fire)
    ∷ ("wifi.flap", wifi_flap)
    ∷ ("mqtt.down", mqtt_down)
    ∷ ("ota.completed", ota_completed)
    ∷ ("ota.rollback", ota_rollback)
    ∷ ("water_budget.exceeded", water_budget_exceeded)
    ∷ ("config.changed", config_changed)
    ∷ ("manual.valve_off", manual_valve_off)
    ∷ []

find_name : String → List (String × EventKind) → Option EventKind
find_name s [] = none
find_name s ((name, k) ∷ names) =
    let rest = find_name s names in if str_eq name s then some k else rest

unfoldable pub from_wire : String → Option EventKind
unfolding find_name
from_wire s = find_name s renames

from_wire-as_str : (k : EventKind) → from_wire (as_str k) ≡ some k
unfolding from_wire as_str
from_wire-as_str flow_alarm_fire = refl
from_wire-as_str _ = refl

find_name_sound :
    (s : String) (k : EventKind) (names : List (String × EventKind))
    → All (λ p. as_str p.1 ≡ p.0) names
    → find_name s names ≡ some k
    → as_str k ≡ s
unfolding find_name
find_name_sound s k [] h e = cc
find_name_sound s k ((name, j) ∷ names) (h, hs) e =
    ground (arith, str_eq_iff name s, find_name_sound s k names hs)

as_str-from_wire : (s : String) (k : EventKind) → from_wire s ≡ some k → as_str k ≡ s
unfolding from_wire as_str
as_str-from_wire s k h =
    find_name_sound s k renames
      (
        refl,
        (refl, (refl, (refl, (refl, (refl, (refl, (refl, (refl, (refl, (refl, (refl, tt))))))))))),
      )
      h

pub contains : EventKind → List EventKind → Bool
contains k [] = false
contains k (x ∷ xs) =
    let rest = contains k xs in if str_eq (as_str x) (as_str k) then true else rest

-- The name that the program prints for an event is the one that a configuration or a request is read
-- by, in both directions, and `EventKind::all` lists every event.
pub event_names :
    (k : EventKind)
    → (from_wire (as_str k) ≡ some k)
      × ((s : String) → from_wire s ≡ some k → as_str k ≡ s)
      × (contains k all ≡ true)
event_names k = (from_wire-as_str k, λ s h. as_str-from_wire s k h, listed k)
  where
    listed : (k : EventKind) → contains k all ≡ true
    listed flow_alarm_fire = unfold contains as_str in refl
    listed _ = unfold contains as_str in refl

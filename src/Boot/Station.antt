-- ===== src/Boot/Station.antt =====
-- crates/firmware-nostd/src/main.rs, `connection_task`: the networks in turn, and the way out to the
-- setup portal. What the radio answers and what happens on a link are arguments of a turn.
use Prim.Native.String
use watercontroller.Base.{
  ℕ, ◌+◌, ◌*◌, ◌%◌, String, Bool, true, false, Option, none, some, List, [], ◌∷◌, ◌++◌, ℤ, leb,
  length, drop, if◌then◌else◌,
}
use watercontroller.Config.{WifiCreds}
use watercontroller.Http.{WifiScanResult}
use watercontroller.Nvs.{NvsStore}
use watercontroller.Boot.{sta, ap, write_boot_mode}

-- `AuthenticationMethod` of the crate esp_radio; `other` is any further method.
pub data AuthMethod : Type 0 where
  open_network wep wpa wpa2_personal wpa_wpa2_personal wpa2_enterprise other : AuthMethod

pub record AccessPointInfo : Type 0 where
  pub ssid : String
  pub signal_strength : ℤ
  pub auth_method : Option AuthMethod
  pub channel : ℕ

abbrev auth_name : Option AuthMethod → String
auth_name none = "open"
auth_name (some open_network) = "open"
auth_name (some wep) = "wep"
auth_name (some wpa) = "wpa"
auth_name (some wpa2_personal) = "wpa2"
auth_name (some wpa_wpa2_personal) = "wpa2"
auth_name (some wpa2_enterprise) = "wpa2"
auth_name (some other) = "wpa3"

unfoldable pub ap_to_result : AccessPointInfo → WifiScanResult
ap_to_result i = record {
  ssid = i.ssid;
  rssi_dbm = i.signal_strength;
  auth = auth_name i.auth_method;
  channel = i.channel;
}

abbrev results : Option (List AccessPointInfo) → List WifiScanResult
results none = []
results (some []) = []
results (some (i ∷ is)) = ap_to_result i ∷ results (some is)

-- What ends a wait on a link, but for its loss: a sample of the signal, or a request of a scan.
pub data LinkEvent : Type 0 where
  sampled : Option ℤ → LinkEvent
  scanned : Option (List AccessPointInfo) → LinkEvent

-- What the radio answers: the settings are refused, the join fails, or there is a link with these
-- events up to its loss.
pub data Attempt : Type 0 where
  unset refused : Attempt
  joined : List LinkEvent → Attempt

module _ (n : NvsStore) where
  -- The variables of the task, the static ones that it writes, the store, and whether a reboot was
  -- requested. `tried` are the networks that the radio was given.
  pub record Station : Type 0 where
    pub idx : ℕ
    pub fails : ℕ
    pub store : n.Store
    pub reboot : Bool
    pub connected_ssid : String
    pub wifi_rssi : ℤ
    pub scan_result : Option (List WifiScanResult)
    pub tried : List WifiCreds

  abbrev pub started : n.Store → Station
  started s = record {
    idx = 0;
    fails = 0;
    store = s;
    reboot = false;
    connected_ssid = "";
    wifi_rssi = ℤ.pos 0;
    scan_result = none;
    tried = [];
  }

  unfoldable pub linked : List LinkEvent → Station → Station
  unfolding ap_to_result
  linked [] t = record t { wifi_rssi = ℤ.pos 0 }
  linked (sampled none ∷ es) t = linked es t
  linked (sampled (some r) ∷ es) t = linked es (record t { wifi_rssi = r })
  linked (scanned found ∷ es) t = linked es (record t { scan_result = some (results found) })

  -- A `heapless::String<33>` that has no room for the text stays empty.
  abbrev fitted : String → String
  fitted s = if leb (String.len s) 33 then s else ""

  abbrev failed : WifiCreds → Station → Station
  failed net t = record t { idx = t.idx + 1; fails = t.fails + 1; tried = t.tried ++ net ∷ [] }

  -- A join writes the hint and forgets the failures.
  abbrev joins : WifiCreds → Station → Station
  joins net t = record t {
    fails = 0;
    store = write_boot_mode n sta t.store;
    connected_ssid = fitted net.ssid;
    tried = t.tried ++ net ∷ [];
  }

  unfoldable pub attempt : WifiCreds → Attempt → Station → Station
  unfolding linked
  attempt net unset t = failed net t
  attempt net refused t = failed net t
  attempt net (joined es) t = linked es (joins net t)

  -- `networks[idx]`, which is in range.
  abbrev attempt_at : List WifiCreds → Attempt → Station → Station
  attempt_at [] a t = t
  attempt_at (net ∷ nets) a t = attempt net a t

  -- One turn of the loop, with the networks of the configuration of that moment.
  unfoldable pub turn : List WifiCreds → Attempt → Station → Station
  unfolding attempt
  turn [] a t = t
  turn (c ∷ cs) a t =
      let nets = c ∷ cs in
      let idx = t.idx % length nets in
      if leb (length nets * 3) t.fails
      then record t { store = write_boot_mode n ap t.store; reboot = true }
      else attempt_at (drop idx nets) a (record t { idx = idx })

  unfoldable pub run : List WifiCreds → List Attempt → Station → Station
  run nets [] t = t
  run nets (a ∷ as') t = run nets as' (turn nets a t)

-- ===== src/Supervisor.antt =====
-- crates/firmware/src/net_wifi.rs: the Wi-Fi supervisor, a thread that owns the radio, and the calls of
-- the trait `Wifi` that other threads make in between.
pub mod Probes
pub mod Updates
mod Tests
use watercontroller.Base.{
  ℕ, suc, ◌+◌, ◌%◌, String, Bool, true, false, not, ◌&&◌, Option, none, some, List, [], ◌∷◌, ◌==◌,
  leb, str_eq, if◌then◌else◌,
}
use watercontroller.State.{WifiState, disconnected, connecting, connected, ap_mode}
use watercontroller.Config.{WifiCreds}

-- `WifiSupervisor`. A pending request of a scan is known by a number.
pub record Supervisor : Type 0 where
  pub state : WifiState
  pub networks : List WifiCreds
  pub rescan_signal : Bool
  pub beacon_timeout : Bool
  pub scan_request : Option ℕ
  pub ap_ssid : String
  pub ap_password : String

-- `WifiSupervisor::spawn`.
unfoldable pub spawn : String → String → List WifiCreds → Supervisor
spawn ap_ssid ap_password initial_networks = record {
  state = disconnected;
  networks = initial_networks;
  rescan_signal = true;
  beacon_timeout = false;
  scan_request = none;
  ap_ssid = ap_ssid;
  ap_password = ap_password;
}

abbrev same_creds : WifiCreds → WifiCreds → Bool
same_creds a b = str_eq a.ssid b.ssid && str_eq a.password b.password

-- `cur.len() == networks.len() && cur.iter().zip(networks.iter()).all(|(a, b)| a == b)`.
unfoldable pub same_networks : List WifiCreds → List WifiCreds → Bool
same_networks [] [] = true
same_networks (a ∷ cur) (b ∷ nets) = let rest = same_networks cur nets in same_creds a b && rest
same_networks _ _ = false

unfoldable pub connect : List WifiCreds → Supervisor → Supervisor
unfolding same_networks
connect nets s =
    if same_networks s.networks nets then s else record s { networks = nets; rescan_signal = true }

unfoldable pub reconnect : Supervisor → Supervisor
reconnect s = record s { rescan_signal = true }

-- The first part of `scan`: the slot is taken, or the request is refused.
unfoldable pub request_scan : ℕ → Supervisor → Supervisor × Bool
request_scan id s = elim s.scan_request [
  | some other ↦ (s, false)
  | none ↦ (record s { scan_request = some id }, true)
]

-- `scan` after 20 seconds without a reply.
unfoldable pub scan_timed_out : Supervisor → Supervisor
scan_timed_out s = record s { scan_request = none }

-- The callback of `StaBeaconTimeout`.
unfoldable pub on_beacon_timeout : Supervisor → Supervisor
on_beacon_timeout s = record s { beacon_timeout = true }

-- Where the thread is: at the top of the loop of `run`; after it has copied the list; in
-- `try_connect_any` with the networks that are left; in `run_connected` with its counters; in the wait
-- of ten seconds; in `run_ap_permanent`. Each but the first has the list that it copied.
pub data Phase : Type 0 where
  top : Phase
  copied : List WifiCreds → Phase
  trying : (networks left : List WifiCreds) → Phase
  linked : (networks : List WifiCreds) (ticks probe_fails : ℕ) → Phase
  backing_off : List WifiCreds → Phase
  serving_ap : List WifiCreds → Phase

-- What the driver answers in one turn.
pub record Radio : Type 0 where
  pub try_connect_sta : WifiCreds → Bool
  pub ip : String
  pub is_connected : Bool
  pub assoc_ok : Bool
  pub gateway_ok : Bool
  pub start_ap : Bool

-- `probe_link`: whether to stay, and the consecutive failures.
unfoldable pub probe_link : Radio → ℕ → Bool × ℕ
probe_link r probe_fails =
    if r.assoc_ok && r.gateway_ok
    then (true, 0)
    else (not (leb 3 (probe_fails + 1)), probe_fails + 1)

-- `serve_scan_request`: the slot is emptied, and the reply is sent to the one that asked.
unfoldable pub serve_scan_request : Supervisor → Supervisor
serve_scan_request s = record s { scan_request = none }

unfoldable pub announce_connected : Radio → WifiCreds → Supervisor → Supervisor
announce_connected r creds s = record s {
  beacon_timeout = false;
  state = connected creds.ssid r.ip;
}

unfoldable pub enter_ap_mode : Radio → Supervisor → Supervisor
enter_ap_mode r s = if r.start_ap then record s { state = ap_mode s.ap_ssid "192.168.4.1" } else s

-- What follows a tick of `run_connected`.
abbrev ticked : Radio → List WifiCreds → ℕ → ℕ → Phase
ticked r nets ticks probe_fails =
    if ticks % 12 == 0
    then (let (stay, fails) = probe_link r probe_fails in
        if stay then linked nets ticks fails else top)
    else linked nets ticks probe_fails

-- One turn of `run_connected`.
unfoldable pub connected_turn : Radio → List WifiCreds → ℕ → ℕ → Supervisor → Supervisor × Phase
unfolding probe_link serve_scan_request
connected_turn r nets ticks probe_fails s =
    if not r.is_connected
    then (s, top)
    else if s.beacon_timeout
    then (record s { beacon_timeout = false }, top)
    else if s.rescan_signal
    then (serve_scan_request s, top)
    else (serve_scan_request s, ticked r nets (ticks + 1) probe_fails)

-- One turn of the thread.
unfoldable pub turn : Radio → Phase → Supervisor → Supervisor × Phase
unfolding connected_turn announce_connected enter_ap_mode serve_scan_request
turn r top s = (s, copied s.networks)
turn r (copied nets) s = (record s { rescan_signal = false }, trying nets nets)
turn r (trying [] []) s = (enter_ap_mode r s, serving_ap [])
turn r (trying nets []) s = (s, backing_off nets)
turn r (trying nets (creds ∷ left)) s =
    let s1 = record s { state = connecting creds.ssid } in
    if r.try_connect_sta creds
    then (announce_connected r creds s1, linked nets 0 0)
    else (s1, trying nets left)
turn r (linked nets ticks probe_fails) s = connected_turn r nets ticks probe_fails s
turn r (backing_off nets) s = (s, top)
turn r (serving_ap nets) s =
    if s.rescan_signal then (s, top) else (serve_scan_request s, serving_ap nets)

-- A turn of the thread, or a call from another thread.
pub data Event : Type 0 where
  turned : Radio → Event
  connect_called : List WifiCreds → Event
  reconnect_called : Event
  scan_called : ℕ → Event
  scan_expired beacon_lost : Event

unfoldable pub step : Event → Phase → Supervisor → Supervisor × Phase
unfolding turn connect reconnect request_scan scan_timed_out on_beacon_timeout
step (turned r) ph s = turn r ph s
step (connect_called nets) ph s = (connect nets s, ph)
step reconnect_called ph s = (reconnect s, ph)
step (scan_called id) ph s = ((request_scan id s).0, ph)
step scan_expired ph s = (scan_timed_out s, ph)
step beacon_lost ph s = (on_beacon_timeout s, ph)

unfoldable pub run : List Event → Phase → Supervisor → Supervisor × Phase
unfolding step
run [] ph s = (s, ph)
run (e ∷ es) ph s = let (s', ph') = step e ph s in run es ph' s'

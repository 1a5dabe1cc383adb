-- ===== src/Supervisor/Tests.antt =====
-- net_wifi.rs: instances of the theorems.
use watercontroller.Base.{◌≡◌, refl, true, List, [], ◌∷◌}
use watercontroller.Config.{WifiCreds}
use watercontroller.Supervisor.{
  Supervisor, spawn, same_networks, top, trying, linked, Radio, Event, turned, connect_called,
  scan_called, beacon_lost, turn, step, run,
}
use watercontroller.Supervisor.Probes.{unwatched, watched, IsLive}
use watercontroller.Supervisor.Updates.{IsCurrent, spawn-run, connect-takes_over}

abbrev home : List WifiCreds
home = record { ssid = "home"; password = "secret" } ∷ []

abbrev garden : List WifiCreds
garden = record { ssid = "garden"; password = "" } ∷ home

abbrev good : Radio
good = record {
  try_connect_sta = λ c. true;
  ip = "10.0.0.7";
  is_connected = true;
  assoc_ok = true;
  gateway_ok = true;
  start_ap = true;
}

abbrev started : Supervisor
started = spawn "setup" "" home

-- A link, a new list, a lost beacon, and a probe that never comes.
abbrev events : List Event
events =
    turned good
    ∷ turned good
    ∷ turned good
    ∷ connect_called garden
    ∷ scan_called 1
    ∷ beacon_lost
    ∷ turned good
    ∷ []

spawn-run_example :
    let (s, ph) = run events top started in
    IsCurrent ph s × IsLive ph (watched events top started unwatched)
unfolding step turn spawn
spawn-run_example = spawn-run "setup" "" home events (tt, (tt, (tt, (tt, (tt, (tt, (tt, tt)))))))

connect-takes_over_example :
    (run
      (connect_called garden ∷ turned good ∷ turned good ∷ turned good ∷ [])
      (linked home 7 1)
      started).1
    ≡ trying garden garden
unfolding spawn same_networks
connect-takes_over_example = (connect-takes_over garden home 7 1 started good good good refl).0

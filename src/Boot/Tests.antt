-- ===== src/Boot/Tests.antt =====
-- The radio mode: instances of the theorems over the store in flash, with a flash that never fails.
use watercontroller.Base.{◌≡◌, refl, arith, true, false, none, List, [], ◌∷◌, ◌++◌, str_ltb}
use watercontroller.Config.{WifiCreds}
use watercontroller.FlashKv.{
  store, set, flush, insert, serialized, push_entries, push_entry, to_le_bytes,
}
use watercontroller.FlashKv.Codes.{by_codes, codes}
use watercontroller.FlashKv.Restart.{call-lookup, call, setting, value_after}
use watercontroller.FlashKv.Bench.{nor, blank}
use watercontroller.Boot.{boot_mode_key, boot_ap}
use watercontroller.Boot.Station.{unset, refused, started, turn, run}
use watercontroller.Boot.Fallback.{ReadsBack, run-fallback}

reads_back : ReadsBack (store by_codes nor)
unfolding call value_after set
reads_back s b ok = call-lookup by_codes nor (setting boot_mode_key b) s boot_mode_key

abbrev nets : List WifiCreds
nets = record { ssid = "home"; password = "a" } ∷ record { ssid = "guest"; password = "" } ∷ []

portal_written : ((store by_codes nor).set blank boot_mode_key (1 ∷ [])).0 ≡ none
unfolding set flush insert serialized push_entries push_entry to_le_bytes codes str_ltb
portal_written = refl

run-fallback_example :
    let rounds = (unset ∷ refused ∷ []) ++ ((refused ∷ unset ∷ []) ++ (refused ∷ refused ∷ [])) in
    let t = run (store by_codes nor) nets rounds (started (store by_codes nor) blank) in
    (t.tried ≡ nets ++ (nets ++ nets))
    × (t.reboot ≡ false)
    × (t.store ≡ blank)
    × ((turn (store by_codes nor) nets refused t).reboot ≡ true)
    × (boot_ap (store by_codes nor) [] (turn (store by_codes nor) nets refused t).store ≡ true)
run-fallback_example =
    run-fallback (store by_codes nor) reads_back nets [] (unset ∷ refused ∷ [])
      (refused ∷ unset ∷ []) (refused ∷ refused ∷ []) refused blank (omega arith)
      (refl, (tt, (tt, tt))) (refl, (tt, (tt, tt))) (refl, (tt, (tt, tt))) portal_written

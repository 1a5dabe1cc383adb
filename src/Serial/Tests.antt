-- ===== src/Serial/Tests.antt =====
-- serial_cli.rs: instances of the theorems, and a line that is typed with a mistake.
use watercontroller.Base.{◌≡◌, refl, String, none, List, [], ◌∷◌, inr}
use watercontroller.Nvs.Fake.{fake_laws, lookup}
use watercontroller.Config.Persist.{load}
use watercontroller.App.{with_nvs}
use watercontroller.App.Bench.{bench, guarded}
use watercontroller.Http.Routes.{Moment}
use watercontroller.Http.Bench.{exact, exact_back, json, device, now}
use watercontroller.Serial.{Console}
use watercontroller.Serial.Line.{key, pop, words_from, read_keys}
use watercontroller.Serial.Stored.{Sound, dispatch_all, dispatch_all-Sound}

abbrev console : Console bench
console = record { server = record device { nvs = ("wc.cfg", 7 ∷ []) ∷ [] }; level = none }

abbrev lines : List (Moment × List String)
lines = (now, "wifi" ∷ "add" ∷ "home" ∷ "other" ∷ []) ∷ (now, "wifi" ∷ "del" ∷ "guest" ∷ []) ∷ []

dispatch_all-Sound_example :
    Sound bench fake_laws exact guarded json
      (dispatch_all bench fake_laws exact guarded json lines console).server
unfolding with_nvs load lookup
dispatch_all-Sound_example =
    dispatch_all-Sound bench fake_laws exact guarded json exact_back lines console
      (inr refl, (tt, tt))

two_words : read_keys "" "wifi  lisu\u{8}t\r" ≡ (("wifi" ∷ "list" ∷ []) ∷ [], "")
unfolding read_keys key pop words_from
two_words = refl

-- ===== src/Broker/Tests.antt =====
-- mqtt.rs: a session on a device for tests, as an instance of the theorem.
use watercontroller.Base.{◌≡◌, refl, true, none, ascii, List, [], ◌∷◌, ℕ, to_string}
use watercontroller.Mqtt as Core
use watercontroller.Mqtt.{Client, Printer}
use watercontroller.App.{with_nvs, sprinkler_1}
use watercontroller.App.Run.{commanded, configured}
use watercontroller.App.Bench.{bench, boot, epoch, guarded}
use watercontroller.Broker.{Link, Event, timer, message, other, fw_version, run_session}
use watercontroller.Broker.Same.{installed, core_serve, run_session-core}

abbrev printer : Printer ℕ
printer = record {
  fixed_1 = to_string;
  fixed_2 = to_string;
  fixed_3 = to_string;
  signed = λ z. "-60";
}

abbrev idle : Link
idle = record { client = record { published = []; subscriptions = []; handler = none }; calls = 0 }

abbrev events : List (Event (λ n. true) bench)
events =
    message 5 "doremorwater/water_control/set" (ascii "ON")
    ∷ timer
    ∷ other (commanded 7000 (sprinkler_1 true))
    ∷ other (configured epoch (record guarded { admin_token = "new" }) "auth")
    ∷ timer
    ∷ []

run_session-core_example :
    let s = run_session (λ n. true) bench events boot idle in
    (s.up ≡ true)
    × (core_serve
          (λ n. true)
          (λ n. refl)
          bench
          printer
          events
          (boot, Core.on_connect boot.config fw_version idle.client)
        ≡ (s.app, installed boot.config.mqtt.base_topic s.link.client))
unfolding with_nvs
run_session-core_example =
    run_session-core (λ n. true) (λ n. refl) bench printer events boot idle
      (tt, (tt, (tt, (refl, (tt, tt)))))

-- ===== src/Mqtt/Tests.antt =====
-- mqtt_dispatch.rs: the source's tests, and instances of the theorems.
use watercontroller.Base.{ℕ, ◌≡◌, refl, true, none, some, [], ascii, to_string}
use watercontroller.App.{sprinkler_2}
use watercontroller.App.Bench.{guarded}
use watercontroller.Mqtt.{Client, Printer, bytes_eq, parse_switch, parse_command, context}
use watercontroller.Mqtt.Discovery.{switch_command_topic}
use watercontroller.Mqtt.Routing.{parse_command_iff}

abbrev fresh : Client
fresh = record { published = []; subscriptions = []; handler = none }

abbrev printer : Printer ℕ
printer = record {
  fixed_1 = to_string;
  fixed_2 = to_string;
  fixed_3 = to_string;
  signed = λ z. "-60";
}

parse_command_iff_example :
    parse_command "doremorwater" "doremorwater/sprinkler_2/set" (ascii "on")
    ≡ some (sprinkler_2 true)
unfolding switch_command_topic parse_switch bytes_eq
parse_command_iff_example =
    (parse_command_iff (context guarded "0.1.0") "doremorwater/sprinkler_2/set" (ascii "on")
        (sprinkler_2 true)).1
      (refl, refl)

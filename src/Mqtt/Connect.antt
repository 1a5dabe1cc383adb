-- ===== src/Mqtt/Connect.antt =====
-- crates/core/src/mqtt_dispatch.rs: what a connection subscribes to and what it then obeys.
use watercontroller.Base.{
  ℕ, ◌∙◌, ◌≡◌, ◌≢◌, refl, String, some, List, [], ◌∷◌, inl, inr, Option-cases,
}
use watercontroller.Nvs.{Bytes}
use watercontroller.Config.{Config}
use watercontroller.App.{App, SwitchCommand, switch_command}
use watercontroller.App.Env.{Platform}
use watercontroller.Mqtt.{
  Client, publish, subscribe, publish_all, on_connect, context, inject, parse_command, parse_switch,
}
use watercontroller.Mqtt.Discovery.{
  DiscoveryMsg, switch_command_topic, sensor, switch, binary_sensor,
}
use watercontroller.Mqtt.Entities.{all_messages}
use watercontroller.Mqtt.Announced.{command_topics}
use watercontroller.Mqtt.Routing.{key_of, asks, parse_command_iff}

publish_all-subscriptions :
    (ms : List DiscoveryMsg) (m : Client) → (publish_all ms m).subscriptions ≡ m.subscriptions
unfolding publish_all publish
publish_all-subscriptions [] m = refl
publish_all-subscriptions (x ∷ ms) m = publish_all-subscriptions ms (publish x.topic _ m)

-- A client without subscriptions is subscribed, once connected, to exactly the command topics that
-- the discovery messages of the device announce, in their order, and routes under the base topic of
-- the configuration.
pub on_connect-subscriptions :
    {F : Type 0} (cfg : Config F) (version : String) (m : Client)
    → m.subscriptions ≡ []
    → ((on_connect cfg version m).subscriptions
        ≡ command_topics (all_messages (context cfg version)))
      × ((on_connect cfg version m).handler ≡ some cfg.mqtt.base_topic)
unfolding on_connect publish subscribe all_messages sensor switch binary_sensor
on_connect-subscriptions cfg version m e =
    let kept = publish_all-subscriptions (all_messages (context cfg version)) m ∙ e in
    (rw kept refl, refl)

module _ (p : Platform) where
  -- Once connected, a message to the command topic of a switch with a word for on or off does what
  -- that command does, and a message that is no such command, by its topic or its payload, changes
  -- nothing.
  pub inject-on_connect :
      (cfg : Config p.F32) (version : String) (m : Client) (now : ℕ) (payload : Bytes) (a : App p)
      → ((c : SwitchCommand)
          → parse_switch payload ≡ some (asks c)
          → inject p now
              (on_connect cfg version m)
              (switch_command_topic (context cfg version) (key_of c))
              payload
              a
            ≡ (switch_command p now c a).0)
        × ((topic : String)
            → ((c : SwitchCommand)
                → topic ≡ switch_command_topic (context cfg version) (key_of c)
                → parse_switch payload ≢ some (asks c))
            → inject p now (on_connect cfg version m) topic payload a ≡ a)
  unfolding inject on_connect
  inject-on_connect cfg version m now payload a = (
    λ c h.
        let ctx = context cfg version in
        let e =
          (parse_command_iff ctx (switch_command_topic ctx (key_of c)) payload c).1 (refl, h) in
        rw e refl,
    λ topic h. elim (Option-cases (parse_command cfg.mqtt.base_topic topic payload)) [
      | inl e ↦ rw e refl
      | inr (c, e) ↦
          let (t, w) = (parse_command_iff (context cfg version) topic payload c).0 e in
          absurd (h c t w)
    ],
  )

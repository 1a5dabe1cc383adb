-- ===== src/Mqtt/Routing.antt =====
-- crates/core/src/mqtt_dispatch.rs: which messages are commands.
use Prim.Native.String.{◌∷◌}
use text.Mathlib.TextLemmas.{append_assoc}
use watercontroller.Base.{
  ap, sym, ◌∙◌, ◌≡◌, ◌↔◌, refl, String, Bool, some, ◌<>◌, arith, inl, inr, Option-cases,
  strip_prefix, strip_prefix-append, strip_prefix_sound, split_once, split_once_sound, str_eq_iff,
}
use watercontroller.Nvs.{Bytes}
use watercontroller.App.{SwitchCommand, sprinkler_1, sprinkler_2, water_control}
use watercontroller.Mqtt.{parse_command, parse_switch, keyed}
use watercontroller.Mqtt.Discovery.{DeviceContext, switch_command_topic}

abbrev pub key_of : SwitchCommand → String
key_of (sprinkler_1 on) = "sprinkler_1"
key_of (sprinkler_2 on) = "sprinkler_2"
key_of (water_control on) = "water_control"

abbrev pub asks : SwitchCommand → Bool
asks (sprinkler_1 on) = on
asks (sprinkler_2 on) = on
asks (water_control on) = on

keyed_sound :
    (key : String) (on : Bool) (c : SwitchCommand)
    → keyed key on ≡ some c
    → (key ≡ key_of c) × (on ≡ asks c)
unfolding keyed
keyed_sound key on c h = ground (
  arith,
  str_eq_iff key "sprinkler_1",
  str_eq_iff key "sprinkler_2",
  str_eq_iff key "water_control",
)

parse_command_sound :
    (ctx : DeviceContext) (topic : String) (payload : Bytes) (c : SwitchCommand)
    → parse_command ctx.base_topic topic payload ≡ some c
    → (topic ≡ switch_command_topic ctx (key_of c)) × (parse_switch payload ≡ some (asks c))
unfolding parse_command switch_command_topic
parse_command_sound ctx topic payload c h =
    elim (Option-cases (strip_prefix (ctx.base_topic <> "/") topic)) [
      | inl e ↦ absurd (ground (arith, e))
      | inr (rest, e) ↦ elim (Option-cases (split_once 47 rest)) [
        | inl f ↦ absurd (ground (arith, e, f))
        | inr ((key, suffix), f) ↦ elim (Option-cases (parse_switch payload)) [
          | inl g ↦ absurd (ground (arith, e, f, g))
          | inr (on, g) ↦
              let set : suffix ≡ "set" = ground (arith, e, f, g, str_eq_iff suffix "set") in
              let named : keyed key on ≡ some c = ground (arith, e, f, g, set) in
              let (k, o) = keyed_sound key on c named in
              let tail : rest ≡ key <> "/set" =
                split_once_sound "/" rest key suffix f ∙ ap (λ x. key <> ("/" ∷ x)) set in
              let whole : topic ≡ (ctx.base_topic <> "/") <> rest =
                strip_prefix_sound (ctx.base_topic <> "/") topic rest e in
              (
                rw (sym k) (whole ∙ rw tail (append_assoc ctx.base_topic "/" (key <> "/set"))),
                g ∙ ap some o,
              )
        ]
      ]
    ]

stripped : (base rest : String) → strip_prefix (base <> "/") (base <> ("/" <> rest)) ≡ some rest
stripped base rest =
    ap (strip_prefix (base <> "/")) (sym (append_assoc base "/" rest))
    ∙ strip_prefix-append (base <> "/") rest

parse_command_complete :
    (ctx : DeviceContext) (payload : Bytes) (c : SwitchCommand)
    → parse_switch payload ≡ some (asks c)
    → parse_command ctx.base_topic (switch_command_topic ctx (key_of c)) payload ≡ some c
unfolding parse_command switch_command_topic split_once keyed
parse_command_complete ctx payload (sprinkler_1 on) h =
    rw (stripped ctx.base_topic ("sprinkler_1" <> "/set"), h) refl
parse_command_complete ctx payload (sprinkler_2 on) h =
    rw (stripped ctx.base_topic ("sprinkler_2" <> "/set"), h) refl
parse_command_complete ctx payload (water_control on) h =
    rw (stripped ctx.base_topic ("water_control" <> "/set"), h) refl

-- A message is a command exactly if its topic is the command topic of one of the three switches under
-- the base topic, whatever that is, and its payload is one of the words for on or off; and then it is
-- the command to that switch with that word.
pub parse_command_iff :
    (ctx : DeviceContext) (topic : String) (payload : Bytes) (c : SwitchCommand)
    → (parse_command ctx.base_topic topic payload ≡ some c)
      ↔ ((topic ≡ switch_command_topic ctx (key_of c)) × (parse_switch payload ≡ some (asks c)))
parse_command_iff ctx topic payload c = (
  parse_command_sound ctx topic payload c,
  λ h.
      ap (λ t. parse_command ctx.base_topic t payload) h.0
      ∙ parse_command_complete ctx payload c h.1,
)

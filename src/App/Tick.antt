-- ===== src/App/Tick.antt =====
-- app.rs: `tick`.
use watercontroller.Base.{ℕ, Bool, false, Option, none, some, [], ◌∷◌, bool_eq, if◌then◌else◌}
use watercontroller.Nvs.{Bytes}
use watercontroller.State.{from_water_state}
use watercontroller.Switch
use watercontroller.Valve
use watercontroller.App.{App, TickOutputs, nvs_valve_state}
use watercontroller.App.Env.{Platform}
use watercontroller.App.FlowAlarm.{Fired, evaluate_flow_alarm}

-- `*last == Some(user_on)`.
abbrev pub same_bit : Option Bool → Bool → Bool
same_bit none b = false
same_bit (some a) b = bool_eq a b

-- `[u8::from(user_on)]`.
abbrev pub byte : Bool → Bytes
byte b = (if b then 1 else 0) ∷ []

module _ (p : Platform) where
  open p use {nvs}

  -- Timers, and the mirror of their state in the snapshot.
  unfoldable pub drive : ℕ → App p → App p
  drive now a =
      let s1 = (Switch.tick now a.sprinkler1).0 in
      let s2 = (Switch.tick now a.sprinkler2).0 in
      let v = (Valve.tick now a.valve).0 in
      record a {
        sprinkler1 = s1;
        sprinkler2 = s2;
        valve = v;
        state = record a.state {
          switches = record {
            sprinkler_1 = Switch.is_on s1;
            sprinkler_2 = Switch.is_on s2;
            water_control = from_water_state (Valve.state v);
          };
        };
      }

  store_valve : Option nvs.Store → Bool → App p → App p
  store_valve none user_on a = a
  store_valve (some s) user_on a =
      let (failed, s') = nvs.set s nvs_valve_state (byte user_on) in
      let written = record a { store = some s' } in
      if same_bit a.last_persisted_valve user_on then a else elim failed [
        | none ↦ record written { last_persisted_valve = some user_on }
        | some e ↦ written
      ]

  unfoldable pub persist_valve : App p → App p
  unfolding store_valve
  persist_valve a = store_valve a.store a.valve.user_state a

  unfoldable pub tick : ℕ → Fired → App p → App p × TickOutputs
  tick now f a = (
    persist_valve (evaluate_flow_alarm p now f (drive now a)),
    record {
      sprinkler_1 = Switch.is_on (Switch.tick now a.sprinkler1).0;
      sprinkler_2 = Switch.is_on (Switch.tick now a.sprinkler2).0;
      valve = (Valve.tick now a.valve).1;
    },
  )

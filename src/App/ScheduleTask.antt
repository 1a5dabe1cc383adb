-- ===== src/App/ScheduleTask.antt =====
-- crates/firmware-nostd/src/schedule.rs and `spawn_schedule_task` of crates/firmware/src/main.rs: the
-- task that fires the rules that are due.
use watercontroller.Base.{
  ℕ, ◌≡◌, ◌≢◌, ◌⊎◌, refl, ap, ◌∙◌, Bool, true, false, List, [], ◌∷◌, inl, inr, arith, str_eq,
  str_eq_iff, String, length, Bool-cases,
}
use watercontroller.Schedule
use watercontroller.Schedule.{Action, Rule, Schedule, evaluate_range}
use watercontroller.Schedule.Chrono.{Calendar}
use watercontroller.Switch
use watercontroller.App.{App, SwitchCommand, fire_schedule_sprinkler, switch_command}
use watercontroller.App.Env.{Platform}

module _ (p : Platform) where
  -- The body of the `for` loop; `now` is the clock when the rule is fired.
  unfoldable pub fire_rule : ℕ → Rule → App p → App p
  fire_rule now rule a = elim rule.action [
    | Schedule.switch id ↦ (fire_schedule_sprinkler p now id rule.duration_secs a).0
    | Schedule.water_control on ↦ (switch_command p now (SwitchCommand.water_control on) a).0
  ]

  -- The `for` loop; `clock i` is the clock at the `i`-th rule from the end.
  unfoldable pub fire_rules : (ℕ → ℕ) → List Rule → App p → App p
  fire_rules clock [] a = a
  fire_rules clock (rule ∷ rules) a =
      fire_rules clock rules (fire_rule (clock (length rules)) rule a)

  -- One turn of the loop, and the `last_local` of the next.
  unfoldable pub turn :
      (c : Calendar) → (ℕ → ℕ) → c.DateTime → c.DateTime → App p → App p × c.DateTime
  turn c clock last_local now_local a =
      (fire_rules clock (evaluate_range c a.config.schedule last_local now_local) a, now_local)

  -- Some rule of the list turns on the switch `id`.
  abbrev pub Names : String → List Rule → Type 0
  Names id [] = ⊥
  Names id (r ∷ rs) = (r.action ≡ Schedule.switch id) ⊎ Names id rs

  -- No rule of the list is about the water valve.
  abbrev pub Dry : List Rule → Type 0
  Dry [] = Unit
  Dry (r ∷ rs) = ((on : Bool) → r.action ≢ Schedule.water_control on) × Dry rs

  fired-on_1 :
      (now : ℕ) (r : Rule) (a : App p)
      → (r.action ≡ Schedule.switch "sprinkler_1") ⊎ (Switch.is_on a.sprinkler1 ≡ true)
      → Switch.is_on (fire_rule now r a).sprinkler1 ≡ true
  unfolding fire_rule fire_schedule_sprinkler switch_command Switch.turn_on Switch.turn_on_for
      Switch.is_on
  fired-on_1 now r a h = ground arith

  fired-on_2 :
      (now : ℕ) (r : Rule) (a : App p)
      → (r.action ≡ Schedule.switch "sprinkler_2") ⊎ (Switch.is_on a.sprinkler2 ≡ true)
      → Switch.is_on (fire_rule now r a).sprinkler2 ≡ true
  unfolding fire_rule fire_schedule_sprinkler switch_command Switch.turn_on Switch.turn_on_for
      Switch.is_on
  fired-on_2 now r a h = ground arith

  fired-valve :
      (now : ℕ) (r : Rule) (a : App p)
      → ((on : Bool) → r.action ≢ Schedule.water_control on)
      → (fire_rule now r a).valve ≡ a.valve
  unfolding fire_rule fire_schedule_sprinkler switch_command
  fired-valve now r a h = grind arith

  fired-same_1 :
      (now : ℕ) (r : Rule) (act : Action) (a : App p)
      → r.action ≡ act
      → act ≢ Schedule.switch "sprinkler_1"
      → (fire_rule now r a).sprinkler1 ≡ a.sprinkler1
  unfolding fire_rule fire_schedule_sprinkler switch_command
  fired-same_1 now r (Schedule.switch id) a e h =
      let other : str_eq id "sprinkler_1" ≡ false = elim (Bool-cases (str_eq id "sprinkler_1")) [
        | inl s ↦ absurd (h (ap Schedule.switch ((str_eq_iff id "sprinkler_1").0 s)))
        | inr s ↦ s
      ] in
      ground (arith, e, other)
  fired-same_1 now r (Schedule.water_control on) a e h = ground (arith, e)

  fired-same_2 :
      (now : ℕ) (r : Rule) (act : Action) (a : App p)
      → r.action ≡ act
      → act ≢ Schedule.switch "sprinkler_2"
      → (fire_rule now r a).sprinkler2 ≡ a.sprinkler2
  unfolding fire_rule fire_schedule_sprinkler switch_command
  fired-same_2 now r (Schedule.switch id) a e h =
      let other : str_eq id "sprinkler_2" ≡ false = elim (Bool-cases (str_eq id "sprinkler_2")) [
        | inl s ↦ absurd (h (ap Schedule.switch ((str_eq_iff id "sprinkler_2").0 s)))
        | inr s ↦ s
      ] in
      ground (arith, e, other)
  fired-same_2 now r (Schedule.water_control on) a e h = ground (arith, e)

  rules-on_1 :
      (clock : ℕ → ℕ) (rs : List Rule) (a : App p)
      → Names "sprinkler_1" rs ⊎ (Switch.is_on a.sprinkler1 ≡ true)
      → Switch.is_on (fire_rules clock rs a).sprinkler1 ≡ true
  unfolding fire_rules
  rules-on_1 clock [] a (inl h) = absurd h
  rules-on_1 clock [] a (inr h) = h
  rules-on_1 clock (r ∷ rs) a (inl (inl h)) =
      let b = fire_rule (clock (length rs)) r a in
      rules-on_1 clock rs b (inr (fired-on_1 (clock (length rs)) r a (inl h)))
  rules-on_1 clock (r ∷ rs) a (inl (inr h)) =
      rules-on_1 clock rs (fire_rule (clock (length rs)) r a) (inl h)
  rules-on_1 clock (r ∷ rs) a (inr h) =
      let b = fire_rule (clock (length rs)) r a in
      rules-on_1 clock rs b (inr (fired-on_1 (clock (length rs)) r a (inr h)))

  rules-on_2 :
      (clock : ℕ → ℕ) (rs : List Rule) (a : App p)
      → Names "sprinkler_2" rs ⊎ (Switch.is_on a.sprinkler2 ≡ true)
      → Switch.is_on (fire_rules clock rs a).sprinkler2 ≡ true
  unfolding fire_rules
  rules-on_2 clock [] a (inl h) = absurd h
  rules-on_2 clock [] a (inr h) = h
  rules-on_2 clock (r ∷ rs) a (inl (inl h)) =
      let b = fire_rule (clock (length rs)) r a in
      rules-on_2 clock rs b (inr (fired-on_2 (clock (length rs)) r a (inl h)))
  rules-on_2 clock (r ∷ rs) a (inl (inr h)) =
      rules-on_2 clock rs (fire_rule (clock (length rs)) r a) (inl h)
  rules-on_2 clock (r ∷ rs) a (inr h) =
      let b = fire_rule (clock (length rs)) r a in
      rules-on_2 clock rs b (inr (fired-on_2 (clock (length rs)) r a (inr h)))

  rules-same :
      (clock : ℕ → ℕ) (rs : List Rule) (a : App p)
      → ((Names "sprinkler_1" rs → ⊥) → (fire_rules clock rs a).sprinkler1 ≡ a.sprinkler1)
        × ((Names "sprinkler_2" rs → ⊥) → (fire_rules clock rs a).sprinkler2 ≡ a.sprinkler2)
        × (Dry rs → (fire_rules clock rs a).valve ≡ a.valve)
  unfolding fire_rules
  rules-same clock [] a = (λ h. refl, λ h. refl, λ h. refl)
  rules-same clock (r ∷ rs) a =
      let now = clock (length rs) in
      let (one, two, water) = rules-same clock rs (fire_rule now r a) in
      (
        λ h. one (λ k. h (inr k)) ∙ fired-same_1 now r r.action a refl (λ e. h (inl e)),
        λ h. two (λ k. h (inr k)) ∙ fired-same_2 now r r.action a refl (λ e. h (inl e)),
        λ (d, ds). water ds ∙ fired-valve now r a d,
      )

  -- One turn of the schedule task, whatever the clock reads meanwhile: a sprinkler that a due rule
  -- names is on afterwards, a sprinkler that none names is as it was, so is the valve if no due rule
  -- is about it, and the next turn starts where this one ended.
  pub turn_lem :
      (c : Calendar) (clock : ℕ → ℕ) (last_local now_local : c.DateTime) (a : App p)
      → let hits = evaluate_range c a.config.schedule last_local now_local in
        let (b, next) = turn c clock last_local now_local a in
        (Names "sprinkler_1" hits → Switch.is_on b.sprinkler1 ≡ true)
        × (Names "sprinkler_2" hits → Switch.is_on b.sprinkler2 ≡ true)
        × ((Names "sprinkler_1" hits → ⊥) → b.sprinkler1 ≡ a.sprinkler1)
        × ((Names "sprinkler_2" hits → ⊥) → b.sprinkler2 ≡ a.sprinkler2)
        × (Dry hits → b.valve ≡ a.valve)
        × (next ≡ now_local)
  unfolding turn
  turn_lem c clock last_local now_local a =
      let hits = evaluate_range c a.config.schedule last_local now_local in
      let (one, two, water) = rules-same clock hits a in
      (
        λ h. rules-on_1 clock hits a (inl h),
        λ h. rules-on_2 clock hits a (inl h),
        one,
        two,
        water,
        refl,
      )

-- ===== src/App/Sustained.antt =====
-- app.rs: the flow alarm where the ticks are at least a second apart.
use watercontroller.Base.{
  ap, ◌∙◌, ℕ, suc, ◌+◌, ◌-◌, ◌*◌, ◌^◌, ◌≤◌, ◌<◌, ◌≡◌, ◌⊎◌, refl, true, false, Option, none, some,
  List, [], ◌∷◌, arith, length, inl, inr, u32_max, saturating_add, le-saturating_add,
}
use watercontroller.Switch
use watercontroller.Switch.{TimedSwitch}
use watercontroller.App.{App}
use watercontroller.App.Env.{Platform}
use watercontroller.App.FlowAlarm.{Fired, delta_s, unwrap_or, next_elapsed}
use watercontroller.App.Tick.{drive, tick}
use watercontroller.App.Alarm.{judged, tick-core, tick-inputs}

-- At least a second since the last tick, and less than 2^32 of them.
abbrev pub Slow : Option ℕ → List (ℕ × Fired) → Type 0
Slow last [] = Unit
Slow none ((now, f) ∷ ts) = Slow (some now) ts
Slow (some t) ((now, f) ∷ ts) = (t + 1000 ≤ now) × (now < t + 1000 * 2 ^ 32) × Slow (some now) ts

delta-Slow : (t now : ℕ) → t + 1000 ≤ now → now < t + 1000 * 2 ^ 32 → 1 ≤ delta_s (some t) now
delta-Slow t now h k = omega arith

module _ (p : Platform) where
  unfoldable pub ticks : List (ℕ × Fired) → App p → App p
  ticks [] a = a
  ticks ((now, f) ∷ ts) a = ticks ts (tick p now f a).0

  -- The rule is enabled, no sprinkler is on, and the flow has reached the threshold.
  pub record Flowing (a : App p) : Type 0 where
    pub enabled : a.config.flow_alarm.enabled ≡ true
    pub dry_1 : Switch.is_on a.sprinkler1 ≡ false
    pub dry_2 : Switch.is_on a.sprinkler2 ≡ false
    pub above :
        p.ge (unwrap_or a.state.sensors.flow_lph p.zero_f) a.config.flow_alarm.threshold_lph ≡ true

  is_on-tick :
      (now : ℕ) (s : TimedSwitch)
      → Switch.is_on s ≡ false
      → Switch.is_on (Switch.tick now s).0 ≡ false
  unfolding Switch.tick Switch.is_on
  is_on-tick now s h = ground arith

  -- Either it is active, or `n` more seconds are enough.
  abbrev Nears : ℕ → App p → Type 0
  Nears n a =
      (a.state.alarm.active ≡ true)
      ⊎ (a.config.flow_alarm.duration_secs ≤ n + a.state.alarm.elapsed_secs)

  tick-Flowing : (now : ℕ) (f : Fired) (a : App p) → Flowing a → Flowing (tick p now f a).0
  tick-Flowing now f a h =
      let e = tick-inputs p now f a in
      let c = ap (λ c. c.config.flow_alarm) (tick-core p now f a) in
      record {
        enabled = ap (λ r. r.enabled) c ∙ h.enabled;
        dry_1 = ap (λ i. Switch.is_on i.sprinkler1) e ∙ is_on-tick now a.sprinkler1 h.dry_1;
        dry_2 = ap (λ i. Switch.is_on i.sprinkler2) e ∙ is_on-tick now a.sprinkler2 h.dry_2;
        above = rw (ap (λ i. i.sensors) e, c) h.above;
      }

  judged-Nears :
      (n now : ℕ) (a : App p)
      → Flowing a
      → a.config.flow_alarm.duration_secs ≤ u32_max
      → 1 ≤ delta_s a.flow_alarm_last_check_ms now
      → Nears (suc n) a
      → ((judged p now a).active ≡ true)
        ⊎ (a.config.flow_alarm.duration_secs ≤ n + (judged p now a).elapsed_secs)
  unfolding drive next_elapsed
  judged-Nears n now a h u d m =
      let off_1 = is_on-tick now a.sprinkler1 h.dry_1 in
      let off_2 = is_on-tick now a.sprinkler2 h.dry_2 in
      let delta = delta_s a.flow_alarm_last_check_ms now in
      let counted : a.config.flow_alarm.duration_secs ≤ suc n + a.state.alarm.elapsed_secs
          → a.config.flow_alarm.duration_secs
            ≤ n + saturating_add a.state.alarm.elapsed_secs delta =
        λ k.
          let c =
            le-saturating_add a.state.alarm.elapsed_secs delta
              (a.config.flow_alarm.duration_secs - n) (omega arith) (omega arith) in
          omega arith in
      rw (h.enabled, off_1, off_2, h.above)
        (elim m [ inl active ↦ inl (rw active refl) | inr k ↦ inr (counted k) ])

  tick-Nears :
      (n now : ℕ) (f : Fired) (a : App p)
      → Flowing a
      → a.config.flow_alarm.duration_secs ≤ u32_max
      → 1 ≤ delta_s a.flow_alarm_last_check_ms now
      → Nears (suc n) a
      → Nears n (tick p now f a).0
  tick-Nears n now f a h u d m =
      let c = tick-core p now f a in
      rw (ap (λ x. x.alarm) c, ap (λ x. x.config.flow_alarm) c) (judged-Nears n now a h u d m)

  ticks-Nears :
      (t : ℕ) (ts : List (ℕ × Fired)) (a : App p)
      → Slow (some t) ts
      → Flowing a
      → a.config.flow_alarm.duration_secs ≤ u32_max
      → a.flow_alarm_last_check_ms ≡ some t
      → Nears (length ts) a
      → Nears 0 (ticks ts a)
  unfolding ticks
  ticks-Nears t [] a s h u e m = m
  ticks-Nears t ((now, f) ∷ ts) a (lo, hi, s) h u e m =
      let c = tick-core p now f a in
      let d : 1 ≤ delta_s a.flow_alarm_last_check_ms now = rw e (delta-Slow t now lo hi) in
      ticks-Nears now ts (tick p now f a).0 s (tick-Flowing now f a h)
        (rw (ap (λ x. x.config.flow_alarm) c) u) (ap (λ x. x.last) c)
        (tick-Nears (length ts) now f a h u d m)

  -- The alarm is active if its counter has reached the configured time.
  abbrev Settled : App p → Type 0
  Settled a =
      a.config.flow_alarm.duration_secs ≤ a.state.alarm.elapsed_secs → a.state.alarm.active ≡ true

  judged-Settled :
      (now : ℕ) (a : App p)
      → a.config.flow_alarm.enabled ≡ true
      → a.config.flow_alarm.duration_secs ≤ (judged p now a).elapsed_secs
      → (judged p now a).active ≡ true
  unfolding drive
  judged-Settled now a h k = ground arith

  ticks-Settled : (ts : List (ℕ × Fired)) (a : App p) → Flowing a → Settled a → Settled (ticks ts a)
  unfolding ticks
  ticks-Settled [] a h s = s
  ticks-Settled ((now, f) ∷ ts) a h s =
      let c = tick-core p now f a in
      ticks-Settled ts (tick p now f a).0 (tick-Flowing now f a h)
        (rw (ap (λ x. x.alarm) c, ap (λ x. x.config.flow_alarm) c) (judged-Settled now a h.enabled))

  -- With the rule enabled, no sprinkler on, the flow at the threshold or above and a configured time
  -- that fits in a `u32`, at least one tick and as many as that time has seconds make the alarm
  -- active, if each comes at least a second and less than 2^32 seconds after the one before, the first
  -- after an earlier check.
  pub ticks-fire :
      (t now : ℕ) (f : Fired) (ts : List (ℕ × Fired)) (a : App p)
      → Flowing a
      → a.flow_alarm_last_check_ms ≡ some t
      → a.config.flow_alarm.duration_secs ≤ u32_max
      → a.config.flow_alarm.duration_secs ≤ length ((now, f) ∷ ts)
      → Slow (some t) ((now, f) ∷ ts)
      → (ticks ((now, f) ∷ ts) a).state.alarm.active ≡ true
  unfolding ticks
  ticks-fire t now f ts a h e u n s =
      let c = tick-core p now f a in
      let b = (tick p now f a).0 in
      let settled : Settled b =
        rw (ap (λ x. x.alarm) c, ap (λ x. x.config.flow_alarm) c)
          (judged-Settled now a h.enabled) in
      elim (ticks-Nears t ((now, f) ∷ ts) a s h u e (inr (omega arith))) [
        | inl active ↦ active
        | inr k ↦ ticks-Settled ts b (tick-Flowing now f a h) settled (omega (arith, k))
      ]

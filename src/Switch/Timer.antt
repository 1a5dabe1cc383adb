-- ===== src/Switch/Timer.antt =====
-- switch.rs: the auto-off timer over whole runs of commands and ticks.
use watercontroller.Base.{
  ℕ, ◌+◌, ◌-◌, ◌≤◌, ◌<◌, ◌≡◌, ◌≢◌, ap, ◌∙◌, refl, true, false, Option, none, some, List, [], ◌∷◌,
  arith, All, if◌then◌else◌,
}
use watercontroller.Switch.{
  Duration, TimedSwitch, as_millis, or_else, new, set_auto_off, turn_on, turn_on_for, turn_off,
  tick,
}

-- A switch carries a start time exactly while it is on, and an override only while it is on.
pub record IsValid (s : TimedSwitch) : Type 0 where
  pub started : s.on ≡ true → s.on_since ≢ none
  pub stopped : s.on ≡ false → s.on_since ≡ none
  pub plain : s.on ≡ false → s.override_auto_off ≡ none

-- What happens to a switch: its methods, and time that passes.
pub data Event : Type 0 where
  advance : ℕ → Event
  set_timer : Option Duration → Event
  on off ticked : Event
  on_for : Duration → Event

-- `lit` is the moment of the last change from off to on, which the code does not see.
pub record World : Type 0 where
  pub now : ℕ
  pub switch : TimedSwitch
  pub lit : ℕ

abbrev pub window : TimedSwitch → Option Duration
window s = or_else s.override_auto_off s.auto_off

-- The new switch, and `lit` if that change turned it on.
abbrev become : TimedSwitch → World → World
become s w = record w { switch = s; lit = if w.switch.on then w.lit else w.now }

unfoldable pub step : Event → World → World
step (advance d) w = record w { now = w.now + d }
step (set_timer d) w = become (set_auto_off d w.switch) w
step on w = become (turn_on w.now w.switch) w
step off w = become (turn_off w.now w.switch) w
step (on_for d) w = become (turn_on_for w.now d w.switch) w
step ticked w = become (tick w.now w.switch).0 w

unfoldable pub run : List Event → World → World
run [] w = w
run (e ∷ es) w = run es (step e w)

abbrev pub start : Option Duration → World
start auto_off = record { now = 0; switch = new auto_off; lit = 0 }

-- The start time that the switch keeps is the moment when it came on.
pub record Inv (w : World) : Type 0 where
  pub valid : IsValid w.switch
  pub since : w.switch.on ≡ true → w.switch.on_since ≡ some w.lit
  pub past : w.switch.on ≡ true → w.lit ≤ w.now

step-Inv : (e : Event) (w : World) → Inv w → Inv (step e w)
unfolding step set_auto_off turn_on turn_on_for turn_off tick
step-Inv (advance d) w v = ground arith
step-Inv (set_timer d) w v = ground arith
step-Inv on w v = ground arith
step-Inv off w v = ground arith
step-Inv (on_for d) w v = ground arith
step-Inv ticked w v = ground arith

run-Inv : (es : List Event) (w : World) → Inv w → Inv (run es w)
unfolding run
run-Inv [] w v = v
run-Inv (e ∷ es) w v = run-Inv es (step e w) (step-Inv e w v)

start-Inv : (auto_off : Option Duration) → Inv (start auto_off)
unfolding new
start-Inv auto_off = ground arith

-- From a new switch, after any commands and any passing of time, a switch that is on has a start
-- time, which is the moment when it last came on, and one that is off has no start time and no
-- override left from an earlier activation.
pub run-new_lit :
    (auto_off : Option Duration) (es : List Event)
    → let w = run es (start auto_off) in
      (w.switch.on ≡ true → w.switch.on_since ≡ some w.lit)
      × (w.switch.on ≡ false → (w.switch.on_since ≡ none) × (w.switch.override_auto_off ≡ none))
run-new_lit auto_off es =
    let v = run-Inv es (start auto_off) (start-Inv auto_off) in
    (v.since, λ h. (v.valid.stopped h, v.valid.plain h))

tick_within :
    (w : World) (d : Duration)
    → Inv w
    → window (step ticked w).switch ≡ some d
    → (step ticked w).switch.on ≡ true
    → (step ticked w).now - (step ticked w).lit < as_millis d
unfolding step tick turn_off
tick_within w d v e h = ground arith

-- From a new switch, after any commands and any passing of time, a tick leaves the switch on only
-- if it has been on for less than the duration that applies (the override of the activation, else
-- the configured one).
pub run-ticked_within :
    (auto_off : Option Duration) (es : List Event) (d : Duration)
    → let w = step ticked (run es (start auto_off)) in
      window w.switch ≡ some d → w.switch.on ≡ true → w.now - w.lit < as_millis d
run-ticked_within auto_off es d =
    tick_within (run es (start auto_off)) d (run-Inv es (start auto_off) (start-Inv auto_off))

-- Commands that ask for "on", ticks and time: all but "off" and a new configuration.
abbrev pub Keeps : Event → Type 0
Keeps (set_timer d) = ⊥
Keeps off = ⊥
Keeps _ = Unit

now-le-step : (e : Event) (w : World) → w.now ≤ (step e w).now
unfolding step
now-le-step (advance d) w = omega arith
now-le-step (set_timer d) w = omega arith
now-le-step on w = omega arith
now-le-step _ w = omega arith

now-le-run : (es : List Event) (w : World) → w.now ≤ (run es w).now
unfolding run
now-le-run [] w = omega arith
now-le-run (e ∷ es) w = omega (arith, now-le-step e w, now-le-run es (step e w))

step-Keeps :
    (e : Event) (w : World) (t0 : ℕ) (d : Duration)
    → Keeps e
    → w.switch.on ≡ true
    → w.switch.on_since ≡ some t0
    → window w.switch ≡ some d
    → t0 ≤ w.now
    → (step e w).now < t0 + as_millis d
    → (step e w).switch ≡ w.switch
unfolding step turn_on turn_on_for tick
step-Keeps (advance n) w t0 d k o s e p h = refl
step-Keeps (set_timer n) w t0 d k o s e p h = absurd k
step-Keeps off w t0 d k o s e p h = absurd k
step-Keeps on w t0 d k o s e p h = ground arith
step-Keeps (on_for n) w t0 d k o s e p h = ground arith
step-Keeps ticked w t0 d k o s e p h = ground arith

-- Until the duration of the activation has passed, ticks and repeated commands to turn on, with a
-- duration of their own or not, change nothing of a switch that is on: neither whether it is on nor
-- when it will go off.
pub run-Keeps :
    (es : List Event) (w : World) (t0 : ℕ) (d : Duration)
    → All Keeps es
    → w.switch.on ≡ true
    → w.switch.on_since ≡ some t0
    → window w.switch ≡ some d
    → t0 ≤ w.now
    → (run es w).now < t0 + as_millis d
    → (run es w).switch ≡ w.switch
unfolding run
run-Keeps [] w t0 d k o s e p h = refl
run-Keeps (x ∷ es) w t0 d (k, ks) o s e p h =
    let same = step-Keeps x w t0 d k o s e p (omega (arith, now-le-run es (step x w))) in
    run-Keeps es (step x w) t0 d ks (ap (λ r. r.on) same ∙ o) (ap (λ r. r.on_since) same ∙ s)
      (ap window same ∙ e) (omega (arith, now-le-step x w)) h
    ∙ same

expires_at :
    (s : TimedSwitch) (t0 : ℕ) (d : Duration) (now t1 : ℕ)
    → IsValid s
    → s.on ≡ false
    → t0 + as_millis d ≤ now
    → (tick now (turn_on_for t0 d s) ≡ (turn_off now s, true))
      × (window (turn_on t1 (tick now (turn_on_for t0 d s)).0) ≡ s.auto_off)
unfolding turn_on_for turn_on tick turn_off
expires_at s t0 d now t1 v o h = ground arith

-- An activation for a duration of its own goes off at the first tick that comes so long after it,
-- whatever timer is configured, if until then only ticks and commands to turn on came; and the next
-- activation by a plain command falls back on the configured timer.
pub turn_on_for_expires :
    (s : TimedSwitch) (t0 : ℕ) (d : Duration) (es : List Event) (late t1 : ℕ)
    → IsValid s
    → s.on ≡ false
    → All Keeps es
    → let w = run es (record { now = t0; switch = turn_on_for t0 d s; lit = t0 }) in
      w.now < t0 + as_millis d
      → t0 + as_millis d ≤ w.now + late
      → (tick (w.now + late) w.switch ≡ (turn_off (w.now + late) s, true))
        × (window (turn_on t1 (tick (w.now + late) w.switch).0) ≡ s.auto_off)
turn_on_for_expires s t0 d es late t1 v o k h l =
    let w0 : World = record { now = t0; switch = turn_on_for t0 d s; lit = t0 } in
    let same =
      run-Keeps es w0 t0 d k (unfold turn_on_for in ground arith)
        (unfold turn_on_for in ground arith) (unfold turn_on_for in ground arith) (omega arith) h in
    rw same (expires_at s t0 d ((run es w0).now + late) t1 v o l)

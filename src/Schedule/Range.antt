-- ===== src/Schedule/Range.antt =====
-- schedule.rs: which rules fall due, over any sequence of checks.
use watercontroller.Base.{
  ℕ, zero, suc, ◌+◌, ◌-◌, ◌≤◌, ◌<◌, ◌≡◌, ◌∙◌, refl, sym, ap, inl, inr, Bool-cases, List, [], ◌∷◌,
  ◌++◌, arith, leb,
}
use Prim.Native.Nat.{min}
use mathlib.Core.List.{append_assoc, append-nil}
use watercontroller.Schedule.{
  Rule, Schedule, max_iters, due, scan, floor_to_minute, evaluate_range, evaluate_minute,
}
use watercontroller.Schedule.Chrono.{Calendar, CalendarLaws}

module _ (c : Calendar) (laws : CalendarLaws c) where
  open laws use {minutes, at}

  -- The rules that are due in the `n` minutes after minute `m`, minute by minute.
  unfoldable pub due_after : List Rule → ℕ → ℕ → List Rule
  due_after rules m zero = []
  due_after rules m (suc n) = due c rules (at (m + 1)) ++ due_after rules (m + 1) n

  scan-eq-due_after :
      (left : ℕ) (rules : List Rule) (m e : ℕ) (hits : List Rule)
      → scan c left rules (at (m + 1)) (at e) hits ≡ hits ++ due_after rules m (min left (e - m))
  unfolding scan due_after
  scan-eq-due_after zero rules m e hits =
      let none_left : min 0 (e - m) ≡ 0 = omega arith in rw none_left (sym (append-nil hits))
  scan-eq-due_after (suc left) rules m e hits = elim (Bool-cases (leb (m + 1) e)) [
    | inl more ↦
        let n = min left (e - (m + 1)) in
        let count : min (suc left) (e - m) ≡ suc n = ground arith in
        rw (laws.le-at, more, count, laws.plus_minute-at)
          (scan-eq-due_after left rules (m + 1) e (hits ++ due c rules (at (m + 1)))
            ∙ append_assoc hits (due c rules (at (m + 1))) (due_after rules (m + 1) n))
    | inr over ↦
        let count : min (suc left) (e - m) ≡ 0 = ground arith in
        rw (laws.le-at, over, count) (sym (append-nil hits))
  ]

  evaluate_range-eq :
      (s : Schedule) (last now : c.DateTime)
      → evaluate_range c s last now
        ≡ due_after s.rules (minutes last) (min max_iters (minutes now - minutes last))
  unfolding evaluate_range floor_to_minute
  evaluate_range-eq s last now = elim (Bool-cases (c.le now last)) [
    | inl back ↦
        let count : min max_iters (minutes now - minutes last) ≡ 0 =
          omega (arith, laws.le_minutes now last back) in
        rw (back, count) (unfold due_after in refl)
    | inr forth ↦
        rw (forth, laws.floor-at last, laws.floor-at now, laws.plus_minute-at)
          (scan-eq-due_after max_iters s.rules (minutes last) (minutes now) [])
  ]

  due_after-append :
      (rules : List Rule) (m a b : ℕ)
      → due_after rules m (a + b) ≡ due_after rules m a ++ due_after rules (m + a) b
  unfolding due_after
  due_after-append rules m zero b =
      let (e, f) : (0 + b ≡ b) × (m + 0 ≡ m) = (omega arith, omega arith) in rw (e, f)
  due_after-append rules m (suc a) b =
      let (e, f) : (suc a + b ≡ suc (a + b)) × (m + suc a ≡ m + 1 + a) =
        (omega arith, omega arith) in
      rw (e, f)
        (ap (λ l. due c rules (at (m + 1)) ++ l) (due_after-append rules (m + 1) a b)
          ∙ sym (
              append_assoc (due c rules (at (m + 1))) (due_after rules (m + 1) a)
                (due_after rules (m + 1 + a) b)))

  -- What the schedule task of the firmware fires: each check evaluates the time since the one before.
  unfoldable pub fired : Schedule → c.DateTime → List c.DateTime → List Rule
  fired s last [] = []
  fired s last (now ∷ times) = evaluate_range c s last now ++ fired s now times

  abbrev pub final : c.DateTime → List c.DateTime → c.DateTime
  final last [] = last
  final last (now ∷ times) = final now times

  -- The clock does not go back between checks, and no two checks are more than 25 h apart.
  abbrev pub IsSpaced : c.DateTime → List c.DateTime → Type 0
  IsSpaced last [] = Unit
  IsSpaced last (now ∷ times) =
      (minutes last ≤ minutes now) × (minutes now ≤ minutes last + max_iters) × IsSpaced now times

  final_later :
      (last : c.DateTime) (times : List c.DateTime)
      → IsSpaced last times
      → minutes last ≤ minutes (final last times)
  final_later last [] h = omega arith
  final_later last (now ∷ times) (h, k, hs) = omega (arith, final_later now times hs)

  -- However the checks are timed, if the clock does not go back and no two checks are more than 25 h
  -- apart, the task fires, in order, each rule once for every minute after the first check and up to
  -- the last one in which it is due: none is missed and none is fired twice.
  pub fired_once :
      (s : Schedule) (last : c.DateTime) (times : List c.DateTime)
      → IsSpaced last times
      → fired s last times
        ≡ due_after s.rules (minutes last) (minutes (final last times) - minutes last)
  unfolding fired
  fired_once s last [] h =
      let none_due : minutes last - minutes last ≡ 0 = omega arith in
      rw none_due (unfold due_after in refl)
  fired_once s last (now ∷ times) (h, k, hs) =
      let a = minutes now - minutes last in
      let b = minutes (final now times) - minutes now in
      let later = final_later now times hs in
      let all_of : min max_iters a ≡ a = omega arith in
      let total : minutes (final now times) - minutes last ≡ a + b = omega arith in
      let there : minutes last + a ≡ minutes now = omega arith in
      rw (evaluate_range-eq, all_of, fired_once s now times hs, total)
        (rw (due_after-append s.rules (minutes last) a b) (rw there))

  -- Where the clock steps back by at most 25 h, as local time does at the end of summer time, and
  -- comes again to where it was, each rule due in between is fired a second time.
  pub step_back_fires_twice :
      (s : Schedule) (early late : c.DateTime)
      → minutes early ≤ minutes late
      → minutes late ≤ minutes early + max_iters
      → let window = due_after s.rules (minutes early) (minutes late - minutes early) in
        fired s early (late ∷ early ∷ late ∷ []) ≡ window ++ window
  unfolding fired
  step_back_fires_twice s early late h k =
      let all_of : min max_iters (minutes late - minutes early) ≡ minutes late - minutes early =
        omega arith in
      let back : min max_iters (minutes early - minutes late) ≡ 0 = omega arith in
      rw (evaluate_range-eq s early late, all_of, evaluate_range-eq s late early, back)
        (unfold due_after in rw append-nil)

  -- `evaluate_minute` gives the rules that are due in the minute of `now`.
  pub evaluate_minute-eq-due :
      (s : Schedule) (now : c.DateTime)
      → 0 < minutes now
      → evaluate_minute c s now ≡ due c s.rules (at (minutes now))
  evaluate_minute-eq-due s now h =
      let m = minutes now - 1 in
      let next : minutes now ≡ m + 1 = omega arith in
      let last = c.minus_second (floor_to_minute c now) in
      let start : floor_to_minute c now ≡ at (m + 1) =
        unfold floor_to_minute in (laws.floor-at now ∙ ap at next) in
      let before : minutes last ≡ m =
        ap (λ t. minutes (c.minus_second t)) start ∙ laws.minus_second-at m in
      let one : min max_iters (minutes now - m) ≡ 1 = omega arith in
      let range : evaluate_minute c s now
          ≡ due_after s.rules (minutes last) (min max_iters (minutes now - minutes last)) =
        unfold evaluate_minute in evaluate_range-eq s last now in
      range ∙ rw (before, one) (unfold due_after in rw (append-nil, ← next))

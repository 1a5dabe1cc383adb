-- ===== src/App/Persist.antt =====
-- app.rs: the state of the valve in the store, over ticks, commands and restarts.
use watercontroller.Base.{
  ap, sym, ◌∙◌, ℕ, ◌≡◌, ◌≢◌, refl, String, Bool, true, false, Option, none, some, List, [], ◌∷◌,
  arith, inl, inr, Option-cases, Bool-cases,
}
use watercontroller.State.{AlarmEvent}
use watercontroller.Config.{Config}
use watercontroller.Nvs.{NvsStore, NvsError, KeyLaws}
use watercontroller.Valve
use watercontroller.Webhook.{WebhookEvent}
use watercontroller.App.{
  App, SwitchCommand, water_control, with_nvs, read_nvs, first_bit, push_alarm, record_alarm_event,
  nvs_alarm_history, nvs_valve_state, emit_event, switch_command, fire_schedule_sprinkler,
  replace_config_section, set_webhook_dispatcher,
}
use watercontroller.App.Env.{Platform, Reading}
use watercontroller.App.FlowAlarm.{
  Fired, fire_alarm, set_alarm, apply_rule, evaluate_flow_alarm, clear_flow_alarm, next_elapsed,
  unwrap_or, delta_s,
}
use watercontroller.App.Tick.{drive, byte, same_bit, persist_valve, tick}
use watercontroller.App.Run.{
  Event, step, run, observe, ticked, commanded, scheduled, observed, configured, cleared,
  dispatched_by,
}

-- A write of the valve's state that fails leaves in the store what was there of it.
abbrev pub FailsSafely : NvsStore → Type 0
FailsSafely n =
    (s : n.Store) (on : Bool) (e : NvsError)
    → (n.set s nvs_valve_state (byte on)).0 ≡ some e
    → n.get (n.set s nvs_valve_state (byte on)).1 nvs_valve_state ≡ n.get s nvs_valve_state

module _ (p : Platform) (laws : KeyLaws p.nvs) where
  open p use {F32, nvs, history}

  -- What the store says of the valve, and what the device believes that it says.
  record View : Type 0 where
    stored : Option Bool
    believed : Option Bool

  abbrev view : App p → View
  view a = record {
    stored = first_bit p (read_nvs p a.store nvs_valve_state);
    believed = a.last_persisted_valve;
  }

  record-view : (ev : AlarmEvent F32) (a : App p) → view (record_alarm_event p ev a) ≡ view a
  unfolding record_alarm_event
  record-view ev a = elim (Option-cases a.store) [
    | inl e ↦ rw e refl
    | inr (s, e) ↦ elim (Option-cases (history.to_vec (push_alarm p ev a.alarm_history))) [
      | inl c ↦ rw (e, c) refl
      | inr (b, c) ↦ rw (e, c, laws.get-set_other s nvs_alarm_history nvs_valve_state b refl) refl
    ]
  ]

  emit-view : (t : Reading) (e : WebhookEvent) (a : App p) → view (emit_event p t e a) ≡ view a
  unfolding emit_event
  emit-view t e a = refl

  close-view :
      (now : ℕ) (c : SwitchCommand) (a : App p) → view (switch_command p now c a).0 ≡ view a
  unfolding switch_command
  close-view now c a = ground arith

  fire-view :
      (now : ℕ) (f : Fired) (flow : F32) (a : App p) → view (fire_alarm p now f flow a) ≡ view a
  unfolding fire_alarm
  fire-view now f flow a =
      close-view f.commanded_ms (water_control false) _ ∙ emit-view f.emitted _ _ ∙ record-view _ a

  apply_rule-view :
      (now delta : ℕ) (f : Fired) (a : App p) → view (apply_rule p now f delta a) ≡ view a
  unfolding apply_rule set_alarm
  apply_rule-view now delta f a =
      let elapsed = next_elapsed p delta a in
      let flow = unwrap_or a.state.sensors.flow_lph p.zero_f in
      ground (
        arith,
        fire-view now f flow (set_alarm p true elapsed a),
        close-view f.commanded_ms (water_control false)
            (set_alarm p a.state.alarm.active elapsed a),
      )

  abbrev Coherent : App p → Type 0
  Coherent a =
      (b : Bool)
      → a.last_persisted_valve ≡ some b
      → first_bit p (read_nvs p a.store nvs_valve_state) ≡ some b

  of-view : (a b : App p) → view a ≡ view b → Coherent b → Coherent a
  of-view a b e h = λ x k. ap (λ v. v.stored) e ∙ h x (ap (λ v. v.believed) (sym e) ∙ k)

  byte-first_bit : (b : Bool) → first_bit p (some (byte b)) ≡ some b
  byte-first_bit true = refl
  byte-first_bit false = refl

  persist-Coherent : FailsSafely nvs → (a : App p) → Coherent a → Coherent (persist_valve p a)
  unfolding persist_valve
  persist-Coherent safe a h = elim (Option-cases a.store) [
    | inl e ↦ rw e (λ b k. ap (λ o. first_bit p (read_nvs p o nvs_valve_state)) (sym e) ∙ h b k)
    | inr (s, e) ↦ elim (Bool-cases (same_bit a.last_persisted_valve a.valve.user_state)) [
      | inl c ↦
          rw (e, c) (λ b k. ap (λ o. first_bit p (read_nvs p o nvs_valve_state)) (sym e) ∙ h b k)
      | inr c ↦ elim (Option-cases (nvs.set s nvs_valve_state (byte a.valve.user_state)).0) [
        | inl w ↦
            rw (e, c, w, laws.get-set s nvs_valve_state nvs_valve_state (byte a.valve.user_state) w)
              (λ b k. byte-first_bit a.valve.user_state ∙ k)
        | inr (x, w) ↦
            rw (e, c, w, safe s a.valve.user_state x w)
              (λ b k. ap (λ o. first_bit p (read_nvs p o nvs_valve_state)) (sym e) ∙ h b k)
      ]
    ]
  ]

  evaluate-view : (now : ℕ) (f : Fired) (a : App p) → view (evaluate_flow_alarm p now f a) ≡ view a
  unfolding evaluate_flow_alarm set_alarm
  evaluate-view now f a =
      let checked = record a { flow_alarm_last_check_ms = some now } in
      let rule = apply_rule-view now (delta_s a.flow_alarm_last_check_ms now) f checked in
      ground (arith, rule)

  tick-Coherent :
      FailsSafely nvs → (now : ℕ) (f : Fired) (a : App p) → Coherent a → Coherent (tick p now f a).0
  unfolding tick drive
  tick-Coherent safe now f a h =
      let d = drive p now a in
      persist-Coherent safe (evaluate_flow_alarm p now f d)
        (of-view (evaluate_flow_alarm p now f d) d (evaluate-view now f d) h)

  schedule-view :
      (now : ℕ) (id : String) (d : Option ℕ) (a : App p)
      → view (fire_schedule_sprinkler p now id d a).0 ≡ view a
  unfolding fire_schedule_sprinkler
  schedule-view now id d a = ground arith

  clear-view : (t : Reading) (a : App p) → view (clear_flow_alarm p t a) ≡ view a
  unfolding clear_flow_alarm set_alarm emit_event
  clear-view t a = ground arith

  step-Coherent : FailsSafely nvs → (e : Event p) (a : App p) → Coherent a → Coherent (step p e a)
  unfolding step observe replace_config_section emit_event set_webhook_dispatcher
  step-Coherent safe (ticked now f) a h = tick-Coherent safe now f a h
  step-Coherent safe (commanded now c) a h =
      of-view (switch_command p now c a).0 a (close-view now c a) h
  step-Coherent safe (scheduled now id d) a h =
      of-view (fire_schedule_sprinkler p now id d a).0 a (schedule-view now id d a) h
  step-Coherent safe (observed s n d t) a h = h
  step-Coherent safe (configured t cfg section) a h = h
  step-Coherent safe (cleared t) a h = of-view (clear_flow_alarm p t a) a (clear-view t a) h
  step-Coherent safe (dispatched_by d) a h = h

  run-Coherent :
      FailsSafely nvs → (es : List (Event p)) (a : App p) → Coherent a → Coherent (run p es a)
  unfolding run
  run-Coherent safe [] a h = h
  run-Coherent safe (e ∷ es) a h = run-Coherent safe es (step p e a) (step-Coherent safe e a h)

  same_bit-some : (o : Option Bool) (b : Bool) → same_bit o b ≡ true → o ≡ some b
  same_bit-some none b h = ground (arith, h)
  same_bit-some (some true) true h = refl
  same_bit-some (some true) false h = ground (arith, h)
  same_bit-some (some false) true h = ground (arith, h)
  same_bit-some (some false) false h = refl

  persist-believes :
      (a : App p)
      → ((s : nvs.Store) (on : Bool) → (nvs.set s nvs_valve_state (byte on)).0 ≡ none)
      → (persist_valve p a).store ≢ none
      → (persist_valve p a).last_persisted_valve ≡ some (persist_valve p a).valve.user_state
  unfolding persist_valve
  persist-believes a works st = elim (Option-cases a.store) [
    | inl e ↦ absurd (st (rw e refl))
    | inr (s, e) ↦ elim (Bool-cases (same_bit a.last_persisted_valve a.valve.user_state)) [
      | inl c ↦ rw (e, c) (same_bit-some a.last_persisted_valve a.valve.user_state c)
      | inr c ↦ rw (e, c, works s a.valve.user_state) refl
    ]
  ]

  Coherent-restart :
      (cfg : Config F32) (a : App p) (on : Bool)
      → Coherent a
      → a.last_persisted_valve ≡ some on
      → (with_nvs p cfg a.store).valve.user_state ≡ on
  unfolding with_nvs Valve.restore
  Coherent-restart cfg a on h k = rw (h on k) refl

  at_rest :
      (cfg : Config F32) (store : Option nvs.Store)
      → (with_nvs p cfg store).valve.phase ≡ Valve.idle
  unfolding with_nvs Valve.restore Valve.with_timing
  at_rest cfg store = elim (Option-cases (first_bit p (read_nvs p store nvs_valve_state))) [
    | inl e ↦ rw e refl
    | inr (on, e) ↦ rw e refl
  ]

  with_nvs-Coherent :
      (cfg : Config F32) (store : Option nvs.Store) → Coherent (with_nvs p cfg store)
  unfolding with_nvs
  with_nvs-Coherent cfg store b h = h

  -- The store meets `KeyLaws`, and a write of the valve's state that fails leaves what was there of it,
  -- as in the store of the firmware with an operating system and not in the one in flash of the other.
  -- From a start with any configuration and any store, after any calls in any order, also where writes
  -- failed, the device is not wrong about what the store has of the valve: a restart at that moment
  -- comes back with the state that the device last knew to be written.
  pub with_nvs-run :
      FailsSafely nvs
      → (cfg cfg' : Config F32) (store : Option nvs.Store) (es : List (Event p)) (on : Bool)
      → let a = run p es (with_nvs p cfg store) in
        a.last_persisted_valve ≡ some on → (with_nvs p cfg' a.store).valve.user_state ≡ on
  with_nvs-run safe cfg cfg' store es on h =
      let a = run p es (with_nvs p cfg store) in
      Coherent-restart cfg' a on
        (run-Coherent safe es (with_nvs p cfg store) (with_nvs-Coherent cfg store)) h

  -- The store meets `KeyLaws`, and the writes of the valve's state to it succeed. From a start with any
  -- configuration and any store, after any calls in any order and a tick, a restart comes back with the
  -- valve in the state that its last sequence which is over has led to, at rest. A sequence that the
  -- tick leaves unfinished is lost.
  pub with_nvs-tick :
      ((s : nvs.Store) (on : Bool) → (nvs.set s nvs_valve_state (byte on)).0 ≡ none)
      → (cfg cfg' : Config F32) (store : Option nvs.Store) (es : List (Event p)) (now : ℕ)
        (f : Fired)
      → let a = (tick p now f (run p es (with_nvs p cfg store))).0 in
        a.store ≢ none
        → ((with_nvs p cfg' a.store).valve.user_state ≡ a.valve.user_state)
          × ((with_nvs p cfg' a.store).valve.phase ≡ Valve.idle)
  unfolding tick
  with_nvs-tick works cfg cfg' store es now f st =
      let b = run p es (with_nvs p cfg store) in
      let c = evaluate_flow_alarm p now f (drive p now b) in
      let safe : FailsSafely nvs = λ s on e h. absurd (ground (arith, works s on, h)) in
      let h =
        tick-Coherent safe now f b
          (run-Coherent safe es (with_nvs p cfg store) (with_nvs-Coherent cfg store)) in
      (
        Coherent-restart cfg' (persist_valve p c) (persist_valve p c).valve.user_state h
            (persist-believes c works st),
        at_rest cfg' (persist_valve p c).store,
      )

-- ===== src/App/History.antt =====
-- app.rs: the ring of past alarms and its copy in the store.
use watercontroller.Base.{
  last_of, last_of-push_ring, length-push_ring, ◌∙◌, ◌-◌, ◌≤◌, ◌≡◌, refl, none, some, List, [], ◌∷◌,
  ◌++◌, arith, length, append-nil,
}
use watercontroller.State.{AlarmEvent}
use watercontroller.Config.{Config}
use watercontroller.Nvs.{Bytes, NvsLaws}
use watercontroller.App.{
  App, with_nvs, push_alarm, record_alarm_event, alarm_history_cap, nvs_alarm_history,
}
use watercontroller.App.Env.{Platform}

module _ (p : Platform) where
  open p use {F32, nvs, history}

  unfoldable pub record_all : List (AlarmEvent F32) → App p → App p
  record_all [] a = a
  record_all (ev ∷ evs) a = record_all evs (record_alarm_event p ev a)

  -- However many alarms are recorded, from a history within the bound of 16, the device keeps the
  -- last 16 of the old and the new ones together, in order.
  pub record_all-last :
      (evs : List (AlarmEvent F32)) (a : App p)
      → length a.alarm_history ≤ alarm_history_cap
      → ((record_all evs a).alarm_history ≡ last_of alarm_history_cap (a.alarm_history ++ evs))
        × (length (record_all evs a).alarm_history ≤ alarm_history_cap)
  unfolding record_all record_alarm_event push_alarm
  record_all-last [] a u =
      let kept : length a.alarm_history - alarm_history_cap ≡ 0 = omega arith in
      (rw (append-nil a.alarm_history, kept) refl, u)
  record_all-last (ev ∷ evs) a u =
      let b = record_alarm_event p ev a in
      let rest =
        record_all-last evs b
          (length-push_ring alarm_history_cap ev a.alarm_history (omega arith) u) in
      (rest.0 ∙ last_of-push_ring alarm_history_cap ev evs a.alarm_history (omega arith) u, rest.1)

  -- After an alarm is recorded, a restart with any configuration finds the same history, if the
  -- history was within its bound, the codec gives bytes that it reads back, and the store takes them.
  pub with_nvs-record :
      (laws : NvsLaws nvs) (cfg : Config F32) (ev : AlarmEvent F32) (a : App p) (s : nvs.Store)
      (bytes : Bytes)
      → let h = push_alarm p ev a.alarm_history in
        a.store ≡ some s
        → length a.alarm_history ≤ alarm_history_cap
        → history.to_vec h ≡ some bytes
        → history.from_slice bytes ≡ some h
        → (nvs.set s nvs_alarm_history bytes).0 ≡ none
        → (with_nvs p cfg (record_alarm_event p ev a).store).alarm_history
          ≡ (record_alarm_event p ev a).alarm_history
  unfolding with_nvs record_alarm_event push_alarm
  with_nvs-record laws cfg ev a s bytes st u enc dec wrote =
      let h = push_alarm p ev a.alarm_history in
      let found : nvs.get (nvs.set s nvs_alarm_history bytes).1 nvs_alarm_history ≡ some bytes =
        laws.get-set s nvs_alarm_history nvs_alarm_history bytes wrote in
      let fits : length h - alarm_history_cap ≡ 0 =
        omega (arith, length-push_ring alarm_history_cap ev a.alarm_history (omega arith) u) in
      rw (st, enc, found, dec, fits) refl

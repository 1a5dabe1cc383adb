-- ===== src/Supervisor/Probes.antt =====
-- net_wifi.rs: the probes of a link.
use watercontroller.Base.{
  ℕ, ◌+◌, ◌%◌, ◌<◌, ◌≡◌, refl, arith, ◌&&◌, inl, inr, List, [], ◌∷◌, ◌==◌, leb, Bool-cases,
  if◌then◌else◌,
}
use watercontroller.Config.{WifiCreds}
use watercontroller.Supervisor.{
  Supervisor, Phase, top, copied, trying, linked, backing_off, serving_ap, Radio, probe_link,
  connected_turn, turn, Event, turned, connect_called, reconnect_called, scan_called, scan_expired,
  beacon_lost, step, run,
}

-- What an observer of the radio counts while the thread is on a link: its rounds of five seconds, and the
-- failed probes in a row. In every twelfth round the association and the gateway are probed.
pub record Watch : Type 0 where
  pub rounds : ℕ
  pub failed_in_row : ℕ

abbrev pub unwatched : Watch
unwatched = record { rounds = 0; failed_in_row = 0 }

abbrev probed : Radio → ℕ → ℕ
probed r fails = if r.assoc_ok && r.gateway_ok then 0 else fails + 1

abbrev round_watched : Radio → Watch → Watch
round_watched r w =
    let rounds = w.rounds + 1 in
    record {
      rounds = rounds;
      failed_in_row = if rounds % 12 == 0 then probed r w.failed_in_row else w.failed_in_row;
    }

abbrev watch : Event → Phase → Watch → Watch
watch (turned r) (linked nets ticks fails) w = round_watched r w
watch (turned r) _ w = unwatched
watch _ ph w = w

-- What the observer has counted after some events.
abbrev pub watched : List Event → Phase → Supervisor → Watch → Watch
watched [] ph s w = w
watched (e ∷ es) ph s w = watched es (step e ph s).1 (step e ph s).0 (watch e ph w)

-- The thread is on a link only if fewer than three probes in a row have failed.
abbrev pub IsLive : Phase → Watch → Type 0
IsLive (linked nets ticks fails) w = w.failed_in_row < 3
IsLive _ w = Unit

-- The counters of the thread are what the observer counts; off a link it counts nothing.
abbrev pub Agrees : Phase → Watch → Type 0
Agrees (linked nets ticks fails) w =
    (ticks ≡ w.rounds) × (fails ≡ w.failed_in_row) × (w.failed_in_row < 3)
Agrees (trying nets left) w = w ≡ unwatched
Agrees _ w = Unit

pub Agrees-IsLive : (ph : Phase) (w : Watch) → Agrees ph w → IsLive ph w
Agrees-IsLive top w h = tt
Agrees-IsLive (copied nets) w h = tt
Agrees-IsLive (trying nets left) w h = tt
Agrees-IsLive (linked nets ticks fails) w (t, f, k) = k
Agrees-IsLive (backing_off nets) w h = tt
Agrees-IsLive (serving_ap nets) w h = tt

connected-Agrees :
    (r : Radio) (nets : List WifiCreds) (w : Watch) (s : Supervisor)
    → w.failed_in_row < 3
    → Agrees (connected_turn r nets w.rounds w.failed_in_row s).1 (round_watched r w)
unfolding connected_turn probe_link
connected-Agrees r nets w s k = elim (Bool-cases r.is_connected) [
  | inr e ↦ rw e tt
  | inl e ↦ elim (Bool-cases s.beacon_timeout) [
    | inl b ↦ rw (e, b) tt
    | inr b ↦ elim (Bool-cases s.rescan_signal) [
      | inl q ↦ rw (e, b, q) tt
      | inr q ↦ elim (Bool-cases ((w.rounds + 1) % 12 == 0)) [
        | inr t ↦ rw (e, b, q, t) (refl, refl, k)
        | inl t ↦ elim (Bool-cases (r.assoc_ok && r.gateway_ok)) [
          | inl g ↦ rw (e, b, q, t, g) (refl, refl, omega arith)
          | inr g ↦ elim (Bool-cases (leb 3 (w.failed_in_row + 1))) [
            | inl f ↦ rw (e, b, q, t, g, f) tt
            | inr f ↦ rw (e, b, q, t, g, f) (refl, refl, ground (arith, f))
          ]
        ]
      ]
    ]
  ]
]

turn-Agrees :
    (r : Radio) (ph : Phase) (s : Supervisor) (w : Watch)
    → Agrees ph w
    → Agrees (turn r ph s).1 (watch (turned r) ph w)
unfolding turn
turn-Agrees r top s w h = tt
turn-Agrees r (copied nets) s w h = refl
turn-Agrees r (trying [] []) s w h = tt
turn-Agrees r (trying (x ∷ nets) []) s w h = tt
turn-Agrees r (trying nets (creds ∷ left)) s w h = elim (Bool-cases (r.try_connect_sta creds)) [
  | inl e ↦ rw e (refl, refl, omega arith)
  | inr e ↦ rw e refl
]
turn-Agrees r (linked nets ticks fails) s w (t, f, k) = rw (t, f) (connected-Agrees r nets w s k)
turn-Agrees r (backing_off nets) s w h = tt
turn-Agrees r (serving_ap nets) s w h = elim (Bool-cases s.rescan_signal) [
  | inl e ↦ rw e tt
  | inr e ↦ rw e tt
]

step-Agrees :
    (e : Event) (ph : Phase) (s : Supervisor) (w : Watch)
    → Agrees ph w
    → Agrees (step e ph s).1 (watch e ph w)
unfolding step
step-Agrees (turned r) ph s w h = turn-Agrees r ph s w h
step-Agrees (connect_called nets) ph s w h = h
step-Agrees reconnect_called ph s w h = h
step-Agrees (scan_called id) ph s w h = h
step-Agrees scan_expired ph s w h = h
step-Agrees beacon_lost ph s w h = h

pub run-Agrees :
    (es : List Event) (ph : Phase) (s : Supervisor) (w : Watch)
    → Agrees ph w
    → Agrees (run es ph s).1 (watched es ph s w)
unfolding run
run-Agrees [] ph s w h = h
run-Agrees (e ∷ es) ph s w h =
    run-Agrees es (step e ph s).1 (step e ph s).0 (watch e ph w) (step-Agrees e ph s w h)

-- ===== src/Supervisor/Updates.antt =====
-- net_wifi.rs: what becomes of a new list of networks, and of a link.
use watercontroller.Base.{
  ℕ, ◌+◌, ◌%◌, ◌≡◌, refl, sym, ◌∙◌, arith, String, true, false, ◌&&◌, ◌⊎◌, inl, inr, List, [], ◌∷◌,
  ◌==◌, leb, Bool-cases, Option-cases,
}
use watercontroller.Config.{WifiCreds}
use watercontroller.Supervisor.{
  Supervisor, spawn, same_networks, connect, reconnect, request_scan, scan_timed_out,
  on_beacon_timeout, Phase, top, copied, trying, linked, backing_off, serving_ap, Radio, probe_link,
  serve_scan_request, announce_connected, enter_ap_mode, connected_turn, turn, Event, turned,
  connect_called, reconnect_called, scan_called, scan_expired, beacon_lost, step, run,
}
use watercontroller.Supervisor.Probes.{unwatched, watched, IsLive, Agrees-IsLive, run-Agrees}

-- The thread uses the current list, or it is asked to come back for it.
abbrev pub Pending : List WifiCreds → Supervisor → Type 0
Pending nets s = (nets ≡ s.networks) ⊎ (s.rescan_signal ≡ true)

-- The thread is not behind.
abbrev pub IsCurrent : Phase → Supervisor → Type 0
IsCurrent top s = Unit
IsCurrent (copied nets) s = nets ≡ s.networks
IsCurrent (trying nets left) s = Pending nets s
IsCurrent (linked nets ticks probe_fails) s = Pending nets s
IsCurrent (backing_off nets) s = Pending nets s
IsCurrent (serving_ap nets) s = Pending nets s

-- No list arrives between the two statements by which the thread copies the list and clears the
-- signal.
abbrev IsApart : Event → Phase → Type 0
IsApart (connect_called nets) (copied old) = ⊥
IsApart _ _ = Unit

abbrev pub AreApart : List Event → Phase → Supervisor → Type 0
AreApart [] ph s = Unit
AreApart (e ∷ es) ph s = IsApart e ph × AreApart es (step e ph s).1 (step e ph s).0

-- Two states that the invariant does not tell apart.
abbrev Alike : Supervisor → Supervisor → Type 0
Alike s t = (t.networks ≡ s.networks) × (s.rescan_signal ≡ true → t.rescan_signal ≡ true)

Alike-Pending :
    (nets : List WifiCreds) (s t : Supervisor) → Alike s t → Pending nets s → Pending nets t
Alike-Pending nets s t (n, r) (inl h) = inl (h ∙ sym n)
Alike-Pending nets s t (n, r) (inr h) = inr (r h)

Alike-IsCurrent : (ph : Phase) (s t : Supervisor) → Alike s t → IsCurrent ph s → IsCurrent ph t
Alike-IsCurrent top s t a h = tt
Alike-IsCurrent (copied nets) s t a h = h ∙ sym a.0
Alike-IsCurrent (trying nets left) s t a h = Alike-Pending nets s t a h
Alike-IsCurrent (linked nets ticks fails) s t a h = Alike-Pending nets s t a h
Alike-IsCurrent (backing_off nets) s t a h = Alike-Pending nets s t a h
Alike-IsCurrent (serving_ap nets) s t a h = Alike-Pending nets s t a h

Pending-quiet :
    (nets : List WifiCreds) (s : Supervisor)
    → Pending nets s
    → s.rescan_signal ≡ false
    → nets ≡ s.networks
Pending-quiet nets s (inl h) k = h
Pending-quiet nets s (inr h) k = absurd (ground (arith, h, k))

request_scan-Alike : (id : ℕ) (s : Supervisor) → Alike s (request_scan id s).0
unfolding request_scan
request_scan-Alike id s = elim (Option-cases s.scan_request) [
  | inl e ↦ rw (e, request_scan) (refl, λ r. r)
  | inr (o, e) ↦ rw (e, request_scan) (refl, λ r. r)
]

-- A turn of the connected loop leaves it, or goes on with the same list and signal.
connected-IsCurrent :
    (r : Radio) (nets : List WifiCreds) (ticks fails : ℕ) (s : Supervisor)
    → IsCurrent (linked nets ticks fails) s
    → IsCurrent (connected_turn r nets ticks fails s).1 (connected_turn r nets ticks fails s).0
unfolding connected_turn serve_scan_request probe_link
connected-IsCurrent r nets ticks fails s h = elim (Bool-cases r.is_connected) [
  | inr e ↦ rw e tt
  | inl e ↦ elim (Bool-cases s.beacon_timeout) [
    | inl b ↦ rw (e, b) tt
    | inr b ↦ elim (Bool-cases s.rescan_signal) [
      | inl q ↦ rw (e, b, q) tt
      | inr q ↦ elim (Bool-cases ((ticks + 1) % 12 == 0)) [
        | inr t ↦ rw (e, b, q, t) (inl (Pending-quiet nets s h q))
        | inl t ↦ elim (Bool-cases (r.assoc_ok && r.gateway_ok)) [
          | inl g ↦ rw (e, b, q, t, g) (inl (Pending-quiet nets s h q))
          | inr g ↦ elim (Bool-cases (leb 3 (fails + 1))) [
            | inl f ↦ rw (e, b, q, t, g, f) tt
            | inr f ↦ rw (e, b, q, t, g, f) (inl (Pending-quiet nets s h q))
          ]
        ]
      ]
    ]
  ]
]

turn-IsCurrent :
    (r : Radio) (ph : Phase) (s : Supervisor)
    → IsCurrent ph s
    → IsCurrent (turn r ph s).1 (turn r ph s).0
unfolding turn announce_connected enter_ap_mode serve_scan_request
turn-IsCurrent r top s h = refl
turn-IsCurrent r (copied nets) s h = inl h
turn-IsCurrent r (trying [] []) s h = elim (Bool-cases r.start_ap) [
  | inl e ↦ rw e h
  | inr e ↦ rw e h
]
turn-IsCurrent r (trying (x ∷ nets) []) s h = h
turn-IsCurrent r (trying nets (creds ∷ left)) s h = elim (Bool-cases (r.try_connect_sta creds)) [
  | inl e ↦ rw e h
  | inr e ↦ rw e h
]
turn-IsCurrent r (linked nets ticks fails) s h = connected-IsCurrent r nets ticks fails s h
turn-IsCurrent r (backing_off nets) s h = tt
turn-IsCurrent r (serving_ap nets) s h = elim (Bool-cases s.rescan_signal) [
  | inl e ↦ rw e tt
  | inr e ↦ rw e (inl (Pending-quiet nets s h e))
]

connect-IsCurrent :
    (nets : List WifiCreds) (ph : Phase) (s : Supervisor)
    → IsApart (connect_called nets) ph
    → IsCurrent ph s
    → IsCurrent ph (connect nets s)
unfolding connect
connect-IsCurrent nets top s a h = tt
connect-IsCurrent nets (copied old) s a h = absurd a
connect-IsCurrent nets (trying old left) s a h = ground arith
connect-IsCurrent nets (linked old ticks fails) s a h = ground arith
connect-IsCurrent nets (backing_off old) s a h = ground arith
connect-IsCurrent nets (serving_ap old) s a h = ground arith

step-IsCurrent :
    (e : Event) (ph : Phase) (s : Supervisor)
    → IsApart e ph
    → IsCurrent ph s
    → IsCurrent (step e ph s).1 (step e ph s).0
unfolding step reconnect request_scan scan_timed_out on_beacon_timeout
step-IsCurrent (turned r) ph s a h = turn-IsCurrent r ph s h
step-IsCurrent (connect_called nets) ph s a h = connect-IsCurrent nets ph s a h
step-IsCurrent reconnect_called ph s a h = Alike-IsCurrent ph s _ (refl, λ r. refl) h
step-IsCurrent (scan_called id) ph s a h = Alike-IsCurrent ph s _ (request_scan-Alike id s) h
step-IsCurrent scan_expired ph s a h = Alike-IsCurrent ph s _ (refl, λ r. r) h
step-IsCurrent beacon_lost ph s a h = Alike-IsCurrent ph s _ (refl, λ r. r) h

run-IsCurrent :
    (es : List Event) (ph : Phase) (s : Supervisor)
    → AreApart es ph s
    → IsCurrent ph s
    → IsCurrent (run es ph s).1 (run es ph s).0
unfolding run
run-IsCurrent [] ph s a h = h
run-IsCurrent (e ∷ es) ph s (a, as_) h =
    run-IsCurrent es (step e ph s).1 (step e ph s).0 as_ (step-IsCurrent e ph s a h)

-- Whatever the radio and the other threads do from the start of the supervisor: if no new list arrives
-- between the two statements by which the thread copies the list and clears the signal, it never goes
-- on with an old list of networks without being asked to come back for the new one; and it is never on a
-- link on which the last three probes, one in every twelfth round, have failed.
pub spawn-run :
    (ap_ssid ap_password : String) (nets : List WifiCreds) (es : List Event)
    → AreApart es top (spawn ap_ssid ap_password nets)
    → let start = spawn ap_ssid ap_password nets in
      let (s, ph) = run es top start in IsCurrent ph s × IsLive ph (watched es top start unwatched)
spawn-run ap_ssid ap_password nets es a =
    let start = spawn ap_ssid ap_password nets in
    let (s, ph) = run es top start in
    (
      run-IsCurrent es top start a tt,
      Agrees-IsLive ph (watched es top start unwatched) (run-Agrees es top start unwatched tt),
    )

-- A list that differs from the current one ends a link, or the service as an access point: three turns
-- of the thread after the call it tries the networks of that list from the first one on.
pub connect-takes_over :
    (nets old : List WifiCreds) (ticks fails : ℕ) (s : Supervisor) (r1 r2 r3 : Radio)
    → same_networks s.networks nets ≡ false
    → let es = connect_called nets ∷ turned r1 ∷ turned r2 ∷ turned r3 ∷ [] in
      ((run es (linked old ticks fails) s).1 ≡ trying nets nets)
      × ((run es (serving_ap old) s).1 ≡ trying nets nets)
unfolding run step connect turn connected_turn
connect-takes_over nets old ticks fails s r1 r2 r3 h = (leaves, rw h refl)
  where
    leaves :
        (run
          (connect_called nets ∷ turned r1 ∷ turned r2 ∷ turned r3 ∷ [])
          (linked old ticks fails)
          s).1
        ≡ trying nets nets
    leaves =
        unfold run step connect turn connected_turn in
        elim (Bool-cases r1.is_connected) [
          | inr e ↦ rw (h, e) refl
          | inl e ↦ elim (Bool-cases s.beacon_timeout) [
            | inl b ↦ rw (h, e, b) refl
            | inr b ↦ rw (h, e, b) refl
          ]
        ]

-- A list that arrives after the thread has copied the old one and before it clears the signal is kept,
-- but the thread goes on with the old list and nothing asks it to come back.
pub connect-lost :
    (nets old : List WifiCreds) (s : Supervisor) (r : Radio)
    → same_networks s.networks nets ≡ false
    → let (t, ph) = run (connect_called nets ∷ turned r ∷ []) (copied old) s in
      (t.networks ≡ nets) × (t.rescan_signal ≡ false) × (ph ≡ trying old old)
unfolding run step connect turn
connect-lost nets old s r h = rw h (refl, refl, refl)

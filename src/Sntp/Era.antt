-- ===== src/Sntp/Era.antt =====
-- The time that the clock of crates/firmware-nostd shows, and the end of the first era of NTP.
use watercontroller.Base.{
  ℕ, ◌+◌, ◌-◌, ◌/◌, ◌%◌, ◌^◌, ◌≤◌, ◌<◌, ◌≡◌, refl, sym, ap, ◌∙◌, arith, String, List, [], ◌∷◌, ◌++◌,
  ◌==◌, false, drop, length, All, drop-length,
}
use watercontroller.Nvs.{Bytes}
use watercontroller.Sntp.{
  Exchange, received, unix, refused, ntp_unix_offset, sanity_min, seconds_at, checked, sync_once,
  sntp_turn, sntp_task, now, resync, retry,
}

-- A server's field of seconds, which has 32 bits.
abbrev pub seconds_field : ℕ → Bytes
seconds_field n = n / 2 ^ 24 % 256 ∷ n / 2 ^ 16 % 256 ∷ n / 2 ^ 8 % 256 ∷ n % 256 ∷ []

-- A datagram of a server at a time `t` of Unix: 40 bytes, the seconds and the fraction.
abbrev pub datagram : Bytes → ℕ → Bytes → Exchange
datagram header t fraction =
    received 48 (header ++ (seconds_field ((t + ntp_unix_offset) % 2 ^ 32) ++ fraction))

seconds_at-seconds_field :
    (n : ℕ) (rest : Bytes) → n < 2 ^ 32 → seconds_at (seconds_field n ++ rest) ≡ n
unfolding seconds_at
seconds_at-seconds_field n rest h = omega arith

-- The first second that no longer fits is one of 7 February 2036.
abbrev pub era_end : ℕ
era_end = 2 ^ 32 - ntp_unix_offset

checked-unix :
    (t : ℕ) → sanity_min ≤ t → t < era_end → checked ((t + ntp_unix_offset) % 2 ^ 32) ≡ unix t
checked-unix t h k = ground arith

checked-era :
    (t : ℕ)
    → era_end ≤ t
    → t < 2 ^ 32
    → checked ((t + ntp_unix_offset) % 2 ^ 32) ≡ refused "pre-1970"
checked-era t h k = ground arith

sync_once-datagram :
    (header fraction : Bytes) (t : ℕ)
    → length header ≡ 40
    → sync_once (datagram header t fraction) ≡ checked ((t + ntp_unix_offset) % 2 ^ 32)
unfolding sync_once seconds_at
sync_once-datagram header fraction t h =
    let n = (t + ntp_unix_offset) % 2 ^ 32 in
    let rest = seconds_field n ++ fraction in
    let body : drop 40 (header ++ rest) ≡ rest =
      ap (λ (k : ℕ). drop k (header ++ rest)) (sym h) ∙ drop-length header rest in
    ap (λ (l : Bytes). checked (seconds_at l)) body
    ∙ ap checked (seconds_at-seconds_field n fraction (omega arith))

-- From 2025 until the end of the era a reply is accepted and gives the time of the server. From there
-- on until 2106 every reply is refused, since the field of the seconds starts again at 0.
pub sync_once-era :
    (header fraction : Bytes) (t : ℕ)
    → length header ≡ 40
    → (sanity_min ≤ t → t < era_end → sync_once (datagram header t fraction) ≡ unix t)
      × (era_end ≤ t → t < 2 ^ 32 → sync_once (datagram header t fraction) ≡ refused "pre-1970")
sync_once-era header fraction t h =
    let read = sync_once-datagram header fraction t h in
    (λ k l. read ∙ checked-unix t k l, λ k l. read ∙ checked-era t k l)

-- A reply that is refused.
abbrev pub IsRefused : ℕ × Exchange → Type 0
IsRefused (uptime, x) = (e : String) × (sync_once x ≡ refused e)

sntp_turn-refused :
    (uptime : ℕ) (x : Exchange) (epoch : ℕ)
    → IsRefused (uptime, x)
    → sntp_turn uptime x epoch ≡ (epoch, retry)
unfolding sntp_turn
sntp_turn-refused uptime x epoch (e, h) = rw (sntp_turn, h) refl

sntp_turn-unix :
    (uptime t : ℕ) (x : Exchange) (epoch : ℕ)
    → sync_once x ≡ unix t
    → sntp_turn uptime x epoch ≡ (t - uptime, resync)
unfolding sntp_turn
sntp_turn-unix uptime t x epoch h = rw (sntp_turn, h) refl

sntp_task-refused :
    (turns : List (ℕ × Exchange)) (epoch : ℕ) → All IsRefused turns → sntp_task turns epoch ≡ epoch
unfolding sntp_task
sntp_task-refused [] epoch h = refl
sntp_task-refused ((u, x) ∷ turns) epoch (h, hs) =
    ap (λ (r : ℕ × ℕ). sntp_task turns r.0) (sntp_turn-refused u x epoch h)
    ∙ sntp_task-refused turns epoch hs

sntp_task-append :
    (xs ys : List (ℕ × Exchange)) (epoch : ℕ)
    → sntp_task (xs ++ ys) epoch ≡ sntp_task ys (sntp_task xs epoch)
unfolding sntp_task
sntp_task-append [] ys epoch = refl
sntp_task-append ((u, x) ∷ xs) ys epoch = sntp_task-append xs ys (sntp_turn u x epoch).0

-- Whatever happened before: after a reply of a server at time `t`, of 2025 or later and of this era, that
-- comes at the uptime `u`, the clock shows `t` and the seconds that have passed since, also while all
-- later exchanges fail; and till a first reply is accepted it shows the baseline and the uptime.
pub now-sntp_task :
    (base u t : ℕ) (header fraction : Bytes) (before after : List (ℕ × Exchange)) (v epoch : ℕ)
    → length header ≡ 40
    → sanity_min ≤ t
    → t < era_end
    → u < sanity_min
    → u ≤ v
    → All IsRefused after
    → (now base (sntp_task (before ++ (u, datagram header t fraction) ∷ after) epoch) v
        ≡ t + (v - u))
      × (now base (sntp_task after 0) v ≡ base + v)
unfolding now sntp_task
now-sntp_task base u t header fraction before after v epoch h k l m n q =
    let good = (sync_once-era header fraction t h).0 k l in
    let start = sntp_task before epoch in
    let turned = sntp_turn-unix u t (datagram header t fraction) start good in
    let set =
      sntp_task-append before ((u, datagram header t fraction) ∷ after) epoch
      ∙ ap (λ (r : ℕ × ℕ). sntp_task after r.0) turned
      ∙ sntp_task-refused after (t - u) q in
    let synced : ((t - u) == 0) ≡ false = ground arith in
    (rw (set, synced) (omega arith), rw (sntp_task-refused after 0 q) refl)

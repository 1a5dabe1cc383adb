-- ===== src/Sntp.antt =====
-- crates/firmware-nostd/src/sntp.rs, the synchronisation of the clock, and `EmbassyClock::now` of
-- crates/firmware-nostd/src/main.rs. Times are in seconds; the uptime is less than the time of 2025.
pub mod Era
mod Tests
use watercontroller.Base.{
  ℕ, ◌+◌, ◌-◌, ◌*◌, ◌^◌, String, List, [], ◌∷◌, ltb, ◌==◌, drop, if◌then◌else◌,
}
use watercontroller.Nvs.{Bytes}

abbrev pub ntp_unix_offset : ℕ
ntp_unix_offset = 2208988800

abbrev pub sanity_min : ℕ
sanity_min = 1735689600

abbrev pub resync : ℕ
resync = 6 * 60 * 60

abbrev pub retry : ℕ
retry = 30

-- How the exchange went: an error of the network, a timeout, or `n` bytes in the buffer of 48.
pub data Exchange : Type 0 where
  failed : (step : String) → Exchange
  timeout : Exchange
  received : (n : ℕ) (resp : Bytes) → Exchange

pub data Synced : Type 0 where
  unix : ℕ → Synced
  refused : String → Synced

-- `u32::from_be_bytes([resp[40], resp[41], resp[42], resp[43]])`.
unfoldable pub seconds_at : Bytes → ℕ
seconds_at (a ∷ b ∷ c ∷ d ∷ rest) = a * 2 ^ 24 + b * 2 ^ 16 + c * 2 ^ 8 + d
seconds_at _ = 0

abbrev pub checked : ℕ → Synced
checked ntp_secs =
    if ltb ntp_secs ntp_unix_offset
    then refused "pre-1970"
    else if ltb (ntp_secs - ntp_unix_offset) sanity_min
    then refused "insane"
    else unix (ntp_secs - ntp_unix_offset)

unfoldable pub sync_once : Exchange → Synced
unfolding seconds_at
sync_once (failed step) = refused step
sync_once timeout = refused "timeout"
sync_once (received n resp) =
    if ltb n 48 then refused "short" else checked (seconds_at (drop 40 resp))

-- One turn of `sntp_task` at an uptime: `EPOCH_AT_BOOT`, and the seconds until the next turn.
unfoldable pub sntp_turn : ℕ → Exchange → ℕ → ℕ × ℕ
unfolding sync_once
sntp_turn uptime x epoch_at_boot = elim (sync_once x) [
  | unix t ↦ (t - uptime, resync)
  | refused e ↦ (epoch_at_boot, retry)
]

-- The turns at their uptimes.
unfoldable pub sntp_task : List (ℕ × Exchange) → ℕ → ℕ
unfolding sntp_turn
sntp_task [] epoch_at_boot = epoch_at_boot
sntp_task ((uptime, x) ∷ turns) epoch_at_boot = sntp_task turns (sntp_turn uptime x epoch_at_boot).0

-- `EmbassyClock::now`, with the baseline of the build.
unfoldable pub now : ℕ → ℕ → ℕ → ℕ
now base_epoch_s epoch_at_boot uptime =
    (if epoch_at_boot == 0 then base_epoch_s else epoch_at_boot) + uptime

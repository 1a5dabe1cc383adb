-- ===== src/Boot.antt =====
-- The radio mode of crates/firmware-nostd: the hint in the store and the choice at the boot
-- (crates/firmware-nostd/src/main.rs), and the scanner of the setup portal that goes back
-- (crates/firmware-nostd/src/ap.rs).
pub mod Station
pub mod Fallback
mod Tests
use watercontroller.Base.{
  ℕ, String, Bool, true, false, Option, none, some, List, [], ◌∷◌, ◌||◌, ◌==◌, map, str_eq,
  if◌then◌else◌,
}
use watercontroller.Config.{WifiCreds}
use watercontroller.Nvs.{Bytes, NvsStore}

pub data BootMode : Type 0 where
  sta ap : BootMode

abbrev pub boot_mode_key : String
boot_mode_key = "wc.bootmode"

abbrev pub is_ap : BootMode → Bool
is_ap sta = false
is_ap ap = true

-- `Some([1, ..])` is the portal.
abbrev pub mode_of : Option Bytes → BootMode
mode_of (some (b ∷ bs)) = if b == 1 then ap else sta
mode_of _ = sta

abbrev pub byte_of : BootMode → ℕ
byte_of sta = 0
byte_of ap = 1

abbrev pub same_mode : BootMode → BootMode → Bool
same_mode sta sta = true
same_mode ap ap = true
same_mode _ _ = false

abbrev pub no_networks : List WifiCreds → Bool
no_networks [] = true
no_networks (c ∷ cs) = false

-- `known.iter().any(|s| s == ssid)`.
unfoldable pub is_among : String → List String → Bool
is_among ssid [] = false
is_among ssid (s ∷ ss) = let rest = is_among ssid ss in if str_eq s ssid then true else rest

-- `found.iter().any(..)`.
unfoldable pub any_known : List String → List String → Bool
unfolding is_among
any_known known [] = false
any_known known (s ∷ ss) = let rest = any_known known ss in if is_among s known then true else rest

abbrev pub ssids : List WifiCreds → List String
ssids cs = map (λ c. c.ssid) cs

module _ (n : NvsStore) where
  unfoldable pub read_boot_mode : n.Store → BootMode
  read_boot_mode s = mode_of (n.get s boot_mode_key)

  -- A write that fails is only logged.
  unfoldable pub write_boot_mode : BootMode → n.Store → n.Store
  unfolding read_boot_mode
  write_boot_mode mode s =
      if same_mode (read_boot_mode s) mode then s else (n.set s boot_mode_key (byte_of mode ∷ [])).1

  -- `boot_ap` in `main`.
  unfoldable pub boot_ap : List WifiCreds → n.Store → Bool
  unfolding read_boot_mode
  boot_ap networks s = no_networks networks || is_ap (read_boot_mode s)

  -- One turn of `scan_task`, with the configuration of that moment and the SSIDs of the scan, `none` if
  -- it failed: the store, and whether a reboot is requested.
  unfoldable pub scan_turn : List WifiCreds → Option (List String) → n.Store → n.Store × Bool
  unfolding write_boot_mode any_known
  scan_turn [] found s = (s, false)
  scan_turn (c ∷ cs) none s = (s, false)
  scan_turn (c ∷ cs) (some aps) s =
      if any_known (ssids (c ∷ cs)) aps then (write_boot_mode sta s, true) else (s, false)

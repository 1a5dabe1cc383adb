-- ===== src/Console.antt =====
-- crates/firmware-nostd/src/serial.rs: the console on the serial line. The console and the application
-- hold the same store. What a command prints is a list of replies.
pub mod Line
pub mod Recovery
mod Tests
use Prim.Native.Char.{Char, code}
use Prim.Native.String.{[], ◌∷◌}
use watercontroller.Base.{
  ℕ, suc, String, Bool, true, Option, none, some, List, ◌++◌, ◌&&◌, ◌||◌, ◌==◌, leb, is_empty,
  str_eq, if◌then◌else◌,
}
use mathlib.Core.List
use watercontroller.State.{DeviceSnapshot}
use watercontroller.Config.{Config}
use watercontroller.Config.Persist
use watercontroller.Config.Persist.{Codec, ConfigError, Result, ok, err}
use watercontroller.App.{App}
use watercontroller.App.Env.{Platform, Reading}
use watercontroller.App.FlowAlarm.{clear_flow_alarm}
use watercontroller.Boot as Mode
use watercontroller.Boot.{write_boot_mode}
use watercontroller.Console.Line.{read_keys}

-- `char::is_whitespace` of a character below 256.
abbrev is_whitespace : Char → Bool
is_whitespace c =
    leb 9 (code c) && leb (code c) 13 || code c == 32 || code c == 133 || code c == 160

abbrev trim_start : String → String
trim_start [] = []
trim_start (c ∷ s) = let rest = trim_start s in if is_whitespace c then rest else c ∷ s

abbrev trim_end : String → String
trim_end [] = []
trim_end (c ∷ s) =
    let rest = trim_end s in if is_whitespace c && is_empty rest then [] else c ∷ rest

unfoldable pub trim : String → String
trim s = trim_end (trim_start s)

pub data Command : Type 0 where
  help status diag reset config_reset ap alarm_clear nothing : Command
  unknown : String → Command

-- The arms of the `match` in `handle`.
unfoldable pub command_of : String → Command
unfolding trim
command_of line =
    let cmd = trim line in
    if is_empty cmd
    then nothing
    else if str_eq cmd "help"
    then help
    else if str_eq cmd "status"
    then status
    else if str_eq cmd "diag"
    then diag
    else if str_eq cmd "reset"
    then reset
    else if str_eq cmd "config reset"
    then config_reset
    else if str_eq cmd "ap"
    then ap
    else if str_eq cmd "alarm clear"
    then alarm_clear
    else unknown cmd

-- The figures of the heap and the uptime are left out.
pub data Reply (F : Type 0) : Type 0 where
  commands heap resetting erased portal_set alarm_cleared : Reply F
  status_of : DeviceSnapshot F → Reply F
  reset_failed : ConfigError → Reply F
  unknown_command : String → Reply F

module _ (p : Platform) (codec : Codec (Config p.F32)) (default : Config p.F32) where
  open p use {F32, nvs}

  -- `rebooting` is the signal `OTA_REBOOT`.
  pub record Console : Type 0 where
    pub app : App p
    pub rebooting : Bool
    pub replies : List (Reply F32)

  abbrev pub say : Reply F32 → Console → Console
  say r c = record c { replies = c.replies ++ List.◌∷◌ r List.[] }

  abbrev pub keep : Option nvs.Store → Console → Console
  keep store c = record c { app = record c.app { store = store } }

  abbrev said : Result Unit → Reply F32
  said (ok _) = erased
  said (err e) = reset_failed e

  -- `Config::factory_reset(nvs)`; the application was made with the store.
  abbrev pub erase : Option nvs.Store → Console → Console
  erase none c = c
  erase (some s) c =
      let (result, s') = Persist.factory_reset nvs codec default s in
      say (said result) (keep (some s') c)

  -- `write_boot_mode(nvs, BootMode::Ap)`.
  abbrev pub hint : Option nvs.Store → Console → Console
  hint none c = c
  hint (some s) c = keep (some (write_boot_mode nvs Mode.ap s)) c

  unfoldable pub execute : Reading → Command → Console → Console
  execute t nothing c = c
  execute t help c = say commands c
  execute t status c = say (status_of c.app.state) c
  execute t diag c = say heap c
  execute t reset c = record (say resetting c) { rebooting = true }
  execute t config_reset c = erase c.app.store c
  execute t ap c = record (say portal_set (hint c.app.store c)) { rebooting = true }
  execute t alarm_clear c = say alarm_cleared (record c { app = clear_flow_alarm p t c.app })
  execute t (unknown other) c = say (unknown_command other) c

  unfoldable pub handle : Reading → String → Console → Console
  unfolding command_of execute
  handle t line c = execute t (command_of line) c

  -- The lines one after the other; `clock n` is the clock when the line `n` is run.
  unfoldable pub handle_all : (ℕ → Reading) → List String → Console → Console
  handle_all clock List.[] c = c
  handle_all clock (List.◌∷◌ l ls) c = handle_all (λ n. clock (suc n)) ls (handle (clock 0) l c)

  -- Bytes that arrive when `line` holds what was typed before: the console, and what `line` holds then.
  unfoldable pub serial_task : (ℕ → Reading) → String → String → Console → Console × String
  unfolding handle_all read_keys
  serial_task clock line bytes c =
      let (lines, rest) = read_keys line bytes in (handle_all clock lines c, rest)

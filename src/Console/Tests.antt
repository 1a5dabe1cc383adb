-- ===== src/Console/Tests.antt =====
-- serial.rs: a device on whose console is typed, and instances of the theorems.
use watercontroller.Base.{◌≡◌, refl, String, true, false, some, ℕ, arith, ◌<>◌, ◌&&◌, Bool, str_ltb}
use Prim.Native.String as Text
use watercontroller.Serial.Line.{is_printable, IsPrintable}
use mathlib.Core.List.{[], ◌∷◌}
use watercontroller.FlashKv.{
  FlashKv, store, set, remove, flush, insert, without, serialized, push_entries, push_entry,
  to_le_bytes,
}
use watercontroller.FlashKv.Bench.{nor, blank}
use watercontroller.FlashKv.Codes.{by_codes, codes}
use watercontroller.FlashKv.Keys.{store-KeyLaws}
use watercontroller.App.{with_nvs}
use watercontroller.Config.Persist.{load, ok}
use watercontroller.App.Env.{Platform, Reading}
use watercontroller.App.Bench.{bench, guarded, epoch}
use watercontroller.Http.Bench.{exact}
use watercontroller.Boot.{boot_ap}
use watercontroller.Console.{Console, serial_task}
use watercontroller.Console.Line.{joined, read_keys, read_keys-joined}
use watercontroller.Console.Recovery.{serial_task-boots}

-- A device of this firmware: its store is the one in flash.
abbrev device : Platform
device = record bench { nvs = store by_codes nor }

abbrev kept : FlashKv by_codes nor
kept = record blank { cache = ("wc.cfg", 7 ∷ []) ∷ ("wc.valve", 1 ∷ []) ∷ [] }

abbrev console : Console device exact guarded
console = record { app = with_nvs device guarded (some kept); rebooting = false; replies = [] }

abbrev clock : ℕ → Reading
clock n = epoch

serial_task-boots_example :
    let c = (serial_task device exact guarded clock "" "config reset\rap\r" console).0 in
    (c.rebooting ≡ true)
    × (s : FlashKv by_codes nor) × (c.app.store ≡ some s)
    × (load (store by_codes nor) exact guarded s ≡ ok guarded)
    × (boot_ap (store by_codes nor) [] s ≡ true)
unfolding with_nvs set remove flush insert without serialized push_entries push_entry to_le_bytes
    codes str_ltb
serial_task-boots_example =
    serial_task-boots device (store-KeyLaws by_codes nor) exact guarded clock console kept [] refl
      refl refl

abbrev block : String
block = "0123456789012345678901234567890123456789012345678901234567890123456789012345678!!"

abbrev are_printable : String → Bool
are_printable Text.[] = true
are_printable (Text.◌∷◌ c s) = is_printable c && are_printable s

are_printable-IsPrintable : (s : String) → are_printable s ≡ true → IsPrintable s
are_printable-IsPrintable Text.[] h = tt
are_printable-IsPrintable (Text.◌∷◌ c s) h =
    (ground (arith, h), are_printable-IsPrintable s (ground (arith, h)))

-- A line of 83 characters whose last two are `ap`.
read_keys-joined_example :
    read_keys "" (joined (block ∷ []) ("ap" <> "\r\n"))
    ≡ ("ap" ∷ (read_keys "" "\n").0, (read_keys "" "\n").1)
read_keys-joined_example =
    read_keys-joined (block ∷ []) "ap" "\n" ((are_printable-IsPrintable block refl, refl), tt)
      (are_printable-IsPrintable "ap" refl) (omega arith)

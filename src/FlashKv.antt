-- ===== src/FlashKv.antt =====
-- crates/firmware-nostd/src/nvs.rs: the key-value store in flash. A byte is a number below 256, and a
-- `usize` has 32 bits.
pub mod Keys
pub mod Maps
pub mod Encoded
pub mod Restart
pub mod Torn
pub mod Failed
pub mod Codes
pub mod Bench
mod Tests
use watercontroller.Base.{
  ℕ, zero, suc, ◌+◌, ◌-◌, ◌*◌, ◌/◌, ◌%◌, ◌^◌, Bool, true, false, not, ◌&&◌, Option, none, some,
  String, List, [], ◌∷◌, ◌++◌, ◌≡◌, ltb, leb, ◌==◌, length, take, drop, str_eq, str_ltb,
  if◌then◌else◌,
}
use watercontroller.Nvs.{Bytes, NvsError, io, full, NvsStore}

-- `BTreeMap<String, Vec<u8>>`: the entries, in the order of their keys.
abbrev pub BTreeMap : Type 0
BTreeMap = List (String × Bytes)

unfoldable pub lookup : String → BTreeMap → Option Bytes
lookup key [] = none
lookup key ((k, v) ∷ m) = let rest = lookup key m in if str_eq k key then some v else rest

unfoldable pub insert : String → Bytes → BTreeMap → BTreeMap
insert key value [] = (key, value) ∷ []
insert key value ((k, v) ∷ m) =
    let rest = insert key value m in
    if str_eq k key
    then (key, value) ∷ m
    else if str_ltb key k
    then (key, value) ∷ (k, v) ∷ m
    else (k, v) ∷ rest

unfoldable pub without : String → BTreeMap → BTreeMap
without key [] = []
without key ((k, v) ∷ m) = let rest = without key m in if str_eq k key then rest else (k, v) ∷ rest

-- `(n + 3) & !3`.
abbrev pub pad4 : ℕ → ℕ
pad4 n = (n + 3) / 4 * 4

abbrev pub region_len : ℕ
region_len = 8 * 1024

abbrev pub magic : Bytes
magic = b'W' ∷ b'C' ∷ b'K' ∷ b'V' ∷ []

abbrev pub version : ℕ
version = 1

-- `u32::to_le_bytes` and `u32::from_le_bytes`.
unfoldable pub to_le_bytes : ℕ → Bytes
to_le_bytes n = n % 256 ∷ (n / 256) % 256 ∷ (n / 65536) % 256 ∷ (n / 16777216) % 256 ∷ []

unfoldable pub from_le_bytes : Bytes → ℕ
from_le_bytes (a ∷ b ∷ c ∷ d ∷ rest) = a + b * 256 + c * 65536 + d * 16777216
from_le_bytes _ = 0

-- `String::as_bytes` and `String::from_utf8`.
pub record Utf8 : Type 0 where
  pub as_bytes : String → Bytes
  pub from_utf8 : Bytes → Option String
  pub from_utf8-as_bytes : (s : String) → from_utf8 (as_bytes s) ≡ some s

abbrev pub zeros : ℕ → Bytes
zeros zero = []
zeros (suc n) = 0 ∷ zeros n

-- `buf.resize(pad4(buf.len()), 0)`.
abbrev pub padded : Bytes → Bytes
padded buf = buf ++ zeros (pad4 (length buf) - length buf)

-- What `load` comes to: a panic, `None`, or a map.
pub data Loaded : Type 0 where
  panicked absent : Loaded
  loaded : BTreeMap → Loaded

-- The flash that the crates esp_storage and embedded_storage drive: a read of the region, and what an
-- erasure and a write of it leave.
pub record FlashStorage : Type 1 where
  pub Flash : Type 0
  pub read : Flash → Option Bytes
  pub erase : Flash → Bool × Flash
  pub write : Bytes → Flash → Bool × Flash

module _ (u : Utf8) where
  -- The loop over the entries, with the bytes from `pos` on. A sum that passes `u32::MAX` wraps, and
  -- a slice that ends before it starts panics.
  unfoldable pub entries : ℕ → ℕ → Bytes → BTreeMap → Loaded
  entries zero pos rest m = loaded m
  entries (suc n) pos rest m =
      let len = pos + length rest in
      let start = pos + 8 in
      let klen = from_le_bytes rest in
      let vlen = from_le_bytes (drop 4 rest) in
      let kend = (start + klen) % 2 ^ 32 in
      let vstart = pad4 kend in
      let vend = (vstart + vlen) % 2 ^ 32 in
      let value = drop (vstart - start) (drop 8 rest) in
      let next = drop (pad4 vend - vstart) value in
      if ltb len start
      then absent
      else if ltb len kend
      then absent
      else if ltb kend start
      then panicked
      else elim (u.from_utf8 (take klen (drop 8 rest))) [
        | none ↦ absent
        | some key ↦
            let more = entries n (pad4 vend) next (insert key (take vlen value) m) in
            if ltb len vend then absent else if ltb vend vstart then panicked else more
      ]

  -- The parser of `load`, on the whole region.
  unfoldable pub parse : Bytes → Loaded
  unfolding entries from_le_bytes
  parse buf =
      let count = from_le_bytes (drop 8 buf) in
      let rest = entries count 12 (drop 12 buf) [] in
      if not (from_le_bytes buf == from_le_bytes magic)
      then absent
      else if not (from_le_bytes (drop 4 buf) == version)
      then absent
      else rest

  -- What `flush` appends for an entry.
  unfoldable pub push_entry : Bytes → String → Bytes → Bytes
  unfolding to_le_bytes
  push_entry buf k v = padded (
      padded (buf ++ to_le_bytes (length (u.as_bytes k)) ++ to_le_bytes (length v) ++ u.as_bytes k)
      ++ v)

  unfoldable pub push_entries : Bytes → BTreeMap → Bytes
  unfolding push_entry
  push_entries buf [] = buf
  push_entries buf ((k, v) ∷ m) = push_entries (push_entry buf k v) m

  unfoldable pub serialized : BTreeMap → Bytes
  unfolding push_entries to_le_bytes
  serialized cache = push_entries (magic ++ to_le_bytes version ++ to_le_bytes (length cache)) cache

  module _ (f : FlashStorage) where
    -- `FlashKv`.
    pub record FlashKv : Type 0 where
      pub flash : f.Flash
      pub cache : BTreeMap

    -- `FlashKv::load`.
    unfoldable pub load : f.Flash → Loaded
    load flash = elim (f.read flash) [ none ↦ absent | some buf ↦ parse buf ]

    -- `load(..).unwrap_or_default()`; `none` is a panic.
    abbrev pub or_default : Loaded → f.Flash → Option FlashKv
    or_default panicked flash = none
    or_default absent flash = some (record { flash = flash; cache = [] })
    or_default (loaded m) flash = some (record { flash = flash; cache = m })

    -- `FlashKv::new`.
    unfoldable pub new : f.Flash → Option FlashKv
    new flash = or_default (load flash) flash

    abbrev flush_written : FlashKv → Bool × f.Flash → Option NvsError × FlashKv
    flush_written s (true, flash) = (none, record s { flash = flash })
    flush_written s (false, flash) = (some (io "write"), record s { flash = flash })

    abbrev flush_erased : FlashKv → Bytes → Bool × f.Flash → Option NvsError × FlashKv
    flush_erased s buf (true, flash) = flush_written s (f.write buf flash)
    flush_erased s buf (false, flash) = (some (io "erase"), record s { flash = flash })

    -- `flush` of the cache.
    unfoldable pub flush : FlashKv → Option NvsError × FlashKv
    flush s =
        let buf = serialized s.cache in
        if ltb region_len (length buf) then (some full, s) else flush_erased s buf (f.erase s.flash)

    unfoldable pub set : FlashKv → String → Bytes → Option NvsError × FlashKv
    set s key value = flush (record s { cache = insert key value s.cache })

    unfoldable pub remove : FlashKv → String → Option NvsError × FlashKv
    remove s key = flush (record s { cache = without key s.cache })

    -- `impl NvsStore for FlashKv`.
    abbrev pub store : NvsStore
    store = record {
      Store = FlashKv;
      get = λ s key. lookup key s.cache;
      set = set;
      remove = remove;
    }

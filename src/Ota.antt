-- ===== src/Ota.antt =====
-- crates/firmware-nostd/src/ota.rs: an update over the network. The partition table, the metadata of the
-- boot loader and the flash belong to the crates esp_bootloader_esp_idf and esp_storage.
pub mod Memory
pub mod Image
pub mod Accepted
mod Tests
use Prim.Native.Nat.{min}
use watercontroller.Base.{
  ℕ, zero, suc, ◌+◌, ◌-◌, ◌*◌, ◌<>◌, String, Bool, true, false, not, Option, none, some, List, [],
  ◌∷◌, ◌++◌, ◌==◌, ltb, leb, length, take, drop, to_string, if◌then◌else◌,
}
use watercontroller.Nvs.{Bytes}

abbrev pub sector : ℕ
sector = 4096

abbrev pub min_image : ℕ
min_image = 64 * 1024

-- `AppPartitionSubType`.
pub data SubType : Type 0 where
  factory test : SubType
  ota : ℕ → SubType

-- `kind` is `none` for a partition that holds no app.
pub record Partition : Type 0 where
  pub kind : Option SubType
  pub offset : ℕ
  pub len : ℕ

-- What the drivers do with the flash: the table, the partition that was booted (`none` is an error, and
-- `some none` no such partition), a write, and the calls of `OtaUpdater`. A call gives whether it
-- succeeded, and the flash that it leaves.
pub record OtaFlash : Type 1 where
  pub Flash : Type 0
  pub read_partition_table : Flash → Option (List Partition)
  pub booted_partition : Flash → Option (Option Partition)
  pub write : ℕ → Bytes → Flash → Bool × Flash
  pub has_updater : Flash → Bool
  pub activate_next_partition : Flash → Bool × Flash
  pub set_ota_state_new : Flash → Bool × Flash
  pub set_ota_state_valid : Flash → Bool × Flash

abbrev pub same_sub : SubType → SubType → Bool
same_sub factory factory = true
same_sub test test = true
same_sub (ota a) (ota b) = a == b
same_sub _ _ = false

-- The loop over the partitions.
unfoldable pub other_slot : SubType → List Partition → Option (ℕ × ℕ)
other_slot booted [] = none
other_slot booted (p ∷ ps) =
    let rest = other_slot booted ps in
    elim p.kind [
      | none ↦ rest
      | some s ↦
          if same_sub s booted
          then rest
          else if same_sub s factory
          then rest
          else some (p.offset, p.len)
    ]

abbrev sub_of : Option (Option Partition) → Option SubType
sub_of (some (some p)) = p.kind
sub_of _ = none

abbrev slot_beside : Option SubType → List Partition → Option (ℕ × ℕ)
slot_beside none ps = none
slot_beside (some s) ps = other_slot s ps

-- What a read of the body comes to: an error, or bytes; no bytes are the end of the stream. A read
-- takes as much of them as there is room for, and the next one goes on with the rest.
abbrev pub Reads : Type 0
Reads = List (Option Bytes)

pub data Filled : Type 0 where
  broken : Filled
  filled : Bytes → Reads → Filled

-- The inner loop, with what is in the sector so far.
unfoldable pub fill : ℕ → Bytes → Reads → Filled
fill want buf [] = filled buf []
fill want buf (none ∷ rs) = if leb want (length buf) then filled buf (none ∷ rs) else broken
fill want buf (some c ∷ rs) =
    let room = want - length buf in
    let more = fill want (buf ++ c) rs in
    if leb want (length buf)
    then filled buf (some c ∷ rs)
    else if length c == 0
    then filled buf rs
    else if leb (length c) room
    then more
    else filled (buf ++ take room c) (some (drop room c) ∷ rs)

pub record OtaReport : Type 0 where
  pub ok : Bool
  pub detail : String

abbrev pub err : String → OtaReport
err detail = record { ok = false; detail = detail }

module _ (f : OtaFlash) where
  -- `inactive_slot`; `none` is any error.
  unfoldable pub inactive_slot : f.Flash → Option (ℕ × ℕ)
  unfolding other_slot
  inactive_slot s = elim (f.read_partition_table s) [
    | none ↦ none
    | some ps ↦ slot_beside (sub_of (f.booted_partition s)) ps
  ]

  abbrev marked : Bool × f.Flash → Bool × f.Flash
  marked (true, s) = f.set_ota_state_new s
  marked (false, s) = (false, s)

  unfoldable pub activate_inactive_slot : f.Flash → Bool × f.Flash
  activate_inactive_slot s =
      let done = marked (f.activate_next_partition s) in
      if f.has_updater s then done else (false, s)

  -- `confirm_running`, which only logs an error.
  unfoldable pub confirm_running : f.Flash → f.Flash
  confirm_running s = let (done, s') = f.set_ota_state_valid s in if f.has_updater s then s' else s

  -- What the loop over the sectors comes to.
  pub data Received : Type 0 where
    failed : String → f.Flash → Received
    complete : f.Flash → Received

  abbrev on_written : Bool × f.Flash → (f.Flash → Received) → Received
  on_written (true, s) next = next s
  on_written (false, s) next = failed "flash write failed" s

  abbrev on_filled : Filled → ℕ → f.Flash → (ℕ → Reads → f.Flash → Received) → Received
  on_filled broken at s next = failed "read error mid-stream" s
  on_filled (filled [] rs) at s next = failed "stream ended early" s
  on_filled (filled (b ∷ bs) rs) at s next =
      on_written (f.write at (b ∷ bs) s) (next (length (b ∷ bs)) rs)

  -- The outer loop, whose turns write a byte at least: it has at most as many as there are bytes.
  unfoldable pub receive : ℕ → ℕ → ℕ → ℕ → Reads → f.Flash → Received
  unfolding fill
  receive zero offset total written rs s = complete s
  receive (suc fuel) offset total written rs s =
      let turn =
        on_filled (fill (min sector (total - written)) [] rs) (offset + written) s
          (λ n rs' s'. receive fuel offset total (written + n) rs' s') in
      if ltb written total then turn else complete s

  -- The report, the flash, and whether a reboot is requested.
  abbrev pub Outcome : Type 0
  Outcome = OtaReport × f.Flash × Bool

  abbrev on_activated : ℕ → Bool × f.Flash → Outcome
  on_activated total (true, s) =
      (record { ok = true; detail = to_string total <> " bytes, rebooting" }, s, true)
  on_activated total (false, s) = (err "activate failed", s, false)

  abbrev on_received : ℕ → Received → Outcome
  on_received total (failed why s) = (err why, s, false)
  on_received total (complete s) = on_activated total (activate_inactive_slot s)

  abbrev into_slot : ℕ → Reads → f.Flash → Option (ℕ × ℕ) → Outcome
  into_slot total rs s none = (err "no inactive OTA slot", s, false)
  into_slot total rs s (some (offset, slot_len)) =
      let done = on_received total (receive total offset total 0 rs s) in
      if ltb slot_len total then (err "image larger than OTA partition", s, false) else done

  unfoldable pub write_image : ℕ → Reads → f.Flash → Outcome
  unfolding receive activate_inactive_slot inactive_slot
  write_image total rs s =
      if ltb total min_image
      then (err "image too small / no Content-Length", s, false)
      else into_slot total rs s (inactive_slot s)

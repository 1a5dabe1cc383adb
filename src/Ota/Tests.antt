-- ===== src/Ota/Tests.antt =====
-- ota.rs: instances of the theorems, with a flash that never fails and with one that does.
use watercontroller.Base.{
  ℕ, zero, suc, ◌+◌, ◌<◌, ◌≤◌, ◌≡◌, ◌⊎◌, refl, arith, true, none, some, List, [], ◌∷◌, length,
  length-append, ◌++◌, Bool, false, ◌&&◌, inl, inr, leb, ltb, if◌then◌else◌,
}
use watercontroller.Nvs.{Bytes}
use watercontroller.Ota.{
  Partition, OtaFlash, ota, Reads, inactive_slot, activate_inactive_slot, other_slot, min_image,
  write_image,
}
use watercontroller.Ota.Accepted.{IsStream, write_image-accepts}
use watercontroller.Ota.Memory.{content, patched, sector_start, sector_end, FlashBytes}
use watercontroller.Ota.Image.{Installed, Refused, write_image_lem}

-- The bytes, and the slot that the boot loader starts.
record Chip : Type 0 where
  bytes : ℕ → ℕ
  slot : ℕ

abbrev table : List Partition
table =
    record { kind = none; offset = 0x9000; len = 0x6000 }
    ∷ record { kind = some (ota 0); offset = 0x20000; len = 0x1f0000 }
    ∷ record { kind = some (ota 1); offset = 0x210000; len = 0x1f0000 }
    ∷ []

abbrev first_slot : Partition
first_slot = record { kind = some (ota 0); offset = 0x20000; len = 0x1f0000 }

abbrev chip : OtaFlash
chip = record {
  Flash = Chip;
  read_partition_table = λ s. some table;
  booted_partition = λ s. some (some first_slot);
  write = λ at bs s. (true, record s { bytes = patched at bs s.bytes });
  has_updater = λ s. true;
  activate_next_partition = λ s. (true, record s { slot = 1 });
  set_ota_state_new = λ s. (true, s);
  set_ota_state_valid = λ s. (true, s);
}

patched_outside :
    (at : ℕ) (bs : Bytes) (byte : ℕ → ℕ) (a : ℕ)
    → (a < sector_start at) ⊎ (sector_end (at + length bs) ≤ a)
    → patched at bs byte a ≡ byte a
patched_outside at bs byte a (inl h) =
    let before : leb at a ≡ false = ground arith in rw before refl
patched_outside at bs byte a (inr h) =
    let behind : ltb a (at + length bs) ≡ false = ground arith in ground (arith, behind)

chip_bytes : FlashBytes chip (λ s. s.bytes)
chip_bytes = record {
  written = λ at bs s ok a. refl;
  kept = λ at bs s a o. patched_outside at bs s.bytes a o;
}

abbrev running : Chip
running = record { bytes = λ a. 0xff; slot = 0 }

beside : inactive_slot chip running ≡ some (0x210000, 0x1f0000)
unfolding inactive_slot other_slot
beside = refl

abbrev blanks : ℕ → Bytes
blanks zero = []
blanks (suc n) = 0xff ∷ blanks n

-- Some bytes of a number that is not computed.
image_of : ℕ → Bytes
image_of n = blanks n

length-image_of : (n : ℕ) → length (image_of n) ≡ n
unfolding image_of
length-image_of zero = refl
length-image_of (suc n) = omega (arith, length-image_of n)

abbrev upload : Reads
upload = some (image_of 1460) ∷ some (image_of 100_000) ∷ []

upload-IsStream : IsStream upload
upload-IsStream =
    (omega (arith, length-image_of 1460), (omega (arith, length-image_of 100_000), tt))

upload_size : min_image ≤ length (content upload)
upload_size = omega (
  arith,
  length-append (image_of 1460) (image_of 100_000 ++ []),
  length-append (image_of 100_000) [],
  length-image_of 1460,
  length-image_of 100_000,
)

activates : (s : Chip) → (activate_inactive_slot chip s).0 ≡ true
unfolding activate_inactive_slot
activates s = refl

write_image-accepts_example :
    Installed chip
      (λ s. s.bytes)
      chip_bytes
      min_image
      upload
      running
      0x210000
      0x1f0000
      (write_image chip min_image upload running)
write_image-accepts_example =
    write_image-accepts chip (λ at bs s. refl) (λ s. s.bytes) chip_bytes min_image upload running
      0x210000 0x1f0000 beside activates (omega arith) (omega arith) upload-IsStream upload_size

-- A sector that was erased and not programmed.
abbrev erased : ℕ → Bytes → (ℕ → ℕ) → ℕ → ℕ
erased at bs byte a =
    if leb (sector_start at) a && ltb a (sector_end (at + length bs)) then 0xff else byte a

abbrev put_or_erased : Bool → ℕ → Bytes → Chip → Bool × Chip
put_or_erased true at bs s = (true, record s { bytes = patched at bs s.bytes })
put_or_erased false at bs s = (false, record s { bytes = erased at bs s.bytes })

-- A flash whose second slot is worn out behind its first sector.
abbrev worn : OtaFlash
worn = record chip { write = λ at bs s. put_or_erased (ltb at 0x211000) at bs s }

worn_bytes : FlashBytes worn (λ s. s.bytes)
worn_bytes = record {
  written = λ at bs s ok a. puts (ltb at 0x211000) at bs s ok a;
  kept = λ at bs s a o. keeps (ltb at 0x211000) at bs s a o;
}
  where
    puts :
        (w : Bool) (at : ℕ) (bs : Bytes) (s : Chip)
        → (put_or_erased w at bs s).0 ≡ true
        → (a : ℕ) → (put_or_erased w at bs s).1.bytes a ≡ patched at bs s.bytes a
    puts true at bs s ok a = refl
    puts false at bs s ok a = cc

    keeps :
        (w : Bool) (at : ℕ) (bs : Bytes) (s : Chip) (a : ℕ)
        → (a < sector_start at) ⊎ (sector_end (at + length bs) ≤ a)
        → (put_or_erased w at bs s).1.bytes a ≡ s.bytes a
    keeps true at bs s a o = patched_outside at bs s.bytes a o
    keeps false at bs s a (inl o) =
        let before : leb (sector_start at) a ≡ false = ground arith in rw before refl
    keeps false at bs s a (inr o) =
        let behind : ltb a (sector_end (at + length bs)) ≡ false = ground arith in
        ground (arith, behind)

beside_worn : inactive_slot worn running ≡ some (0x210000, 0x1f0000)
unfolding inactive_slot other_slot
beside_worn = refl

write_image_lem_example :
    Installed worn
      (λ s. s.bytes)
      worn_bytes
      min_image
      upload
      running
      0x210000
      0x1f0000
      (write_image worn min_image upload running)
    ⊎ Refused worn
        (λ s. s.bytes)
        worn_bytes
        running
        0x210000
        0x1f0000
        (write_image worn min_image upload running)
write_image_lem_example =
    write_image_lem worn (λ s. s.bytes) worn_bytes min_image upload running 0x210000 0x1f0000
      beside_worn (refl, refl)

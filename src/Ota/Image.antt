-- ===== src/Ota/Image.antt =====
-- ota.rs: what an update leaves in the flash.
use Prim.Native.Nat.{min}
use watercontroller.Base.{
  ℕ, zero, suc, ◌+◌, ◌-◌, ◌%◌, ◌≤◌, ◌<◌, ◌≡◌, ◌⊎◌, refl, sym, ap, ◌∙◌, arith, Bool, true, false,
  ◌&&◌, some, [], ◌∷◌, ◌++◌, inl, inr, leb, ltb, length, length-append, Bool-cases,
}
use mathlib.Core.List.{append_assoc}
use watercontroller.Nvs.{Bytes}
use watercontroller.Ota.{
  sector, min_image, OtaFlash, Reads, Filled, broken, filled, fill, inactive_slot,
  activate_inactive_slot, Received, failed, complete, on_filled, on_written, receive, Outcome,
  on_activated, on_received, write_image,
}
use watercontroller.Ota.Memory.{
  patched, content, sector_start, sector_end, FlashBytes, fill_lem, patched-nil, patched-append,
  patched-cong,
}

module _ (f : OtaFlash) (byte : f.Flash → ℕ → ℕ) (laws : FlashBytes f byte) where
  -- A turn that does not fail has written some bytes.
  record Turned (x : Filled) (at : ℕ) (s : f.Flash) (next : ℕ → Reads → f.Flash → Received f)
      (s1 : f.Flash) : Type 0 where
    bytes : Bytes
    rest : Reads
    got : x ≡ filled bytes rest
    some_bytes : 1 ≤ length bytes
    written : (f.write at bytes s).0 ≡ true
    later : next (length bytes) rest (f.write at bytes s).1 ≡ complete s1

  on_written-complete :
      (w : Bool × f.Flash) (next : f.Flash → Received f) (s1 : f.Flash)
      → on_written f w next ≡ complete s1
      → (w.0 ≡ true) × (next w.1 ≡ complete s1)
  on_written-complete (true, s) next s1 h = (refl, h)
  on_written-complete (false, s) next s1 h = cc

  on_filled-complete :
      (x : Filled) (at : ℕ) (s : f.Flash) (next : ℕ → Reads → f.Flash → Received f) (s1 : f.Flash)
      → on_filled f x at s next ≡ complete s1
      → Turned x at s next s1
  on_filled-complete broken at s next s1 h = cc
  on_filled-complete (filled [] rs) at s next s1 h = cc
  on_filled-complete (filled (b ∷ bs) rs) at s next s1 h =
      let (ok, later) =
        on_written-complete (f.write at (b ∷ bs) s) (next (length (b ∷ bs)) rs) s1 h in
      record {
        bytes = b ∷ bs;
        rest = rs;
        got = refl;
        some_bytes = omega arith;
        written = ok;
        later = later;
      }

  -- What the loop has written when it is complete: the next bytes of the stream, in their order.
  abbrev pub Written : ℕ → ℕ → Reads → f.Flash → f.Flash → Type 0
  Written at n rs s s1 =
      (added rest : Bytes) × (content rs ≡ added ++ rest)
      × (length added ≡ n)
      × ((a : ℕ) → byte s1 a ≡ patched at added (byte s) a)

  abbrev state_of : Received f → f.Flash
  state_of (failed why s) = s
  state_of (complete s) = s

  written_none :
      (at : ℕ) (rs : Reads) (s s1 : f.Flash)
      → ◌≡◌ {A = Received f} (complete s) (complete s1)
      → Written at 0 rs s s1
  written_none at rs s s1 h = (
    [],
    content rs,
    refl,
    refl,
    λ a. ap (λ (r : Received f). byte (state_of r) a) (sym h) ∙ sym (patched-nil at (byte s) a),
  )

  receive-complete :
      (fuel offset total written : ℕ) (rs : Reads) (s s1 : f.Flash)
      → total ≤ written + fuel
      → written ≤ total
      → receive f fuel offset total written rs s ≡ complete s1
      → Written (offset + written) (total - written) rs s s1
  unfolding receive
  receive-complete zero offset total written rs s s1 enough k h =
      let none_left : total - written ≡ 0 = omega arith in
      rw none_left (written_none (offset + written) rs s s1 h)
  receive-complete (suc fuel) offset total written rs s s1 enough k h =
      elim (Bool-cases (ltb written total)) [
        | inl more ↦
            let want = min sector (total - written) in
            let t = on_filled-complete (fill want [] rs) (offset + written) s _ s1 (rw more at h) in
            let (taken, same, read, size) =
              fill_lem want [] rs t.bytes t.rest t.got (omega arith) in
            let n = length t.bytes in
            let s' = (f.write (offset + written) t.bytes s).1 in
            let inside : written + n ≤ total = ground arith in
            let (added, rest, later, count, put) =
              receive-complete fuel offset total (written + n) t.rest s' s1
                (omega (arith, t.some_bytes)) inside t.later in
            let at : offset + (written + n) ≡ offset + written + n = omega arith in
            (
              t.bytes ++ added,
              rest,
              read
                  ∙ ap (λ (b : Bytes). b ++ content t.rest) (sym same)
                  ∙ ap (λ (b : Bytes). t.bytes ++ b) later
                  ∙ sym (append_assoc t.bytes added rest),
              omega (arith, length-append t.bytes added),
              λ a.
                  put a
                  ∙ ap (λ (p : ℕ). patched p added (byte s') a) at
                  ∙ patched-cong (offset + written + n) added (byte s')
                      (patched (offset + written) t.bytes (byte s)) a
                      (laws.written (offset + written) t.bytes s t.written a)
                  ∙ patched-append (offset + written) t.bytes added (byte s) a,
            )
        | inr all ↦
            let none_left : total - written ≡ 0 = ground arith in
            rw none_left (written_none (offset + written) rs s s1 (rw all at h))
      ]

  on_written-outside :
      (w : Bool × f.Flash) (next : f.Flash → Received f) (a : ℕ)
      → ((s' : f.Flash) → byte (state_of (next s')) a ≡ byte s' a)
      → byte (state_of (on_written f w next)) a ≡ byte w.1 a
  on_written-outside (true, s) next a ih = ih s
  on_written-outside (false, s) next a ih = refl

  on_filled-outside :
      (x : Filled) (at limit : ℕ) (s : f.Flash) (next : ℕ → Reads → f.Flash → Received f) (a : ℕ)
      → ((bs : Bytes) (rs : Reads) → x ≡ filled bs rs → length bs ≤ limit)
      → ((n : ℕ) → n ≤ limit → (a < sector_start at) ⊎ (sector_end (at + n) ≤ a))
      → ((n : ℕ) (rs : Reads) (s' : f.Flash)
          → n ≤ limit
          → byte (state_of (next n rs s')) a ≡ byte s' a)
      → byte (state_of (on_filled f x at s next)) a ≡ byte s a
  on_filled-outside broken at limit s next a fits o ih = refl
  on_filled-outside (filled [] rs) at limit s next a fits o ih = refl
  on_filled-outside (filled (b ∷ bs) rs) at limit s next a fits o ih =
      let size = fits (b ∷ bs) rs refl in
      on_written-outside (f.write at (b ∷ bs) s) (next (length (b ∷ bs)) rs) a
        (λ s'. ih (length (b ∷ bs)) rs s' size)
      ∙ laws.kept at (b ∷ bs) s a (o (length (b ∷ bs)) size)

  -- The sectors of a part of a slot are sectors of the slot.
  within_slot :
      (offset len at n a : ℕ)
      → offset % sector ≡ 0
      → len % sector ≡ 0
      → offset ≤ at
      → at + n ≤ offset + len
      → (a < offset) ⊎ (offset + len ≤ a)
      → (a < sector_start at) ⊎ (sector_end (at + n) ≤ a)
  within_slot offset len at n a h k l m (inl o) = inl (omega arith)
  within_slot offset len at n a h k l m (inr o) = inr (omega arith)

  -- Whatever it comes to, the loop changes no byte outside the slot.
  receive-outside :
      (fuel offset total len written : ℕ) (rs : Reads) (s : f.Flash) (a : ℕ)
      → offset % sector ≡ 0
      → len % sector ≡ 0
      → total ≤ len
      → (a < offset) ⊎ (offset + len ≤ a)
      → byte (state_of (receive f fuel offset total written rs s)) a ≡ byte s a
  unfolding receive
  receive-outside zero offset total len written rs s a h k l o = refl
  receive-outside (suc fuel) offset total len written rs s a h k l o =
      elim (Bool-cases (ltb written total)) [
        | inr all ↦ rw all refl
        | inl more ↦
            let want = min sector (total - written) in
            let inside : written ≤ total = ground arith in
            rw more (
              on_filled-outside (fill want [] rs) (offset + written) (total - written) s _ a
                (λ bs rs' got. omega (arith, (fill_lem want [] rs bs rs' got (omega arith)).3))
                (λ n fits.
                  within_slot offset len (offset + written) n a h k (omega arith) (omega arith) o)
                (λ n rs' s' size.
                  receive-outside fuel offset total len (written + n) rs' s' a h k l o))
      ]

  abbrev pub Inside : ℕ → ℕ → ℕ → Type 0
  Inside offset len a = (leb offset a && ltb a (offset + len)) ≡ true

  -- The image is in the slot, and the boot loader has been told to start its next partition.
  pub record Installed (total : ℕ) (rs : Reads) (s : f.Flash) (offset len : ℕ) (r : Outcome f)
      : Type 0 where
    pub ok : r.0.ok ≡ true
    pub reboots : r.2 ≡ true
    pub size : (min_image ≤ total) × (total ≤ len)
    pub flashed : f.Flash
    pub image : Written offset total rs s flashed
    pub activated : activate_inactive_slot f flashed ≡ (true, r.1)

  -- No byte outside the slot is changed, unless the boot loader's data was to be changed and that failed.
  pub record Refused (s : f.Flash) (offset len : ℕ) (r : Outcome f) : Type 0 where
    pub not_ok : r.0.ok ≡ false
    pub stays : r.2 ≡ false
    pub flashed : f.Flash
    pub outside : (a : ℕ) → Inside offset len a ⊎ (byte flashed a ≡ byte s a)
    pub left : (r.1 ≡ flashed) ⊎ (activate_inactive_slot f flashed ≡ (false, r.1))

  -- The slot is made of whole sectors.
  abbrev pub IsAligned : ℕ → ℕ → Type 0
  IsAligned offset len = (offset % sector ≡ 0) × (len % sector ≡ 0)

  -- A refusal, by the slot that it is of.
  abbrev pub RefusedIf : f.Flash → ℕ → ℕ → Outcome f → Type 0
  RefusedIf s offset len r = (r.0.ok ≡ false) × (IsAligned offset len → Refused s offset len r)

  untouched :
      (s : f.Flash) (offset len : ℕ) (r : Outcome f)
      → r.0.ok ≡ false
      → r.2 ≡ false
      → r.1 ≡ s
      → RefusedIf s offset len r
  untouched s offset len r ok reboot same = (
    ok,
    λ al. record {
      not_ok = ok;
      stays = reboot;
      flashed = s;
      outside = λ a. inr refl;
      left = inl same;
    },
  )

  abbrev Outside : f.Flash → ℕ → ℕ → f.Flash → Type 0
  Outside s offset len s1 = (a : ℕ) → Inside offset len a ⊎ (byte s1 a ≡ byte s a)

  Outside-slot :
      (offset total len : ℕ) (rs : Reads) (s : f.Flash)
      → total ≤ len
      → IsAligned offset len
      → Outside s offset len (state_of (receive f total offset total 0 rs s))
  Outside-slot offset total len rs s k (al, am) a =
      elim (Bool-cases (leb offset a && ltb a (offset + len))) [
        | inl e ↦ inl e
        | inr e ↦ inr (receive-outside total offset total len 0 rs s a al am k (ground arith))
      ]

  told_activated :
      (total : ℕ) (rs : Reads) (s : f.Flash) (offset len : ℕ) (s1 : f.Flash) (w : Bool × f.Flash)
      → (min_image ≤ total) × (total ≤ len)
      → Written offset total rs s s1
      → (IsAligned offset len → Outside s offset len s1)
      → activate_inactive_slot f s1 ≡ w
      → Installed total rs s offset len (on_activated f total w)
        ⊎ RefusedIf s offset len (on_activated f total w)
  told_activated total rs s offset len s1 (true, s2) size image out h = inl (record {
    ok = refl;
    reboots = refl;
    size = size;
    flashed = s1;
    image = image;
    activated = h;
  })
  told_activated total rs s offset len s1 (false, s2) size image out h = inr (
    refl,
    λ al. record { not_ok = refl; stays = refl; flashed = s1; outside = out al; left = inr h },
  )

  told_received :
      (total : ℕ) (rs : Reads) (s : f.Flash) (offset len : ℕ) (x : Received f)
      → (min_image ≤ total) × (total ≤ len)
      → receive f total offset total 0 rs s ≡ x
      → Installed total rs s offset len (on_received f total x)
        ⊎ RefusedIf s offset len (on_received f total x)
  told_received total rs s offset len (failed why s1) size h = inr (
    refl,
    λ al. record {
      not_ok = refl;
      stays = refl;
      flashed = s1;
      outside = λ a. rw (ap state_of h) at (Outside-slot offset total len rs s size.1 al a);
      left = inl refl;
    },
  )
  told_received total rs s offset len (complete s1) size h =
      let whole : Written (offset + 0) (total - 0) rs s s1 =
        receive-complete total offset total 0 rs s s1 (omega arith) (omega arith) h in
      let at : offset + 0 ≡ offset = omega arith in
      let all : total - 0 ≡ total = omega arith in
      told_activated total rs s offset len s1 (activate_inactive_slot f s1) size
        (rw (at, all) at whole)
        (λ al a. rw (ap state_of h) at (Outside-slot offset total len rs s size.1 al a)) refl

  pub Installed-RefusedIf :
      (total : ℕ) (rs : Reads) (s : f.Flash) (offset len : ℕ)
      → inactive_slot f s ≡ some (offset, len)
      → Installed total rs s offset len (write_image f total rs s)
        ⊎ RefusedIf s offset len (write_image f total rs s)
  unfolding write_image
  Installed-RefusedIf total rs s offset len h = elim (Bool-cases (ltb total min_image)) [
    | inl small ↦ rw small (inr (untouched s offset len _ refl refl refl))
    | inr e ↦ elim (Bool-cases (ltb len total)) [
      | inl large ↦ rw (e, h, large) (inr (untouched s offset len _ refl refl refl))
      | inr k ↦
          rw (e, h, k)
            (told_received total rs s offset len (receive f total offset total 0 rs s)
              (ground arith, ground arith) refl)
    ]
  ]

  -- An update into the slot beside the booted one, which starts and ends at a sector, has one of two
  -- results, if the driver keeps to `FlashBytes`. It says that it is ok, asks for a reboot, and its image,
  -- which has at least 64 KiB and is as long as the header said, is the beginning of the stream, stands
  -- at the start of the slot and fits it, and after that the boot loader's calls to switch to its next
  -- partition have succeeded. Or it says that it failed and asks for no reboot, and no byte outside the
  -- slot has changed, also where a write failed, unless the calls of the boot loader failed.
  pub write_image_lem :
      (total : ℕ) (rs : Reads) (s : f.Flash) (offset len : ℕ)
      → inactive_slot f s ≡ some (offset, len)
      → IsAligned offset len
      → Installed total rs s offset len (write_image f total rs s)
        ⊎ Refused s offset len (write_image f total rs s)
  write_image_lem total rs s offset len h al = elim (Installed-RefusedIf total rs s offset len h) [
    | inl i ↦ inl i
    | inr (said, r) ↦ inr (r al)
  ]

-- ===== src/Ota/Accepted.antt =====
-- ota.rs: an update that comes through is accepted.
use Prim.Native.Nat.{min}
use watercontroller.Base.{
  ℕ, zero, suc, ◌+◌, ◌-◌, ◌≤◌, ◌<◌, ◌≡◌, ◌⊎◌, refl, ◌∙◌, arith, Bool, true, false, none, some, [],
  ◌∷◌, ◌++◌, inl, inr, ◌==◌, leb, ltb, length, take, drop, length-append, length-drop,
  length-take_of_le, Bool-cases,
}
use watercontroller.Nvs.{Bytes}
use watercontroller.Ota.{
  sector, min_image, OtaFlash, Reads, Filled, filled, fill, inactive_slot, activate_inactive_slot,
  Received, complete, on_filled, on_written, on_activated, receive, write_image,
}
use watercontroller.Ota.Memory.{content, FlashBytes}
use watercontroller.Ota.Image.{Installed, RefusedIf, Installed-RefusedIf}

-- Every read gives some bytes.
abbrev pub IsStream : Reads → Type 0
IsStream [] = Unit
IsStream (none ∷ rs) = ⊥
IsStream (some c ∷ rs) = (1 ≤ length c) × IsStream rs

-- A sector is filled while the stream has the bytes.
record IsFull (want : ℕ) (size : ℕ) (x : Filled) : Type 0 where
  bytes : Bytes
  rest : Reads
  got : x ≡ filled bytes rest
  full : length bytes ≡ want
  streams : IsStream rest
  more : length (content rest) + want ≡ size

fill-IsFull :
    (want : ℕ) (buf : Bytes) (rs : Reads)
    → IsStream rs
    → length buf ≤ want
    → want ≤ length buf + length (content rs)
    → IsFull want (length buf + length (content rs)) (fill want buf rs)
unfolding fill
fill-IsFull want buf [] h k e = record {
  bytes = buf;
  rest = [];
  got = refl;
  full = omega arith;
  streams = tt;
  more = omega arith;
}
fill-IsFull want buf (none ∷ rs) h k e = elim h [ ]
fill-IsFull want buf (some c ∷ rs) (h, hs) k e = elim (Bool-cases (leb want (length buf))) [
  | inl full ↦ rw full (record {
    bytes = buf;
    rest = some c ∷ rs;
    got = refl;
    full = ground arith;
    streams = (h, hs);
    more = ground arith;
  })
  | inr room ↦
      let size = length-append c (content rs) in
      let grown = length-append buf c in
      let nonempty : (length c == 0) ≡ false = ground arith in
      elim (Bool-cases (leb (length c) (want - length buf))) [
        | inl fits ↦
            let r = fill-IsFull want (buf ++ c) rs hs (ground arith) (omega (arith, size, grown)) in
            rw (room, nonempty, fits)
              (record {
                bytes = r.bytes;
                rest = r.rest;
                got = r.got;
                full = r.full;
                streams = r.streams;
                more = omega (arith, r.more, size, grown);
              })
        | inr over ↦
            let left = want - length buf in
            let taken : length (take left c) ≡ left = length-take_of_le left c (ground arith) in
            let dropped = length-drop left c in
            let longer : left < length c = ground arith in
            rw (room, nonempty, over)
              (record {
                bytes = buf ++ take left c;
                rest = some (drop left c) ∷ rs;
                got = refl;
                full = omega (arith, length-append buf (take left c), taken);
                streams = (omega (arith, dropped), hs);
                more = omega (arith, length-append (drop left c) (content rs), size, dropped);
              })
      ]
]

module _ (f : OtaFlash)
    (writes : (at : ℕ) (bs : Bytes) (s : f.Flash) → (f.write at bs s).0 ≡ true) where
  on_filled-written :
      (at : ℕ) (bs : Bytes) (rs : Reads) (s : f.Flash) (next : ℕ → Reads → f.Flash → Received f)
      → 1 ≤ length bs
      → on_filled f (filled bs rs) at s next ≡ next (length bs) rs (f.write at bs s).1
  on_filled-written at [] rs s next h = absurd (omega arith)
  on_filled-written at (b ∷ bs) rs s next h = on_true (f.write at (b ∷ bs) s) (writes at (b ∷ bs) s)
    where
      on_true :
          (w : Bool × f.Flash)
          → w.0 ≡ true
          → on_written f w (next (length (b ∷ bs)) rs) ≡ next (length (b ∷ bs)) rs w.1
      on_true (true, s) h = refl
      on_true (false, s) h = cc

  receive_total :
      (fuel offset total written : ℕ) (rs : Reads) (s : f.Flash)
      → total ≤ written + fuel
      → written ≤ total
      → IsStream rs
      → total - written ≤ length (content rs)
      → (s1 : f.Flash) × (receive f fuel offset total written rs s ≡ complete s1)
  unfolding receive
  receive_total zero offset total written rs s enough k h e = (s, refl)
  receive_total (suc fuel) offset total written rs s enough k h e =
      elim (Bool-cases (ltb written total)) [
        | inr all ↦ (s, rw all refl)
        | inl more ↦
            let want = min sector (total - written) in
            let r = fill-IsFull want [] rs h (omega arith) (omega arith) in
            let below : written < total = ground arith in
            let some_bytes : 1 ≤ length r.bytes = omega (arith, r.full) in
            let s' = (f.write (offset + written) r.bytes s).1 in
            let (s1, done) =
              receive_total fuel offset total (written + length r.bytes) r.rest s' (omega arith)
                (omega (arith, r.full)) r.streams (omega (arith, r.more, r.full)) in
            (
              s1,
              rw (more, r.got)
                  (on_filled-written (offset + written) r.bytes r.rest s _ some_bytes ∙ done),
            )
      ]

  on_activated-ok :
      (total : ℕ) (w : Bool × f.Flash) → w.0 ≡ true → (on_activated f total w).0.ok ≡ true
  on_activated-ok total (true, s) h = refl
  on_activated-ok total (false, s) h = cc

  ok-write_image :
      (total : ℕ) (rs : Reads) (s : f.Flash) (offset len : ℕ)
      → inactive_slot f s ≡ some (offset, len)
      → ((t : f.Flash) → (activate_inactive_slot f t).0 ≡ true)
      → min_image ≤ total
      → total ≤ len
      → IsStream rs
      → total ≤ length (content rs)
      → (write_image f total rs s).0.ok ≡ true
  unfolding write_image
  ok-write_image total rs s offset len h act small large streams enough =
      let big : ltb total min_image ≡ false = ground arith in
      let fits : ltb len total ≡ false = ground arith in
      let (s1, done) =
        receive_total total offset total 0 rs s (omega arith) (omega arith) streams (omega arith) in
      rw (big, h, fits, done) (on_activated-ok total (activate_inactive_slot f s1) (act s1))

  -- An update into the slot beside the booted one is accepted, and installed, if its image has at least
  -- 64 KiB and fits the slot, every read gives some bytes until there are as many as the header said,
  -- and the driver's calls succeed.
  pub write_image-accepts :
      (byte : f.Flash → ℕ → ℕ) (laws : FlashBytes f byte) (total : ℕ) (rs : Reads) (s : f.Flash)
      (offset len : ℕ)
      → inactive_slot f s ≡ some (offset, len)
      → ((t : f.Flash) → (activate_inactive_slot f t).0 ≡ true)
      → min_image ≤ total
      → total ≤ len
      → IsStream rs
      → total ≤ length (content rs)
      → Installed f byte laws total rs s offset len (write_image f total rs s)
  write_image-accepts byte laws total rs s offset len h act small large streams enough =
      installed (Installed-RefusedIf f byte laws total rs s offset len h)
    where
      installed :
          Installed f byte laws total rs s offset len (write_image f total rs s)
            ⊎ RefusedIf f byte laws s offset len (write_image f total rs s)
          → Installed f byte laws total rs s offset len (write_image f total rs s)
      installed (inl i) = i
      installed (inr r) =
          cc (r.0, ok-write_image total rs s offset len h act small large streams enough)

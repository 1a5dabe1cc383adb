-- ===== src/Http/Upload.antt =====
-- http_server.rs: when an uploaded image is applied.
use watercontroller.Base.{
  ◌≡◌, ◌≢◌, refl, ap, sym, ◌∙◌, arith, ◌⊎◌, none, List, [], ◌∷◌, ◌++◌, length, append-nil,
  Option-cases, inl, inr,
}
use mathlib.Core.List.{append_assoc}
use watercontroller.Nvs.{Bytes}
use watercontroller.Http.{Read, bytes, failed, Slot, aborted, unfinished, applied}
use watercontroller.Http.Update.{
  EspOta, Outcome, error, accepted, Written, whole, stopped, write_reads, finish, upload,
}
use watercontroller.Http.Limits.{content}

-- No read fails before the end of the body.
abbrev pub AllRead : List Read → Type 0
AllRead [] = Unit
AllRead (failed e ∷ rs) = ⊥
AllRead (bytes [] ∷ rs) = Unit
AllRead (bytes (b ∷ bs) ∷ rs) = AllRead rs

write_reads_sound :
    (ota : EspOta) (w : Bytes) (rs : List Read) (b : Bytes)
    → write_reads ota w rs ≡ whole b
    → (b ≡ w ++ content rs) × AllRead rs
unfolding write_reads
write_reads_sound ota w [] b h = (ground (arith, h, append-nil w), tt)
write_reads_sound ota w (failed e ∷ rs) b h = absurd (ground (arith, h))
write_reads_sound ota w (bytes [] ∷ rs) b h = (ground (arith, h, append-nil w), tt)
write_reads_sound ota w (bytes (c ∷ cs) ∷ rs) b h = elim (Option-cases (ota.write w)) [
  | inl e ↦
      let (same, all) = write_reads_sound ota (w ++ (c ∷ cs)) rs b (ground (arith, h, e)) in
      (same ∙ append_assoc w (c ∷ cs) (content rs), all)
  | inr (x, e) ↦ absurd (ground (arith, h, e))
]

write_reads_complete :
    (ota : EspOta) (w : Bytes) (rs : List Read)
    → ((b : Bytes) → ota.write b ≡ none)
    → AllRead rs
    → write_reads ota w rs ≡ whole (w ++ content rs)
unfolding write_reads
write_reads_complete ota w [] h k = ap whole (sym (append-nil w))
write_reads_complete ota w (failed e ∷ rs) h k = absurd k
write_reads_complete ota w (bytes [] ∷ rs) h k = ap whole (sym (append-nil w))
write_reads_complete ota w (bytes (c ∷ cs) ∷ rs) h k =
    rw (h w, write_reads)
      (write_reads_complete ota (w ++ (c ∷ cs)) rs h k
        ∙ ap whole (append_assoc w (c ∷ cs) (content rs)))

-- What an answer says of the slot.
abbrev pub Told : List Read → Slot → Outcome → Slot → Type 0
Told reads before (accepted n) after =
    (after ≡ applied (content reads))
    × (n ≡ length (content reads))
    × (content reads ≢ [])
    × AllRead reads
Told reads before (error status e) after =
    (after ≡ before) ⊎ (after ≡ aborted) ⊎ (after ≡ unfinished)

finish-Told :
    (ota : EspOta) (reads : List Read) (before : Slot) (w : Written)
    → ((b : Bytes) → w ≡ whole b → (b ≡ content reads) × AllRead reads)
    → Told reads before (finish ota w).0 (finish ota w).1
unfolding finish
finish-Told ota reads before (stopped e) h = inr (inl refl)
finish-Told ota reads before (whole []) h = inr (inl refl)
finish-Told ota reads before (whole (b ∷ bs)) h = elim (Option-cases ota.complete) [
  | inl e ↦ let (same, all) = h (b ∷ bs) refl in rw (e, sym same) (refl, refl, λ n. cc, all)
  | inr (x, e) ↦ rw e (inr (inr refl))
]

-- An upload that is accepted has written and applied the whole body, which is not empty and was read
-- without an error, and says its size. After any other answer no image is applied that was not before.
pub upload-Told :
    (ota : EspOta) (reads : List Read) (slot : Slot)
    → Told reads slot (upload ota reads slot).0 (upload ota reads slot).1
unfolding upload
upload-Told ota reads slot = elim (Option-cases ota.new) [
  | inr (x, e) ↦ rw e (inl refl)
  | inl e ↦ elim (Option-cases ota.initiate_update) [
    | inr (y, f) ↦ rw (e, f) (inl refl)
    | inl f ↦
        rw (e, f)
          (finish-Told ota reads slot (write_reads ota [] reads)
            (λ b. write_reads_sound ota [] reads b))
  ]
]

finish-whole :
    (ota : EspOta) (c : Bytes)
    → ota.complete ≡ none
    → c ≢ []
    → finish ota (whole c) ≡ (accepted (length c), applied c)
unfolding finish
finish-whole ota [] k n = absurd (n refl)
finish-whole ota (b ∷ bs) k n = rw k refl

-- If neither the updater nor a read fails, then an upload that is not empty is accepted and applied.
pub upload-accepts :
    (ota : EspOta) (reads : List Read) (slot : Slot)
    → ota.new ≡ none
    → ota.initiate_update ≡ none
    → ((b : Bytes) → ota.write b ≡ none)
    → ota.complete ≡ none
    → AllRead reads
    → content reads ≢ []
    → upload ota reads slot ≡ (accepted (length (content reads)), applied (content reads))
unfolding upload
upload-accepts ota reads slot a b c d r n =
    rw (a, b, write_reads_complete ota [] reads c r) (finish-whole ota (content reads) d n)

-- ===== src/Http/Update.antt =====
-- http_server.rs: the upload of a firmware image, `POST /api/ota`. `EspOta` is a parameter.
use watercontroller.Base.{
  ℕ, String, Option, none, some, List, [], ◌∷◌, ◌++◌, ◌<>◌, length, to_string,
}
use watercontroller.Nvs.{Bytes}
use watercontroller.Http.{
  Read, bytes, failed, Message, text, printed, Slot, aborted, unfinished, applied,
}

-- The errors of `EspOta::new`, `initiate_update`, `update.write` at the bytes that were written before,
-- and `update.complete`.
pub record EspOta : Type 0 where
  pub new : Option String
  pub initiate_update : Option String
  pub write : Bytes → Option String
  pub complete : Option String

-- The status and the body of the answer.
pub data Outcome : Type 0 where
  error : ℕ → Message → Outcome
  accepted : ℕ → Outcome

-- What the loop leaves: all bytes written, or an error after some of them.
pub data Written : Type 0 where
  whole : Bytes → Written
  stopped : Message → Written

abbrev at_total : String → Bytes → String
at_total what written = what <> to_string (length written) <> ": "

unfoldable pub write_reads : EspOta → Bytes → List Read → Written
write_reads ota written [] = whole written
write_reads ota written (failed e ∷ rs) = stopped (printed (at_total "ota recv @ " written) e)
write_reads ota written (bytes [] ∷ rs) = whole written
write_reads ota written (bytes (b ∷ bs) ∷ rs) =
    let rest = write_reads ota (written ++ (b ∷ bs)) rs in
    elim (ota.write written) [
      | some e ↦ stopped (printed (at_total "ota write @ " written) e)
      | none ↦ rest
    ]

-- What follows the loop.
unfoldable pub finish : EspOta → Written → Outcome × Slot
finish ota (stopped e) = (error 500 e, aborted)
finish ota (whole []) = (error 400 (text "empty image"), aborted)
finish ota (whole (b ∷ bs)) = elim ota.complete [
  | some e ↦ (error 500 (printed "ota complete: " e), unfinished)
  | none ↦ (accepted (length (b ∷ bs)), applied (b ∷ bs))
]

-- The handler after the check of the token, with the slot as it was.
unfoldable pub upload : EspOta → List Read → Slot → Outcome × Slot
unfolding finish write_reads
upload ota reads slot =
    let written = finish ota (write_reads ota [] reads) in
    elim ota.new [
      | some e ↦ (error 500 (printed "ota init: " e), slot)
      | none ↦ elim ota.initiate_update [
        | some e ↦ (error 500 (printed "ota initiate: " e), slot)
        | none ↦ written
      ]
    ]

-- ===== src/Http/Limits.antt =====
-- http_server.rs: how much of a body is read.
use watercontroller.Base.{
  ◌+◌, ◌≤◌, ◌<◌, ◌≡◌, ap, sym, arith, List, [], ◌∷◌, ◌++◌, length, length-append, append-nil,
  Bool-cases, inl, inr, ltb, ltb→lt,
}
use mathlib.Core.List.{append_assoc}
use watercontroller.Nvs.{Bytes}
use watercontroller.Http.{Read, bytes, failed}
use watercontroller.Http.Body.{read_buf_len, max_body, Received, complete, too_large, io, read_body}

-- The bytes of the reads up to the end of the body.
abbrev pub content : List Read → Bytes
content [] = []
content (failed e ∷ rs) = []
content (bytes [] ∷ rs) = []
content (bytes (b ∷ bs) ∷ rs) = (b ∷ bs) ++ content rs

-- No read fails, and each fills the buffer of the loop at most.
abbrev pub AreReads : List Read → Type 0
AreReads [] = Unit
AreReads (failed e ∷ rs) = ⊥
AreReads (bytes b ∷ rs) = (length b ≤ read_buf_len) × AreReads rs

-- What the loop makes of a body.
abbrev pub Limited : Bytes → Received → Type 0
Limited whole (complete b) = (b ≡ whole) × (length whole ≤ max_body)
Limited whole (too_large b) =
    (max_body < length whole) × (max_body < length b) × (length b ≤ max_body + read_buf_len)
Limited whole io = ⊥

read_body-Limited :
    (buf : Bytes) (rs : List Read)
    → length buf ≤ max_body
    → AreReads rs
    → Limited (buf ++ content rs) (read_body buf rs)
unfolding read_body
read_body-Limited buf [] h k = (sym (append-nil buf), ground (arith, append-nil buf))
read_body-Limited buf (failed e ∷ rs) h k = absurd k
read_body-Limited buf (bytes [] ∷ rs) h k = (sym (append-nil buf), ground (arith, append-nil buf))
read_body-Limited buf (bytes (b ∷ bs) ∷ rs) h (k, ks) =
    let next = buf ++ (b ∷ bs) in
    let size = length-append buf (b ∷ bs) in
    let whole : next ++ content rs ≡ buf ++ ((b ∷ bs) ++ content rs) =
      append_assoc buf (b ∷ bs) (content rs) in
    elim (Bool-cases (ltb max_body (length next))) [
      | inl e ↦
          let above = ltb→lt max_body (length next) e in
          rw e (
            omega (arith, above, length-append next (content rs), ap length whole),
            above,
            omega (arith, size, h, k),
          )
      | inr e ↦ rw (e, sym whole) (read_body-Limited next rs (ground (arith, e)) ks)
    ]

-- A body is read to its end exactly if it has at most 32 KiB. A larger one is given up with more than
-- that and at most one read more in memory, if no read fails and each has at most 1024 bytes.
pub read_body_lem : (rs : List Read) → AreReads rs → Limited (content rs) (read_body [] rs)
read_body_lem rs h = read_body-Limited [] rs (omega arith) h

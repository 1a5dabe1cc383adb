-- ===== src/Http/Body.antt =====
-- http_server.rs: the loop that reads the body of a request.
use watercontroller.Base.{ℕ, ◌*◌, List, [], ◌∷◌, ◌++◌, ltb, length, if◌then◌else◌}
use watercontroller.Nvs.{Bytes}
use watercontroller.Http.{Read, bytes, failed}

abbrev pub read_buf_len : ℕ
read_buf_len = 1024

abbrev pub max_body : ℕ
max_body = 32 * 1024

-- What the loop leaves: the whole body, what was read when it grew past the limit, or an error.
pub data Received : Type 0 where
  complete too_large : Bytes → Received
  io : Received

unfoldable pub read_body : Bytes → List Read → Received
read_body buf [] = complete buf
read_body buf (failed e ∷ rs) = io
read_body buf (bytes [] ∷ rs) = complete buf
read_body buf (bytes (b ∷ bs) ∷ rs) =
    let rest = read_body (buf ++ (b ∷ bs)) rs in
    if ltb max_body (length (buf ++ (b ∷ bs))) then too_large (buf ++ (b ∷ bs)) else rest

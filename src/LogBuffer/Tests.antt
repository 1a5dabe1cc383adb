-- ===== src/LogBuffer/Tests.antt =====
-- log_buffer.rs: instances of the theorems.
use watercontroller.Base.{ℕ, ◌≡◌, arith, [], ◌∷◌}
use watercontroller.LogBuffer.{LogRecord, new, push_all, snapshot}
use watercontroller.LogBuffer.Ring.{snapshot-push_all}

abbrev line : ℕ → LogRecord
line n = record { monotonic_ms = n; level = 3; target = "app"; message = "tick" }

snapshot-push_all_example :
    snapshot 5 (push_all (line 1 ∷ line 2 ∷ line 3 ∷ []) (new 2)) ≡ line 2 ∷ line 3 ∷ []
snapshot-push_all_example = snapshot-push_all 2 5 (line 1 ∷ line 2 ∷ line 3 ∷ []) (omega arith)

-- ===== src/Sntp/Tests.antt =====
-- sntp.rs: a device that synchronises once and then loses the network, as an instance of the theorem.
use watercontroller.Base.{◌≡◌, refl, arith, ◌+◌, ◌-◌, List, [], ◌∷◌, ◌++◌, ℕ}
use watercontroller.Nvs.{Bytes}
use watercontroller.Sntp.{Exchange, failed, timeout, received, sync_once, sntp_task, now}
use watercontroller.Sntp.Era.{datagram, now-sntp_task}

abbrev eight : Bytes
eight = 36 ∷ 1 ∷ 0 ∷ 0 ∷ 0 ∷ 0 ∷ 0 ∷ 0 ∷ []

abbrev header : Bytes
header = eight ++ (eight ++ (eight ++ (eight ++ eight)))

abbrev before : List (ℕ × Exchange)
before = (3, failed "dns") ∷ (33, received 20 []) ∷ []

abbrev after : List (ℕ × Exchange)
after = (21663, timeout) ∷ (21698, failed "dns empty") ∷ []

now-sntp_task_example :
    (now 1778803200
        (sntp_task (before ++ (63, datagram header 1800000000 (0 ∷ 0 ∷ 0 ∷ 0 ∷ [])) ∷ after) 0)
        21700
      ≡ 1800000000 + (21700 - 63))
    × (now 1778803200 (sntp_task after 0) 21700 ≡ 1778803200 + 21700)
unfolding sync_once
now-sntp_task_example =
    now-sntp_task 1778803200 63 1800000000 header (0 ∷ 0 ∷ 0 ∷ 0 ∷ []) before after 21700 0 refl
      (omega arith) (omega arith) (omega arith) (omega arith)
      (("timeout", refl), (("dns empty", refl), tt))

-- ===== src/Pulse/Tests.antt =====
-- hw_pcnt.rs: the counter over a clear of its register at the limit, which adds one pulse too many.
use watercontroller.Base.{◌≡◌, refl, [], ◌∷◌}
use watercontroller.Pulse.{cleared, count}
use watercontroller.Pulse.Wrap.{limited, counts}

over_a_clear : (counts limited 0 (30000 ∷ 5000 ∷ []) cleared).total ≡ 35001
unfolding counts count
over_a_clear = refl

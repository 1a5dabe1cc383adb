-- ===== src/Calibration/Tests.antt =====
-- calibration.rs: an instance of the theorem, with natural numbers for `f32`.
use watercontroller.Base.{ℕ, ◌+◌, ◌-◌, ◌*◌, ◌/◌, ◌≡◌, refl, some, [], ◌∷◌, ltb, leb, ◌==◌, arith}
use watercontroller.Calibration.{Float, new, apply}
use watercontroller.Calibration.Segments.{IsOrdered, Interpolates, new-Interpolates}

abbrev naturals : Float
naturals = record {
  F32 = ℕ;
  lt = ltb;
  le = leb;
  add = λ a b. a + b;
  sub = λ a b. a - b;
  mul = λ a b. a * b;
  div = λ a b. a / b;
  near = λ a b. a == b;
}

naturals-IsOrdered : IsOrdered naturals
naturals-IsOrdered = record { not_lt-le = λ a b h. ground arith; not_le-le = λ a b h. ground arith }

new-Interpolates_example : Interpolates naturals ((1, 10) ∷ (3, 20) ∷ (5, 40) ∷ []) 4
unfolding new
new-Interpolates_example =
    new-Interpolates naturals naturals-IsOrdered ((3, 20) ∷ (5, 40) ∷ (1, 10) ∷ [])
      (record { points = (1, 10) ∷ (3, 20) ∷ (5, 40) ∷ [] }) 4 refl

applied : apply naturals (record { points = (1, 10) ∷ (3, 20) ∷ (5, 40) ∷ [] }) 5 ≡ some 40
unfolding apply
applied = refl

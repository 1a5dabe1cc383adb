-- ===== src/Base/Order.antt =====
-- Texts are ordered by their characters: a strict linear order.
use Prim.Native.Char.{Char, code}
use Prim.Native.String.{String, [], ◌∷◌}
use mathlib.Core.Bool.{true, false}
use mathlib.Core.Path.{◌≡◌, refl}
use mathlib.Core.Logic.{inl, inr}
use native.Mathlib.Omega.{arith}
use watercontroller.Base.Tests.{Bool-cases, ◌==◌, ==_iff}
use watercontroller.Base.Strings.{str_ltb, str_eq, str_eq_iff}
use text.Mathlib.TextEquality.{Char-path}

pub str_ltb_irrefl : (s : String) → str_ltb s s ≡ false
unfolding str_ltb
str_ltb_irrefl [] = refl
str_ltb_irrefl (c ∷ s) = ground (arith, str_ltb_irrefl s)

pub str_ltb_trans : (s t u : String) → str_ltb s t ≡ true → str_ltb t u ≡ true → str_ltb s u ≡ true
unfolding str_ltb
str_ltb_trans [] [] u h k = cc
str_ltb_trans [] (d ∷ t) [] h k = cc
str_ltb_trans [] (d ∷ t) (e ∷ u) h k = refl
str_ltb_trans (c ∷ s) [] u h k = cc
str_ltb_trans (c ∷ s) (d ∷ t) [] h k = cc
str_ltb_trans (c ∷ s) (d ∷ t) (e ∷ u) h k = ground (arith, str_ltb_trans s t u)

str_eq-tail :
    (c d : Char) (s t : String)
    → code c ≡ code d
    → str_eq (d ∷ t) (c ∷ s) ≡ false
    → str_eq t s ≡ false
str_eq-tail c d s t h k = elim (Bool-cases (str_eq t s)) [
  | inl e ↦
      let same : d ∷ t ≡ c ∷ s = cc (Char-path c d h, (str_eq_iff t s).0 e) in
      cc ((str_eq_iff (d ∷ t) (c ∷ s)).1 same)
  | inr e ↦ e
]

pub str_ltb_total : (s t : String) → str_ltb s t ≡ false → str_eq t s ≡ false → str_ltb t s ≡ true
unfolding str_ltb
str_ltb_total [] [] h k = ground (arith, str_eq_iff "" "")
str_ltb_total [] (d ∷ t) h k = cc
str_ltb_total (c ∷ s) [] h k = refl
str_ltb_total (c ∷ s) (d ∷ t) h k = elim (Bool-cases (str_ltb t s)) [
  | inl e ↦ ground arith
  | inr e ↦ elim (Bool-cases (code c == code d)) [
    | inl q ↦
        let tails = str_eq-tail c d s t ((==_iff (code c) (code d)).0 q) k in
        ground (arith, str_ltb_total s t)
    | inr q ↦ ground arith
  ]
]

-- A text that is less than another is neither greater than it nor the same.
pub str_ltb_excl :
    (s t : String) → str_ltb s t ≡ true → (str_ltb t s ≡ false) × (str_eq s t ≡ false)
str_ltb_excl s t h = (
  elim (Bool-cases (str_ltb t s)) [
    | inl e ↦ cc (str_ltb_irrefl s, str_ltb_trans s t s h e)
    | inr e ↦ e
  ],
  elim (Bool-cases (str_eq s t)) [
    | inl e ↦ cc ((str_eq_iff s t).0 e, str_ltb_irrefl t)
    | inr e ↦ e
  ],
)

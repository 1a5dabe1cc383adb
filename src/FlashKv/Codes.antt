-- ===== src/FlashKv/Codes.antt =====
-- nvs.rs: an encoding of texts for the tests, a number for each character.
use Prim.Native.Nat.{ℕ, compare, Ordering}
use Prim.Native.Char.{char, code, IsLt, IsScalar}
use Prim.Native.String.{String, [], ◌∷◌}
use mathlib.Core.Path.{◌≡◌, refl}
use mathlib.Core.Option.{Option, none, some}
use mathlib.Core.List
use watercontroller.FlashKv.{Utf8}

-- A number is a character by what it compares to.
abbrev Both : Ordering → Ordering → Type 0
Both Ordering.lt q = IsLt q
Both Ordering.eq _ = ⊥
Both Ordering.gt _ = ⊥

abbrev Scalar : Ordering → Ordering → Ordering → Type 0
Scalar Ordering.lt _ _ = Unit
Scalar Ordering.eq p q = Both p q
Scalar Ordering.gt p q = Both p q

both : (p q : Ordering) → Option (Both p q)
both Ordering.lt Ordering.lt = some tt
both _ _ = none

scalar : (o p q : Ordering) → Option (Scalar o p q)
scalar Ordering.lt p q = some tt
scalar Ordering.eq p q = both p q
scalar Ordering.gt p q = both p q

both_total : (p q : Ordering) (h : Both p q) → both p q ≡ some h
unfolding both
both_total Ordering.lt Ordering.lt h = refl
both_total Ordering.lt Ordering.eq h = elim h [ ]
both_total Ordering.lt Ordering.gt h = elim h [ ]
both_total Ordering.eq q h = elim h [ ]
both_total Ordering.gt q h = elim h [ ]

scalar_total : (o p q : Ordering) (h : Scalar o p q) → scalar o p q ≡ some h
unfolding scalar
scalar_total Ordering.lt p q h = refl
scalar_total Ordering.eq p q h = both_total p q h
scalar_total Ordering.gt p q h = both_total p q h

valid : (n : ℕ) → Option (IsScalar n)
valid n = scalar (compare n 55296) (compare 57343 n) (compare n 1114112)

unfoldable pub codes : String → List.List ℕ
codes [] = List.[]
codes (c ∷ s) = List.◌∷◌ (code c) (codes s)

pub decoded : List.List ℕ → Option String
unfolding valid
decoded List.[] = some []
decoded (List.◌∷◌ n ns) = elim (decoded ns) [
  | none ↦ none
  | some s ↦ elim (valid n) [ none ↦ none | some h ↦ some (char n h ∷ s) ]
]

pub decoded-codes : (s : String) → decoded (codes s) ≡ some s
unfolding decoded codes
decoded-codes [] = refl
decoded-codes (char n h ∷ s) =
    rw (decoded-codes s)
      (rw (scalar_total (compare n 55296) (compare 57343 n) (compare n 1114112) h) refl)

abbrev pub by_codes : Utf8
by_codes = record { as_bytes = codes; from_utf8 = decoded; from_utf8-as_bytes = decoded-codes }

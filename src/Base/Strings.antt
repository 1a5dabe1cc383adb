-- ===== src/Base/Strings.antt =====
-- Texts, by their characters: the string methods of the standard library that the code calls.
use Prim.Native.Nat.{ℕ, zero, suc, ◌-◌}
use Prim.Native.Char.{Char, code}
use Prim.Native.String
use Prim.Native.String.{String, [], ◌∷◌}
use mathlib.Core.Bool.{Bool, true, false, ◌&&◌, ◌||◌}
use mathlib.Core.Path.{◌≡◌, refl}
use mathlib.Core.Logic.{◌↔◌}
use mathlib.Core.Option.{Option, none, some}
use mathlib.Core.List
use watercontroller.Base.Tests.{ltb, ◌==◌, if◌then◌else◌}
pub use text.Mathlib.Text.{◌==◌ as str_eq}
pub use text.Mathlib.TextEquality.{eq_iff as str_eq_iff}
pub use text.Mathlib.TextPositions.{eq_refl as str_eq_refl}

-- `s.is_empty()`.
abbrev pub is_empty : String → Bool
is_empty [] = true
is_empty (c ∷ s) = false

pub is_empty_iff : (s : String) → (is_empty s ≡ true) ↔ (s ≡ "")
is_empty_iff [] = (λ h. refl, λ h. refl)
is_empty_iff (c ∷ s) = (λ h. cc, λ h. cc)

infixr 66 ◌<>◌
abbrev pub ◌<>◌ : String → String → String
s <> t = String.◌++◌ s t

-- `s < t`: the order of UTF-8 bytes is that of code points.
unfoldable pub str_ltb : String → String → Bool
str_ltb s [] = false
str_ltb [] (d ∷ t) = true
str_ltb (c ∷ s) (d ∷ t) = ltb (code c) (code d) || (code c == code d && str_ltb s t)

-- `s.strip_prefix(prefix)`, with the prefix first.
unfoldable pub strip_prefix : String → String → Option String
strip_prefix [] s = some s
strip_prefix (p ∷ prefix) [] = none
strip_prefix (p ∷ prefix) (c ∷ s) =
    let rest = strip_prefix prefix s in if code p == code c then rest else none

abbrev before : Char → Option (String × String) → Option (String × String)
before c none = none
before c (some (a, b)) = some (c ∷ a, b)

-- `s.split_once(c)` at a character of code `sep`.
unfoldable pub split_once : ℕ → String → Option (String × String)
split_once sep [] = none
split_once sep (c ∷ s) =
    let rest = split_once sep s in if code c == sep then some ([], s) else before c rest

-- The number of characters.
abbrev pub chars : String → ℕ
chars [] = 0
chars (c ∷ s) = suc (chars s)

-- `s.replace(pat, with)` for a pattern that is not empty; `skip` characters of a match are left.
replace_from : String → String → ℕ → String → String
replace_from pat by skip [] = []
replace_from pat by (suc skip) (c ∷ s) = replace_from pat by skip s
replace_from pat by zero (c ∷ s) =
    let after = replace_from pat by (chars pat - 1) s in
    let next = replace_from pat by zero s in
    elim (strip_prefix pat (c ∷ s)) [ none ↦ c ∷ next | some _ ↦ by <> after ]

unfoldable pub replace : String → String → String → String
unfolding replace_from strip_prefix
replace pat by s = replace_from pat by 0 s

-- `b"…"` of a literal in ASCII.
abbrev pub ascii : String → List.List ℕ
ascii [] = List.[]
ascii (c ∷ s) = List.◌∷◌ (code c) (ascii s)

-- `s.contains(needle)`.
unfoldable pub contains : String → String → Bool
contains needle [] = is_empty needle
contains needle (c ∷ s) =
    let rest = contains needle s in
    elim (strip_prefix needle (c ∷ s)) [ none ↦ rest | some _ ↦ true ]

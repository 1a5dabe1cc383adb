-- ===== src/Base/Numerals.antt =====
-- The decimal numerals that `to_string` writes.
use Prim.Native.Nat.{ℕ, zero, suc, ◌+◌, ◌-◌, ◌*◌, ◌/◌, ◌%◌, ◌≤◌, ◌<◌}
use Prim.Native.Char.{Char, code}
use Prim.Native.String.{String, [], ◌∷◌}
use mathlib.Core.Path.{◌≡◌, refl, ap, ◌∙◌}
use mathlib.Core.Logic.{inl, inr}
use native.Mathlib.Omega.{arith}
use text.Mathlib.TextLemmas.{nil-append, cons-append}
use watercontroller.Base.Tests.{Bool-cases, ◌==◌}
use watercontroller.Base.Strings.{◌<>◌}
use watercontroller.Base.Decimal.{digit, show_from, to_string}

-- The number of a numeral, behind digits whose number is `acc`.
abbrev pub value : ℕ → String → ℕ
value acc [] = acc
value acc (c ∷ s) = value (acc * 10 + (code c - 48)) s

abbrev pub IsNumeral : String → Type 0
IsNumeral [] = Unit
IsNumeral (c ∷ s) = (48 ≤ code c) × (code c ≤ 57) × IsNumeral s

pub singleton-append : (c : Char) (s : String) → (c ∷ []) <> s ≡ c ∷ s
singleton-append c s = cons-append c [] s ∙ ap (λ (t : String). c ∷ t) (nil-append s)

-- A digit in front of a text.
record Fronts (d : ℕ) (s : String) (t : String) : Type 0 where
  front : Char
  same : t ≡ front ∷ s
  number : code front ≡ 48 + d

digit-Fronts : (d : ℕ) (s : String) → d < 10 → Fronts d s (digit d <> s)
unfolding digit
digit-Fronts zero s h = record { front = "0"; same = singleton-append "0" s; number = refl }
digit-Fronts (suc zero) s h = record { front = "1"; same = singleton-append "1" s; number = refl }
digit-Fronts (suc (suc zero)) s h = record {
  front = "2";
  same = singleton-append "2" s;
  number = refl;
}
digit-Fronts (suc (suc (suc zero))) s h = record {
  front = "3";
  same = singleton-append "3" s;
  number = refl;
}
digit-Fronts (suc (suc (suc (suc zero)))) s h = record {
  front = "4";
  same = singleton-append "4" s;
  number = refl;
}
digit-Fronts (suc (suc (suc (suc (suc zero))))) s h = record {
  front = "5";
  same = singleton-append "5" s;
  number = refl;
}
digit-Fronts (suc (suc (suc (suc (suc (suc zero)))))) s h = record {
  front = "6";
  same = singleton-append "6" s;
  number = refl;
}
digit-Fronts (suc (suc (suc (suc (suc (suc (suc zero))))))) s h = record {
  front = "7";
  same = singleton-append "7" s;
  number = refl;
}
digit-Fronts (suc (suc (suc (suc (suc (suc (suc (suc zero)))))))) s h = record {
  front = "8";
  same = singleton-append "8" s;
  number = refl;
}
digit-Fronts (suc (suc (suc (suc (suc (suc (suc (suc (suc zero))))))))) s h = record {
  front = "9";
  same = singleton-append "9" s;
  number = refl;
}
digit-Fronts (suc (suc (suc (suc (suc (suc (suc (suc (suc (suc d)))))))))) s h =
    absurd (omega arith)

-- A shown number, in front of a text: its digits, and then the text.
record Shown (n : ℕ) (s t : String) : Type 0 where
  numeral : IsNumeral s → IsNumeral t
  number : value 0 t ≡ value n s
  nonempty : (c : Char) × (r : String) × (t ≡ c ∷ r)

show_from-Shown : (fuel n : ℕ) (s : String) → n < fuel → Shown n s (show_from fuel n s)
unfolding show_from
show_from-Shown zero n s h = absurd (omega arith)
show_from-Shown (suc fuel) n s h =
    let d = digit-Fronts (n % 10) s (omega arith) in
    let low : 48 ≤ code d.front = omega (arith, d.number) in
    let high : code d.front ≤ 57 = omega (arith, d.number) in
    elim (Bool-cases (n / 10 == 0)) [
      | inl last ↦
          let small : 0 * 10 + (code d.front - 48) ≡ n = ground (arith, d.number, last) in
          rw (last, d.same)
            (record {
              numeral = λ k. (low, high, k);
              number = ap (λ (m : ℕ). value m s) small;
              nonempty = (d.front, s, refl);
            })
      | inr more ↦
          let r = show_from-Shown fuel (n / 10) (digit (n % 10) <> s) (ground arith) in
          let whole : n / 10 * 10 + (code d.front - 48) ≡ n = omega (arith, d.number) in
          rw more (record {
            numeral = λ k. r.numeral (rw d.same (low, high, k));
            number = r.number ∙ ap (value (n / 10)) d.same ∙ ap (λ (m : ℕ). value m s) whole;
            nonempty = r.nonempty;
          })
    ]

pub to_string-IsNumeral : (n : ℕ) → IsNumeral (to_string n)
unfolding to_string
to_string-IsNumeral n = (show_from-Shown (n + 1) n "" (omega arith)).numeral tt

pub value-to_string : (n : ℕ) → value 0 (to_string n) ≡ n
unfolding to_string
value-to_string n = (show_from-Shown (n + 1) n "" (omega arith)).number

pub to_string_nonempty : (n : ℕ) → (c : Char) × (s : String) × (to_string n ≡ c ∷ s)
unfolding to_string
to_string_nonempty n = (show_from-Shown (n + 1) n "" (omega arith)).nonempty

-- ===== src/Serial/Commas.antt =====
-- serial_cli.rs: `with_commas`.
use mathlib.Core.Path.{subst}
use watercontroller.Base.{
  ℕ, zero, suc, ◌+◌, ◌-◌, ◌*◌, ◌/◌, ◌%◌, ◌≤◌, ◌<◌, ◌≡◌, refl, ap, sym, ◌∙◌, arith, ◌≢◌, ◌⊎◌, not,
  ◌&&◌, List, [], ◌∷◌, ◌++◌, ◌==◌, Bool-cases, inl, inr, if◌then◌else◌,
}

-- `,` and `0` in ASCII.
abbrev pub comma : ℕ
comma = 44

abbrev zero_digit : ℕ
zero_digit = 48

-- The body of the loop: the characters in the order in which they are pushed, the lowest digit first.
unfoldable pub push_digits : ℕ → ℕ → ℕ → List ℕ
push_digits zero n i = []
push_digits (suc fuel) n i =
    let rest = push_digits fuel (n / 10) (i + 1) in
    let digits = (zero_digit + n % 10) ∷ rest in
    if n == 0 then [] else if not (i == 0) && i % 3 == 0 then comma ∷ digits else digits

abbrev pub rev : List ℕ → List ℕ
rev [] = []
rev (c ∷ cs) = rev cs ++ c ∷ []

-- The loop divides by ten, so it takes at most `n` turns.
unfoldable pub with_commas : ℕ → List ℕ
unfolding push_digits
with_commas n = if n == 0 then zero_digit ∷ [] else rev (push_digits n n 0)

-- The number that a text of digits and commas shows.
abbrev pub read_step : ℕ → ℕ → ℕ
read_step acc c = if c == comma then acc else acc * 10 + (c - zero_digit)

abbrev pub read_from : ℕ → List ℕ → ℕ
read_from acc [] = acc
read_from acc (c ∷ cs) = read_from (read_step acc c) cs

read-snoc :
    (cs : List ℕ) (c acc : ℕ) → read_from acc (cs ++ c ∷ []) ≡ read_step (read_from acc cs) c
read-snoc [] c acc = refl
read-snoc (d ∷ cs) c acc = read-snoc cs c (read_step acc d)

read-digits : (fuel n i : ℕ) → n ≤ fuel → read_from 0 (rev (push_digits fuel n i)) ≡ n
unfolding push_digits
read-digits zero n i h = ground arith
read-digits (suc fuel) n i h = elim (Bool-cases (n == 0)) [
  | inl e ↦ rw e (ground (arith, e))
  | inr e ↦
      let rest = push_digits fuel (n / 10) (i + 1) in
      let shown : read_from 0 (rev rest) ≡ n / 10 =
        read-digits fuel (n / 10) (i + 1) (ground (arith, e)) in
      let last : zero_digit + n % 10 - zero_digit ≡ n % 10 = omega arith in
      let digit : read_from 0 (rev ((zero_digit + n % 10) ∷ rest)) ≡ n =
        read-snoc (rev rest) (zero_digit + n % 10) 0 ∙ ground (arith, shown, last) in
      elim (Bool-cases (not (i == 0) && i % 3 == 0)) [
        | inl c ↦
            rw (e, c)
              (read-snoc (rev ((zero_digit + n % 10) ∷ rest)) comma 0 ∙ ground (arith, digit))
        | inr c ↦ rw (e, c) digit
      ]
]

-- From the right, with `k` digits since the last comma: a comma stands exactly where three digits have
-- been, and a digit follows it.
abbrev pub IsGrouped : ℕ → List ℕ → Type 0
IsGrouped k [] = Unit
IsGrouped k (c ∷ cs) =
    ((c ≡ comma) × (k ≡ 3) × (cs ≢ []) × IsGrouped 0 cs)
    ⊎ ((zero_digit ≤ c) × (c ≤ zero_digit + 9) × (k < 3) × IsGrouped (suc k) cs)

-- The digits since the last comma at turn `i`.
abbrev since : ℕ → ℕ
since i = if not (i == 0) && i % 3 == 0 then 3 else i % 3

since-suc : (i : ℕ) → since (i + 1) ≡ suc (i % 3)
since-suc i = ground arith

push_digits-IsGrouped : (fuel n i : ℕ) → IsGrouped (since i) (push_digits fuel n i)
unfolding push_digits
push_digits-IsGrouped zero n i = tt
push_digits-IsGrouped (suc fuel) n i = elim (Bool-cases (n == 0)) [
  | inl e ↦ rw e tt
  | inr e ↦
      let rest : IsGrouped (suc (i % 3)) (push_digits fuel (n / 10) (i + 1)) =
        rw (sym (since-suc i)) (push_digits-IsGrouped fuel (n / 10) (i + 1)) in
      elim (Bool-cases (not (i == 0) && i % 3 == 0)) [
        | inl c ↦
            let none_left : i % 3 ≡ 0 = ground (arith, c) in
            let first : IsGrouped 1 (push_digits fuel (n / 10) (i + 1)) =
              subst (λ k. IsGrouped (suc k) (push_digits fuel (n / 10) (i + 1))) none_left rest in
            rw (e, c)
              (inl (refl, refl, λ k. cc, inr (omega arith, omega arith, omega arith, first)))
        | inr c ↦ rw (e, c) (inr (omega arith, omega arith, omega arith, rest))
      ]
]

rev-snoc : (cs : List ℕ) (c : ℕ) → rev (cs ++ c ∷ []) ≡ c ∷ rev cs
rev-snoc [] c = refl
rev-snoc (d ∷ cs) c = ap (λ l. l ++ d ∷ []) (rev-snoc cs c)

rev-rev : (cs : List ℕ) → rev (rev cs) ≡ cs
rev-rev [] = refl
rev-rev (c ∷ cs) = rev-snoc (rev cs) c ∙ ap (λ l. c ∷ l) (rev-rev cs)

-- The text of a number shows that number, and from the right a comma stands exactly where three
-- digits have been and another digit follows.
pub with_commas_lem :
    (n : ℕ) → (read_from 0 (with_commas n) ≡ n) × IsGrouped 0 (rev (with_commas n))
unfolding with_commas
with_commas_lem n = elim (Bool-cases (n == 0)) [
  | inl e ↦ rw e (ground (arith, e), inr (omega arith, omega arith, omega arith, tt))
  | inr e ↦
      rw (e, rev-rev (push_digits n n 0))
        (read-digits n n 0 (omega arith), push_digits-IsGrouped n n 0)
]

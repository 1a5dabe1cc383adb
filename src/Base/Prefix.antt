-- ===== src/Base/Prefix.antt =====
-- What `strip_prefix` and `split_once` find.
use Prim.Native.Char.{Char, code}
use Prim.Native.String.{String, [], ◌∷◌}
use mathlib.Core.Option.{some}
use mathlib.Core.Path.{◌≡◌, refl, ap}
use mathlib.Core.Logic.{inl, inr}
use native.Mathlib.Omega.{arith}
use text.Mathlib.TextEquality.{Char-path}
use text.Mathlib.TextLemmas.{nil-append, cons-append}
use watercontroller.Base.Tests.{◌==◌, Bool-cases, Option-cases}
use watercontroller.Base.Strings.{◌<>◌, strip_prefix, split_once}

pub strip_prefix-append : (p s : String) → strip_prefix p (p <> s) ≡ some s
unfolding strip_prefix
strip_prefix-append [] s = ap some (nil-append s)
strip_prefix-append (c ∷ p) s = rw (cons-append c p s) (ground (arith, strip_prefix-append p s))

pub strip_prefix_sound : (p s r : String) → strip_prefix p s ≡ some r → s ≡ p <> r
unfolding strip_prefix
strip_prefix_sound [] s r h = ground (arith, h, nil-append r)
strip_prefix_sound (c ∷ p) [] r h = absurd (ground (arith, h))
strip_prefix_sound (c ∷ p) (d ∷ s) r h = elim (Bool-cases (code c == code d)) [
  | inl e ↦
      let same : c ≡ d = Char-path c d (ground (arith, e)) in
      let rest : s ≡ p <> r = strip_prefix_sound p s r (ground (arith, h, e)) in
      rw (cons-append c p r, same, rest) refl
  | inr e ↦ absurd (ground (arith, h, e))
]

pub split_once_sound :
    (sep : Char) (s a b : String) → split_once (code sep) s ≡ some (a, b) → s ≡ a <> (sep ∷ b)
unfolding split_once
split_once_sound sep [] a b h = absurd (ground (arith, h))
split_once_sound sep (c ∷ s) a b h = elim (Bool-cases (code c == code sep)) [
  | inl e ↦
      let same : c ≡ sep = Char-path c sep (ground (arith, e)) in
      let first : a ≡ "" = ground (arith, h, e) in
      let rest : b ≡ s = ground (arith, h, e) in rw (same, first, rest, nil-append (sep ∷ s)) refl
  | inr e ↦ elim (Option-cases (split_once (code sep) s)) [
    | inl n ↦ absurd (ground (arith, h, e, n))
    | inr ((x, y), n) ↦
        let first : a ≡ c ∷ x = ground (arith, h, e, n) in
        let rest : b ≡ y = ground (arith, h, e, n) in
        let inner : s ≡ x <> (sep ∷ y) = split_once_sound sep s x y n in
        rw (first, rest, cons-append c x (sep ∷ y)) (ap (λ t. c ∷ t) inner)
  ]
]

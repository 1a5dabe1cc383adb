-- ===== src/Base/Ring.antt =====
-- A bounded queue that drops its oldest element to make room, and the end of a list.
use Prim.Native.Nat.{ℕ, suc, ◌-◌, ◌≤◌, min}
use mathlib.Core.Path.{◌≡◌, refl, ap, ◌∙◌}
use mathlib.Core.Logic.{inl, inr}
use mathlib.Core.List.{List, [], ◌∷◌, ◌++◌}
use native.Mathlib.Omega.{arith}
use watercontroller.Base.Tests.{◌==◌, if◌then◌else◌, Bool-cases}
use watercontroller.Base.Lists.{length, drop, length-append, length-drop, drop-drop, snoc-append}

module _ {ℓ} {A : Type ℓ} where
  -- `if q.len() == cap { q.pop_front(); } q.push_back(x);`
  abbrev pub push_ring : ℕ → A → List A → List A
  push_ring cap x h = (if length h == cap then drop 1 h else h) ++ x ∷ []

  -- `v.into_iter().rev().take(n).rev()`.
  abbrev pub last_of : ℕ → List A → List A
  last_of n v = drop (length v - n) v

  last_of-full :
      (cap : ℕ) (x : A) (v : List A) → cap ≤ length v → last_of cap v ≡ last_of cap (x ∷ v)
  last_of-full cap x v h =
      let e : length (x ∷ v) - cap ≡ suc (length v - cap) = omega arith in rw e refl

  -- The ring forgets exactly what no longer fits.
  pub last_of-push_ring :
      (cap : ℕ) (x : A) (xs h : List A)
      → 1 ≤ cap
      → length h ≤ cap
      → last_of cap (push_ring cap x h ++ xs) ≡ last_of cap (h ++ x ∷ xs)
  last_of-push_ring cap x xs [] p u = elim (Bool-cases (0 == cap)) [
    | inl e ↦ rw e refl
    | inr e ↦ rw e refl
  ]
  last_of-push_ring cap x xs (y ∷ h) p u = elim (Bool-cases (length (y ∷ h) == cap)) [
    | inl e ↦
        let full : cap ≤ length (h ++ x ∷ xs) = ground (arith, e, length-append h (x ∷ xs)) in
        rw e (ap (last_of cap) (snoc-append h x xs) ∙ last_of-full cap y (h ++ x ∷ xs) full)
    | inr e ↦ rw e (ap (last_of cap) (snoc-append (y ∷ h) x xs))
  ]

  pub length-push_ring :
      (cap : ℕ) (x : A) (h : List A) → 1 ≤ cap → length h ≤ cap → length (push_ring cap x h) ≤ cap
  length-push_ring cap x [] p u = ground arith
  length-push_ring cap x (y ∷ h) p u =
      ground (arith, length-append h (x ∷ []), length-append (y ∷ h) (x ∷ []))

  pub length-last_of : (n : ℕ) (v : List A) → length (last_of n v) ≤ n
  length-last_of n v = omega (arith, length-drop (length v - n) v)

  pub last_of-fits : (n : ℕ) (v : List A) → length v ≤ n → last_of n v ≡ v
  last_of-fits n v h = let e : length v - n ≡ 0 = omega arith in rw e refl

  pub last_of-last_of : (m n : ℕ) (v : List A) → last_of m (last_of n v) ≡ last_of (min m n) v
  last_of-last_of m n v =
      drop-drop (length (last_of n v) - m) (length v - n) v
      ∙ ap (λ k. drop k v) (omega (arith, length-drop (length v - n) v))

-- ===== src/Calibration/Segments.antt =====
-- calibration.rs: the segment that a reading is interpolated on.
use watercontroller.Base.{
  ◌≡◌, refl, sym, ap, ◌∙◌, Bool, true, false, ◌⊎◌, inl, inr, Option, none, some, List, [], ◌∷◌,
  ◌++◌, Bool-cases, if◌then◌else◌,
}
use mathlib.Core.Path.{subst}
use watercontroller.Config.{Calibration}
use watercontroller.Calibration.{
  Float, or_else, Point, insert_point, sort_points, shares_raw, new, interp, window, last_two,
  apply,
}

-- What holds of the comparisons of `f32` on numbers that are not NaN.
pub record IsOrdered (f : Float) : Type 0 where
  pub not_lt-le : (a b : f.F32) → f.lt a b ≡ false → f.le b a ≡ true
  pub not_le-le : (a b : f.F32) → f.le a b ≡ false → f.le b a ≡ true

module _ (f : Float) where
  -- Two adjacent points of a list: a reading lies between them, or below them if they are the first
  -- two, or above them if they are the last two.
  abbrev pub Encloses : f.F32 → List (Point f) → Point f → Point f → Type 0
  Encloses raw pts a b =
      (pre : List (Point f)) × (post : List (Point f)) × (pts ≡ pre ++ (a ∷ b ∷ post))
      × (((pre ≡ []) × (f.lt raw a.0 ≡ true))
          ⊎ ((f.le a.0 raw ≡ true) × ((post ≡ []) ⊎ (f.le raw b.0 ≡ true))))

  abbrev Follows : f.F32 → List (Point f) → Point f → Point f → Type 0
  Follows raw pts a b =
      (pre : List (Point f)) × (post : List (Point f)) × (pts ≡ pre ++ (a ∷ b ∷ post))
      × (f.le a.0 raw ≡ true)
      × ((post ≡ []) ⊎ (f.le raw b.0 ≡ true))

  abbrev Found : f.F32 → List (Point f) → Option (Point f × Point f) → Type 0
  Found raw pts o = (a : Point f) × (b : Point f) × (o ≡ some (a, b)) × Follows raw pts a b

  segment-Found :
      (laws : IsOrdered f) (raw : f.F32) (a b : Point f) (rest : List (Point f))
      → f.le a.0 raw ≡ true
      → Found raw (a ∷ b ∷ rest) (or_else (window f raw a (b ∷ rest)) (last_two f a (b ∷ rest)))
  segment-Found laws raw a b [] h = elim (Bool-cases (f.le raw b.0)) [
    | inl e ↦ (a, b, rw (h, e) refl, ([], [], refl, h, inl refl))
    | inr e ↦ (a, b, rw (h, e) refl, ([], [], refl, h, inl refl))
  ]
  segment-Found laws raw a b (c ∷ rest) h = elim (Bool-cases (f.le raw b.0)) [
    | inl e ↦ (a, b, rw (h, e) refl, ([], c ∷ rest, refl, h, inr e))
    | inr e ↦
        let below = laws.not_le-le raw b.0 e in
        let (a', b', found, (pre, post, split, left, right)) =
          segment-Found laws raw b c rest below in
        (a', b', rw (h, e) found, (a ∷ pre, post, ap (λ l. a ∷ l) split, left, right))
  ]

  abbrev HasTwo : List (Point f) → Type 0
  HasTwo pts = (a : Point f) × (b : Point f) × (rest : List (Point f)) × (pts ≡ a ∷ b ∷ rest)

  insert_point-cons :
      (p : Point f) (ps : List (Point f))
      → (a : Point f) × (rest : List (Point f)) × (insert_point f p ps ≡ a ∷ rest)
  insert_point-cons p [] = (p, [], refl)
  insert_point-cons p (q ∷ qs) = elim (Bool-cases (f.lt q.0 p.0)) [
    | inl e ↦ (q, insert_point f p qs, rw e refl)
    | inr e ↦ (p, q ∷ qs, rw e refl)
  ]

  insert_point-HasTwo :
      (p a : Point f) (rest : List (Point f)) → HasTwo (insert_point f p (a ∷ rest))
  insert_point-HasTwo p a rest = elim (Bool-cases (f.lt a.0 p.0)) [
    | inl e ↦ let (b, later, split) = insert_point-cons p rest in (a, b, later, rw (e, split) refl)
    | inr e ↦ (p, a, rest, rw e refl)
  ]

  abbrev points_of : List (Point f) → Option (Calibration f.F32) → List (Point f)
  points_of pts none = pts
  points_of pts (some c) = c.points

  accepted :
      (refuse : Bool) (pts : List (Point f)) (c : Calibration f.F32)
      → (if refuse then none else some (record { points = pts })) ≡ some c
      → c.points ≡ pts
  accepted true pts c h = absurd cc
  accepted false pts c h = sym (ap (points_of pts) h)

  new-HasTwo : (pts : List (Point f)) (c : Calibration f.F32) → new f pts ≡ some c → HasTwo c.points
  unfolding new
  new-HasTwo [] c h = absurd cc
  new-HasTwo (p ∷ []) c h = absurd cc
  new-HasTwo (p ∷ q ∷ ps) c h =
      let (a, later, first) = insert_point-cons q (sort_points f ps) in
      let (a', b', rest, second) = insert_point-HasTwo p a later in
      let sorted : sort_points f (p ∷ q ∷ ps) ≡ a' ∷ b' ∷ rest =
        ap (insert_point f p) first ∙ second in
      (a', b', rest, accepted (shares_raw f (sort_points f (p ∷ q ∷ ps))) _ c h ∙ sorted)

  -- The result for a reading is interpolated on two adjacent points that enclose it.
  abbrev pub Interpolates : List (Point f) → f.F32 → Type 0
  Interpolates pts raw =
      (a : Point f) × (b : Point f) × (apply f (record { points = pts }) raw
        ≡ some (interp f a b raw))
      × Encloses raw pts a b

  two-Interpolates :
      (laws : IsOrdered f) (a b : Point f) (rest : List (Point f)) (raw : f.F32)
      → Interpolates (a ∷ b ∷ rest) raw
  unfolding apply
  two-Interpolates laws a b rest raw = elim (Bool-cases (f.lt raw a.0)) [
    | inl e ↦ (a, b, rw (apply, e) refl, ([], rest, refl, inl (refl, e)))
    | inr e ↦
        let (a', b', found, (pre, post, split, left, right)) =
          segment-Found laws raw a b rest (laws.not_lt-le raw a.0 e) in
        (a', b', rw (apply, e, found) refl, (pre, post, split, inr (left, right)))
  ]

  -- A calibration that `new` accepts never panics on a reading: the result is interpolated on two
  -- adjacent points, between which the reading lies, or below which it lies if they are the first two,
  -- or above which it lies if they are the last two. The comparisons are those of numbers that are not
  -- NaN.
  pub new-Interpolates :
      (laws : IsOrdered f) (pts : List (Point f)) (c : Calibration f.F32) (raw : f.F32)
      → new f pts ≡ some c
      → Interpolates c.points raw
  new-Interpolates laws pts c raw h =
      let (a, b, rest, two) = new-HasTwo pts c h in
      subst (λ ps. Interpolates ps raw) (sym two) (two-Interpolates laws a b rest raw)

-- ===== src/Calibration.antt =====
-- The calibration of the sensors: `new` and `apply` of crates/core/src/calibration.rs. A panic is
-- `none`.
pub mod Segments
mod Tests
use watercontroller.Base.{
  Bool, true, false, ◌&&◌, if◌then◌else◌, Option, none, some, List, [], ◌∷◌, map,
}
use watercontroller.Config.{Calibration}

-- The operations of `f32` that the module uses.
pub record Float : Type 1 where
  pub F32 : Type 0
  pub lt : F32 → F32 → Bool
  pub le : F32 → F32 → Bool
  pub add : F32 → F32 → F32
  pub sub : F32 → F32 → F32
  pub mul : F32 → F32 → F32
  pub div : F32 → F32 → F32
  -- `(a - b).abs() < f32::EPSILON`.
  pub near : F32 → F32 → Bool

abbrev pub or_else {ℓ} : {A : Type ℓ} → Option A → Option A → Option A
or_else none y = y
or_else (some x) y = some x

module _ (f : Float) where
  -- `[raw, calibrated]`.
  abbrev pub Point : Type 0
  Point = f.F32 × f.F32

  -- `sort_by` with `partial_cmp`, which is stable.
  abbrev pub insert_point : Point → List Point → List Point
  insert_point p [] = p ∷ []
  insert_point p (q ∷ qs) =
      let later = insert_point p qs in if f.lt q.0 p.0 then q ∷ later else p ∷ q ∷ qs

  abbrev pub sort_points : List Point → List Point
  sort_points [] = []
  sort_points (p ∷ ps) = insert_point p (sort_points ps)

  -- Two adjacent points share their raw value.
  abbrev pub shares_raw : List Point → Bool
  shares_raw [] = false
  shares_raw (p ∷ []) = false
  shares_raw (p ∷ q ∷ qs) =
      let later = shares_raw (q ∷ qs) in if f.near p.0 q.0 then true else later

  -- `Calibration::new`.
  unfoldable pub new : List Point → Option (Calibration f.F32)
  new [] = none
  new (p ∷ []) = none
  new (p ∷ q ∷ ps) =
      let pts = sort_points (p ∷ q ∷ ps) in
      if shares_raw pts then none else some (record { points = pts })

  abbrev pub interp : Point → Point → f.F32 → f.F32
  interp a b x = let t = f.div (f.sub x a.0) (f.sub b.0 a.0) in f.add a.1 (f.mul t (f.sub b.1 a.1))

  -- The loop over `windows(2)`.
  abbrev pub window : f.F32 → Point → List Point → Option (Point × Point)
  window raw a [] = none
  window raw a (b ∷ rest) =
      let later = window raw b rest in if f.le a.0 raw && f.le raw b.0 then some (a, b) else later

  -- `pts[n - 2]` and `pts[n - 1]`.
  abbrev pub last_two : Point → List Point → Option (Point × Point)
  last_two a [] = none
  last_two a (b ∷ []) = some (a, b)
  last_two a (b ∷ c ∷ rest) = last_two b (c ∷ rest)

  -- `pts[0]` and `pts[1]`.
  abbrev pub first_two : Point → List Point → Option (Point × Point)
  first_two a [] = none
  first_two a (b ∷ rest) = some (a, b)

  abbrev pub segment : f.F32 → List Point → Option (Point × Point)
  segment raw [] = none
  segment raw (a ∷ rest) =
      if f.lt raw a.0 then first_two a rest else or_else (window raw a rest) (last_two a rest)

  -- `Calibration::apply`.
  unfoldable pub apply : Calibration f.F32 → f.F32 → Option f.F32
  apply c raw = elim (segment raw c.points) [ none ↦ none | some (a, b) ↦ some (interp a b raw) ]

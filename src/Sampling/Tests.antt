-- ===== src/Sampling/Tests.antt =====
-- The windows of the battery's readings: an instance of the theorem with more readings than they hold.
use watercontroller.Base.{◌≡◌, refl, ℕ, List, [], ◌∷◌, ◌++◌, last_of}
use watercontroller.Sampling.Window.{size, averaged, empty, put_all, slide_all, put_all-slide_all}

abbrev zeros : List ℕ
zeros = 0 ∷ 0 ∷ 0 ∷ 0 ∷ 0 ∷ 0 ∷ 0 ∷ 0 ∷ 0 ∷ 0 ∷ 0 ∷ 0 ∷ 0 ∷ 0 ∷ 0 ∷ []

abbrev readings : List ℕ
readings = 1 ∷ 2 ∷ 3 ∷ 4 ∷ 5 ∷ 6 ∷ 7 ∷ 8 ∷ 9 ∷ 10 ∷ 11 ∷ 12 ∷ 13 ∷ 14 ∷ 15 ∷ 16 ∷ 17 ∷ []

put_all-slide_all_example :
    (slide_all readings [] ≡ last_of size readings)
    × (a : List ℕ) × (b : List ℕ) × (averaged (put_all readings (empty zeros)) ≡ a ++ b)
    × (last_of size readings ≡ b ++ a)
put_all-slide_all_example = put_all-slide_all zeros readings refl

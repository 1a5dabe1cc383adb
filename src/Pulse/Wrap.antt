-- ===== src/Pulse/Wrap.antt =====
-- hw_pcnt.rs and sensors.rs: the totals against the pulses that came.
use watercontroller.Base.{
  ℕ, ◌+◌, ◌/◌, ◌%◌, ◌^◌, ◌≤◌, ◌<◌, ◌≡◌, ap, ◌∙◌, arith, List, [], ◌∷◌, All, some,
}
use watercontroller.Pulse.{Inner, i16_zero, i64_max, cleared, count, accumulate}

-- The register of a counter that clears when it reaches its limit, after some pulses.
abbrev pub limited : ℕ → ℕ
limited pulses = i16_zero + pulses % 32767

-- The register of a counter of 16 bits that wraps from its greatest value to its least.
abbrev pub wrapping : ℕ → ℕ
wrapping pulses = (i16_zero + pulses) % 2 ^ 16

-- The pulses before each reading, from those that came between readings.
unfoldable pub counts : (ℕ → ℕ) → ℕ → List ℕ → Inner → Inner
unfolding count
counts register pulses [] s = s
counts register pulses (d ∷ ds) s =
    counts register (pulses + d) ds (count (some (register (pulses + d))) s)

unfoldable pub accumulates : ℕ → List ℕ → Inner → Inner
unfolding accumulate
accumulates pulses [] s = s
accumulates pulses (d ∷ ds) s = accumulates (pulses + d) ds (accumulate (wrapping (pulses + d)) s)

abbrev pub sum : List ℕ → ℕ
sum [] = 0
sum (d ∷ ds) = d + sum ds

count-limited :
    (n d : ℕ)
    → d < 32767
    → n + d + (n + d) / 32767 ≤ i64_max
    → count (some (limited (n + d))) (record { last_raw = limited n; total = n + n / 32767 })
      ≡ record { last_raw = limited (n + d); total = n + d + (n + d) / 32767 }
unfolding count
count-limited n d h k = ap (λ t. record { last_raw = limited (n + d); total = t }) (ground arith)

accumulate-wrapping :
    (n d : ℕ)
    → d < 2 ^ 15
    → accumulate (wrapping (n + d)) (record { last_raw = wrapping n; total = n })
      ≡ record { last_raw = wrapping (n + d); total = n + d }
unfolding accumulate
accumulate-wrapping n d h =
    ap (λ t. record { last_raw = wrapping (n + d); total = t }) (ground arith)

counts-total :
    (ds : List ℕ) (n : ℕ)
    → All (λ d. d < 32767) ds
    → n + sum ds + (n + sum ds) / 32767 ≤ i64_max
    → (counts limited n ds (record { last_raw = limited n; total = n + n / 32767 })).total
      ≡ n + sum ds + (n + sum ds) / 32767
unfolding counts
counts-total [] n h k = omega arith
counts-total (d ∷ ds) n (h, hs) k =
    ap (λ s. (counts limited (n + d) ds s).total) (count-limited n d h (omega arith))
    ∙ counts-total ds (n + d) hs (omega arith)
    ∙ omega arith

-- With a register that clears when it reaches its limit of 32767, as the driver documents it, the
-- total is the number of pulses and one more for each time that the register has cleared, if fewer
-- than 32767 pulses come between two readings and the total fits.
pub counts-limited :
    (ds : List ℕ)
    → All (λ d. d < 32767) ds
    → sum ds + sum ds / 32767 ≤ i64_max
    → (counts limited 0 ds cleared).total ≡ sum ds + sum ds / 32767
counts-limited ds h k = counts-total ds 0 h (omega arith) ∙ omega arith

accumulates-total :
    (ds : List ℕ) (n : ℕ)
    → All (λ d. d < 2 ^ 15) ds
    → (accumulates n ds (record { last_raw = wrapping n; total = n })).total ≡ n + sum ds
unfolding accumulates
accumulates-total [] n h = omega arith
accumulates-total (d ∷ ds) n (h, hs) =
    ap (λ s. (accumulates (n + d) ds s).total) (accumulate-wrapping n d h)
    ∙ accumulates-total ds (n + d) hs
    ∙ omega arith

-- With a register of 16 bits that wraps around, the total is the number of pulses, if fewer than 32768
-- come between two readings.
pub accumulates-wrapping :
    (ds : List ℕ) → All (λ d. d < 2 ^ 15) ds → (accumulates 0 ds cleared).total ≡ sum ds
accumulates-wrapping ds h = accumulates-total ds 0 h ∙ omega arith

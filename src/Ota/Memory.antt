-- ===== src/Ota/Memory.antt =====
-- ota.rs: the bytes of a stream and those in the flash, and what the driver of the flash promises of them.
use watercontroller.Base.{
  ℕ, zero, suc, ◌+◌, ◌-◌, ◌*◌, ◌/◌, ◌≤◌, ◌<◌, ◌≡◌, ◌⊎◌, refl, sym, ap, ◌∙◌, arith, true, ◌&&◌, none,
  some, [], ◌∷◌, ◌++◌, inl, inr, ◌==◌, leb, ltb, length, take, drop, length-append,
  length-take_of_le, append-nil, Bool-cases, if◌then◌else◌,
}
use mathlib.Core.List.{append_assoc}
use watercontroller.Nvs.{Bytes}
use watercontroller.Ota.{sector, OtaFlash, Reads, filled, fill}

abbrev pub nth : ℕ → Bytes → ℕ
nth i [] = 0
nth zero (b ∷ bs) = b
nth (suc i) (b ∷ bs) = nth i bs

-- The bytes of a memory with some of them written from an address on.
abbrev pub patched : ℕ → Bytes → (ℕ → ℕ) → ℕ → ℕ
patched at bs byte a = if leb at a && ltb a (at + length bs) then nth (a - at) bs else byte a

-- The bytes of a stream up to its first error.
abbrev pub content : Reads → Bytes
content [] = []
content (none ∷ rs) = []
content (some c ∷ rs) = c ++ content rs

-- The start of the sector of an address, and the end of the sectors that reach up to it.
abbrev pub sector_start : ℕ → ℕ
sector_start at = at / sector * sector

abbrev pub sector_end : ℕ → ℕ
sector_end at = (at + (sector - 1)) / sector * sector

-- What the driver promises of the bytes at their addresses. It erases and programs whole sectors: a write
-- that succeeds puts its bytes there and brings the rest of their sectors back; one that fails may leave
-- anything in these sectors; and neither touches another sector.
pub record FlashBytes (f : OtaFlash) (byte : f.Flash → ℕ → ℕ) : Type 1 where
  pub written :
      (at : ℕ) (bs : Bytes) (s : f.Flash)
      → (f.write at bs s).0 ≡ true
      → (a : ℕ) → byte (f.write at bs s).1 a ≡ patched at bs (byte s) a
  pub kept :
      (at : ℕ) (bs : Bytes) (s : f.Flash) (a : ℕ)
      → (a < sector_start at) ⊎ (sector_end (at + length bs) ≤ a)
      → byte (f.write at bs s).1 a ≡ byte s a

take-drop : (n : ℕ) (xs : Bytes) → take n xs ++ drop n xs ≡ xs
take-drop zero xs = refl
take-drop (suc n) [] = refl
take-drop (suc n) (x ∷ xs) = ap (λ l. x ∷ l) (take-drop n xs)

-- What a filled sector took from the stream.
abbrev Took : ℕ → Bytes → Reads → Bytes → Reads → Type 0
Took want buf rs buf' rs' =
    (added : Bytes) × (buf' ≡ buf ++ added)
    × (content rs ≡ added ++ content rs')
    × (length buf' ≤ want)

Took-none :
    (want : ℕ) (buf : Bytes) (rs : Reads) (buf' : Bytes) (rs' : Reads)
    → filled buf rs ≡ filled buf' rs'
    → length buf ≤ want
    → Took want buf rs buf' rs'
Took-none want buf rs buf' rs' h k =
    let same : buf ≡ buf' = cc in
    let rest : rs ≡ rs' = cc in ([], sym same ∙ sym (append-nil buf), rw rest refl, rw (sym same) k)

pub fill_lem :
    (want : ℕ) (buf : Bytes) (rs : Reads) (buf' : Bytes) (rs' : Reads)
    → fill want buf rs ≡ filled buf' rs'
    → length buf ≤ want
    → Took want buf rs buf' rs'
unfolding fill
fill_lem want buf [] buf' rs' h k = Took-none want buf [] buf' rs' h k
fill_lem want buf (none ∷ rs) buf' rs' h k = elim (Bool-cases (leb want (length buf))) [
  | inl full ↦ Took-none want buf (none ∷ rs) buf' rs' (rw full at h) k
  | inr more ↦ cc (rw more at h)
]
fill_lem want buf (some c ∷ rs) buf' rs' h k = elim (Bool-cases (leb want (length buf))) [
  | inl full ↦ Took-none want buf (some c ∷ rs) buf' rs' (rw full at h) k
  | inr more ↦ elim (Bool-cases (length c == 0)) [
    | inl end ↦
        let (added, grown, rest, fits) = Took-none want buf rs buf' rs' (rw (more, end) at h) k in
        (added, grown, ap (λ (d : Bytes). d ++ content rs) (empty c (ground arith)) ∙ rest, fits)
    | inr some_bytes ↦ elim (Bool-cases (leb (length c) (want - length buf))) [
      | inl fits ↦
          let (added, grown, rest, size) =
            fill_lem want (buf ++ c) rs buf' rs' (rw (more, some_bytes, fits) at h)
              (ground (arith, length-append buf c)) in
          (
            c ++ added,
            grown ∙ append_assoc buf c added,
            ap (λ (d : Bytes). c ++ d) rest ∙ sym (append_assoc c added (content rs')),
            size,
          )
      | inr over ↦
          let room = want - length buf in
          let cut : filled (buf ++ take room c) (some (drop room c) ∷ rs) ≡ filled buf' rs' =
            rw (more, some_bytes, over) at h in
          let grown : buf ++ take room c ≡ buf' = cc in
          let rest : some (drop room c) ∷ rs ≡ rs' = cc in
          let taken : length (take room c) ≡ room = length-take_of_le room c (ground arith) in
          (
            take room c,
            sym grown,
            ap (λ (d : Bytes). d ++ content rs) (sym (take-drop room c))
                ∙ append_assoc (take room c) (drop room c) (content rs)
                ∙ ap (λ (r : Reads). take room c ++ content r) rest,
            rw (sym grown) (omega (arith, taken, length-append buf (take room c))),
          )
    ]
  ]
]
  where
    empty : (c : Bytes) → length c ≡ 0 → c ≡ []
    empty [] h = refl
    empty (b ∷ bs) h = absurd (omega arith)

nth-append : (i : ℕ) (xs ys : Bytes) → i < length xs → nth i (xs ++ ys) ≡ nth i xs
nth-append i [] ys h = absurd (omega arith)
nth-append zero (x ∷ xs) ys h = refl
nth-append (suc i) (x ∷ xs) ys h = nth-append i xs ys (omega arith)

nth-append_past :
    (i : ℕ) (xs ys : Bytes) → length xs ≤ i → nth i (xs ++ ys) ≡ nth (i - length xs) ys
nth-append_past i [] ys h = ap (λ (j : ℕ). nth j ys) (omega arith)
nth-append_past zero (x ∷ xs) ys h = absurd (omega arith)
nth-append_past (suc i) (x ∷ xs) ys h =
    nth-append_past i xs ys (omega arith) ∙ ap (λ (j : ℕ). nth j ys) (omega arith)

pub patched-nil : (at : ℕ) (byte : ℕ → ℕ) (a : ℕ) → patched at [] byte a ≡ byte a
patched-nil at byte a = ground arith

-- Two writes, one behind the other, are one write.
pub patched-append :
    (at : ℕ) (xs ys : Bytes) (byte : ℕ → ℕ) (a : ℕ)
    → patched (at + length xs) ys (patched at xs byte) a ≡ patched at (xs ++ ys) byte a
patched-append at xs ys byte a = elim (Bool-cases (ltb a (at + length xs))) [
  | inl e ↦ let size = length-append xs ys in ground (arith, size, nth-append (a - at) xs ys)
  | inr e ↦
      let size = length-append xs ys in
      let past : a - at - length xs ≡ a - (at + length xs) = omega arith in
      ground (arith, size, past, nth-append_past (a - at) xs ys)
]

pub patched-cong :
    (at : ℕ) (bs : Bytes) (g k : ℕ → ℕ) (a : ℕ) → g a ≡ k a → patched at bs g a ≡ patched at bs k a
patched-cong at bs g k a h = ground arith

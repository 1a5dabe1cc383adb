-- ===== src/Sampling/Window.antt =====
-- The window of the battery's readings: the ring of crates/firmware-nostd/src/sensors.rs and the queue
-- of crates/firmware/src/main.rs.
use watercontroller.Base.{
  ℕ, zero, suc, true, false, ◌+◌, ◌%◌, ◌≤◌, List, [], ◌∷◌, ◌++◌, ltb, if◌then◌else◌, length, take,
  drop, last_of, push_ring, last_of-push_ring, length-push_ring, last_of-fits, ◌==◌, ◌≡◌, refl, ap,
  ◌∙◌, arith, sym, length-append, take-length, append-nil, snoc-append, Bool-cases, inl, inr,
}
use mathlib.Core.List.{append_assoc}
use native.Mathlib.Nat.{mod-eq_of_lt}

abbrev pub size : ℕ
size = 15

-- `bat_window`, `bat_pos` and `bat_len`.
pub record Ring (A : Type 0) : Type 0 where
  pub window : List A
  pub pos : ℕ
  pub len : ℕ

module _ {A : Type 0} where
  -- `bat_window[i] = v`.
  abbrev pub set_at : ℕ → A → List A → List A
  set_at i v [] = []
  set_at zero v (x ∷ xs) = v ∷ xs
  set_at (suc i) v (x ∷ xs) = x ∷ set_at i v xs

  -- A reading is put into the ring.
  unfoldable pub put : A → Ring A → Ring A
  put v r = record {
    window = set_at r.pos v r.window;
    pos = (r.pos + 1) % size;
    len = if ltb r.len size then r.len + 1 else r.len;
  }

  -- `bat_window[..bat_len]`, of which the average is taken.
  abbrev pub averaged : Ring A → List A
  averaged r = take r.len r.window

  -- `push_back`, and `pop_front` if there are more than 15.
  unfoldable pub slide : A → List A → List A
  slide v q = let pushed = q ++ v ∷ [] in if ltb size (length pushed) then drop 1 pushed else pushed

  abbrev pub put_all : List A → Ring A → Ring A
  put_all [] r = r
  put_all (v ∷ vs) r = put_all vs (put v r)

  abbrev pub slide_all : List A → List A → List A
  slide_all [] q = q
  slide_all (v ∷ vs) q = slide_all vs (slide v q)

  set_at-length :
      (a : List A) (v x : A) (b : List A) → set_at (length a) v (a ++ x ∷ b) ≡ a ++ v ∷ b
  set_at-length [] v x b = refl
  set_at-length (y ∷ a) v x b = ap (λ l. y ∷ l) (set_at-length a v x b)

  -- How the ring holds the readings `d`.
  data Holds (r : Ring A) (d : List A) : Type 0 where
    partial :
        (b : List A)
        → r.window ≡ d ++ b
        → length d + length b ≡ size
        → 1 ≤ length b
        → r.pos ≡ length d
        → r.len ≡ length d
        → Holds r d
    full :
        (a b : List A)
        → r.window ≡ a ++ b
        → length a + length b ≡ size
        → 1 ≤ length b
        → r.pos ≡ length a
        → r.len ≡ size
        → d ≡ b ++ a
        → Holds r d

  slide-short : (v : A) (q : List A) → length q + 1 ≤ size → slide v q ≡ q ++ v ∷ []
  unfolding slide
  slide-short v q h =
      let e : ltb size (length (q ++ v ∷ [])) ≡ false = ground (arith, length-append q (v ∷ [])) in
      rw e refl

  slide-full : (v x : A) (q : List A) → length q + 1 ≡ size → slide v (x ∷ q) ≡ q ++ v ∷ []
  unfolding slide
  slide-full v x q h =
      let e : ltb size (length (x ∷ q ++ v ∷ [])) ≡ true =
        ground (arith, length-append q (v ∷ [])) in
      rw e refl

  written :
      (r : Ring A) (a : List A) (x : A) (b : List A) (v : A)
      → r.pos ≡ length a
      → r.window ≡ a ++ x ∷ b
      → set_at r.pos v r.window ≡ a ++ v ∷ b
  written r a x b v p w = rw (p, w) (set_at-length a v x b)

  put-Holds : (v : A) (r : Ring A) (d : List A) → Holds r d → Holds (put v r) (slide v d)
  unfolding put
  put-Holds v r d (partial [] w s n p l) = absurd (omega arith)
  put-Holds v r d (partial (x ∷ []) w s n p l) =
      let more : ltb r.len size ≡ true = ground (arith, l) in
      let grown = length-append d (v ∷ []) in
      let wrapped : (r.pos + 1) % size ≡ 0 = ground (arith, p) in
      rw (slide-short v d (omega arith)) (
        full [] (d ++ v ∷ []) (written r d x [] v p w) (omega (arith, grown)) (omega (arith, grown))
          wrapped (rw more (omega arith)) (sym (append-nil (d ++ v ∷ []))))
  put-Holds v r d (partial (x ∷ y ∷ b) w s n p l) =
      let more : ltb r.len size ≡ true = ground (arith, l) in
      let grown = length-append d (v ∷ []) in
      let next : (r.pos + 1) % size ≡ r.pos + 1 = mod-eq_of_lt (omega arith) in
      rw (slide-short v d (omega arith)) (
        partial (y ∷ b) (written r d x (y ∷ b) v p w ∙ sym (snoc-append d v (y ∷ b)))
          (omega (arith, grown)) (omega arith) (next ∙ omega (arith, grown))
          (rw more (omega (arith, grown))))
  put-Holds v r d (full a [] w s n p l e) = absurd (omega arith)
  put-Holds v r d (full a (x ∷ []) w s n p l e) =
      let more : ltb r.len size ≡ false = ground (arith, l) in
      let grown = length-append a (v ∷ []) in
      let wrapped : (r.pos + 1) % size ≡ 0 = ground (arith, p) in
      rw (e, slide-full v x a (omega arith))
        (full [] (a ++ v ∷ []) (written r a x [] v p w) (omega (arith, grown))
          (omega (arith, grown)) wrapped (rw more l) (sym (append-nil (a ++ v ∷ []))))
  put-Holds v r d (full a (x ∷ y ∷ b) w s n p l e) =
      let more : ltb r.len size ≡ false = ground (arith, l) in
      let grown = length-append a (v ∷ []) in
      let both = length-append (y ∷ b) a in
      let next : (r.pos + 1) % size ≡ r.pos + 1 = mod-eq_of_lt (omega arith) in
      rw (e, slide-full v x (y ∷ b ++ a) (omega (arith, both)))
        (full (a ++ v ∷ []) (y ∷ b) (written r a x (y ∷ b) v p w ∙ sym (snoc-append a v (y ∷ b)))
          (omega (arith, grown)) (omega arith) (next ∙ omega (arith, grown)) (rw more l)
          (append_assoc (y ∷ b) a (v ∷ [])))

  put_all-Holds :
      (vs : List A) (r : Ring A) (d : List A) → Holds r d → Holds (put_all vs r) (slide_all vs d)
  put_all-Holds [] r d h = h
  put_all-Holds (v ∷ vs) r d h = put_all-Holds vs (put v r) (slide v d) (put-Holds v r d h)

  Holds-parts :
      (r : Ring A) (d : List A)
      → Holds r d
      → (a : List A) × (b : List A) × (averaged r ≡ a ++ b) × (d ≡ b ++ a)
  Holds-parts r d (partial b w s n p l) = ([], d, rw (l, w) (take-length d b), sym (append-nil d))
  Holds-parts r d (full a b w s n p l e) =
      let whole : r.len ≡ length (a ++ b) = l ∙ sym (length-append a b ∙ s) in
      (
        a,
        b,
        rw (whole, w)
            (ap (take (length (a ++ b))) (sym (append-nil (a ++ b))) ∙ take-length (a ++ b) []),
        e,
      )

  slide-push_ring : (v : A) (q : List A) → length q ≤ size → slide v q ≡ push_ring size v q
  slide-push_ring v [] h = slide-short v [] (omega arith)
  slide-push_ring v (x ∷ q) h = elim (Bool-cases (length (x ∷ q) == size)) [
    | inl e ↦ rw e (slide-full v x q (ground (arith, e)))
    | inr e ↦ rw e (slide-short v (x ∷ q) (grind (arith, e)))
  ]

  slide_all-last_of : (vs q : List A) → length q ≤ size → slide_all vs q ≡ last_of size (q ++ vs)
  slide_all-last_of [] q h = rw (append-nil q, last_of-fits size q h) refl
  slide_all-last_of (v ∷ vs) q h =
      let same = slide-push_ring v q h in
      let later =
        slide_all-last_of vs (push_ring size v q) (length-push_ring size v q (omega arith) h) in
      ap (slide_all vs) same ∙ later ∙ last_of-push_ring size v vs q (omega arith) h

  abbrev pub empty : List A → Ring A
  empty zeros = record { window = zeros; pos = 0; len = 0 }

  -- However many readings have been taken, both windows hold the last 15 of them, or all where there are
  -- fewer: the queue in their order, and the part of the ring that is averaged as the newer ones `a`
  -- before the older ones `b`.
  pub put_all-slide_all :
      (zeros vs : List A)
      → length zeros ≡ size
      → (slide_all vs [] ≡ last_of size vs)
        × (a : List A) × (b : List A) × (averaged (put_all vs (empty zeros)) ≡ a ++ b)
        × (last_of size vs ≡ b ++ a)
  put_all-slide_all zeros vs h =
      let start : Holds (empty zeros) [] =
        partial zeros refl (omega arith) (omega arith) refl refl in
      let (a, b, ring, queue) =
        Holds-parts (put_all vs (empty zeros)) (slide_all vs [])
          (put_all-Holds vs (empty zeros) [] start) in
      let last = slide_all-last_of vs [] (omega arith) in (last, a, b, ring, sym last ∙ queue)

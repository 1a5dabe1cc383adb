-- ===== src/FlashKv/Failed.antt =====
-- nvs.rs: what a write that fails leaves in memory.
use watercontroller.Base.{
  suc, ◌≤◌, ◌<◌, true, Option, some, String, [], ◌∷◌, ◌++◌, ◌≡◌, refl, sym, ap, ◌∙◌, inl, inr,
  arith, ltb, length, length-append, Bool-cases, str_eq, str_eq_refl, str_ltb,
}
use watercontroller.Nvs.{Bytes, NvsError, full, NvsLaws}
use watercontroller.FlashKv.{
  BTreeMap, lookup, insert, region_len, Utf8, zeros, serialized, FlashStorage, FlashKv, flush, set,
  store,
}
use watercontroller.FlashKv.Maps.{lookup-insert}
use watercontroller.FlashKv.Encoded.{entry, length-entry, length-zeros}
use watercontroller.FlashKv.Restart.{blanks, length-blanks, encoded, length-serialized}

module _ (u : Utf8) (f : FlashStorage) where
  length-le-insert :
      (k : String) (v : Bytes) (m : BTreeMap) → length v ≤ length (encoded u (insert k v m))
  unfolding insert
  length-le-insert k v [] = omega (arith, length-append (entry u k v) [], length-entry u k v)
  length-le-insert k v ((j, w) ∷ m) =
      let later = length-le-insert k v m in
      let here : (r : Bytes) → length v ≤ length (entry u k v ++ r) =
        λ r. omega (arith, length-append (entry u k v) r, length-entry u k v) in
      elim (Bool-cases (str_eq j k)) [
        | inl e ↦ rw e (here (encoded u m))
        | inr e ↦ elim (Bool-cases (str_ltb k j)) [
          | inl q ↦ rw (e, q) (here (entry u j w ++ encoded u m))
          | inr q ↦
              rw (e, q)
                (omega (arith, later, length-append (entry u j w) (encoded u (insert k v m))))
        ]
      ]

  -- A value that is larger than the region does not fit.
  set-full :
      (s : FlashKv u f) (k : String) (v : Bytes)
      → region_len < length v
      → set u f s k v ≡ (some full, record s { cache = insert k v s.cache })
  unfolding set flush
  set-full s k v h =
      let over : ltb region_len (length (serialized u (insert k v s.cache))) ≡ true =
        ground (arith, length-serialized u (insert k v s.cache), length-le-insert k v s.cache) in
      rw over refl

  lookup-set_full :
      (s : FlashKv u f) (k : String) (v : Bytes)
      → region_len < length v
      → lookup k (set u f s k v).1.cache ≡ some v
  lookup-set_full s k v h =
      ap (λ (r : Option NvsError × FlashKv u f). lookup k r.1.cache) (set-full s k v h)
      ∙ lookup-insert k k v s.cache
      ∙ rw (str_eq_refl k) refl

  -- The store does not meet what its users rely on: a write that fails because the region is full is
  -- read back until the next restart.
  pub store-NvsLaws : FlashKv u f → ¬ NvsLaws (store u f)
  store-NvsLaws s laws =
      let big = blanks (suc region_len) in
      let big' = zeros (suc region_len) in
      let h : region_len < length big = omega (arith, length-blanks (suc region_len)) in
      let h' : region_len < length big' = omega (arith, length-zeros (suc region_len)) in
      let kept =
        laws.get-set_failed s "k" "k" big full
          (ap (λ (r : Option NvsError × FlashKv u f). r.0) (set-full s "k" big h)) in
      let kept' =
        laws.get-set_failed s "k" "k" big' full
          (ap (λ (r : Option NvsError × FlashKv u f). r.0) (set-full s "k" big' h')) in
      let same : some big ≡ some big' =
        sym (lookup-set_full s "k" big h) ∙ kept ∙ sym kept' ∙ lookup-set_full s "k" big' h' in
      cc

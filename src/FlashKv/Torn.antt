-- ===== src/FlashKv/Torn.antt =====
-- nvs.rs: what a restart finds after a write that the power loss cut off.
use watercontroller.Base.{
  ℕ, suc, ◌+◌, ◌-◌, ◌%◌, ◌^◌, ◌≤◌, ◌<◌, true, false, String, [], ◌∷◌, ◌++◌, ◌≡◌, refl, sym, ap, ◌∙◌,
  arith, ltb, length, take, length-append, take-length,
}
use mathlib.Core.List.{append_assoc}
use watercontroller.Nvs.{Bytes}
use watercontroller.FlashKv.{
  BTreeMap, region_len, to_le_bytes, from_le_bytes, Utf8, panicked, entries, parse, serialized,
}
use watercontroller.FlashKv.Maps.{IsBelow, IsSorted}
use watercontroller.FlashKv.Encoded.{entry, length-entry, from_le_bytes-to_le_bytes}
use watercontroller.FlashKv.Restart.{
  blanks, length-blanks, AreBelow-nil, encoded, and_more, entries-encoded, header, serialized_lem,
  length-serialized, length-le-encoded,
}

from_le_bytes-blanks : (n : ℕ) → from_le_bytes (blanks (suc (suc (suc (suc n))))) ≡ 2 ^ 32 - 1
unfolding from_le_bytes
from_le_bytes-blanks n = refl

IsBelow-prefix : (k : String) (es more : BTreeMap) → IsBelow k (es ++ more) → IsBelow k es
IsBelow-prefix k [] more h = tt
IsBelow-prefix k (e ∷ es) more (h, hs) = (h, IsBelow-prefix k es more hs)

IsSorted-prefix : (es more : BTreeMap) → IsSorted (es ++ more) → IsSorted es
IsSorted-prefix [] more h = tt
IsSorted-prefix ((k, v) ∷ es) more (b, h) = (IsBelow-prefix k es more b, IsSorted-prefix es more h)

and_more-length :
    (u : Utf8) (es more : BTreeMap) → and_more u es (length more) ≡ length (es ++ more)
and_more-length u [] more = refl
and_more-length u (e ∷ es) more = ap suc (and_more-length u es more)

module _ (u : Utf8) where
  encoded-append : (es more : BTreeMap) → encoded u (es ++ more) ≡ encoded u es ++ encoded u more
  encoded-append [] more = refl
  encoded-append ((k, v) ∷ es) more =
      ap (λ (b : Bytes). entry u k v ++ b) (encoded-append es more)
      ∙ sym (append_assoc (entry u k v) (encoded u es) (encoded u more))

  -- The sum of the position and an erased word wraps to below the position.
  entries-blanks :
      (n pos j : ℕ) (m : BTreeMap)
      → pos + 8 < 2 ^ 32
      → entries u (suc n) pos (blanks (suc (suc (suc (suc (suc (suc (suc (suc j))))))))) m
        ≡ panicked
  unfolding entries
  entries-blanks n pos j m h =
      let klen = from_le_bytes-blanks (suc (suc (suc (suc j)))) in
      let wrapped : (pos + 8 + (2 ^ 32 - 1)) % 2 ^ 32 ≡ pos + 7 = omega arith in
      let size = length-blanks j in
      let reached : ltb (pos + (8 + length (blanks j))) (pos + 8) ≡ false = ground arith in
      let short : ltb (pos + (8 + length (blanks j))) (pos + 7) ≡ false = ground arith in
      let back : ltb (pos + 7) (pos + 8) ≡ true = ground arith in
      let len : pos + length (blanks (suc (suc (suc (suc (suc (suc (suc (suc j)))))))))
          ≡ pos + (8 + length (blanks j)) =
        omega arith in
      rw (klen, wrapped, len, reached, short, back) refl

  from_blanks : (n : ℕ) → 8 ≤ n → (j : ℕ) × (n ≡ suc (suc (suc (suc (suc (suc (suc (suc j))))))))
  from_blanks n h = (n - 8, omega arith)

  -- The region after a write of a map that stopped before the entries `more`.
  abbrev pub torn : BTreeMap → BTreeMap → Bytes
  torn es more =
      take (length (serialized u es)) (serialized u (es ++ more))
      ++ blanks (region_len - length (serialized u es))

  torn_lem :
      (es more : BTreeMap)
      → torn es more
        ≡ header u (length (es ++ more))
          ++ (encoded u es ++ blanks (region_len - length (serialized u es)))
  unfolding to_le_bytes
  torn_lem es more =
      let kept = header u (length (es ++ more)) ++ encoded u es in
      let rest = blanks (region_len - length (serialized u es)) in
      let whole : serialized u (es ++ more) ≡ kept ++ encoded u more =
        serialized_lem u (es ++ more)
        ∙ ap (λ (b : Bytes). header u (length (es ++ more)) ++ b) (encoded-append es more) in
      let size : length (serialized u es) ≡ length kept = length-serialized u es ∙ omega arith in
      ap (λ (b : Bytes). take (length (serialized u es)) b ++ rest) whole
      ∙ ap (λ (n : ℕ). take n (kept ++ encoded u more) ++ rest) size
      ∙ ap (λ (b : Bytes). b ++ rest) (take-length kept (encoded u more))

  -- If the power is lost in a write of a map into the erased region right after some of its entries,
  -- or none, and before the last, the parser panics at the next start.
  pub parse-torn :
      (es more : BTreeMap) (k : String) (v : Bytes)
      → IsSorted (es ++ (k, v) ∷ more)
      → length (serialized u (es ++ (k, v) ∷ more)) ≤ region_len
      → parse u (torn es ((k, v) ∷ more)) ≡ panicked
  unfolding parse to_le_bytes
  parse-torn es more k v sorted fits =
      let m = es ++ (k, v) ∷ more in
      let room = region_len - length (serialized u es) in
      let size : length (encoded u m) ≡ length (encoded u es) + length (encoded u ((k, v) ∷ more)) =
        ap length (encoded-append es ((k, v) ∷ more))
        ∙ length-append (encoded u es) (encoded u ((k, v) ∷ more)) in
      let last : 8 ≤ length (encoded u ((k, v) ∷ more)) =
        omega (arith, length-append (entry u k v) (encoded u more), length-entry u k v) in
      let whole = length-serialized u m in
      let part = length-serialized u es in
      let (j, blank) = from_blanks room (omega (arith, size, last, whole, part)) in
      let count : from_le_bytes (to_le_bytes (length m) ++ (encoded u es ++ blanks room))
          ≡ length m =
        from_le_bytes-to_le_bytes (length m) (encoded u es ++ blanks room)
          (omega (arith, whole, length-le-encoded u m)) in
      let read =
        entries-encoded u es [] (suc (length more)) 12 (blanks room) refl
          (omega (arith, part, size, whole, length-blanks room)) (AreBelow-nil es)
          (IsSorted-prefix es _ sorted) in
      let stop =
        entries-blanks (length more) (12 + length (encoded u es)) j es
          (omega (arith, size, whole)) in
      rw (torn_lem es ((k, v) ∷ more)) (
        rw (parse, count)
          (ap (λ (n : ℕ). entries u n 12 (encoded u es ++ blanks room) [])
              (sym (and_more-length u es ((k, v) ∷ more)))
            ∙ read
            ∙ ap
                (λ (n : ℕ).
                  entries u (suc (length more)) (12 + length (encoded u es)) (blanks n) es)
                blank
            ∙ stop))

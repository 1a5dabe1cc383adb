-- ===== src/FlashKv/Encoded.antt =====
-- nvs.rs: what `flush` writes is read back entry by entry.
use watercontroller.Base.{
  ℕ, zero, suc, ◌+◌, ◌-◌, ◌%◌, ◌^◌, ◌≤◌, ◌<◌, false, some, String, ◌++◌, ◌≡◌, refl, sym, ap, ◌∙◌,
  arith, ltb, length, take, drop, length-append, drop-length, take-length,
}
use mathlib.Core.List.{append_assoc}
use watercontroller.Nvs.{Bytes}
use watercontroller.FlashKv.{
  BTreeMap, insert, pad4, region_len, to_le_bytes, from_le_bytes, Utf8, zeros, padded, entries,
  push_entry,
}

pub from_le_bytes-to_le_bytes :
    (n : ℕ) (rest : Bytes) → n < 2 ^ 32 → from_le_bytes (to_le_bytes n ++ rest) ≡ n
unfolding from_le_bytes to_le_bytes
from_le_bytes-to_le_bytes n rest h = omega arith

pub length-zeros : (n : ℕ) → length (zeros n) ≡ n
length-zeros zero = refl
length-zeros (suc n) = omega (arith, length-zeros n)

length-padded : (x : Bytes) → length (padded x) ≡ pad4 (length x)
length-padded x =
    length-append x (zeros (pad4 (length x) - length x))
    ∙ omega (arith, length-zeros (pad4 (length x) - length x))

padded-append : (buf x : Bytes) → length buf % 4 ≡ 0 → padded (buf ++ x) ≡ buf ++ padded x
padded-append buf x h =
    let size = length-append buf x in
    append_assoc buf x (zeros (pad4 (length (buf ++ x)) - length (buf ++ x)))
    ∙ ap (λ (n : ℕ). buf ++ (x ++ zeros n)) (omega (arith, size))

module _ (u : Utf8) where
  -- An entry as `flush` writes it.
  abbrev pub entry : String → Bytes → Bytes
  entry k v =
      to_le_bytes (length (u.as_bytes k))
      ++ (to_le_bytes (length v) ++ (padded (u.as_bytes k) ++ padded v))

  abbrev pub entry_len : String → Bytes → ℕ
  entry_len k v = 8 + pad4 (length (u.as_bytes k)) + pad4 (length v)

  pub length-entry : (k : String) (v : Bytes) → length (entry k v) ≡ entry_len k v
  unfolding to_le_bytes
  length-entry k v =
      let size = length-append (padded (u.as_bytes k)) (padded v) in
      omega (arith, size, length-padded (u.as_bytes k), length-padded v)

  pub push_entry_lem :
      (buf : Bytes) (k : String) (v : Bytes)
      → length buf % 4 ≡ 0
      → push_entry u buf k v ≡ buf ++ entry k v
  unfolding push_entry to_le_bytes
  push_entry_lem buf k v h =
      let kb = u.as_bytes k in
      let base = (buf ++ to_le_bytes (length kb)) ++ to_le_bytes (length v) in
      let base_len : length base % 4 ≡ 0 = omega (
        arith,
        length-append (buf ++ to_le_bytes (length kb)) (to_le_bytes (length v)),
        length-append buf (to_le_bytes (length kb)),
      ) in
      let inner_len : length (base ++ padded kb) % 4 ≡ 0 =
        omega (arith, base_len, length-append base (padded kb), length-padded kb) in
      rw (padded-append base kb base_len, padded-append (base ++ padded kb) v inner_len)
        (append_assoc base (padded kb) (padded v)
          ∙ append_assoc (buf ++ to_le_bytes (length kb)) (to_le_bytes (length v))
              (padded kb ++ padded v)
          ∙ append_assoc buf (to_le_bytes (length kb))
              (to_le_bytes (length v) ++ (padded kb ++ padded v)))

  -- The parts of an entry that is followed by other bytes.
  from_le_bytes-entry :
      (k : String) (v rest : Bytes)
      → length (u.as_bytes k) < 2 ^ 32
      → length v < 2 ^ 32
      → (from_le_bytes (entry k v ++ rest) ≡ length (u.as_bytes k))
        × (from_le_bytes (drop 4 (entry k v ++ rest)) ≡ length v)
        × (drop 8 (entry k v ++ rest) ≡ padded (u.as_bytes k) ++ (padded v ++ rest))
  unfolding from_le_bytes to_le_bytes
  from_le_bytes-entry k v rest h i =
      (omega arith, omega arith, append_assoc (padded (u.as_bytes k)) (padded v) rest)

  take-padded : (x rest : Bytes) → take (length x) (padded x ++ rest) ≡ x
  take-padded x rest =
      ap (take (length x)) (append_assoc x (zeros (pad4 (length x) - length x)) rest)
      ∙ take-length x (zeros (pad4 (length x) - length x) ++ rest)

  drop-padded : (x rest : Bytes) (n : ℕ) → n ≡ pad4 (length x) → drop n (padded x ++ rest) ≡ rest
  drop-padded x rest n h =
      ap (λ (n : ℕ). drop n (padded x ++ rest)) (h ∙ sym (length-padded x))
      ∙ drop-length (padded x) rest

  pub entries-entry :
      (n pos : ℕ) (k : String) (v rest : Bytes) (m : BTreeMap)
      → pos % 4 ≡ 0
      → pos + entry_len k v + length rest ≤ region_len
      → entries u (suc n) pos (entry k v ++ rest) m
        ≡ entries u n (pos + entry_len k v) rest (insert k v m)
  unfolding entries
  entries-entry n pos k v rest m h fits =
      let kb = u.as_bytes k in
      let size : length (entry k v ++ rest) ≡ entry_len k v + length rest =
        omega (arith, length-append (entry k v) rest, length-entry k v) in
      let (klen, vlen, body) = from_le_bytes-entry k v rest (omega arith) (omega arith) in
      let kend : (pos + 8 + length kb) % 2 ^ 32 ≡ pos + 8 + length kb = omega arith in
      let vend : (pad4 (pos + 8 + length kb) + length v) % 2 ^ 32
          ≡ pad4 (pos + 8 + length kb) + length v =
        omega arith in
      let value : drop (pad4 (pos + 8 + length kb) - (pos + 8)) (padded kb ++ (padded v ++ rest))
          ≡ padded v ++ rest =
        drop-padded kb (padded v ++ rest) _ (omega arith) in
      let next : drop (pad4 (pad4 (pos + 8 + length kb) + length v) - pad4 (pos + 8 + length kb))
            (padded v ++ rest)
          ≡ rest =
        drop-padded v rest _ (omega arith) in
      let key : u.from_utf8 (take (length kb) (padded kb ++ (padded v ++ rest))) ≡ some k =
        rw (take-padded kb (padded v ++ rest)) (u.from_utf8-as_bytes k) in
      let at : pad4 (pad4 (pos + 8 + length kb) + length v) ≡ pos + entry_len k v = omega arith in
      let long : ltb (pos + (entry_len k v + length rest)) (pos + 8) ≡ false = ground arith in
      let whole : ltb (pos + (entry_len k v + length rest)) (pos + 8 + length kb) ≡ false =
        ground arith in
      let ordered : ltb (pos + 8 + length kb) (pos + 8) ≡ false = ground arith in
      let whole' : ltb (pos + (entry_len k v + length rest)) (pad4 (pos + 8 + length kb) + length v)
          ≡ false =
        ground arith in
      let ordered' : ltb (pad4 (pos + 8 + length kb) + length v) (pad4 (pos + 8 + length kb))
          ≡ false =
        ground arith in
      rw (klen, body, kend, size, long, whole, ordered, key)
        (rw
          (
            klen,
            vlen,
            body,
            kend,
            size,
            vend,
            whole',
            ordered',
            value,
            next,
            take-padded v rest,
            at,
          )
          refl)

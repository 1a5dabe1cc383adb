-- ===== src/FlashKv/Restart.antt =====
-- nvs.rs: what a restart finds in the flash after a write.
use watercontroller.Base.{
  ℕ, zero, suc, ◌+◌, ◌-◌, ◌%◌, ◌≤◌, Bool, true, false, Option, none, some, String, List, [], ◌∷◌,
  ◌++◌, ◌≡◌, refl, sym, ap, ◌∙◌, inl, inr, arith, All, Bool-cases, ltb, length, length-append,
  append-nil, snoc-append, str_ltb, str_eq, if◌then◌else◌,
}
use mathlib.Core.List.{append_assoc}
use watercontroller.Nvs.{Bytes, NvsError}
use watercontroller.FlashKv.{
  BTreeMap, lookup, insert, without, region_len, magic, version, to_le_bytes, from_le_bytes, Utf8,
  loaded, entries, parse, push_entries, serialized, FlashStorage, FlashKv, load, new, flush_written,
  flush_erased, flush, set, remove,
}
use watercontroller.FlashKv.Maps.{
  IsBelow, IsSorted, insert_last, insert-IsSorted, without-IsSorted, lookup-insert, lookup-without,
}
use watercontroller.FlashKv.Encoded.{
  entry, entry_len, length-entry, push_entry_lem, entries-entry, from_le_bytes-to_le_bytes,
}

-- An erased byte.
abbrev pub blanks : ℕ → Bytes
blanks zero = []
blanks (suc n) = 0xff ∷ blanks n

pub length-blanks : (n : ℕ) → length (blanks n) ≡ n
length-blanks zero = refl
length-blanks (suc n) = omega (arith, length-blanks n)

-- Every key of the first map is below those of the second.
abbrev pub AreBelow : BTreeMap → BTreeMap → Type 0
AreBelow m [] = Unit
AreBelow m ((k, v) ∷ es) = All (λ e. str_ltb e.0 k ≡ true) m × AreBelow m es

AreBelow-snoc :
    (m es : BTreeMap) (k : String) (v : Bytes)
    → AreBelow m es
    → IsBelow k es
    → AreBelow (m ++ ((k, v) ∷ [])) es
AreBelow-snoc m [] k v h b = tt
AreBelow-snoc m ((j, w) ∷ es) k v (h, hs) (b, bs) = (All-snoc m h, AreBelow-snoc m es k v hs bs)
  where
    All-snoc :
        (l : BTreeMap)
        → All (λ e. str_ltb e.0 j ≡ true) l
        → All (λ e. str_ltb e.0 j ≡ true) (l ++ ((k, v) ∷ []))
    All-snoc [] a = (b, tt)
    All-snoc (x ∷ l) (a, as') = (a, All-snoc l as')

pub AreBelow-nil : (es : BTreeMap) → AreBelow [] es
AreBelow-nil [] = tt
AreBelow-nil ((k, v) ∷ es) = (tt, AreBelow-nil es)

module _ (u : Utf8) where
  abbrev pub encoded : BTreeMap → Bytes
  encoded [] = []
  encoded ((k, v) ∷ m) = entry u k v ++ encoded m

  push_entries_lem :
      (buf : Bytes) (m : BTreeMap) → length buf % 4 ≡ 0 → push_entries u buf m ≡ buf ++ encoded m
  unfolding push_entries
  push_entries_lem buf [] h = sym (append-nil buf)
  push_entries_lem buf ((k, v) ∷ m) h =
      let grown : length (buf ++ entry u k v) % 4 ≡ 0 =
        omega (arith, length-append buf (entry u k v), length-entry u k v) in
      rw (push_entry_lem u buf k v h)
        (push_entries_lem (buf ++ entry u k v) m grown ∙ append_assoc buf (entry u k v) (encoded m))

  pub length-le-encoded : (m : BTreeMap) → length m ≤ length (encoded m)
  length-le-encoded [] = omega arith
  length-le-encoded ((k, v) ∷ m) =
      omega
        (arith, length-append (entry u k v) (encoded m), length-entry u k v, length-le-encoded m)

  -- The number of the entries and some more.
  abbrev pub and_more : BTreeMap → ℕ → ℕ
  and_more [] n = n
  and_more (e ∷ es) n = suc (and_more es n)

  pub entries-encoded :
      (es m : BTreeMap) (n pos : ℕ) (rest : Bytes)
      → pos % 4 ≡ 0
      → pos + length (encoded es) + length rest ≤ region_len
      → AreBelow m es
      → IsSorted es
      → entries u (and_more es n) pos (encoded es ++ rest) m
        ≡ entries u n (pos + length (encoded es)) rest (m ++ es)
  entries-encoded [] m n pos rest h fits below sorted =
      ap (λ (p : ℕ). entries u n p rest m) (omega arith)
      ∙ ap (entries u n (pos + 0) rest) (sym (append-nil m))
  entries-encoded ((k, v) ∷ es) m n pos rest h fits (last, below) (first, sorted) =
      let size = length-append (entry u k v) (encoded es) in
      let next = length-append (encoded es) rest in
      let step =
        entries-entry u (and_more es n) pos k v (encoded es ++ rest) m h
          (omega (arith, size, next, length-entry u k v)) in
      let later =
        entries-encoded es (m ++ ((k, v) ∷ [])) n (pos + entry_len u k v) rest (omega arith)
          (omega (arith, size, length-entry u k v)) (AreBelow-snoc m es k v below first) sorted in
      let at : pos + entry_len u k v + length (encoded es)
          ≡ pos + length (entry u k v ++ encoded es) =
        omega (arith, size, length-entry u k v) in
      ap (λ (b : Bytes). entries u (suc (and_more es n)) pos b m)
        (append_assoc (entry u k v) (encoded es) rest)
      ∙ step
      ∙ ap (entries u (and_more es n) (pos + entry_len u k v) (encoded es ++ rest))
          (insert_last m k v last)
      ∙ later
      ∙ ap (λ (p : ℕ). entries u n p rest ((m ++ ((k, v) ∷ [])) ++ es)) at
      ∙ ap (entries u n (pos + length (entry u k v ++ encoded es)) rest) (snoc-append m (k, v) es)

  and_more-zero : (m : BTreeMap) → and_more m 0 ≡ length m
  and_more-zero [] = refl
  and_more-zero (e ∷ m) = ap suc (and_more-zero m)

  abbrev pub header : ℕ → Bytes
  header count = (magic ++ to_le_bytes version) ++ to_le_bytes count

  pub serialized_lem : (m : BTreeMap) → serialized u m ≡ header (length m) ++ encoded m
  unfolding serialized to_le_bytes
  serialized_lem m = push_entries_lem (header (length m)) m refl

  pub length-serialized : (m : BTreeMap) → length (serialized u m) ≡ 12 + length (encoded m)
  unfolding to_le_bytes
  length-serialized m = ap length (serialized_lem m) ∙ omega arith

  pub parse-serialized :
      (m : BTreeMap) (rest : Bytes)
      → IsSorted m
      → length (serialized u m) + length rest ≤ region_len
      → parse u (serialized u m ++ rest) ≡ loaded m
  unfolding parse to_le_bytes
  parse-serialized m rest sorted fits =
      let size = length-serialized m in
      let count : from_le_bytes (to_le_bytes (length m) ++ (encoded m ++ rest)) ≡ length m =
        from_le_bytes-to_le_bytes (length m) (encoded m ++ rest)
          (omega (arith, size, length-le-encoded m)) in
      let found =
        entries-encoded m [] 0 12 rest refl (omega (arith, size)) (AreBelow-nil m) sorted in
      rw (serialized_lem m) (
        rw (parse, count)
          (ap (λ (n : ℕ). entries u n 12 (encoded m ++ rest) []) (sym (and_more-zero m))
            ∙ found
            ∙ unfold entries in refl))

-- What the driver promises: a write to the erased region is read back, with erased bytes after it. It
-- is given whole words.
pub record FlashLaws (f : FlashStorage) : Type 1 where
  pub read-write :
      (s : f.Flash) (buf : Bytes)
      → (f.erase s).0 ≡ true
      → (f.write buf (f.erase s).1).0 ≡ true
      → length buf ≤ region_len
      → length buf % 4 ≡ 0
      → f.read (f.write buf (f.erase s).1).1 ≡ some (buf ++ blanks (region_len - length buf))

module _ (u : Utf8) (f : FlashStorage) where
  serialized_words : (m : BTreeMap) → length (serialized u m) % 4 ≡ 0
  serialized_words m = omega (arith, length-serialized u m, encoded_words m)
    where
      encoded_words : (m : BTreeMap) → length (encoded u m) % 4 ≡ 0
      encoded_words [] = omega arith
      encoded_words ((k, v) ∷ m) =
          omega
            (arith, length-append (entry u k v) (encoded u m), length-entry u k v, encoded_words m)

  flush_written-ok :
      (s : FlashKv u f) (p : Bool × f.Flash)
      → (flush_written u f s p).0 ≡ none
      → (p.0 ≡ true) × ((flush_written u f s p).1 ≡ record s { flash = p.1 })
  flush_written-ok s (true, flash) h = (refl, refl)
  flush_written-ok s (false, flash) h = cc

  flush_erased-ok :
      (s : FlashKv u f) (buf : Bytes) (p : Bool × f.Flash)
      → (flush_erased u f s buf p).0 ≡ none
      → (p.0 ≡ true)
        × ((f.write buf p.1).0 ≡ true)
        × ((flush_erased u f s buf p).1 ≡ record s { flash = (f.write buf p.1).1 })
  flush_erased-ok s buf (true, flash) h =
      let (written, same) = flush_written-ok s (f.write buf flash) h in (refl, written, same)
  flush_erased-ok s buf (false, flash) h = cc

  new-read :
      (flash : f.Flash) (buf : Bytes) (m : BTreeMap)
      → f.read flash ≡ some buf
      → parse u buf ≡ loaded m
      → new u f flash ≡ some (record { flash = flash; cache = m })
  unfolding new load
  new-read flash buf m h k = rw (new, load, h, k) refl

  -- A flush that succeeds leaves a flash from which the whole cache is loaded.
  pub new-flush :
      (laws : FlashLaws f) (s : FlashKv u f)
      → IsSorted s.cache
      → (flush u f s).0 ≡ none
      → (new u f (flush u f s).1.flash ≡ some (flush u f s).1) × ((flush u f s).1.cache ≡ s.cache)
  unfolding flush
  new-flush laws s sorted ok =
      let buf = serialized u s.cache in
      elim (Bool-cases (ltb region_len (length buf))) [
        | inl e ↦ cc (rw e at ok)
        | inr e ↦
            let (erased, written, same) = flush_erased-ok s buf (f.erase s.flash) (rw e at ok) in
            let size : length buf + length (blanks (region_len - length buf)) ≤ region_len =
              ground (arith, length-blanks (region_len - length buf)) in
            let stored =
              laws.read-write s.flash buf erased written (ground arith)
                (serialized_words s.cache) in
            let found = parse-serialized u s.cache (blanks (region_len - length buf)) sorted size in
            rw (e, same) (new-read _ _ s.cache stored found, refl)
      ]

  cache-flush : (s : FlashKv u f) → (flush u f s).1.cache ≡ s.cache
  unfolding flush
  cache-flush s = elim (Bool-cases (ltb region_len (length (serialized u s.cache)))) [
    | inl e ↦ rw e refl
    | inr e ↦ rw e (erased (f.erase s.flash))
  ]
    where
      written : (p : Bool × f.Flash) → (flush_written u f s p).1.cache ≡ s.cache
      written (true, flash) = refl
      written (false, flash) = refl

      erased :
          (p : Bool × f.Flash) → (flush_erased u f s (serialized u s.cache) p).1.cache ≡ s.cache
      erased (true, flash) = written (f.write (serialized u s.cache) flash)
      erased (false, flash) = refl

  -- The calls that change the store.
  pub data Call : Type 0 where
    setting : String → Bytes → Call
    removing : String → Call

  unfoldable pub call : Call → FlashKv u f → Option NvsError × FlashKv u f
  call (setting k v) s = set u f s k v
  call (removing k) s = remove u f s k

  unfoldable pub calls : List Call → FlashKv u f → FlashKv u f
  calls [] s = s
  calls (c ∷ cs) s = calls cs (call c s).1

  call-IsSorted : (c : Call) (s : FlashKv u f) → IsSorted s.cache → IsSorted (call c s).1.cache
  unfolding call set remove
  call-IsSorted (setting k v) s h =
      rw (cache-flush (record s { cache = insert k v s.cache })) (insert-IsSorted k v s.cache h)
  call-IsSorted (removing k) s h =
      rw (cache-flush (record s { cache = without k s.cache })) (without-IsSorted k s.cache h)

  calls-IsSorted :
      (cs : List Call) (s : FlashKv u f) → IsSorted s.cache → IsSorted (calls cs s).cache
  unfolding calls
  calls-IsSorted [] s h = h
  calls-IsSorted (c ∷ cs) s h = calls-IsSorted cs (call c s).1 (call-IsSorted c s h)

  -- What a call does to the entry of a key.
  unfoldable pub value_after : Call → FlashKv u f → String → Option Bytes
  value_after (setting k v) s j = if str_eq k j then some v else lookup j s.cache
  value_after (removing k) s j = if str_eq k j then none else lookup j s.cache

  pub call-lookup :
      (c : Call) (s : FlashKv u f) (j : String) → lookup j (call c s).1.cache ≡ value_after c s j
  unfolding call set remove value_after
  call-lookup (setting k v) s j =
      rw (cache-flush (record s { cache = insert k v s.cache })) (lookup-insert k j v s.cache)
  call-lookup (removing k) s j =
      rw (cache-flush (record s { cache = without k s.cache })) (lookup-without k j s.cache)

  new-call :
      (laws : FlashLaws f) (c : Call) (s : FlashKv u f)
      → IsSorted s.cache
      → (call c s).0 ≡ none
      → new u f (call c s).1.flash ≡ some (call c s).1
  unfolding call set remove
  new-call laws (setting k v) s h ok =
      (new-flush laws (record s { cache = insert k v s.cache }) (insert-IsSorted k v s.cache h)
        ok).0
  new-call laws (removing k) s h ok =
      (new-flush laws (record s { cache = without k s.cache }) (without-IsSorted k s.cache h) ok).0

  -- After any calls, failed ones among them, a call that succeeds leaves a flash that a restart reads
  -- as the very map in memory: it has the effect of the call on every key, and all that was there
  -- before. The cache is sorted at the start, and the driver reads back what it wrote.
  pub new-calls :
      (laws : FlashLaws f) (cs : List Call) (c : Call) (s : FlashKv u f)
      → IsSorted s.cache
      → (call c (calls cs s)).0 ≡ none
      → (new u f (call c (calls cs s)).1.flash ≡ some (call c (calls cs s)).1)
        × ((j : String) → lookup j (call c (calls cs s)).1.cache ≡ value_after c (calls cs s) j)
  new-calls laws cs c s h ok =
      (new-call laws c (calls cs s) (calls-IsSorted cs s h) ok, λ j. call-lookup c (calls cs s) j)

-- ===== src/FlashKv/Keys.antt =====
-- nvs.rs: what the store in flash does key by key, as its users read it between two restarts.
use watercontroller.Base.{◌≡◌, refl, ap, ◌∙◌, Bool, true, false, inl, inr, Bool-cases, ltb, length}
use watercontroller.Nvs.{KeyLaws}
use watercontroller.FlashKv.{
  Utf8, FlashStorage, FlashKv, region_len, serialized, flush_written, flush_erased, flush, set,
  remove, store, lookup, insert, without,
}
use watercontroller.FlashKv.Maps.{lookup-insert, lookup-without}

module _ (u : Utf8) (f : FlashStorage) where
  written-cache : (s : FlashKv u f) (w : Bool × f.Flash) → (flush_written u f s w).1.cache ≡ s.cache
  written-cache s (true, flash) = refl
  written-cache s (false, flash) = refl

  -- Whatever comes of it, a flush does not touch the map in memory.
  flush-cache : (s : FlashKv u f) → (flush u f s).1.cache ≡ s.cache
  unfolding flush
  flush-cache s =
      let buf = serialized u s.cache in
      elim (Bool-cases (ltb region_len (length buf))) [
        | inl e ↦ rw e refl
        | inr e ↦ rw e (erased-cache (f.erase s.flash))
      ]
    where
      erased-cache :
          (w : Bool × f.Flash) → (flush_erased u f s (serialized u s.cache) w).1.cache ≡ s.cache
      erased-cache (true, flash) = written-cache s (f.write (serialized u s.cache) flash)
      erased-cache (false, flash) = refl

  -- The store in flash, whatever its driver does, keeps each key apart, also where a write fails.
  pub store-KeyLaws : KeyLaws (store u f)
  unfolding set remove
  store-KeyLaws = record {
    get-set = λ s k j b h.
        ap (lookup j) (flush-cache (record s { cache = insert k b s.cache }))
        ∙ lookup-insert k j b s.cache;
    get-remove = λ s k j h.
        ap (lookup j) (flush-cache (record s { cache = without k s.cache }))
        ∙ lookup-without k j s.cache;
    get-set_other = λ s k j b ne.
        ap (lookup j) (flush-cache (record s { cache = insert k b s.cache }))
        ∙ lookup-insert k j b s.cache
        ∙ rw ne refl;
    get-remove_other = λ s k j ne.
        ap (lookup j) (flush-cache (record s { cache = without k s.cache }))
        ∙ lookup-without k j s.cache
        ∙ rw ne refl;
  }

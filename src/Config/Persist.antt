-- ===== src/Config/Persist.antt =====
-- config.rs: the configuration in the non-volatile store. The JSON codec is a parameter.
use watercontroller.Base.{
  false, String, Option, none, some, ◌≡◌, arith, Option-cases, inl, inr, str_eq, str_eq_refl,
}
use watercontroller.Nvs.{NvsError, NvsStore, KeyLaws, Bytes}
use watercontroller.Config.{Config}

-- `serde_json::to_vec` and `serde_json::from_slice` at `T`; `none` is an error.
pub record Codec (T : Type 0) : Type 0 where
  pub to_vec : T → Option Bytes
  pub from_slice : Bytes → Option T

pub data ConfigError : Type 0 where
  nvs : NvsError → ConfigError
  json : ConfigError

pub data Result (A : Type 0) : Type 0 where
  ok : A → Result A
  err : ConfigError → Result A

abbrev pub nvs_key : String
nvs_key = "wc.cfg"

module _ {F : Type 0} (n : NvsStore) (codec : Codec (Config F)) (default : Config F) where
  parsed : Option (Config F) → Result (Config F)
  parsed none = err json
  parsed (some cfg) = ok cfg

  stored : Option Bytes → Result (Config F)
  unfolding parsed
  stored none = ok default
  stored (some bytes) = parsed (codec.from_slice bytes)

  unfoldable pub load : n.Store → Result (Config F)
  unfolding stored
  load s = stored (n.get s nvs_key)

  abbrev done : Option NvsError → Result (Unit {0})
  done none = ok tt
  done (some e) = err (nvs e)

  write : Option Bytes → n.Store → Result (Unit {0}) × n.Store
  write none s = (err json, s)
  write (some bytes) s = let (failed, s') = n.set s nvs_key bytes in (done failed, s')

  unfoldable pub save : Config F → n.Store → Result (Unit {0}) × n.Store
  unfolding write
  save cfg s = write (codec.to_vec cfg) s

  unfoldable pub factory_reset : n.Store → Result (Unit {0}) × n.Store
  factory_reset s = let (failed, s') = n.remove s nvs_key in (done failed, s')

module _ {F : Type 0} (n : NvsStore) (laws : KeyLaws n) (codec : Codec (Config F))
    (d : Config F) where
  -- A configuration that was saved without an error is the one that is loaded, if the codec reads
  -- back what it wrote of it; and the save changes no other key of the store.
  pub load-save :
      (cfg : Config F) (s : n.Store)
      → ((b : Bytes) → codec.to_vec cfg ≡ some b → codec.from_slice b ≡ some cfg)
      → (save n codec d cfg s).0 ≡ ok tt
      → (load n codec d (save n codec d cfg s).1 ≡ ok cfg)
        × ((j : String) → str_eq nvs_key j ≡ false → n.get (save n codec d cfg s).1 j ≡ n.get s j)
  unfolding save load
  load-save cfg s back h = elim (Option-cases (codec.to_vec cfg)) [
    | inl e ↦ absurd (ground (arith, e))
    | inr (b, e) ↦
        let wrote : (n.set s nvs_key b).0 ≡ none = ground (arith, e) in
        let same = laws.get-set s nvs_key nvs_key b wrote in
        (
          ground (arith, e, same, str_eq_refl nvs_key, back b e),
          λ j ne. ground (arith, e, laws.get-set s nvs_key j b wrote),
        )
  ]

  -- After a factory reset that succeeded the default configuration is loaded, and no other key of the
  -- store has changed.
  pub load-factory_reset :
      (s : n.Store)
      → (factory_reset n codec d s).0 ≡ ok tt
      → (load n codec d (factory_reset n codec d s).1 ≡ ok d)
        × ((j : String)
            → str_eq nvs_key j ≡ false
            → n.get (factory_reset n codec d s).1 j ≡ n.get s j)
  unfolding factory_reset load
  load-factory_reset s h =
      let gone : (n.remove s nvs_key).0 ≡ none = ground arith in
      (
        ground (arith, laws.get-remove s nvs_key nvs_key gone, str_eq_refl nvs_key),
        λ j ne. ground (arith, laws.get-remove s nvs_key j gone),
      )

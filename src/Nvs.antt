-- ===== src/Nvs.antt =====
-- The trait `NvsStore` of crates/core/src/traits.rs as an interface, what its users rely on, and the
-- implementation of crates/host/src/fakes.rs, which meets it.
pub mod Fake
use watercontroller.Base.{
  ℕ, String, false, Option, none, some, List, ◌≡◌, refl, ◌∙◌, inl, inr, Option-cases, str_eq,
  if◌then◌else◌,
}

pub data NvsError : Type 0 where
  not_found full : NvsError
  io : String → NvsError

abbrev pub Bytes : Type 0
Bytes = List ℕ

-- `set` and `remove` give `none` for `Ok(())`, and the store that they leave.
pub record NvsStore : Type 1 where
  pub Store : Type 0
  pub get : Store → String → Option Bytes
  pub set : Store → String → Bytes → Option NvsError × Store
  pub remove : Store → String → Option NvsError × Store

-- A write that succeeds can be read back, and neither it nor a removal touches another key. A write
-- or a removal that fails changes nothing that is read.
pub record NvsLaws (n : NvsStore) : Type 1 where
  pub get-set :
      (s : n.Store) (k j : String) (b : Bytes)
      → (n.set s k b).0 ≡ none
      → n.get (n.set s k b).1 j ≡ (if str_eq k j then some b else n.get s j)
  pub get-remove :
      (s : n.Store) (k j : String)
      → (n.remove s k).0 ≡ none
      → n.get (n.remove s k).1 j ≡ (if str_eq k j then none else n.get s j)
  pub get-set_failed :
      (s : n.Store) (k j : String) (b : Bytes) (e : NvsError)
      → (n.set s k b).0 ≡ some e
      → n.get (n.set s k b).1 j ≡ n.get s j
  pub get-remove_failed :
      (s : n.Store) (k j : String) (e : NvsError)
      → (n.remove s k).0 ≡ some e
      → n.get (n.remove s k).1 j ≡ n.get s j

-- What holds of every store of the repository, the one in flash included: a write or a removal that
-- succeeds can be read back, and one that succeeds or fails touches no other key.
pub record KeyLaws (n : NvsStore) : Type 1 where
  pub get-set :
      (s : n.Store) (k j : String) (b : Bytes)
      → (n.set s k b).0 ≡ none
      → n.get (n.set s k b).1 j ≡ (if str_eq k j then some b else n.get s j)
  pub get-remove :
      (s : n.Store) (k j : String)
      → (n.remove s k).0 ≡ none
      → n.get (n.remove s k).1 j ≡ (if str_eq k j then none else n.get s j)
  pub get-set_other :
      (s : n.Store) (k j : String) (b : Bytes)
      → str_eq k j ≡ false
      → n.get (n.set s k b).1 j ≡ n.get s j
  pub get-remove_other :
      (s : n.Store) (k j : String) → str_eq k j ≡ false → n.get (n.remove s k).1 j ≡ n.get s j

pub NvsLaws-KeyLaws : {n : NvsStore} → NvsLaws n → KeyLaws n
NvsLaws-KeyLaws {n} laws = record {
  get-set = laws.get-set;
  get-remove = laws.get-remove;
  get-set_other = λ s k j b ne. elim (Option-cases (n.set s k b).0) [
    | inl e ↦ laws.get-set s k j b e ∙ rw ne refl
    | inr (x, e) ↦ laws.get-set_failed s k j b x e
  ];
  get-remove_other = λ s k j ne. elim (Option-cases (n.remove s k).0) [
    | inl e ↦ laws.get-remove s k j e ∙ rw ne refl
    | inr (x, e) ↦ laws.get-remove_failed s k j x e
  ];
}

-- ===== src/Nvs/Fake.antt =====
-- `FakeNvs` of crates/host/src/fakes.rs: a hash map behind a lock, as a list of entries.
use watercontroller.Base.{
  String, Option, none, some, List, [], ◌∷◌, ◌≡◌, arith, str_eq, str_eq_iff, if◌then◌else◌,
}
use watercontroller.Nvs.{NvsStore, NvsLaws, Bytes}

-- `HashMap<String, Vec<u8>>`. The order of its entries is not read.
abbrev pub HashMap : Type 0
HashMap = List (String × Bytes)

unfoldable pub lookup : String → HashMap → Option Bytes
lookup key [] = none
lookup key ((k, v) ∷ m) = let rest = lookup key m in if str_eq k key then some v else rest

unfoldable pub without : String → HashMap → HashMap
without key [] = []
without key ((k, v) ∷ m) = let rest = without key m in if str_eq k key then rest else (k, v) ∷ rest

abbrev pub fake : NvsStore
fake = record {
  Store = HashMap;
  get = λ m key. lookup key m;
  set = λ m key value. (none, (key, value) ∷ without key m);
  remove = λ m key. (none, without key m);
}

lookup-without :
    (k j : String) (m : HashMap)
    → lookup j (without k m) ≡ (if str_eq k j then none else lookup j m)
unfolding lookup without
lookup-without k j [] = ground arith
lookup-without k j ((i, v) ∷ m) =
    ground (arith, str_eq_iff i k, str_eq_iff i j, str_eq_iff k j, lookup-without k j m)

lookup-set :
    (k j : String) (b : Bytes) (m : HashMap)
    → lookup j ((k, b) ∷ without k m) ≡ (if str_eq k j then some b else lookup j m)
unfolding lookup
lookup-set k j b m = ground (arith, lookup-without k j m)

-- The store of the host build does what the users of the trait rely on, and none of its writes or
-- removals fails.
pub fake_laws : NvsLaws fake
fake_laws = record {
  get-set = λ s k j b h. lookup-set k j b s;
  get-remove = λ s k j h. lookup-without k j s;
  get-set_failed = λ s k j b e h. ground arith;
  get-remove_failed = λ s k j e h. ground arith;
}

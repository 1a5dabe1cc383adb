-- ===== src/FlashKv/Maps.antt =====
-- nvs.rs: the laws of the map that the store keeps in memory.
use watercontroller.Base.{
  String, true, none, some, [], ◌∷◌, ◌++◌, ◌≡◌, refl, ap, inl, inr, arith, All, Bool-cases, str_eq,
  str_eq_iff, str_ltb, str_ltb_excl, str_ltb_trans, str_ltb_total, if◌then◌else◌,
}
use mathlib.Core.Path.{subst}
use watercontroller.Nvs.{Bytes}
use watercontroller.FlashKv.{BTreeMap, lookup, insert, without}

pub lookup-insert :
    (k j : String) (v : Bytes) (m : BTreeMap)
    → lookup j (insert k v m) ≡ (if str_eq k j then some v else lookup j m)
unfolding lookup insert
lookup-insert k j v [] = refl
lookup-insert k j v ((i, w) ∷ m) =
    ground (arith, str_eq_iff k j, str_eq_iff i k, str_eq_iff i j, lookup-insert k j v m)

pub lookup-without :
    (k j : String) (m : BTreeMap)
    → lookup j (without k m) ≡ (if str_eq k j then none else lookup j m)
unfolding lookup without
lookup-without k j [] = ground arith
lookup-without k j ((i, v) ∷ m) =
    ground (arith, str_eq_iff i k, str_eq_iff i j, str_eq_iff k j, lookup-without k j m)

-- A key is less than those of a map.
abbrev pub IsBelow : String → BTreeMap → Type 0
IsBelow k [] = Unit
IsBelow k ((j, v) ∷ m) = (str_ltb k j ≡ true) × IsBelow k m

-- The keys of a map are in order, and so no two are the same.
abbrev pub IsSorted : BTreeMap → Type 0
IsSorted [] = Unit
IsSorted ((k, v) ∷ m) = IsBelow k m × IsSorted m

IsBelow-trans : (k j : String) (m : BTreeMap) → str_ltb k j ≡ true → IsBelow j m → IsBelow k m
IsBelow-trans k j [] h b = tt
IsBelow-trans k j ((i, v) ∷ m) h (b, bs) = (str_ltb_trans k j i h b, IsBelow-trans k j m h bs)

insert-IsBelow :
    (i k : String) (v : Bytes) (m : BTreeMap)
    → str_ltb i k ≡ true
    → IsBelow i m
    → IsBelow i (insert k v m)
unfolding insert
insert-IsBelow i k v [] h b = (h, tt)
insert-IsBelow i k v ((j, w) ∷ m) h (b, bs) =
    let later = insert-IsBelow i k v m h bs in
    elim (Bool-cases (str_eq j k)) [
      | inl e ↦ rw e (h, bs)
      | inr e ↦ elim (Bool-cases (str_ltb k j)) [
        | inl q ↦ rw (e, q) (h, (b, bs))
        | inr q ↦ rw (e, q) (b, later)
      ]
    ]

pub insert-IsSorted : (k : String) (v : Bytes) (m : BTreeMap) → IsSorted m → IsSorted (insert k v m)
unfolding insert
insert-IsSorted k v [] h = (tt, tt)
insert-IsSorted k v ((j, w) ∷ m) (b, h) =
    let later = insert-IsSorted k v m h in
    elim (Bool-cases (str_eq j k)) [
      | inl e ↦ rw e (subst (λ i. IsBelow i m) ((str_eq_iff j k).0 e) b, h)
      | inr e ↦ elim (Bool-cases (str_ltb k j)) [
        | inl q ↦ rw (e, q) ((q, IsBelow-trans k j m q b), (b, h))
        | inr q ↦ rw (e, q) (insert-IsBelow j k v m (str_ltb_total k j q e) b, later)
      ]
    ]

without-IsBelow : (i k : String) (m : BTreeMap) → IsBelow i m → IsBelow i (without k m)
unfolding without
without-IsBelow i k [] b = tt
without-IsBelow i k ((j, w) ∷ m) (b, bs) =
    let later = without-IsBelow i k m bs in
    elim (Bool-cases (str_eq j k)) [ inl e ↦ rw e later | inr e ↦ rw e (b, later) ]

pub without-IsSorted : (k : String) (m : BTreeMap) → IsSorted m → IsSorted (without k m)
unfolding without
without-IsSorted k [] h = tt
without-IsSorted k ((j, w) ∷ m) (b, h) =
    let later = without-IsSorted k m h in
    elim (Bool-cases (str_eq j k)) [
      | inl e ↦ rw e later
      | inr e ↦ rw e (without-IsBelow j k m b, later)
    ]

-- An entry with a key above all others goes to the end.
pub insert_last :
    (l : BTreeMap) (k : String) (v : Bytes)
    → All (λ e. str_ltb e.0 k ≡ true) l
    → insert k v l ≡ l ++ ((k, v) ∷ [])
unfolding insert
insert_last [] k v h = refl
insert_last ((j, w) ∷ l) k v (h, hs) =
    let (up, other) = str_ltb_excl j k h in
    rw (other, up) (ap (λ m. (j, w) ∷ m) (insert_last l k v hs))

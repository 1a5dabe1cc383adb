-- ===== src/WebApi/Merge.antt =====
-- webapi.rs: what a merge makes of each key.
use watercontroller.Base.{
  ◌≡◌, refl, ap, sym, ◌∙◌, arith, String, true, false, Option, none, some, Bool-cases, Option-cases,
  inl, inr, str_eq, str_eq_iff, if◌then◌else◌,
}
use watercontroller.WebApi.{
  Value, Entries, no_entry, entry, get, set, is_blank, merge, merge_entries,
}

module _ {F : Type 0} where
  get-set :
      (k j : String) (v : Value F) (m : Entries F)
      → get j (set k v m) ≡ (if str_eq k j then some v else get j m)
  unfolding get set
  get-set k j v no_entry = refl
  get-set k j v (entry i w m) =
      ground (arith, str_eq_iff i k, str_eq_iff i j, str_eq_iff k j, get-set k j v m)

  -- No key stands twice in an object.
  abbrev pub HasDistinctKeys : Entries F → Type 0
  HasDistinctKeys no_entry = Unit
  HasDistinctKeys (entry k v m) = (get k m ≡ none) × HasDistinctKeys m

  -- What a value of the overlay becomes over what is there.
  abbrev pub over : Option (Value F) → Value F → Value F
  over none v = v
  over (some tv) v = merge tv v

  merge_entries-blank :
      (t o : Entries F) (k : String) (v : Value F)
      → is_blank v ≡ true
      → merge_entries t (entry k v o) ≡ merge_entries t o
  unfolding merge_entries
  merge_entries-blank t o k v h = rw h refl

  merge_entries-entry :
      (t o : Entries F) (k : String) (v : Value F)
      → is_blank v ≡ false
      → merge_entries t (entry k v o) ≡ merge_entries (set k (over (get k t) v) t) o
  unfolding merge_entries
  merge_entries-entry t o k v h = elim (Option-cases (get k t)) [
    | inl e ↦ rw (h, e) refl
    | inr (tv, e) ↦ rw (h, e) refl
  ]

  -- The value of a key after a merge, by what the overlay and the target have of it.
  abbrev pub chosen : Option (Value F) → Option (Value F) → Option (Value F)
  chosen none old = old
  chosen (some v) old = if is_blank v then old else some (over old v)

  get-entry :
      (j k : String) (v : Value F) (o : Entries F)
      → get j (entry k v o) ≡ (if str_eq k j then some v else get j o)
  unfolding get
  get-entry j k v o = refl

  get-gone : (j k : String) (o : Entries F) → get k o ≡ none → str_eq k j ≡ true → get j o ≡ none
  get-gone j k o h e = ap (λ i. get i o) (sym ((str_eq_iff k j).0 e)) ∙ h

  -- After a merge each key has the value that the target had of it, if the overlay has none or a blank
  -- text there, and else the overlay's, merged in the same way into the target's if it had one. No
  -- key stands twice in the overlay.
  pub merge_entries-get :
      (t o : Entries F) (j : String)
      → HasDistinctKeys o
      → get j (merge_entries t o) ≡ chosen (get j o) (get j t)
  merge_entries-get t no_entry j h = unfold merge_entries get in refl
  merge_entries-get t (entry k v o) j (h, hs) = elim (Bool-cases (is_blank v)) [
    | inl b ↦
        rw (merge_entries-blank t o k v b, merge_entries-get t o j hs)
          (elim (Bool-cases (str_eq k j)) [
            | inl e ↦ rw (get-entry j k v o, e, get-gone j k o h e, b) refl
            | inr e ↦ rw (get-entry j k v o, e) refl
          ])
    | inr b ↦
        let next = set k (over (get k t) v) t in
        rw
          (
            merge_entries-entry t o k v b,
            merge_entries-get next o j hs,
            get-set k j (over (get k t) v) t,
          )
          (elim (Bool-cases (str_eq k j)) [
            | inl e ↦
                rw (get-entry j k v o, e, get-gone j k o h e, b)
                  (ap (λ i. some (over (get i t) v)) ((str_eq_iff k j).0 e))
            | inr e ↦ rw (get-entry j k v o, e) refl
          ])
  ]

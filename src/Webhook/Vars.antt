-- ===== src/Webhook/Vars.antt =====
-- webhook.rs: the map of variables.
use watercontroller.Base.{
  String, Option, none, some, [], ◌∷◌, ◌≡◌, refl, inl, inr, arith, Option-cases, str_eq, str_eq_iff,
  if◌then◌else◌,
}
use watercontroller.Webhook.{VarMap, get, insert, insert_if_vacant}

pub get-insert :
    (k j v : String) (m : VarMap) → get j (insert k v m) ≡ (if str_eq k j then some v else get j m)
unfolding get insert
get-insert k j v [] = refl
get-insert k j v ((i, w) ∷ m) =
    ground (arith, str_eq_iff k j, str_eq_iff i k, str_eq_iff i j, get-insert k j v m)

abbrev pub or_value : Option String → String → Option String
or_value none v = some v
or_value (some w) v = some w

-- A vacant entry is filled, and one that is there is left alone.
pub get-insert_if_vacant :
    (k j v : String) (m : VarMap)
    → get j (insert_if_vacant k v m) ≡ (if str_eq k j then or_value (get k m) v else get j m)
unfolding insert_if_vacant
get-insert_if_vacant k j v m = elim (Option-cases (get k m)) [
  | inl e ↦ rw (e, insert_if_vacant) (get-insert k j v m)
  | inr (w, e) ↦ rw (e, insert_if_vacant) (ground (arith, str_eq_iff k j))
]

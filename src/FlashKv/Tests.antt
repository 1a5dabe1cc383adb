-- ===== src/FlashKv/Tests.antt =====
-- nvs.rs: instances of the theorems, with a flash that never fails, and texts in ASCII.
use watercontroller.Base.{◌≡◌, refl, arith, String, none, some, [], ◌∷◌, str_ltb}
use watercontroller.FlashKv.{
  FlashKv, parse, panicked, new, lookup, insert, serialized, set, remove, flush, without,
  push_entries, push_entry, to_le_bytes,
}
use watercontroller.FlashKv.Bench.{nor, nor_laws, blank}
use watercontroller.FlashKv.Codes.{by_codes, codes}
use watercontroller.FlashKv.Restart.{setting, removing, call, calls, value_after, new-calls}
use watercontroller.FlashKv.Torn.{torn, parse-torn}

abbrev kept : FlashKv by_codes nor
kept = calls by_codes nor (setting "wc.valve" (1 ∷ []) ∷ removing "wc.none" ∷ []) blank

written : (call by_codes nor (setting "wc.bootmode" (1 ∷ [])) kept).0 ≡ none
unfolding call calls set remove flush insert without serialized push_entries push_entry to_le_bytes
    codes str_ltb
written = refl

new-calls_example :
    (new by_codes nor (call by_codes nor (setting "wc.bootmode" (1 ∷ [])) kept).1.flash
      ≡ some (call by_codes nor (setting "wc.bootmode" (1 ∷ [])) kept).1)
    × ((j : String)
        → lookup j (call by_codes nor (setting "wc.bootmode" (1 ∷ [])) kept).1.cache
          ≡ value_after by_codes nor (setting "wc.bootmode" (1 ∷ [])) kept j)
new-calls_example =
    new-calls by_codes nor nor_laws (setting "wc.valve" (1 ∷ []) ∷ removing "wc.none" ∷ [])
      (setting "wc.bootmode" (1 ∷ [])) blank tt written

parse-torn_example :
    parse by_codes (torn by_codes (("a", 1 ∷ []) ∷ []) (("b", 2 ∷ []) ∷ [])) ≡ panicked
unfolding serialized push_entries push_entry to_le_bytes codes str_ltb
parse-torn_example =
    parse-torn by_codes (("a", 1 ∷ []) ∷ []) [] "b" (2 ∷ []) ((refl, tt), (tt, tt)) (omega arith)

-- ===== src/WebApi/Tests.antt =====
-- webapi.rs: instances of the theorems.
use watercontroller.Base.{ℕ, ◌≡◌, refl, true, false, some, List, [], ◌∷◌, inr, str_ltb}
use watercontroller.FlashKv.{
  FlashKv, store, set as set_key, flush, insert, lookup, serialized, push_entries, push_entry,
  to_le_bytes,
}
use watercontroller.FlashKv.Bench.{nor, blank}
use watercontroller.FlashKv.Codes.{by_codes, codes}
use watercontroller.FlashKv.Keys.{store-KeyLaws}
use watercontroller.Config.Persist.{load, save, ok}
use watercontroller.Config.{restore_secrets_from}
use watercontroller.App.{sprinkler_1, with_nvs, switch_command}
use watercontroller.App.Env.{Platform}
use watercontroller.App.Bench.{bench, guarded}
use watercontroller.Http.{Server, untouched}
use watercontroller.Http.Bench.{secured, exact, exact_back, write_secured, Config_discrete, now}
use watercontroller.Http.Routes.{Moment, parsed, invalid}
use watercontroller.WebApi.{
  boolean, string, object, Entries, no_entry, entry, get, set, merge_entries, SerdeJson, api_put,
  api_post, webhooks_post, alarm_post, restore_and_save,
}
use watercontroller.WebApi.Stored.{
  Call, call, put, post, webhooks, alarm, call_all, AreStored, IsStored, IsPersisted,
  call_all-IsPersisted,
}

abbrev stored : Entries ℕ
stored = entry "password" (string "secret") (entry "username" (string "ana") no_entry)

abbrev sent : Entries ℕ
sent = entry "username" (string "eva") (entry "password" (string "") no_entry)

merged_username : get "username" (merge_entries stored sent) ≡ some (string "eva")
unfolding get set merge_entries
merged_username = refl

abbrev serde : SerdeJson ℕ
serde = record {
  config = λ b. parsed secured;
  value = λ b. parsed (object (entry "enabled" (boolean true) no_entry));
  switch = λ b. parsed (sprinkler_1 true);
  test = λ b. invalid "expected value";
  to_value = λ c. some (object (entry "mqtt" (object no_entry) no_entry));
  from_value = λ v. parsed secured;
}

-- A device of this firmware: its store is the one in flash.
abbrev in_flash : Platform
in_flash = record bench { nvs = store by_codes nor }

abbrev kept : FlashKv by_codes nor
kept = record blank { cache = ("wc.cfg", 7 ∷ []) ∷ [] }

abbrev booted : Server in_flash
booted = record {
  app = with_nvs in_flash secured (some kept);
  nvs = kept;
  wifi = [];
  slot = untouched;
  restarting = false;
}

-- A request that cannot be read, a switch, the whole configuration and the alarm.
abbrev calls : List (Moment × Call)
calls =
    (now, webhooks "test" [])
    ∷ (now, post "switch" [])
    ∷ (now, put "config" [])
    ∷ (now, alarm "clear")
    ∷ []

written : (d : Dec (secured ≡ secured)) → write_secured secured d ≡ some (7 ∷ [])
unfolding write_secured
written (yes e) = refl
written (no e) = absurd (e refl)

saves : (save (store by_codes nor) exact guarded secured kept).0 ≡ ok tt
unfolding save set_key flush insert serialized push_entries push_entry to_le_bytes codes str_ltb
saves = rw (written (Config_discrete secured secured)) refl

IsStored-put :
    (s : Server in_flash)
    → (save (store by_codes nor) exact guarded (restore_secrets_from s.app.config secured) s.nvs).0
      ≡ ok tt
    → IsStored (restore_and_save in_flash exact guarded serde now secured s).0
unfolding restore_and_save
IsStored-put s h = rw h tt

answered : AreStored in_flash (store-KeyLaws by_codes nor) exact guarded serde calls booted
unfolding call api_put api_post webhooks_post alarm_post restore_secrets_from with_nvs
    switch_command
answered = (
  tt,
  (
    tt,
    (
      IsStored-put
          (record booted { app = (switch_command in_flash 5 (sprinkler_1 true) booted.app).0 })
          saves,
      (tt, tt),
    ),
  ),
)

call_all-IsPersisted_example :
    IsPersisted in_flash
      (store-KeyLaws by_codes nor)
      exact
      guarded
      serde
      (call_all in_flash (store-KeyLaws by_codes nor) exact guarded serde calls booted)
unfolding with_nvs load lookup
call_all-IsPersisted_example =
    call_all-IsPersisted in_flash (store-KeyLaws by_codes nor) exact guarded serde exact_back calls
      booted (inr refl) answered

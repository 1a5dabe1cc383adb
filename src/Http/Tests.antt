-- ===== src/Http/Tests.antt =====
-- http_server.rs: instances of the theorems on a device with one network and a token.
use watercontroller.Base.{
  ℕ, ◌≡◌, ◌≢◌, refl, ap, arith, String, some, List, [], ◌∷◌, ◌<>◌, strip_prefix, str_eq_iff, inr,
}
use watercontroller.Nvs.Fake.{fake_laws, lookup}
use watercontroller.Config.{Config, merge_preserving_secrets, redact_secrets_for_api}
use watercontroller.Config.Redact.{Secrets}
use watercontroller.Config.Persist.{Codec, save, load}
use watercontroller.App.{with_nvs}
use watercontroller.App.Bench.{bench, guarded}
use watercontroller.Http.{
  empty, get, put, post, Read, Request, header_or_empty, require_auth, bytes, Server, untouched,
  applied,
}
use watercontroller.Http.Sections.{time, auth, apply_section}
use watercontroller.Http.Body.{read_body}
use watercontroller.Http.Update.{accepted, upload}
use watercontroller.Http.Bench.{secured, exact, exact_back, json, device, ota, now}
use watercontroller.Http.Routes.{
  into_response, write_unauthorized, handle, route_of, put_section, save_and_replace,
}
use watercontroller.Http.Guard.{handle-refuses}
use watercontroller.Http.Secrecy.{with_other, handle-hides}
use watercontroller.Http.Stored.{Persisted, handle_all, handle_all-Persisted}
use watercontroller.Http.Merge.{apply_section-merge}
use watercontroller.Http.Limits.{Limited, content, read_body_lem}
use watercontroller.Http.Upload.{Told, upload-Told}
use watercontroller.Http.Host.{put_sect, host_of, host_handle, host_handle-Mirrors}

-- A codec that writes the same bytes for every configuration.
abbrev one : Codec (Config ℕ)
one = record { to_vec = λ c. some (7 ∷ []); from_slice = λ b. some secured }

abbrev image : List Read
image = bytes (1 ∷ 2 ∷ []) ∷ bytes (3 ∷ []) ∷ []

abbrev guessed : Request
guessed = record {
  method = post;
  path = "/api/ota";
  uri = "/api/ota";
  authorization = some "Bearer guess";
  reads = image;
}

abbrev backup : Request
backup = record guessed { method = get; path = "/api/config"; uri = "/api/config?all" }

not_borne : (s token : String) → s ≢ "Bearer " <> token → ¬ (some s ≡ some ("Bearer " <> token))
not_borne s token h e = h (ap header_or_empty e)

differs : "Bearer guess" ≢ "Bearer " <> "token"
differs e = ground (arith, (str_eq_iff "Bearer guess" "Bearer token").1 e)

differs_other : "Bearer guess" ≢ "Bearer " <> "other"
differs_other e = ground (arith, (str_eq_iff "Bearer guess" "Bearer other").1 e)

not_get : post ≢ get
not_get e = cc

not_blank : ◌≢◌ {A = String} "token" ""
not_blank e = ground (arith, (str_eq_iff "token" "").1 e)

not_blank_other : ◌≢◌ {A = String} "other" ""
not_blank_other e = ground (arith, (str_eq_iff "other" "").1 e)

handle-refuses_example :
    handle bench one guarded json now guessed device ≡ (write_unauthorized, device)
unfolding with_nvs route_of
handle-refuses_example =
    handle-refuses bench one guarded json now guessed device not_blank
      (not_borne "Bearer guess" "token" differs) not_get

abbrev spies : Secrets
spies = record {
  mqtt_password = "a";
  client_key_pem = "b";
  https_key_pem = "c";
  private_key = "d";
  peer_preshared_key = "e";
  admin_token = "other";
  passwords = λ n. n.ssid;
}

handle-hides_example :
    (handle bench one guarded json now backup (with_other bench one guarded json spies device)).0
    ≡ (handle bench one guarded json now backup device).0
unfolding with_nvs
handle-hides_example =
    handle-hides bench one guarded json spies now backup device not_blank
      (not_borne "Bearer guess" "token" differs) not_blank_other
      (not_borne "Bearer guess" "other" differs_other)

-- The device after a save of its configuration.
abbrev saved_device : Server bench
saved_device = record device { nvs = ("wc.cfg", 7 ∷ []) ∷ [] }

abbrev rename : Request
rename = record guessed {
  method = put;
  path = "/api/config/time";
  authorization = some "Bearer token";
}

handle_all-Persisted_example : Persisted bench fake_laws exact guarded json (
    handle_all bench fake_laws exact guarded json
      ((now, rename) ∷ (now, guessed) ∷ [])
      saved_device)
unfolding with_nvs load lookup
handle_all-Persisted_example =
    handle_all-Persisted bench fake_laws exact guarded json exact_back
      ((now, rename) ∷ (now, guessed) ∷ []) saved_device (inr refl)

apply_section-merge_example :
    (apply_section auth (record { admin_token = "" }) secured).admin_token ≡ "token"
unfolding apply_section merge_preserving_secrets redact_secrets_for_api
apply_section-merge_example =
    ap (λ c. c.admin_token)
      (apply_section-merge auth (record { admin_token = "" }) secured (tt, tt) tt)

read_body_lem_example : Limited (content image) (read_body [] image)
read_body_lem_example = read_body_lem image (omega arith, (omega arith, tt))

upload-Told_example : Told image untouched (accepted 3) (applied (1 ∷ 2 ∷ 3 ∷ []))
unfolding upload
upload-Told_example = upload-Told ota image untouched

host_handle-Mirrors_example :
    (host_handle bench
      (put_sect time (record { timezone = "UTC"; sntp_servers = [] }))
      now
      (host_of bench one guarded json device)).0
    ≡ into_response 204 [] empty
unfolding with_nvs require_auth strip_prefix save put_section save_and_replace
host_handle-Mirrors_example =
    (host_handle-Mirrors bench one guarded json
      (put_sect time (record { timezone = "UTC"; sntp_servers = [] })) now rename device refl
      (λ cfg. refl)).0

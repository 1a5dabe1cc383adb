-- ===== src/Config/Secrets.antt =====
-- config.rs: a configuration that a client read without its secrets and writes back.
use watercontroller.Base.{
  false, some, List, [], ◌∷◌, ◌≡◌, refl, ◌∙◌, find-cons_hit, find-cons_miss, arith, All, find,
  str_eq, str_eq_refl,
}
use watercontroller.Config.{
  Config, WifiCreds, clear_passwords, restore_password, restore_passwords, redact_secrets_for_api,
  merge_preserving_secrets,
}

-- No two networks have one SSID.
abbrev pub HasDistinctSsids : List WifiCreds → Type 0
HasDistinctSsids [] = Unit
HasDistinctSsids (net ∷ nets) =
    All (λ (n : WifiCreds). str_eq net.ssid n.ssid ≡ false) nets × HasDistinctSsids nets

abbrev Found : List WifiCreds → WifiCreds → Type 0
Found stored n = find (λ m. str_eq m.ssid n.ssid) stored ≡ some n

Found-cons :
    (net : WifiCreds) (stored nets : List WifiCreds)
    → All (λ (n : WifiCreds). str_eq net.ssid n.ssid ≡ false) nets
    → All (Found stored) nets
    → All (Found (net ∷ stored)) nets
Found-cons net stored [] h k = tt
Found-cons net stored (n ∷ nets) (h, hs) (k, ks) =
    (find-cons_miss (λ m. str_eq m.ssid n.ssid) net stored h ∙ k, Found-cons net stored nets hs ks)

distinct-Found : (nets : List WifiCreds) → HasDistinctSsids nets → All (Found nets) nets
distinct-Found [] h = tt
distinct-Found (net ∷ nets) (h, hs) = (
  find-cons_hit (λ m. str_eq m.ssid net.ssid) net nets (str_eq_refl net.ssid),
  Found-cons net nets nets h (distinct-Found nets hs),
)

restore-clear :
    (stored nets : List WifiCreds)
    → All (Found stored) nets
    → restore_passwords stored (clear_passwords nets) ≡ nets
unfolding restore_passwords restore_password clear_passwords
restore-clear stored [] h = refl
restore-clear stored (net ∷ nets) (h, hs) = rw (h, restore-clear stored nets hs)

-- The networks of a redacted configuration get their passwords back.
pub restore_redacted :
    (nets : List WifiCreds)
    → HasDistinctSsids nets
    → restore_passwords nets (clear_passwords nets) ≡ nets
restore_redacted nets h = restore-clear nets nets (distinct-Found nets h)

-- A configuration that is read through the API, where every secret is blank, and written back as it
-- is, leaves the stored configuration as it was, if no two stored networks have one SSID.
pub merge-redact :
    {F : Type 0} (c : Config F)
    → HasDistinctSsids c.wifi.networks
    → merge_preserving_secrets c (redact_secrets_for_api c) ≡ c
unfolding merge_preserving_secrets redact_secrets_for_api
merge-redact c h = rw (restore_redacted c.wifi.networks h)

clear-restore :
    (stored nets : List WifiCreds)
    → clear_passwords (restore_passwords stored nets) ≡ clear_passwords nets
unfolding restore_passwords clear_passwords restore_password
clear-restore stored [] = refl
clear-restore stored (net ∷ nets) = ground (arith, clear-restore stored nets)

-- Whatever a client writes, all that is no secret is taken over as it was written.
pub redact-merge :
    {F : Type 0} (stored incoming : Config F)
    → redact_secrets_for_api (merge_preserving_secrets stored incoming)
      ≡ redact_secrets_for_api incoming
unfolding merge_preserving_secrets redact_secrets_for_api
redact-merge stored incoming = rw (clear-restore stored.wifi.networks incoming.wifi.networks)

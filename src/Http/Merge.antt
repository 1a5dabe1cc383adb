-- ===== src/Http/Merge.antt =====
-- http_server.rs: a section by itself against the whole configuration.
use watercontroller.Base.{ℕ, zero, suc, ◌≤◌, ◌≡◌, refl, ap, ◌∙◌, arith, List, [], ◌∷◌, length, take}
use watercontroller.Config.{
  Config, WifiCreds, restore_password, restore_passwords, redact_secrets_for_api,
  merge_preserving_secrets,
}
use watercontroller.Config.Secrets.{HasDistinctSsids, restore_redacted, merge-redact}
use watercontroller.Webhook.{webhooks_max}
use watercontroller.Http.Sections.{
  SectionName, SectionType, wifi, mqtt, switches, sensors, schedule, https, wireguard, time, auth,
  flow_alarm, webhooks, keep_passwords, get_section, apply_section,
}

-- A configuration in which one section is replaced and nothing is merged.
abbrev pub set_section : {F : Type 0} (n : SectionName) → SectionType F n → Config F → Config F
set_section wifi new c = record c { wifi = new }
set_section mqtt new c = record c { mqtt = new }
set_section switches new c = record c { switches = new }
set_section sensors new c = record c { sensors = new }
set_section schedule new c = record c { schedule = new }
set_section https new c = record c { https = new }
set_section wireguard new c = record c { wireguard = new }
set_section time new c = record c { timezone = new.timezone; sntp_servers = new.sntp_servers }
set_section auth new c = record c { admin_token = new.admin_token }
set_section flow_alarm new c = record c { flow_alarm = new }
set_section webhooks new c = record c { webhooks = new }

-- No more webhooks than the section keeps.
abbrev pub Fits : (F : Type 0) (n : SectionName) → SectionType F n → Type 0
Fits F webhooks new = length new ≤ webhooks_max
Fits F _ new = Unit

take-all : {A : Type 0} (n : ℕ) (xs : List A) → length xs ≤ n → take n xs ≡ xs
take-all zero [] h = refl
take-all zero (x ∷ xs) h = absurd (omega arith)
take-all (suc n) [] h = refl
take-all (suc n) (x ∷ xs) h = ap (λ ys. x ∷ ys) (take-all n xs (omega arith))

keep-restore :
    (stored nets : List WifiCreds) → keep_passwords stored nets ≡ restore_passwords stored nets
unfolding keep_passwords restore_passwords restore_password
keep-restore stored [] = refl
keep-restore stored (net ∷ nets) = rw (keep-restore stored nets) refl

-- Saving one section is the same as saving the whole configuration as a client reads it, where every
-- secret is blank, with that section replaced, if no two stored networks have one SSID and the section
-- has no more webhooks than are kept.
pub apply_section-merge :
    {F : Type 0} (n : SectionName) (new : SectionType F n) (c : Config F)
    → HasDistinctSsids c.wifi.networks
    → Fits F n new
    → apply_section n new c
      ≡ merge_preserving_secrets c (set_section n new (redact_secrets_for_api c))
unfolding apply_section merge_preserving_secrets redact_secrets_for_api
apply_section-merge wifi new c h k = rw (keep-restore c.wifi.networks new.networks) refl
apply_section-merge webhooks new c h k =
    rw (take-all webhooks_max new k, restore_redacted c.wifi.networks h) refl
apply_section-merge mqtt new c h k = rw (restore_redacted c.wifi.networks h) refl
apply_section-merge switches new c h k = rw (restore_redacted c.wifi.networks h) refl
apply_section-merge sensors new c h k = rw (restore_redacted c.wifi.networks h) refl
apply_section-merge schedule new c h k = rw (restore_redacted c.wifi.networks h) refl
apply_section-merge https new c h k = rw (restore_redacted c.wifi.networks h) refl
apply_section-merge wireguard new c h k = rw (restore_redacted c.wifi.networks h) refl
apply_section-merge time new c h k = rw (restore_redacted c.wifi.networks h) refl
apply_section-merge auth new c h k = rw (restore_redacted c.wifi.networks h) refl
apply_section-merge flow_alarm new c h k = rw (restore_redacted c.wifi.networks h) refl

set-get :
    {F : Type 0} (n : SectionName) (c : Config F)
    → set_section n (get_section n (redact_secrets_for_api c)) (redact_secrets_for_api c)
      ≡ redact_secrets_for_api c
unfolding get_section redact_secrets_for_api
set-get wifi c = refl
set-get _ c = refl

-- A section that is read and saved as it is leaves the configuration as it was, if no two stored
-- networks have one SSID and no more webhooks are stored than are kept.
pub apply-get :
    {F : Type 0} (n : SectionName) (c : Config F)
    → HasDistinctSsids c.wifi.networks
    → length c.webhooks ≤ webhooks_max
    → apply_section n (get_section n (redact_secrets_for_api c)) c ≡ c
apply-get {F = F} n c h k =
    apply_section-merge n (get_section n (redact_secrets_for_api c)) c h (fits n)
    ∙ ap (merge_preserving_secrets c) (set-get n c)
    ∙ merge-redact c h
  where
    fits : (n : SectionName) → Fits F n (get_section n (redact_secrets_for_api c))
    fits webhooks = unfold get_section redact_secrets_for_api in k
    fits _ = tt

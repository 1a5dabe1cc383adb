-- ===== src/Config/Redact.antt =====
-- config.rs: which secrets an update through the API leaves, and what a redacted copy tells.
use watercontroller.Base.{
  String, none, some, List, [], ◌∷◌, map, is_empty_iff, ◌≡◌, ◌≢◌, refl, arith, find, str_eq,
}
use watercontroller.Config.{
  Config, WifiCreds, clear_passwords, restore_password, restore_passwords, or_stored,
  redact_secrets_for_api, merge_preserving_secrets,
}

-- A secret in an update that is not blank is taken over, and a blank one leaves the stored one.
abbrev pub Chosen : String → String → String → Type 0
Chosen new old result = (new ≡ "" → result ≡ old) × (new ≢ "" → result ≡ new)

or_stored_lem : (new old : String) → Chosen new old (or_stored new old)
or_stored_lem new old = ground (arith, is_empty_iff new)

-- The same of a network, whose stored password is that of the first stored network with its SSID; a
-- network that is not stored is taken over as it is.
abbrev pub NetworkChosen : List WifiCreds → WifiCreds → WifiCreds → Type 0
NetworkChosen stored new result =
    (result.ssid ≡ new.ssid)
    × (new.password ≢ "" → result ≡ new)
    × (find (λ n. str_eq n.ssid new.ssid) stored ≡ none → result ≡ new)
    × ((old : WifiCreds)
        → find (λ n. str_eq n.ssid new.ssid) stored ≡ some old
        → Chosen new.password old.password result.password)

abbrev pub NetworksChosen : List WifiCreds → List WifiCreds → List WifiCreds → Type 0
NetworksChosen stored [] [] = Unit
NetworksChosen stored (new ∷ news) (result ∷ results) =
    NetworkChosen stored new result × NetworksChosen stored news results
NetworksChosen stored _ _ = ⊥

restore_password_lem :
    (stored : List WifiCreds) (new : WifiCreds)
    → NetworkChosen stored new (restore_password stored new)
unfolding restore_password
restore_password_lem stored new = (
  ground arith,
  ground (arith, is_empty_iff new.password),
  ground arith,
  λ old e. ground (arith, is_empty_iff new.password),
)

restore_passwords_lem :
    (stored nets : List WifiCreds) → NetworksChosen stored nets (restore_passwords stored nets)
unfolding restore_passwords
restore_passwords_lem stored [] = tt
restore_passwords_lem stored (net ∷ nets) =
    (restore_password_lem stored net, restore_passwords_lem stored nets)

-- After an update through the API each of the six secrets of the device and each network's password
-- is the one that the client wrote, if it is not blank, and else the stored one, where networks are
-- matched by their SSID and the order and the set of networks is the client's.
pub merge_secrets :
    {F : Type 0} (stored incoming : Config F)
    → let c = merge_preserving_secrets stored incoming in
      NetworksChosen stored.wifi.networks incoming.wifi.networks c.wifi.networks
      × Chosen incoming.mqtt.password stored.mqtt.password c.mqtt.password
      × Chosen incoming.mqtt.client_key_pem stored.mqtt.client_key_pem c.mqtt.client_key_pem
      × Chosen incoming.https.key_pem stored.https.key_pem c.https.key_pem
      × Chosen incoming.wireguard.private_key stored.wireguard.private_key c.wireguard.private_key
      × Chosen incoming.wireguard.peer_preshared_key stored.wireguard.peer_preshared_key
          c.wireguard.peer_preshared_key
      × Chosen incoming.admin_token stored.admin_token c.admin_token
unfolding merge_preserving_secrets
merge_secrets stored incoming = (
  restore_passwords_lem stored.wifi.networks incoming.wifi.networks,
  or_stored_lem _ _,
  or_stored_lem _ _,
  or_stored_lem _ _,
  or_stored_lem _ _,
  or_stored_lem _ _,
  or_stored_lem _ _,
)

-- The secrets of a configuration, with the passwords of the networks in their order.
pub record Secrets : Type 0 where
  pub mqtt_password : String
  pub client_key_pem : String
  pub https_key_pem : String
  pub private_key : String
  pub peer_preshared_key : String
  pub admin_token : String
  pub passwords : WifiCreds → String

abbrev pub with_secrets : {F : Type 0} → Secrets → Config F → Config F
with_secrets s c = record c {
  wifi = record c.wifi {
    networks =
        map {A = WifiCreds} {B = WifiCreds} (λ n. record n { password = s.passwords n })
          c.wifi.networks;
  };
  mqtt = record c.mqtt { password = s.mqtt_password; client_key_pem = s.client_key_pem };
  https = record c.https { key_pem = s.https_key_pem };
  wireguard = record c.wireguard {
    private_key = s.private_key;
    peer_preshared_key = s.peer_preshared_key;
  };
  admin_token = s.admin_token;
}

clear-map :
    (f : WifiCreds → String) (nets : List WifiCreds)
    → clear_passwords (map {A = WifiCreds} {B = WifiCreds} (λ n. record n { password = f n }) nets)
      ≡ clear_passwords nets
unfolding clear_passwords
clear-map f [] = refl
clear-map f (net ∷ nets) = rw (clear-map f nets)

-- What the API shows of a configuration does not depend on its secrets: with any other network
-- passwords, MQTT password and client key, HTTPS key, WireGuard keys and admin token it is the same.
pub redact_hides :
    {F : Type 0} (s : Secrets) (c : Config F)
    → redact_secrets_for_api (with_secrets s c) ≡ redact_secrets_for_api c
unfolding redact_secrets_for_api
redact_hides s c = rw (clear-map s.passwords c.wifi.networks)

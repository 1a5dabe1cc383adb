-- ===== src/Config.antt =====
-- crates/core/src/config.rs: the runtime configuration. `F` is `f32`.
pub mod Defaults
pub mod Secrets
pub mod Redact
pub mod Persist
mod Tests
use watercontroller.Base.{
  ℕ, String, Bool, Option, none, some, List, [], ◌∷◌, map, is_empty, str_eq, find, if◌then◌else◌,
}
use watercontroller.Valve.{ValveTiming}
use watercontroller.Schedule.{Schedule}
use watercontroller.Webhook.{WebhookConfig}

pub record WifiCreds : Type 0 where
  pub ssid : String
  pub password : String

pub record WifiConfig : Type 0 where
  pub networks : List WifiCreds
  pub hostname : String
  pub ap_ssid : String
  pub ap_password : String

pub record MqttConfig : Type 0 where
  pub broker_url : String
  pub username : String
  pub password : String
  pub base_topic : String
  pub ha_discovery_prefix : String
  pub enabled : Bool
  pub ca_cert_pem : String
  pub client_cert_pem : String
  pub client_key_pem : String

-- `Calibration` of calibration.rs.
pub record Calibration (F : Type 0) : Type 0 where
  pub points : List (F × F)

pub record SensorsConfig (F : Type 0) : Type 0 where
  pub battery : Calibration F
  pub pressure_stage1 : Calibration F
  pub pressure_stage2 : Calibration F
  pub flow_l_per_pulse : F
  pub flow_lph_per_pps : F

pub record WireguardConfig : Type 0 where
  pub enabled : Bool
  pub address : String
  pub private_key : String
  pub peer_endpoint : String
  pub peer_public_key : String
  pub peer_preshared_key : String
  pub peer_allowed_ips : List String
  pub keepalive_secs : ℕ

pub record HttpsConfig : Type 0 where
  pub enabled : Bool
  pub cert_pem : String
  pub key_pem : String

pub record SwitchesConfig : Type 0 where
  pub sprinkler_1_auto_off_secs : ℕ
  pub sprinkler_2_auto_off_secs : ℕ
  pub valve_timing : ValveTiming

pub record FlowAlarmConfig (F : Type 0) : Type 0 where
  pub enabled : Bool
  pub threshold_lph : F
  pub duration_secs : ℕ

pub record Config (F : Type 0) : Type 0 where
  pub wifi : WifiConfig
  pub mqtt : MqttConfig
  pub https : HttpsConfig
  pub switches : SwitchesConfig
  pub sensors : SensorsConfig F
  pub flow_alarm : FlowAlarmConfig F
  pub timezone : String
  pub sntp_servers : List String
  pub schedule : Schedule
  pub wireguard : WireguardConfig
  pub admin_token : String
  pub webhooks : List WebhookConfig

-- `net.password.clear()`.
abbrev pub clear_password : WifiCreds → WifiCreds
clear_password net = record net { password = "" }

unfoldable pub clear_passwords : List WifiCreds → List WifiCreds
clear_passwords [] = []
clear_passwords (net ∷ nets) = clear_password net ∷ clear_passwords nets

-- The body of the first loop of `restore_secrets_from`.
unfoldable pub restore_password : List WifiCreds → WifiCreds → WifiCreds
restore_password stored net =
    if is_empty net.password
    then elim (find (λ n. str_eq n.ssid net.ssid) stored) [
      | none ↦ net
      | some existing ↦ record net { password = existing.password }
    ]
    else net

unfoldable pub restore_passwords : List WifiCreds → List WifiCreds → List WifiCreds
restore_passwords stored [] = []
restore_passwords stored (net ∷ nets) = restore_password stored net ∷ restore_passwords stored nets

-- `if new.is_empty() { new = old.clone(); }`.
abbrev pub or_stored : String → String → String
or_stored new old = if is_empty new then old else new

module _ {F : Type 0} where
  unfoldable pub redact_secrets_for_api : Config F → Config F
  unfolding clear_passwords
  redact_secrets_for_api c = record c {
    wifi = record c.wifi { networks = clear_passwords c.wifi.networks };
    mqtt = record c.mqtt { password = ""; client_key_pem = "" };
    https = record c.https { key_pem = "" };
    wireguard = record c.wireguard { private_key = ""; peer_preshared_key = "" };
    admin_token = "";
  }

  -- `self.restore_secrets_from(stored)`, with `stored` first.
  unfoldable pub restore_secrets_from : Config F → Config F → Config F
  unfolding restore_passwords restore_password
  restore_secrets_from stored c = record c {
    wifi = record c.wifi { networks = restore_passwords stored.wifi.networks c.wifi.networks };
    mqtt = record c.mqtt {
      password = or_stored c.mqtt.password stored.mqtt.password;
      client_key_pem = or_stored c.mqtt.client_key_pem stored.mqtt.client_key_pem;
    };
    https = record c.https { key_pem = or_stored c.https.key_pem stored.https.key_pem };
    wireguard = record c.wireguard {
      private_key = or_stored c.wireguard.private_key stored.wireguard.private_key;
      peer_preshared_key =
          or_stored c.wireguard.peer_preshared_key stored.wireguard.peer_preshared_key;
    };
    admin_token = or_stored c.admin_token stored.admin_token;
  }

  -- `self.merge_preserving_secrets(incoming)`: the configuration that it leaves in `self`.
  unfoldable pub merge_preserving_secrets : Config F → Config F → Config F
  unfolding restore_secrets_from
  merge_preserving_secrets self incoming = restore_secrets_from self incoming

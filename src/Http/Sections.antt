-- ===== src/Http/Sections.antt =====
-- http_server.rs: the sections of the configuration that have a path of their own.
use watercontroller.Base.{
  String, none, some, List, [], ◌∷◌, is_empty, find, take, str_eq, if◌then◌else◌,
}
use watercontroller.Config.{
  Config, WifiCreds, WifiConfig, MqttConfig, SwitchesConfig, SensorsConfig, HttpsConfig,
  WireguardConfig, FlowAlarmConfig,
}
use watercontroller.Schedule.{Schedule}
use watercontroller.Webhook.{WebhookConfig, webhooks_max}

pub record TimeSection : Type 0 where
  pub timezone : String
  pub sntp_servers : List String

pub record AuthSection : Type 0 where
  pub admin_token : String

pub data SectionName : Type 0 where
  wifi mqtt switches sensors schedule https wireguard time auth flow_alarm webhooks : SectionName

-- The type `T` at which `register_section` is called.
abbrev pub SectionType : Type 0 → SectionName → Type 0
SectionType F wifi = WifiConfig
SectionType F mqtt = MqttConfig
SectionType F switches = SwitchesConfig
SectionType F sensors = SensorsConfig F
SectionType F schedule = Schedule
SectionType F https = HttpsConfig
SectionType F wireguard = WireguardConfig
SectionType F time = TimeSection
SectionType F auth = AuthSection
SectionType F flow_alarm = FlowAlarmConfig F
SectionType F webhooks = List WebhookConfig

abbrev pub path_of : SectionName → String
path_of wifi = "/api/config/wifi"
path_of mqtt = "/api/config/mqtt"
path_of switches = "/api/config/switches"
path_of sensors = "/api/config/sensors"
path_of schedule = "/api/config/schedule"
path_of https = "/api/config/https"
path_of wireguard = "/api/config/wireguard"
path_of time = "/api/config/time"
path_of auth = "/api/config/auth"
path_of flow_alarm = "/api/config/flow_alarm"
path_of webhooks = "/api/config/webhooks"

-- The argument `get` of `register_section`.
unfoldable pub get_section : {F : Type 0} (n : SectionName) → Config F → SectionType F n
get_section wifi cfg = cfg.wifi
get_section mqtt cfg = cfg.mqtt
get_section switches cfg = cfg.switches
get_section sensors cfg = cfg.sensors
get_section schedule cfg = cfg.schedule
get_section https cfg = cfg.https
get_section wireguard cfg = cfg.wireguard
get_section time cfg = record { timezone = cfg.timezone; sntp_servers = cfg.sntp_servers }
get_section auth cfg = record { admin_token = "" }
get_section flow_alarm cfg = cfg.flow_alarm
get_section webhooks cfg = cfg.webhooks

-- The loop over `new.networks`: a blank password is that of the first stored network with the SSID.
abbrev pub keep_password : List WifiCreds → WifiCreds → WifiCreds
keep_password stored net =
    if is_empty net.password
    then elim (find (λ n. str_eq n.ssid net.ssid) stored) [
      | none ↦ net
      | some o ↦ record net { password = o.password }
    ]
    else net

unfoldable pub keep_passwords : List WifiCreds → List WifiCreds → List WifiCreds
keep_passwords stored [] = []
keep_passwords stored (net ∷ nets) = keep_password stored net ∷ keep_passwords stored nets

-- The argument `apply` of `register_section`, but for the call of the Wi-Fi supervisor.
unfoldable pub apply_section :
    {F : Type 0} (n : SectionName) → SectionType F n → Config F → Config F
unfolding keep_passwords
apply_section wifi new cfg = record cfg {
  wifi = record new { networks = keep_passwords cfg.wifi.networks new.networks };
}
apply_section mqtt new cfg = record cfg {
  mqtt = record new {
    password = if is_empty new.password then cfg.mqtt.password else new.password;
    client_key_pem =
        if is_empty new.client_key_pem then cfg.mqtt.client_key_pem else new.client_key_pem;
  };
}
apply_section switches new cfg = record cfg { switches = new }
apply_section sensors new cfg = record cfg { sensors = new }
apply_section schedule new cfg = record cfg { schedule = new }
apply_section https new cfg = record cfg {
  https = record new { key_pem = if is_empty new.key_pem then cfg.https.key_pem else new.key_pem };
}
apply_section wireguard new cfg = record cfg {
  wireguard = record new {
    private_key = if is_empty new.private_key then cfg.wireguard.private_key else new.private_key;
    peer_preshared_key =
        if is_empty new.peer_preshared_key
        then cfg.wireguard.peer_preshared_key
        else new.peer_preshared_key;
  };
}
apply_section time new cfg = record cfg { timezone = new.timezone; sntp_servers = new.sntp_servers }
apply_section auth new cfg = record cfg {
  admin_token = if is_empty new.admin_token then cfg.admin_token else new.admin_token;
}
apply_section flow_alarm new cfg = record cfg { flow_alarm = new }
apply_section webhooks new cfg = record cfg { webhooks = take webhooks_max new }

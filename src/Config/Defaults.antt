-- ===== src/Config/Defaults.antt =====
-- config.rs: the configuration of a fresh device. The values of `f32` are parameters, and so are the
-- two variables of the build's environment.
use watercontroller.Base.{
  ◌*◌, String, true, false, Option, some, List, [], ◌∷◌, is_empty, if◌then◌else◌,
}
use watercontroller.Valve.{default_timing}
use watercontroller.Schedule.{default_schedule}
use watercontroller.Config.{
  Config, WifiCreds, WifiConfig, MqttConfig, HttpsConfig, SwitchesConfig, SensorsConfig,
  WireguardConfig,
}

-- `WC_WIFI_SSID` and `WC_WIFI_PASSWORD`, where the build sets them.
pub record BuildEnv : Type 0 where
  pub wifi_ssid : Option String
  pub wifi_password : Option String

abbrev seed_of : Option String → Option String → List WifiCreds
seed_of (some ssid) (some password) =
    if is_empty ssid then [] else record { ssid = ssid; password = password } ∷ []
seed_of _ _ = []

abbrev pub default_wifi : BuildEnv → WifiConfig
default_wifi env = record {
  networks = seed_of env.wifi_ssid env.wifi_password;
  hostname = "doremorwater";
  ap_ssid = "Doremorwater Fallback Hotspot";
  ap_password = "";
}

abbrev pub default_mqtt : MqttConfig
default_mqtt = record {
  broker_url = "";
  username = "";
  password = "";
  base_topic = "doremorwater";
  ha_discovery_prefix = "homeassistant";
  enabled = false;
  ca_cert_pem = "";
  client_cert_pem = "";
  client_key_pem = "";
}

abbrev pub default_wireguard : WireguardConfig
default_wireguard = record {
  enabled = false;
  address = "10.6.0.5";
  private_key = "";
  peer_endpoint = "";
  peer_public_key = "";
  peer_preshared_key = "";
  peer_allowed_ips = "192.168.1.0/24" ∷ "10.6.0.1/32" ∷ [];
  keepalive_secs = 25;
}

abbrev pub default_https : HttpsConfig
default_https = record { enabled = true; cert_pem = ""; key_pem = "" }

abbrev pub default_switches : SwitchesConfig
default_switches = record {
  sprinkler_1_auto_off_secs = 7 * 60;
  sprinkler_2_auto_off_secs = 5 * 60;
  valve_timing = default_timing;
}

-- `Config::default()`: `sensors` is `SensorsConfig::default()`, and `hundred` is 100.0.
abbrev pub default_config : {F : Type 0} → BuildEnv → SensorsConfig F → F → Config F
default_config env sensors hundred = record {
  wifi = default_wifi env;
  mqtt = default_mqtt;
  https = default_https;
  switches = default_switches;
  sensors = sensors;
  flow_alarm = record { enabled = false; threshold_lph = hundred; duration_secs = 60 };
  timezone = "Europe/Madrid";
  sntp_servers = "0.es.pool.ntp.org" ∷ "1.es.pool.ntp.org" ∷ "2.es.pool.ntp.org" ∷ [];
  schedule = default_schedule;
  wireguard = default_wireguard;
  admin_token = "";
  webhooks = [];
}

-- ===== src/Config/Tests.antt =====
-- config.rs: the source's tests, and instances of the theorems. `f32` is the type of numbers here.
use watercontroller.Base.{ℕ, none, some, [], ◌∷◌, ◌≡◌, refl}
use watercontroller.Config.{
  Config, SensorsConfig, Calibration, redact_secrets_for_api, merge_preserving_secrets,
}
use watercontroller.Config.Defaults.{default_config}
use watercontroller.Config.Redact.{merge_secrets}
use watercontroller.Config.Persist.{Codec}

abbrev line : Calibration ℕ
line = record { points = (0, 0) ∷ (1, 1) ∷ [] }

abbrev sensors : SensorsConfig ℕ
sensors = record {
  battery = line;
  pressure_stage1 = line;
  pressure_stage2 = line;
  flow_l_per_pulse = 1;
  flow_lph_per_pps = 1;
}

abbrev fresh : Config ℕ
fresh = default_config (record { wifi_ssid = none; wifi_password = none }) sensors 100

abbrev with_nets : Config ℕ
with_nets = record fresh {
  wifi = record fresh.wifi {
    networks =
        record { ssid = "home"; password = "wifi-secret" }
        ∷ record { ssid = "guest"; password = "guest-secret" }
        ∷ [];
  };
  admin_token = "admin-bearer";
}

-- The user reordered the networks and added a new open one.
merge_wifi_password_match_by_ssid :
    (merge_preserving_secrets with_nets (record with_nets {
      wifi = record with_nets.wifi {
        networks =
            record { ssid = "guest"; password = "" }
            ∷ record { ssid = "home"; password = "" }
            ∷ record { ssid = "openCafe"; password = "" }
            ∷ [];
      };
    })).wifi.networks
    ≡ record { ssid = "guest"; password = "guest-secret" }
      ∷ record { ssid = "home"; password = "wifi-secret" }
      ∷ record { ssid = "openCafe"; password = "" }
      ∷ []
unfolding merge_preserving_secrets
merge_wifi_password_match_by_ssid = refl

-- A codec for the one configuration of these tests.
abbrev one : Codec (Config ℕ)
one = record { to_vec = λ c. some (7 ∷ []); from_slice = λ b. some with_nets }

abbrev rotated : Config ℕ
rotated = record (redact_secrets_for_api with_nets) { admin_token = "rotated"; timezone = "UTC" }

merge_secrets_example : (merge_preserving_secrets with_nets rotated).admin_token ≡ "rotated"
unfolding redact_secrets_for_api
merge_secrets_example = (merge_secrets with_nets rotated).6.1 (λ e. cc)

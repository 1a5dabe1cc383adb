-- ===== src/App/Bench.antt =====
-- A device for tests: its `f32` is the type of numbers and its store the one of the host build.
use watercontroller.Base.{ℕ, true, none, some, [], ◌∷◌, pos, leb, to_string}
use watercontroller.State.{AlarmEvent}
use watercontroller.Nvs.Fake.{fake}
use watercontroller.Config.{Config, Calibration}
use watercontroller.Config.Defaults.{default_config}
use watercontroller.App.{App, with_nvs}
use watercontroller.App.Env.{Platform, Reading}
use watercontroller.App.FlowAlarm.{Fired}

abbrev pub burst : AlarmEvent ℕ
burst = record { epoch_secs = 0; uptime_ms = 3000; flow_lph = 150; duration_secs = 2 }

abbrev pub bench : Platform
bench = record {
  F32 = ℕ;
  zero_f = 0;
  ge = λ a b. leb b a;
  fixed_1 = to_string;
  nvs = fake;
  history = record { to_vec = λ h. some (7 ∷ []); from_slice = λ b. some (burst ∷ []) };
}

abbrev pub line : Calibration ℕ
line = record { points = [] }

abbrev pub guarded : Config ℕ
guarded =
    record (default_config (record { wifi_ssid = none; wifi_password = none })
      (record {
        battery = line;
        pressure_stage1 = line;
        pressure_stage2 = line;
        flow_l_per_pulse = 1;
        flow_lph_per_pps = 1;
      })
      100) { flow_alarm = record { enabled = true; threshold_lph = 100; duration_secs = 2 } }

abbrev pub epoch : Reading
epoch = record { rfc3339 = "1970-01-01T00:00:00+00:00"; timestamp = pos 0; monotonic_ms = 0 }

abbrev pub at_once : ℕ → Fired
at_once now = record { recorded = epoch; emitted = epoch; commanded_ms = now }

abbrev pub boot : App bench
boot = with_nvs bench guarded (some [])

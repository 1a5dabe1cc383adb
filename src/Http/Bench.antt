-- ===== src/Http/Bench.antt =====
-- A device for tests: it has one network and a token, and its codec knows one configuration.
use watercontroller.Base.{
  ℕ, ◌≡◌, sym, ap, arith, String, true, false, Option, none, some, [], ◌∷◌, str_eq, str_eq_iff,
  Bool-cases, inl, inr,
}
use native.Mathlib.Decide.{ℕ_discrete}
use watercontroller.Nvs.{Bytes}
use watercontroller.Nvs.Fake.{fake_laws}
use watercontroller.Config.{Config}
use watercontroller.Config.Persist.{Codec}
use watercontroller.App.{sprinkler_1, with_nvs}
use watercontroller.App.Bench.{bench, guarded, epoch}
use watercontroller.Http.{Server, untouched}
use watercontroller.Http.Sections.{get_section}
use watercontroller.Http.Update.{EspOta}
use watercontroller.Http.Routes.{Json, Moment, parsed, invalid, no_scan}
use watercontroller.Http.Stored.{ReadsBack}

abbrev pub secured : Config ℕ
secured = record guarded {
  wifi = record guarded.wifi { networks = record { ssid = "home"; password = "secret" } ∷ [] };
  admin_token = "token";
}

String_discrete : Discrete String
String_discrete s t = elim (Bool-cases (str_eq s t)) [
  | inl e ↦ yes ((str_eq_iff s t).0 e)
  | inr e ↦ no (λ h. absurd (ground (arith, (str_eq_iff s t).1 h, e)))
]

pub Config_discrete : Discrete (Config ℕ)
Config_discrete = hlevel (ℕ_discrete, String_discrete)

-- A codec that knows one configuration, and fails at any other.
unfoldable pub write_secured : (c : Config ℕ) → Dec (c ≡ secured) → Option Bytes
write_secured c (yes e) = some (7 ∷ [])
write_secured c (no e) = none

abbrev pub exact : Codec (Config ℕ)
exact = record {
  to_vec = λ c. write_secured c (Config_discrete c secured);
  from_slice = λ b. some secured;
}

abbrev pub json : Json ℕ
json = record {
  config = λ b. parsed secured;
  section = λ n b. parsed (get_section n secured);
  switch = λ b. parsed (sprinkler_1 true);
  test = λ b. invalid "expected value";
}

pub exact_back : ReadsBack bench fake_laws exact guarded json
exact_back cfg b e = go cfg b (Config_discrete cfg secured) e
  where
    go :
        (c : Config ℕ) (b : Bytes) (d : Dec (c ≡ secured))
        → write_secured c d ≡ some b
        → some secured ≡ some c
    go c b (yes k) e = ap some (sym k)
    go c b (no k) e = absurd (unfold write_secured in ground (arith, e))

abbrev pub device : Server bench
device = record {
  app = with_nvs bench secured (some []);
  nvs = [];
  wifi = [];
  slot = untouched;
  restarting = false;
}

abbrev pub ota : EspOta
ota = record { new = none; initiate_update = none; write = λ b. none; complete = none }

abbrev pub now : Moment
now = record { now_ms = 5; reading = epoch; scan = no_scan "busy"; ota = ota }

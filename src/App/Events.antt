-- ===== src/App/Events.antt =====
-- app.rs: the variables that `emit_event` fills in.
use watercontroller.Base.{◌/◌, ◌≡◌, String, false, to_string, str_eq}
use watercontroller.Config.{Config}
use watercontroller.Webhook
use watercontroller.Webhook.{WebhookEvent, get, insert_if_vacant}
use watercontroller.Webhook.Vars.{or_value, get-insert_if_vacant}
use watercontroller.App.{standard_vars}
use watercontroller.App.Env.{Platform, Reading}

module _ (p : Platform) where
  open p use {F32}

  -- Of any event, the one that is handed to the dispatcher has the five standard variables, each with
  -- the value that the caller gave it or else the standard one, and every other variable as the caller
  -- left it.
  pub get-standard_vars :
      (cfg : Config F32) (t : Reading) (ev : WebhookEvent) (j : String)
      → let vars = (standard_vars p cfg t ev).vars in
        (get "event" vars ≡ or_value (get "event" ev.vars) (Webhook.as_str ev.kind))
        × (get "event_label" vars ≡ or_value (get "event_label" ev.vars) (Webhook.label ev.kind))
        × (get "iso_ts" vars ≡ or_value (get "iso_ts" ev.vars) t.rfc3339)
        × (get "device" vars ≡ or_value (get "device" ev.vars) cfg.wifi.hostname)
        × (get "uptime_s" vars
            ≡ or_value (get "uptime_s" ev.vars) (to_string (t.monotonic_ms / 1000)))
        × (str_eq "event" j ≡ false
            → str_eq "event_label" j ≡ false
            → str_eq "iso_ts" j ≡ false
            → str_eq "device" j ≡ false
            → str_eq "uptime_s" j ≡ false
            → get j vars ≡ get j ev.vars)
  unfolding standard_vars
  get-standard_vars cfg t ev j = (
    simp get-insert_if_vacant,
    simp get-insert_if_vacant,
    simp get-insert_if_vacant,
    simp get-insert_if_vacant,
    simp get-insert_if_vacant,
    λ h1 h2 h3 h4 h5. simp (get-insert_if_vacant, h1, h2, h3, h4, h5),
  )

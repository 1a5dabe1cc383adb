-- ===== src/Http/Secrecy.antt =====
-- http_server.rs: what a request without the token can learn.
use watercontroller.Base.{◌≡◌, ◌≢◌, refl, false, Option-cases, Bool-cases, inl, inr, contains}
use watercontroller.Config.{Config}
use watercontroller.Config.Redact.{Secrets, with_secrets, redact_hides}
use watercontroller.Config.Persist.{Codec}
use watercontroller.App.Env.{Platform}
use watercontroller.Http.{Request, Server, require_auth}
use watercontroller.Http.Routes.{
  Json, Moment, Route, get_config, get_sect, put_config, put_sect, post_switch, post_ota,
  post_reconnect, post_alarm_clear, post_test, post_reset, registered, route_of, serve, handle,
}
use watercontroller.Http.Guard.{Bears, require_auth_fails}

module _ (p : Platform) (codec : Codec (Config p.F32)) (default : Config p.F32)
    (json : Json p.F32) where
  open p use {F32}

  -- The same device with other secrets.
  abbrev pub with_other : Secrets → Server p → Server p
  with_other x s = record s { app = record s.app { config = with_secrets x s.app.config } }

  serve-hides :
      (r : Route) (x : Secrets) (m : Moment) (req : Request) (s : Server p)
      → require_auth p req s.app ≡ false
      → require_auth p req (with_other x s).app ≡ false
      → (serve p codec default json r m req (with_other x s)).0
        ≡ (serve p codec default json r m req s).0
  unfolding serve
  serve-hides get_config x m req s h k = elim (Bool-cases (contains "all" req.uri)) [
    | inl e ↦ rw (e, h, k) refl
    | inr e ↦ rw (e, redact_hides x s.app.config) refl
  ]
  serve-hides (get_sect n) x m req s h k = rw (redact_hides x s.app.config) refl
  serve-hides put_config x m req s h k = rw (h, k) refl
  serve-hides (put_sect n) x m req s h k = rw (h, k) refl
  serve-hides post_switch x m req s h k = rw (h, k) refl
  serve-hides post_ota x m req s h k = rw (h, k) refl
  serve-hides post_reconnect x m req s h k = rw (h, k) refl
  serve-hides post_alarm_clear x m req s h k = rw (h, k) refl
  serve-hides post_test x m req s h k = rw (h, k) refl
  serve-hides post_reset x m req s h k = rw (h, k) refl
  serve-hides _ x m req s h k = refl

  -- A request that does not bear the admin token, which is set, gets the same answer whatever the
  -- secrets of the device are: with any other network passwords, MQTT password and client key, HTTPS
  -- key, WireGuard keys and another admin token that it does not bear either, the answer is the same.
  pub handle-hides :
      (x : Secrets) (m : Moment) (req : Request) (s : Server p)
      → s.app.config.admin_token ≢ ""
      → ¬ Bears req s.app.config.admin_token
      → x.admin_token ≢ ""
      → ¬ Bears req x.admin_token
      → (handle p codec default json m req (with_other x s)).0
        ≡ (handle p codec default json m req s).0
  unfolding handle
  handle-hides x m req s h k h' k' = elim (Option-cases (route_of req.method req.path registered)) [
    | inl e ↦ rw (e, handle) refl
    | inr (r, e) ↦
        rw (e, handle)
          (serve-hides r x m req s (require_auth_fails p req s.app h k)
            (require_auth_fails p req (with_other x s).app h' k'))
  ]

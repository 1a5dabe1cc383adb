-- ===== src/Serial/Stored.antt =====
-- serial_cli.rs: the list of networks and the store, over any commands.
use watercontroller.Base.{
  ◌≡◌, refl, ◌∙◌, String, Bool, false, List, [], ◌∷◌, ◌++◌, inl, inr, Option-cases, Bool-cases, All,
  retain, str_eq,
}
use watercontroller.Nvs.{NvsLaws, NvsLaws-KeyLaws}
use watercontroller.Config.{Config, WifiCreds}
use watercontroller.Config.Secrets.{HasDistinctSsids}
use watercontroller.Config.Persist.{Codec, Result, ok, err, nvs_key, load, save, load-save}
use watercontroller.Config.Persist
use watercontroller.App.{emit_event, replace_config_section}
use watercontroller.App.Env.{Platform}
use watercontroller.App.FlowAlarm.{clear_flow_alarm}
use watercontroller.Webhook.Kinds.{from_wire}
use watercontroller.Http.{Server}
use watercontroller.Http.Routes.{Json, Moment}
use watercontroller.Http.Stored.{Persisted, ReadsBack, load-save_failed, Result-cases}
use watercontroller.Serial.{
  Edit, add, del, clear, Command, edit, alarm_clear, webhook_fire, https_set, reset, factory_reset,
  Console, without_ssid, apply_edit, with_store, modify_networks, set_https, fire_webhook, execute,
  dispatch, command_of, kept, signal, reset_done,
}

retain-All :
    (P : WifiCreds → Type 0) (p : WifiCreds → Bool) (nets : List WifiCreds)
    → All P nets
    → All P (retain p nets)
retain-All P p [] h = tt
retain-All P p (n ∷ nets) (h, hs) = elim (Bool-cases (p n)) [
  | inl e ↦ rw (e, All) (h, retain-All P p nets hs)
  | inr e ↦ rw (e, All) (retain-All P p nets hs)
]

without_ssid-All :
    (ssid : String) (nets : List WifiCreds)
    → All (λ (n : WifiCreds). str_eq n.ssid ssid ≡ false) (without_ssid ssid nets)
without_ssid-All ssid [] = tt
without_ssid-All ssid (n ∷ nets) = elim (Bool-cases (str_eq n.ssid ssid)) [
  | inl e ↦ rw (e, All) (without_ssid-All ssid nets)
  | inr e ↦ rw (e, All) (e, without_ssid-All ssid nets)
]

retain-Distinct :
    (p : WifiCreds → Bool) (nets : List WifiCreds)
    → HasDistinctSsids nets
    → HasDistinctSsids (retain p nets)
retain-Distinct p [] h = tt
retain-Distinct p (n ∷ nets) (h, hs) = elim (Bool-cases (p n)) [
  | inl e ↦
      rw (e, HasDistinctSsids)
        (
          retain-All (λ (m : WifiCreds). str_eq n.ssid m.ssid ≡ false) p nets h,
          retain-Distinct p nets hs,
        )
  | inr e ↦ rw (e, HasDistinctSsids) (retain-Distinct p nets hs)
]

All-snoc :
    (P : WifiCreds → Type 0) (nets : List WifiCreds) (n : WifiCreds)
    → All P nets
    → P n
    → All P (nets ++ n ∷ [])
All-snoc P [] n h k = (k, tt)
All-snoc P (m ∷ nets) n (h, hs) k = (h, All-snoc P nets n hs k)

snoc-Distinct :
    (nets : List WifiCreds) (new : WifiCreds)
    → HasDistinctSsids nets
    → All (λ (n : WifiCreds). str_eq n.ssid new.ssid ≡ false) nets
    → HasDistinctSsids (nets ++ new ∷ [])
snoc-Distinct [] new h k = (tt, tt)
snoc-Distinct (n ∷ nets) new (h, hs) (k, ks) = (
  All-snoc (λ (m : WifiCreds). str_eq n.ssid m.ssid ≡ false) nets new h k,
  snoc-Distinct nets new hs ks,
)

apply_edit-Distinct :
    (e : Edit) (nets : List WifiCreds)
    → HasDistinctSsids nets
    → HasDistinctSsids (apply_edit e nets).0
unfolding apply_edit
apply_edit-Distinct (add ssid password) nets h =
    snoc-Distinct (without_ssid ssid nets) (record { ssid = ssid; password = password })
      (retain-Distinct _ nets h) (without_ssid-All ssid nets)
apply_edit-Distinct (del ssid) nets h = retain-Distinct _ nets h
apply_edit-Distinct clear nets h = tt

module _ (p : Platform) (laws : NvsLaws p.nvs) (codec : Codec (Config p.F32))
    (default : Config p.F32) (json : Json p.F32) where
  open p use {F32, nvs}

  -- The store has the configuration in memory, and no two networks have one SSID.
  abbrev pub Sound : Server p → Type 0
  Sound s = Persisted p laws codec default json s × HasDistinctSsids s.app.config.wifi.networks

  -- A save, whether it fails or not, and what follows it.
  kept-Sound :
      ReadsBack p laws codec default json
      → (m : Moment) (cfg : Config F32) (s : Server p) → HasDistinctSsids cfg.wifi.networks
      → Sound s
      → let (r, st) = save nvs codec default cfg s.nvs in
        Sound (kept p codec default r m cfg (with_store p codec default st s))
  unfolding replace_config_section emit_event
  kept-Sound back m cfg s k (h, d) =
      elim (Result-cases p laws codec default json (save nvs codec default cfg s.nvs).0) [
        | inl e ↦
            rw e (
              inr ((load-save nvs (NvsLaws-KeyLaws laws) codec default cfg s.nvs (back cfg) e).0),
              k,
            )
        | inr (x, e) ↦ rw e (
          elim h [
            | inl r ↦ inl r
            | inr l ↦ inr (load-save_failed p laws codec default json cfg s.nvs x e ∙ l)
          ],
          d,
        )
      ]

  signal-Sound :
      (r : Result (Unit {0})) (nets : List WifiCreds) (s : Server p)
      → Sound s
      → Sound (signal p codec default r nets s)
  signal-Sound (ok _) nets s h = h
  signal-Sound (err e) nets s h = h

  modify-Sound :
      ReadsBack p laws codec default json
      → (m : Moment) (e : Edit) (s : Server p) → Sound s
      → Sound (modify_networks p codec default m e s).0
  unfolding modify_networks
  modify-Sound back m e s h =
      signal-Sound _ _ _
        (kept-Sound back m _ s (apply_edit-Distinct e s.app.config.wifi.networks h.1) h)

  https-Sound :
      ReadsBack p laws codec default json
      → (m : Moment) (on : Bool) (s : Server p) → Sound s
      → Sound (set_https p codec default m on s).0
  unfolding set_https
  https-Sound back m on s h = kept-Sound back m _ s h.1 h

  fire-Sound :
      (m : Moment) (kind : String) (s : Server p)
      → Sound s
      → Sound (fire_webhook p codec default m kind s).0
  unfolding fire_webhook emit_event
  fire-Sound m kind s h = elim (Option-cases (from_wire kind)) [
    | inl e ↦ rw (e, fire_webhook) h
    | inr (k, e) ↦ rw (e, fire_webhook) h
  ]

  clear-Sound :
      (m : Moment) (s : Server p)
      → Sound s
      → Sound (record s { app = clear_flow_alarm p m.reading s.app })
  unfolding clear_flow_alarm emit_event
  clear-Sound m s h = elim (Bool-cases s.app.state.alarm.active) [ inl e ↦ rw e h | inr e ↦ rw e h ]

  reset-Sound :
      (s : Server p)
      → Sound s
      → let (r, st) = Persist.factory_reset nvs codec default s.nvs in
        Sound (reset_done p codec default r (with_store p codec default st s)).0
  unfolding Persist.factory_reset load
  reset-Sound s (h, d) = elim (Option-cases (nvs.remove s.nvs nvs_key).0) [
    | inl e ↦ rw e (inl refl, d)
    | inr (x, e) ↦ rw e (
      elim h [
        | inl r ↦ inl r
        | inr l ↦ inr (rw (laws.get-remove_failed s.nvs nvs_key nvs_key x e) l)
      ],
      d,
    )
  ]

  module _ (back : ReadsBack p laws codec default json) where
    execute-Sound :
        (m : Moment) (cmd : Command) (c : Console p)
        → Sound c.server
        → Sound (execute p codec default m cmd c).0.server
    unfolding execute
    execute-Sound m (edit e) c h = modify-Sound back m e c.server h
    execute-Sound m (https_set on) c h = https-Sound back m on c.server h
    execute-Sound m (webhook_fire kind) c h = fire-Sound m kind c.server h
    execute-Sound m alarm_clear c h = clear-Sound m c.server h
    execute-Sound m factory_reset c h = reset-Sound c.server h
    execute-Sound m reset c (h, d) = (inl refl, d)
    execute-Sound m _ c h = h

  unfoldable pub dispatch_all : List (Moment × List String) → Console p → Console p
  dispatch_all [] c = c
  dispatch_all ((m, words) ∷ lines) c = dispatch_all lines (dispatch p codec default m words c).0

  -- Whatever lines are typed, and also where a save fails, a start of the device loads the
  -- configuration that is in memory unless the device is about to restart, and no two networks have
  -- one SSID, if both held before, the codec reads back what it wrote and the store keeps its laws.
  pub dispatch_all-Sound :
      ReadsBack p laws codec default json
      → (lines : List (Moment × List String)) (c : Console p) → Sound c.server
      → Sound (dispatch_all lines c).server
  unfolding dispatch_all dispatch
  dispatch_all-Sound back [] c h = h
  dispatch_all-Sound back ((m, words) ∷ lines) c h =
      dispatch_all-Sound back lines _ (execute-Sound back m (command_of words) c h)

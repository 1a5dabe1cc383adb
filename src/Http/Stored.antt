-- ===== src/Http/Stored.antt =====
-- http_server.rs: the configuration in memory and the one in the store.
use watercontroller.Base.{
  ℕ, ◌≡◌, refl, ap, sym, ◌∙◌, arith, true, some, List, [], ◌∷◌, ◌⊎◌, inl, inr, Option-cases,
  Bool-cases, contains,
}
use watercontroller.Nvs.{NvsLaws, NvsLaws-KeyLaws, Bytes}
use watercontroller.Config.{Config}
use watercontroller.Config.Persist.{
  Codec, ConfigError, Result, ok, err, nvs_key, load, save, factory_reset, load-save,
}
use watercontroller.App.{App, SwitchCommand, emit_event, switch_command, replace_config_section}
use watercontroller.App.FlowAlarm.{clear_flow_alarm}
use watercontroller.App.Env.{Platform, Reading}
use watercontroller.Http.{Request, Server, Slot, require_auth}
use watercontroller.Http.Sections.{SectionName, SectionType}
use watercontroller.Http.Body.{Received, complete, too_large, io, read_body}
use watercontroller.Http.Update.{Outcome, error, accepted, upload}
use watercontroller.Http.Routes.{
  Json, Moment, Decoded, parsed, invalid, Route, get_config, put_config, put_sect, post_switch,
  post_ota, post_reconnect, post_alarm_clear, post_test, post_reset, registered, route_of, Handled,
  save_and_replace, put_section, config_decoded, section_decoded, config_received, section_received,
  switch_decoded, switch_received, TestReq, test_decoded, test_received, ota_answer, erased,
  authorized, serve, handle,
}

module _ (p : Platform) (laws : NvsLaws p.nvs) (codec : Codec (Config p.F32))
    (default : Config p.F32) (json : Json p.F32) where
  open p use {F32, nvs}

  -- What a start of the device would load is the configuration in memory, or the device is about to
  -- restart after a factory reset or an update.
  abbrev pub Persisted : Server p → Type 0
  Persisted s = (s.restarting ≡ true) ⊎ (load nvs codec default s.nvs ≡ ok s.app.config)

  -- The codec reads back what it wrote.
  abbrev pub ReadsBack : Type 0
  ReadsBack =
      (cfg : Config F32) (b : Bytes) → codec.to_vec cfg ≡ some b → codec.from_slice b ≡ some cfg

  pub load-save_failed :
      (cfg : Config F32) (s : nvs.Store) (e : ConfigError)
      → (save nvs codec default cfg s).0 ≡ err e
      → load nvs codec default (save nvs codec default cfg s).1 ≡ load nvs codec default s
  unfolding save load
  load-save_failed cfg s e h = elim (Option-cases (codec.to_vec cfg)) [
    | inl c ↦ rw c refl
    | inr (b, c) ↦ elim (Option-cases (nvs.set s nvs_key b).0) [
      | inl w ↦ absurd (ground (arith, h, c, w))
      | inr (x, w) ↦ rw (c, laws.get-set_failed s nvs_key nvs_key b x w) refl
    ]
  ]

  pub replace-config :
      (m : Moment) (cfg : Config F32) (a : App p)
      → (replace_config_section p m.reading cfg "all" a).config ≡ cfg
  unfolding replace_config_section emit_event
  replace-config m cfg a = refl

  pub Result-cases : (r : Result (Unit {0})) → (r ≡ ok tt) ⊎ ((e : ConfigError) × (r ≡ err e))
  Result-cases (ok tt) = inl refl
  Result-cases (err e) = inr (e, refl)

  pub save_and_replace-Persisted :
      ReadsBack
      → (m : Moment) (cfg : Config F32) (s : Server p) → Persisted s
      → Persisted (save_and_replace p codec default json m cfg s).1
  unfolding save_and_replace
  save_and_replace-Persisted back m cfg s h =
      elim (Result-cases (save nvs codec default cfg s.nvs).0) [
        | inl e ↦ rw e (
            inr (
              (load-save nvs (NvsLaws-KeyLaws laws) codec default cfg s.nvs (back cfg) e).0
              ∙ ap ok (sym (replace-config m cfg _))))
        | inr (x, e) ↦
            rw e (elim h [ inl r ↦ inl r | inr l ↦ inr (load-save_failed cfg s.nvs x e ∙ l) ])
      ]

  -- The handler leaves the configuration and what the store has of it.
  abbrev pub Kept : Server p → Server p → Type 0
  Kept s t =
      (t.app.config ≡ s.app.config)
      × (load nvs codec default t.nvs ≡ load nvs codec default s.nvs)
      × (s.restarting ≡ true → t.restarting ≡ true)

  pub Kept-Persisted : (s t : Server p) → Kept s t → Persisted s → Persisted t
  Kept-Persisted s t (c, l, r) (inl h) = inl (r h)
  Kept-Persisted s t (c, l, r) (inr h) = inr (l ∙ h ∙ ap ok (sym c))

  pub switch-config :
      (now : ℕ) (c : SwitchCommand) (a : App p) → (switch_command p now c a).0.config ≡ a.config
  unfolding switch_command
  switch-config now c a = ground arith

  pub clear-config : (t : Reading) (a : App p) → (clear_flow_alarm p t a).config ≡ a.config
  unfolding clear_flow_alarm emit_event
  clear-config t a = ground arith

  authorized-Persisted :
      (req : Request) (s : Server p) (h : Handled p)
      → Persisted s
      → Persisted h.1
      → Persisted (authorized p codec default json req s h).1
  authorized-Persisted req s h k l = elim (Bool-cases (require_auth p req s.app)) [
    | inl e ↦ rw e l
    | inr e ↦ rw e k
  ]

  module _ (back : ReadsBack) (m : Moment) (s : Server p) (h : Persisted s) where
    config_decoded-Persisted :
        (d : Decoded (Config F32)) → Persisted (config_decoded p codec default json m d s).1
    config_decoded-Persisted (parsed u) = save_and_replace-Persisted back m _ s h
    config_decoded-Persisted (invalid e) = h

    config_received-Persisted :
        (r : Received) → Persisted (config_received p codec default json m r s).1
    config_received-Persisted (complete b) = config_decoded-Persisted (json.config b)
    config_received-Persisted (too_large b) = h
    config_received-Persisted io = h

    section_decoded-Persisted :
        (n : SectionName) (d : Decoded (SectionType F32 n))
        → Persisted (section_decoded p codec default json n m d s).1
    unfolding put_section
    section_decoded-Persisted n (parsed new) =
        save_and_replace-Persisted back m _ (record s { wifi = _ }) h
    section_decoded-Persisted n (invalid e) = h

    section_received-Persisted :
        (n : SectionName) (r : Received)
        → Persisted (section_received p codec default json n m r s).1
    section_received-Persisted n (complete b) = section_decoded-Persisted n (json.section n b)
    section_received-Persisted n (too_large b) = h
    section_received-Persisted n io = h

    switch_decoded-Persisted :
        (d : Decoded SwitchCommand) → Persisted (switch_decoded p codec default json m d s).1
    switch_decoded-Persisted (parsed c) =
        let t = record s { app = (switch_command p m.now_ms c s.app).0 } in
        Kept-Persisted s t (switch-config m.now_ms c s.app, refl, λ r. r) h
    switch_decoded-Persisted (invalid e) = h

    switch_received-Persisted :
        (r : Received) → Persisted (switch_received p codec default json m r s).1
    switch_received-Persisted (complete b) = switch_decoded-Persisted (json.switch b)
    switch_received-Persisted (too_large b) = switch_decoded-Persisted (json.switch b)
    switch_received-Persisted io = h

    test_decoded-Persisted :
        (d : Decoded TestReq) → Persisted (test_decoded p codec default json m d s).1
    unfolding emit_event
    test_decoded-Persisted (parsed t) = h
    test_decoded-Persisted (invalid e) = h

    test_received-Persisted :
        (r : Received) → Persisted (test_received p codec default json m r s).1
    test_received-Persisted (complete b) = test_decoded-Persisted (json.test b)
    test_received-Persisted (too_large b) = test_decoded-Persisted (json.test b)
    test_received-Persisted io = h

    ota-Persisted :
        (o : Outcome) (slot : Slot)
        → Persisted (ota_answer p codec default json o (record s { slot = slot })).1
    ota-Persisted (error status e) slot = h
    ota-Persisted (accepted total) slot = inl refl

    reset-Persisted :
        let (r, st) = factory_reset nvs codec default s.nvs in
        Persisted
          (erased p codec default json r
            (record s { nvs = st; app = record s.app { store = some st } })).1
    unfolding factory_reset load
    reset-Persisted = elim (Option-cases (nvs.remove s.nvs nvs_key).0) [
      | inl e ↦ rw e (inl refl)
      | inr (x, e) ↦ rw e (elim h [
        | inl r ↦ inl r
        | inr l ↦ inr (rw (laws.get-remove_failed s.nvs nvs_key nvs_key x e) l)
      ])
    ]

    serve-Persisted :
        (r : Route) (req : Request) → Persisted (serve p codec default json r m req s).1
    unfolding serve
    serve-Persisted get_config req = elim (Bool-cases (contains "all" req.uri)) [
      | inl e ↦ rw e (authorized-Persisted req s (_, s) h h)
      | inr e ↦ rw e h
    ]
    serve-Persisted put_config req =
        authorized-Persisted req s _ h (config_received-Persisted (read_body [] req.reads))
    serve-Persisted (put_sect n) req =
        authorized-Persisted req s _ h (section_received-Persisted n (read_body [] req.reads))
    serve-Persisted post_switch req =
        authorized-Persisted req s _ h (switch_received-Persisted (read_body [] req.reads))
    serve-Persisted post_ota req =
        authorized-Persisted req s _ h
          (ota-Persisted (upload m.ota req.reads s.slot).0 (upload m.ota req.reads s.slot).1)
    serve-Persisted post_reconnect req = authorized-Persisted req s _ h h
    serve-Persisted post_alarm_clear req =
        let t = record s { app = clear_flow_alarm p m.reading s.app } in
        authorized-Persisted req s (_, t) h
          (Kept-Persisted s t (clear-config m.reading s.app, refl, λ r. r) h)
    serve-Persisted post_test req =
        authorized-Persisted req s _ h (test_received-Persisted (read_body [] req.reads))
    serve-Persisted post_reset req = authorized-Persisted req s _ h reset-Persisted
    serve-Persisted _ req = h

    handle-Persisted : (req : Request) → Persisted (handle p codec default json m req s).1
    unfolding handle
    handle-Persisted req = elim (Option-cases (route_of req.method req.path registered)) [
      | inl e ↦ rw (e, handle) h
      | inr (r, e) ↦ rw (e, handle) (serve-Persisted r req)
    ]

  unfoldable pub handle_all : List (Moment × Request) → Server p → Server p
  handle_all [] s = s
  handle_all ((m, req) ∷ rs) s = handle_all rs (handle p codec default json m req s).1

  -- If a start of the device would load the configuration that is in memory, then it does so after any
  -- requests in any order, also where a save failed or a request was refused, unless a factory reset
  -- or an update was accepted and the device is about to restart. The codec reads back what it wrote,
  -- and the store keeps its laws.
  pub handle_all-Persisted :
      ReadsBack
      → (rs : List (Moment × Request)) (s : Server p) → Persisted s
      → Persisted (handle_all rs s)
  unfolding handle_all
  handle_all-Persisted back [] s h = h
  handle_all-Persisted back ((m, req) ∷ rs) s h =
      handle_all-Persisted back rs (handle p codec default json m req s).1
        (handle-Persisted back m s h req)

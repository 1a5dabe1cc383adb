-- ===== src/WebApi/Stored.antt =====
-- webapi.rs: the configuration in memory and the one in the store.
use watercontroller.Base.{
  ◌≡◌, refl, sym, ap, ◌∙◌, ◌⊎◌, arith, true, some, String, List, [], ◌∷◌, inl, inr, Bool-cases,
  Option-cases, str_eq,
}
use watercontroller.Nvs.{Bytes, KeyLaws}
use watercontroller.Config.{Config, restore_secrets_from}
use watercontroller.Config.Persist
use watercontroller.Config.Persist.{
  Codec, ConfigError, Result, ok, err, nvs_key, load, save, load-save,
}
use watercontroller.App.{App, SwitchCommand, switch_command, emit_event, replace_config_section}
use watercontroller.App.Env.{Platform}
use watercontroller.App.FlowAlarm.{clear_flow_alarm}
use watercontroller.Http.{Server}
use watercontroller.Http.Routes.{Decoded, parsed, invalid, TestReq, Moment}
use watercontroller.WebApi.{
  Value, ApiResp, store_error, no_content, SerdeJson, Handled, with_store, restore_and_save,
  put_decoded, api_put, switch_decoded, erased, api_post, alarm_post, test_decoded, webhooks_post,
  merged, section_decoded, config_section_put,
}

-- A request that can change the state, by the function that gets it.
pub data Call : Type 0 where
  put post webhooks section : (seg : String) → Bytes → Call
  alarm : (action : String) → Call

-- The answer that a save or an erasure failed.
abbrev pub IsStored : {F : Type 0} → ApiResp F → Type 0
IsStored (store_error what e) = ⊥
IsStored _ = Unit

Result-cases : (r : Result (Unit {0})) → (r ≡ ok tt) ⊎ ((e : ConfigError) × (r ≡ err e))
Result-cases (ok tt) = inl refl
Result-cases (err e) = inr (e, refl)

module _ (p : Platform) (laws : KeyLaws p.nvs) (codec : Codec (Config p.F32))
    (default : Config p.F32) (json : SerdeJson p.F32) where
  open p use {F32, nvs}

  unfoldable pub call : Moment → Call → Server p → Handled p codec default json
  unfolding api_put api_post webhooks_post config_section_put alarm_post
  call m (put seg body) s = api_put p codec default json m seg body s
  call m (post seg body) s = api_post p codec default json m seg body s
  call m (webhooks seg body) s = webhooks_post p codec default json m seg body s
  call m (section seg body) s = config_section_put p codec default json m seg body s
  call m (alarm action) s = alarm_post p codec default json m action s

  -- What a start that finds the store like this would load is the configuration in memory, or the
  -- device is about to restart after a factory reset.
  abbrev pub IsPersisted : Server p → Type 0
  IsPersisted s = (s.restarting ≡ true) ⊎ (load nvs codec default s.nvs ≡ ok s.app.config)

  -- The codec reads back what it wrote.
  abbrev pub ReadsBack : Type 0
  ReadsBack =
      (cfg : Config F32) (b : Bytes) → codec.to_vec cfg ≡ some b → codec.from_slice b ≡ some cfg

  -- The answer does not say that a save failed, and the server has what it had of the configuration; or
  -- it says so.
  abbrev Keeps : Handled p codec default json → Type 0
  Keeps h = IsStored h.0 → IsPersisted h.1

  replace-config :
      (m : Moment) (cfg : Config F32) (a : App p)
      → (replace_config_section p m.reading cfg "all" a).config ≡ cfg
  unfolding replace_config_section emit_event
  replace-config m cfg a = refl

  module _ (back : ReadsBack) (m : Moment) (s : Server p) (h : IsPersisted s) where
    restore-Keeps :
        (incoming : Config F32) → Keeps (restore_and_save p codec default json m incoming s)
    unfolding restore_and_save
    restore-Keeps incoming =
        let cfg = restore_secrets_from s.app.config incoming in
        elim (Result-cases (save nvs codec default cfg s.nvs).0) [
          | inl e ↦ rw e (λ k. inr (
              (load-save nvs laws codec default cfg s.nvs (back cfg) e).0
              ∙ ap ok (sym (replace-config m cfg _))))
          | inr (x, e) ↦ rw e (λ k. absurd k)
        ]

    put-Keeps :
        (what : String) (d : Decoded (Config F32))
        → Keeps (put_decoded p codec default json m what d s)
    put-Keeps what (invalid e) = λ k. h
    put-Keeps what (parsed c) = restore-Keeps c

    section-Keeps :
        (name : String) (d : Decoded (Value F32))
        → Keeps (section_decoded p codec default json m name d s)
    section-Keeps name (invalid e) = λ k. h
    section-Keeps name (parsed v) = elim (Option-cases (json.to_value s.app.config)) [
      | inl e ↦ rw e (λ k. h)
      | inr (tree, e) ↦ elim (Option-cases (merged p codec default json name v tree)) [
        | inl g ↦ rw (e, g) (λ k. h)
        | inr (full, g) ↦ rw (e, g) (put-Keeps "invalid config: " (json.from_value full))
      ]
    ]

    -- The configuration and the store are as they were.
    alike :
        (t : Server p)
        → t.app.config ≡ s.app.config
        → t.nvs ≡ s.nvs
        → t.restarting ≡ s.restarting
        → IsPersisted t
    alike t c n r = elim h [
      | inl k ↦ inl (r ∙ k)
      | inr k ↦ inr (ap (load nvs codec default) n ∙ k ∙ ap ok (sym c))
    ]

    switch-Keeps : (d : Decoded SwitchCommand) → Keeps (switch_decoded p codec default json m d s)
    unfolding switch_command
    switch-Keeps (invalid e) = λ k. h
    switch-Keeps (parsed c) = λ k.
        alike (record s { app = (switch_command p m.now_ms c s.app).0 }) (ground arith) refl refl

    test-Keeps : (d : Decoded TestReq) → Keeps (test_decoded p codec default json m d s)
    unfolding emit_event
    test-Keeps (invalid e) = λ k. h
    test-Keeps (parsed t) = λ k. h

    reset-Keeps :
        let (r, st) = Persist.factory_reset nvs codec default s.nvs in
        Keeps (erased p codec default json r (with_store p codec default json st s))
    unfolding Persist.factory_reset
    reset-Keeps = elim (Option-cases (nvs.remove s.nvs nvs_key).0) [
      | inl e ↦ rw e (λ k. inl refl)
      | inr (x, e) ↦ rw e (λ k. absurd k)
    ]

    clear-Keeps : Keeps (no_content, record s { app = clear_flow_alarm p m.reading s.app })
    unfolding clear_flow_alarm emit_event
    clear-Keeps =
        λ k. alike (record s { app = clear_flow_alarm p m.reading s.app }) (ground arith) refl refl

    call-Keeps : (c : Call) → Keeps (call m c s)
    unfolding call api_put api_post webhooks_post config_section_put alarm_post
    call-Keeps (put seg body) = elim (Bool-cases (str_eq seg "config")) [
      | inl e ↦ rw (e, call, api_put) (put-Keeps "bad config json: " (json.config body))
      | inr e ↦ rw (e, call, api_put) (λ k. h)
    ]
    call-Keeps (post seg body) = elim (Bool-cases (str_eq seg "switch")) [
      | inl e ↦ rw (e, call, api_post) (switch-Keeps (json.switch body))
      | inr e ↦ elim (Bool-cases (str_eq seg "factory_reset")) [
        | inl g ↦ rw (e, g, call, api_post) reset-Keeps
        | inr g ↦ rw (e, g, call, api_post) (λ k. h)
      ]
    ]
    call-Keeps (webhooks seg body) = elim (Bool-cases (str_eq seg "test")) [
      | inl e ↦ rw (e, call, webhooks_post) (test-Keeps (json.test body))
      | inr e ↦ rw (e, call, webhooks_post) (λ k. h)
    ]
    call-Keeps (section seg body) = section-Keeps seg (json.value body)
    call-Keeps (alarm action) = elim (Bool-cases (str_eq action "clear")) [
      | inl e ↦ rw (e, call, alarm_post) clear-Keeps
      | inr e ↦ rw (e, call, alarm_post) (λ k. h)
    ]

  unfoldable pub call_all : List (Moment × Call) → Server p → Server p
  unfolding call
  call_all [] s = s
  call_all ((m, c) ∷ cs) s = call_all cs (call m c s).1

  -- No answer says that a save or an erasure failed.
  abbrev pub AreStored : List (Moment × Call) → Server p → Type 0
  AreStored [] s = Unit
  AreStored ((m, c) ∷ cs) s = IsStored (call m c s).0 × AreStored cs (call m c s).1

  -- The codec reads back what it wrote, and the store meets `KeyLaws`, as the one in flash does. If a
  -- start that finds the store as it is would load the configuration that is in memory, then it does so
  -- after any requests to the API in any order, also where a request was refused or the merge of a
  -- section failed, unless a factory reset was accepted and the device is about to restart, if no answer
  -- says that a save or an erasure failed.
  pub call_all-IsPersisted :
      ReadsBack
      → (cs : List (Moment × Call)) (s : Server p) → IsPersisted s
      → AreStored cs s
      → IsPersisted (call_all cs s)
  unfolding call_all
  call_all-IsPersisted back [] s h k = h
  call_all-IsPersisted back ((m, c) ∷ cs) s h (k, ks) =
      call_all-IsPersisted back cs (call m c s).1 (call-Keeps back m s h c k) ks

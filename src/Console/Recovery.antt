-- ===== src/Console/Recovery.antt =====
-- What the console changes, and what it is for: to start afresh, and to reach the setup portal.
use watercontroller.Base.{
  ℕ, suc, String, true, false, Option, none, some, List, [], ◌∷◌, ◌≡◌, refl, sym, ap, ◌∙◌,
  Bool-cases, inl, inr, str_eq,
}
use watercontroller.Nvs.{NvsStore, KeyLaws}
use watercontroller.Config.{Config, WifiCreds}
use watercontroller.Config.Persist.{Codec, ok, load, factory_reset, load-factory_reset, nvs_key}
use watercontroller.App.{App, read_nvs, emit_event}
use watercontroller.App.Env.{Platform, Reading}
use watercontroller.App.FlowAlarm.{clear_flow_alarm, set_alarm}
use watercontroller.Boot as Mode
use watercontroller.Boot.{
  BootMode, byte_of, same_mode, boot_mode_key, read_boot_mode, write_boot_mode, boot_ap,
}
use watercontroller.Boot.Fallback.{ReadsBack, read-write_boot_mode, boot_ap-hint}
use watercontroller.Console as Serial
use watercontroller.Console.{
  Command, Console, trim, erase, hint, command_of, execute, handle, handle_all, serial_task,
}
use watercontroller.Console.Line.{read_keys, key, push}

module _ (n : NvsStore) (laws : KeyLaws n) where
  get-write_boot_mode :
      (mode : BootMode) (s : n.Store) (k : String)
      → str_eq boot_mode_key k ≡ false
      → n.get (write_boot_mode n mode s) k ≡ n.get s k
  unfolding write_boot_mode
  get-write_boot_mode mode s k ne =
      let b = byte_of mode ∷ [] in
      elim (Bool-cases (same_mode (read_boot_mode n s) mode)) [
        | inl e ↦ rw e refl
        | inr e ↦ rw e (laws.get-set_other s boot_mode_key k b ne)
      ]

  get-factory_reset :
      {F : Type 0} (codec : Codec (Config F)) (d : Config F) (s : n.Store) (k : String)
      → str_eq nvs_key k ≡ false
      → n.get (factory_reset n codec d s).1 k ≡ n.get s k
  unfolding factory_reset
  get-factory_reset codec d s k ne = laws.get-remove_other s nvs_key k ne

module _ (p : Platform) (laws : KeyLaws p.nvs) (codec : Codec (Config p.F32))
    (default : Config p.F32) where
  open p use {F32, nvs}

  -- What drives the water, and what the store has beside the configuration and the hint.
  record Kept (a b : App p) : Type 0 where
    valve : b.valve ≡ a.valve
    sprinkler1 : b.sprinkler1 ≡ a.sprinkler1
    sprinkler2 : b.sprinkler2 ≡ a.sprinkler2
    config : b.config ≡ a.config
    stored :
        (k : String)
        → str_eq nvs_key k ≡ false
        → str_eq boot_mode_key k ≡ false
        → read_nvs p b.store k ≡ read_nvs p a.store k

  same : (a : App p) → Kept a a
  same a = record {
    valve = refl;
    sprinkler1 = refl;
    sprinkler2 = refl;
    config = refl;
    stored = λ k h g. refl;
  }

  erase-Kept :
      (store : Option nvs.Store) (c : Console p codec default)
      → c.app.store ≡ store
      → Kept c.app (erase p codec default store c).app
  erase-Kept none c h = same c.app
  erase-Kept (some s) c h = record {
    valve = refl;
    sprinkler1 = refl;
    sprinkler2 = refl;
    config = refl;
    stored = λ k h1 h2.
        get-factory_reset nvs laws codec default s k h1
        ∙ ap (λ (o : Option nvs.Store). read_nvs p o k) (sym h);
  }

  hint-Kept :
      (store : Option nvs.Store) (c : Console p codec default)
      → c.app.store ≡ store
      → Kept c.app (hint p codec default store c).app
  hint-Kept none c h = same c.app
  hint-Kept (some s) c h = record {
    valve = refl;
    sprinkler1 = refl;
    sprinkler2 = refl;
    config = refl;
    stored = λ k h1 h2.
        get-write_boot_mode nvs laws Mode.ap s k h2
        ∙ ap (λ (o : Option nvs.Store). read_nvs p o k) (sym h);
  }

  clear-Kept : (t : Reading) (a : App p) → Kept a (clear_flow_alarm p t a)
  unfolding clear_flow_alarm set_alarm emit_event
  clear-Kept t a = elim (Bool-cases a.state.alarm.active) [
    | inl e ↦ rw e record {
      valve = refl;
      sprinkler1 = refl;
      sprinkler2 = refl;
      config = refl;
      stored = λ k h1 h2. refl;
    }
    | inr e ↦ rw e record {
      valve = refl;
      sprinkler1 = refl;
      sprinkler2 = refl;
      config = refl;
      stored = λ k h1 h2. refl;
    }
  ]

  execute-Kept :
      (t : Reading) (cmd : Command) (c : Console p codec default)
      → Kept c.app (execute p codec default t cmd c).app
  unfolding execute
  execute-Kept t Serial.nothing c = same c.app
  execute-Kept t Serial.help c = same c.app
  execute-Kept t Serial.status c = same c.app
  execute-Kept t Serial.diag c = same c.app
  execute-Kept t Serial.reset c = same c.app
  execute-Kept t Serial.config_reset c = erase-Kept c.app.store c refl
  execute-Kept t Serial.ap c = hint-Kept c.app.store c refl
  execute-Kept t Serial.alarm_clear c = clear-Kept t c.app
  execute-Kept t (Serial.unknown other) c = same c.app

  trans : {a b c : App p} → Kept a b → Kept b c → Kept a c
  trans h g = record {
    valve = g.valve ∙ h.valve;
    sprinkler1 = g.sprinkler1 ∙ h.sprinkler1;
    sprinkler2 = g.sprinkler2 ∙ h.sprinkler2;
    config = g.config ∙ h.config;
    stored = λ k h1 h2. g.stored k h1 h2 ∙ h.stored k h1 h2;
  }

  handle_all-Kept :
      (clock : ℕ → Reading) (ls : List String) (c : Console p codec default)
      → Kept c.app (handle_all p codec default clock ls c).app
  unfolding handle_all handle
  handle_all-Kept clock [] c = same c.app
  handle_all-Kept clock (l ∷ ls) c =
      let first = execute-Kept (clock 0) (command_of l) c in
      let later = handle_all-Kept (λ n. clock (suc n)) ls (handle p codec default (clock 0) l c) in
      trans first later

  -- Whatever bytes arrive, also where a write fails: the valve, the sprinklers and the configuration
  -- in memory are as before, and so is every value in the store but those of the configuration and of
  -- the radio mode.
  pub serial_task-Kept :
      (clock : ℕ → Reading) (line bytes : String) (c : Console p codec default)
      → let a = (serial_task p codec default clock line bytes c).0.app in
        (a.valve ≡ c.app.valve)
        × (a.sprinkler1 ≡ c.app.sprinkler1)
        × (a.sprinkler2 ≡ c.app.sprinkler2)
        × (a.config ≡ c.app.config)
        × ((k : String)
            → str_eq nvs_key k ≡ false
            → str_eq boot_mode_key k ≡ false
            → read_nvs p a.store k ≡ read_nvs p c.app.store k)
  unfolding serial_task
  serial_task-Kept clock line bytes c =
      let k = handle_all-Kept clock (read_keys line bytes).0 c in
      (k.valve, k.sprinkler1, k.sprinkler2, k.config, k.stored)

  load-get :
      (s s' : nvs.Store)
      → nvs.get s' nvs_key ≡ nvs.get s nvs_key
      → load nvs codec default s' ≡ load nvs codec default s
  unfolding load
  load-get s s' h = rw h refl

  typed : read_keys "" "config reset\rap\r" ≡ ("config reset" ∷ "ap" ∷ [], "")
  unfolding read_keys key push
  typed = refl

  commands_typed : (command_of "config reset" ≡ Serial.config_reset) × (command_of "ap" ≡ Serial.ap)
  unfolding command_of trim
  commands_typed = (refl, refl)

  typed_runs :
      (clock : ℕ → Reading) (c : Console p codec default)
      → (serial_task p codec default clock "" "config reset\rap\r" c).0
        ≡ execute p codec default
            (clock 1)
            Serial.ap
            (execute p codec default (clock 0) Serial.config_reset c)
  unfolding serial_task handle_all handle
  typed_runs clock c =
      let (first, second) = commands_typed in
      ap (λ (r : List String × String). handle_all p codec default clock r.0 c) typed
      ∙ ap
          (λ (k : Command).
            handle_all p codec default (λ n. clock (suc n)) ("ap" ∷ [])
              (execute p codec default (clock 0) k c))
          first
      ∙ ap
          (λ (k : Command).
            execute p codec default (clock 1) k
              (execute p codec default (clock 0) Serial.config_reset c))
          second

  executed :
      (t u : Reading) (c : Console p codec default) (s : nvs.Store) (nets : List WifiCreds)
      → c.app.store ≡ some s
      → (nvs.remove s nvs_key).0 ≡ none
      → (nvs.set (nvs.remove s nvs_key).1 boot_mode_key (1 ∷ [])).0 ≡ none
      → let c1 = execute p codec default t Serial.config_reset c in
        let c' = execute p codec default u Serial.ap c1 in
        (s' : nvs.Store) × (c'.app.store ≡ some s')
        × (load nvs codec default s' ≡ ok default)
        × (boot_ap nvs nets s' ≡ true)
  unfolding execute factory_reset
  executed t u c s nets h g k =
      let s1 = (factory_reset nvs codec default s).1 in
      let s2 = write_boot_mode nvs Mode.ap s1 in
      let c1 = erase p codec default c.app.store c in
      let first : c1.app.store ≡ some s1 =
        ap (λ (o : Option nvs.Store). (erase p codec default o c).app.store) h in
      let second : (hint p codec default c1.app.store c1).app.store ≡ some s2 =
        ap (λ (o : Option nvs.Store). (hint p codec default o c1).app.store) first in
      let reset_ok : (factory_reset nvs codec default s).0 ≡ ok tt = rw g refl in
      let reads : ReadsBack nvs = λ r b e. laws.get-set r boot_mode_key boot_mode_key b e ∙ refl in
      let loaded =
        load-get s1 s2 (get-write_boot_mode nvs laws Mode.ap s1 nvs_key refl)
        ∙ (load-factory_reset nvs laws codec default s reset_ok).0 in
      (
        s2,
        second,
        loaded,
        boot_ap-hint nvs nets s2 Mode.ap (read-write_boot_mode nvs reads Mode.ap s1 k) refl,
      )

  -- The store meets `KeyLaws`, as the one in flash does. From an idle line and a store `s` in which the
  -- configuration can be removed and the hint be written then: after `config reset` and `ap` a reboot is requested, the start after it loads the default
  -- configuration, and the boot comes up as the setup portal whatever networks that has.
  pub serial_task-boots :
      (clock : ℕ → Reading) (c : Console p codec default) (s : nvs.Store) (nets : List WifiCreds)
      → c.app.store ≡ some s
      → (nvs.remove s nvs_key).0 ≡ none
      → (nvs.set (nvs.remove s nvs_key).1 boot_mode_key (1 ∷ [])).0 ≡ none
      → let c' = (serial_task p codec default clock "" "config reset\rap\r" c).0 in
        (c'.rebooting ≡ true)
        × (s' : nvs.Store) × (c'.app.store ≡ some s')
        × (load nvs codec default s' ≡ ok default)
        × (boot_ap nvs nets s' ≡ true)
  unfolding execute
  serial_task-boots clock c s nets h g k =
      let (s', kept, loaded, portal) = executed (clock 0) (clock 1) c s nets h g k in
      rw (typed_runs clock c) (refl, s', kept, loaded, portal)

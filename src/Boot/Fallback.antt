-- ===== src/Boot/Fallback.antt =====
-- `connection_task` and `scan_task`: from the station to the setup portal and back.
use watercontroller.Base.{
  String, ℕ, suc, ◌+◌, ◌*◌, ◌%◌, ◌≤◌, ◌<◌, ◌≡◌, refl, sym, ap, ◌∙◌, arith, true, false, none, some,
  List, [], ◌∷◌, ◌++◌, inl, inr, All, leb, length, drop, length-append, drop-length, append-nil,
  snoc-append, Bool-cases, str_eq_refl,
}
use mathlib.Core.List.{append_assoc}
use native.Mathlib.Nat.{mod-eq_of_lt}
use watercontroller.Config.{WifiCreds}
use watercontroller.Nvs.{Bytes, NvsStore}
use watercontroller.Boot as Mode
use watercontroller.Boot.{
  BootMode, sta, mode_of, byte_of, same_mode, is_ap, is_among, any_known, ssids, scan_turn,
  boot_mode_key, read_boot_mode, write_boot_mode, boot_ap,
}
use watercontroller.Boot.Station.{
  Attempt, unset, refused, joined, Station, started, attempt, turn, run,
}

-- The radio refuses the settings or the join.
abbrev pub IsFailure : Attempt → Type 0
IsFailure unset = Unit
IsFailure refused = Unit
IsFailure _ = ⊥

same_mode_sound : (m k : BootMode) → same_mode m k ≡ true → m ≡ k
same_mode_sound sta sta h = refl
same_mode_sound sta Mode.ap h = cc
same_mode_sound Mode.ap sta h = cc
same_mode_sound Mode.ap Mode.ap h = refl

mode_of-byte_of : (m : BootMode) → mode_of (some (byte_of m ∷ [])) ≡ m
mode_of-byte_of sta = refl
mode_of-byte_of Mode.ap = refl

is_among-ssids :
    (pre : List WifiCreds) (x : WifiCreds) (post : List WifiCreds)
    → is_among x.ssid (ssids (pre ++ x ∷ post)) ≡ true
unfolding is_among
is_among-ssids [] x post = rw (str_eq_refl x.ssid) refl
is_among-ssids (c ∷ pre) x post = ground (arith, is_among-ssids pre x post)

any_known-found :
    (known before : List String) (s : String) (after : List String)
    → is_among s known ≡ true
    → any_known known (before ++ s ∷ after) ≡ true
unfolding any_known
any_known-found known [] s after h = rw h refl
any_known-found known (b ∷ before) s after h =
    ground (arith, any_known-found known before s after h)

-- A hint that was written without an error is read back.
abbrev pub ReadsBack : NvsStore → Type 0
ReadsBack n =
    (s : n.Store) (b : Bytes)
    → (n.set s boot_mode_key b).0 ≡ none
    → n.get (n.set s boot_mode_key b).1 boot_mode_key ≡ some b

module _ (n : NvsStore) where
  -- What failed attempts at the networks `post` change and keep, and where they leave the index.
  record Passed (nets post : List WifiCreds) (t t' : Station n) : Type 0 where
    fails : t'.fails ≡ t.fails + length post
    tried : t'.tried ≡ t.tried ++ post
    store : t'.store ≡ t.store
    reboot : t'.reboot ≡ t.reboot
    index : t'.idx % length nets ≡ length nets % length nets

  attempt-failed :
      (t : Station n) (x : WifiCreds) (a : Attempt)
      → IsFailure a
      → attempt n x a t
        ≡ record t { idx = t.idx + 1; fails = t.fails + 1; tried = t.tried ++ x ∷ [] }
  unfolding attempt
  attempt-failed t x unset f = refl
  attempt-failed t x refused f = refl
  attempt-failed t x (joined es) f = elim f [ ]

  turn-failed :
      (nets pre post : List WifiCreds) (x : WifiCreds) (a : Attempt) (t : Station n)
      → nets ≡ pre ++ x ∷ post
      → IsFailure a
      → t.idx % length nets ≡ length pre
      → t.fails < length nets * 3
      → turn n nets a t
        ≡ record t { idx = t.idx % length nets + 1; fails = t.fails + 1; tried = t.tried ++ x ∷ [] }
  unfolding turn
  turn-failed [] pre post x a t h f i k = absurd (omega arith)
  turn-failed (c ∷ cs) pre post x a t h f i k =
      let nets = c ∷ cs in
      let few : leb (length nets * 3) t.fails ≡ false = ground arith in
      let here : drop (t.idx % length nets) nets ≡ x ∷ post =
        ap (λ (j : ℕ). drop j nets) i ∙ ap (drop (length pre)) h ∙ drop-length pre (x ∷ post) in
      rw (few, here) (attempt-failed (record t { idx = t.idx % length nets }) x a f)

  run-failed :
      (nets pre post : List WifiCreds) (as' : List Attempt) (t : Station n)
      → nets ≡ pre ++ post
      → length as' ≡ length post
      → All IsFailure as'
      → t.idx % length nets ≡ length pre % length nets
      → t.fails + length post ≤ length nets * 3
      → Passed nets post t (run n nets as' t)
  unfolding run
  run-failed nets pre [] [] t h l f i k = record {
    fails = omega arith;
    tried = sym (append-nil t.tried);
    store = refl;
    reboot = refl;
    index =
        i ∙ ap (λ (j : ℕ). j % length nets) (ap length (sym (append-nil pre)) ∙ ap length (sym h));
  }
  run-failed nets pre [] (a ∷ as') t h l f i k = absurd (omega arith)
  run-failed nets pre (x ∷ post) [] t h l f i k = absurd (omega arith)
  run-failed nets pre (x ∷ post) (a ∷ as') t h l (f, fs) i k =
      let size : length nets ≡ length pre + suc (length post) =
        ap length h ∙ length-append pre (x ∷ post) in
      let here : t.idx % length nets ≡ length pre = i ∙ mod-eq_of_lt (omega arith) in
      let step = turn-failed nets pre post x a t h f here (omega arith) in
      let t1 : Station n = record t {
        idx = t.idx % length nets + 1;
        fails = t.fails + 1;
        tried = t.tried ++ x ∷ [];
      } in
      let at : t1.idx % length nets ≡ length (pre ++ x ∷ []) % length nets =
        ap (λ (j : ℕ). j % length nets) (omega (arith, here, length-append pre (x ∷ []))) in
      let later =
        run-failed nets (pre ++ x ∷ []) post as' t1 (h ∙ sym (snoc-append pre x post)) (omega arith)
          fs at (omega arith) in
      rw step (record {
        fails = later.fails ∙ omega arith;
        tried = later.tried ∙ snoc-append t.tried x post;
        store = later.store;
        reboot = later.reboot;
        index = later.index;
      })

  run-append :
      (nets : List WifiCreds) (as' bs : List Attempt) (t : Station n)
      → run n nets (as' ++ bs) t ≡ run n nets bs (run n nets as' t)
  unfolding run
  run-append nets [] bs t = refl
  run-append nets (a ∷ as') bs t = run-append nets as' bs (turn n nets a t)

  -- One round over all networks, from an index that stands for the first one.
  round :
      (nets : List WifiCreds) (as' : List Attempt) (t : Station n)
      → length as' ≡ length nets
      → All IsFailure as'
      → t.idx % length nets ≡ 0 % length nets
      → t.fails + length nets ≤ length nets * 3
      → Passed nets nets t (run n nets as' t)
  round nets as' t l f i k = run-failed nets [] nets as' t refl l f i k

  mod_self : (k : ℕ) → k % k ≡ 0 % k
  mod_self k = grind arith

  -- A hint that could be written is read back.
  pub read-write_boot_mode :
      ReadsBack n
      → (mode : BootMode) (s : n.Store) → (n.set s boot_mode_key (byte_of mode ∷ [])).0 ≡ none
      → read_boot_mode n (write_boot_mode n mode s) ≡ mode
  unfolding write_boot_mode read_boot_mode
  read-write_boot_mode reads mode s ok = elim (Bool-cases (same_mode (read_boot_mode n s) mode)) [
    | inl e ↦ rw e (same_mode_sound (read_boot_mode n s) mode e)
    | inr e ↦
        let stored = reads s (byte_of mode ∷ []) ok in
        rw e (ap mode_of stored ∙ mode_of-byte_of mode)
  ]

  pub boot_ap-hint :
      (nets : List WifiCreds) (s : n.Store) (mode : BootMode)
      → read_boot_mode n s ≡ mode
      → is_ap mode ≡ true
      → boot_ap n nets s ≡ true
  unfolding boot_ap
  boot_ap-hint [] s mode h k = refl
  boot_ap-hint (c ∷ cs) s mode h k = ap is_ap h ∙ k

  turn-exhausted :
      (nets : List WifiCreds) (a : Attempt) (t : Station n)
      → 1 ≤ length nets
      → length nets * 3 ≤ t.fails
      → turn n nets a t ≡ record t { store = write_boot_mode n Mode.ap t.store; reboot = true }
  unfolding turn
  turn-exhausted [] a t h k = absurd (omega arith)
  turn-exhausted (c ∷ cs) a t h k =
      let spent : leb (length (c ∷ cs) * 3) t.fails ≡ true = ground arith in rw spent refl

  -- From the start of the task, while the configuration has the same networks, one at least: if the
  -- radio fails at every attempt of three rounds, then each round tries every network once, in the order
  -- of the configuration, and till then no reboot is requested and the store is as it was. The turn
  -- after them requests a reboot, and the boot after it comes up as the setup portal whatever networks
  -- are configured, if the hint can be written and read back.
  pub run-fallback :
      ReadsBack n
      → (nets nets' : List WifiCreds) (as' bs cs : List Attempt) (a : Attempt) (s : n.Store)
      → 1 ≤ length nets
      → (length as' ≡ length nets) × All IsFailure as'
      → (length bs ≡ length nets) × All IsFailure bs
      → (length cs ≡ length nets) × All IsFailure cs
      → (n.set s boot_mode_key (1 ∷ [])).0 ≡ none
      → let t = run n nets (as' ++ (bs ++ cs)) (started n s) in
        (t.tried ≡ nets ++ (nets ++ nets))
        × (t.reboot ≡ false)
        × (t.store ≡ s)
        × ((turn n nets a t).reboot ≡ true)
        × (boot_ap n nets' (turn n nets a t).store ≡ true)
  run-fallback reads nets nets' as' bs cs a s h (l, f) (m, g) (q, k) ok =
      let t0 = started n s in
      let t1 = run n nets as' t0 in
      let t2 = run n nets bs t1 in
      let t3 = run n nets cs t2 in
      let one = round nets as' t0 l f refl (omega arith) in
      let two =
        round nets bs t1 m g (one.index ∙ mod_self (length nets)) (omega (arith, one.fails)) in
      let three =
        round nets cs t2 q k (two.index ∙ mod_self (length nets))
          (omega (arith, one.fails, two.fails)) in
      let whole : run n nets (as' ++ (bs ++ cs)) t0 ≡ t3 =
        run-append nets as' (bs ++ cs) t0 ∙ run-append nets bs cs t1 in
      let last = turn-exhausted nets a t3 h (omega (arith, one.fails, two.fails, three.fails)) in
      let same : t3.store ≡ s = three.store ∙ two.store ∙ one.store in
      let hint = read-write_boot_mode reads Mode.ap s ok in
      rw whole (
        three.tried
            ∙ ap (λ (l : List WifiCreds). l ++ nets)
                (two.tried ∙ ap (λ (l : List WifiCreds). l ++ nets) one.tried)
            ∙ append_assoc nets nets nets,
        three.reboot ∙ two.reboot ∙ one.reboot,
        same,
        ap (λ (t : Station n). t.reboot) last,
        ap (λ (t : Station n). boot_ap n nets' t.store) last
            ∙ ap (λ (r : n.Store). boot_ap n nets' (write_boot_mode n Mode.ap r)) same
            ∙ boot_ap-hint nets' (write_boot_mode n Mode.ap s) Mode.ap hint refl,
      )

  scan_turn-any :
      (nets : List WifiCreds) (aps : List String) (s : n.Store)
      → any_known (ssids nets) aps ≡ true
      → 1 ≤ length nets
      → scan_turn n nets (some aps) s ≡ (write_boot_mode n sta s, true)
  unfolding scan_turn
  scan_turn-any [] aps s h k = absurd (omega arith)
  scan_turn-any (c ∷ cs) aps s h k = rw h refl

  boot_ap-sta :
      (nets : List WifiCreds) (s : n.Store)
      → 1 ≤ length nets
      → read_boot_mode n s ≡ sta
      → boot_ap n nets s ≡ false
  unfolding boot_ap
  boot_ap-sta [] s h k = absurd (omega arith)
  boot_ap-sta (c ∷ cs) s h k = ap is_ap k

  -- A scan of the setup portal that finds a configured network, wherever it stands among those found
  -- and those configured, requests a reboot, and the boot after it joins a network, if the hint can be
  -- written and read back.
  pub scan_turn-boot_ap :
      ReadsBack n
      → (pre post : List WifiCreds) (x : WifiCreds) (before after : List String) (s : n.Store)
      → (n.set s boot_mode_key (0 ∷ [])).0 ≡ none
      → let r = scan_turn n (pre ++ x ∷ post) (some (before ++ x.ssid ∷ after)) s in
        (r.1 ≡ true) × (boot_ap n (pre ++ x ∷ post) r.0 ≡ false)
  scan_turn-boot_ap reads pre post x before after s ok =
      let nets = pre ++ x ∷ post in
      let size : 1 ≤ length nets = omega (arith, length-append pre (x ∷ post)) in
      let seen = any_known-found (ssids nets) before x.ssid after (is_among-ssids pre x post) in
      rw (scan_turn-any nets (before ++ x.ssid ∷ after) s seen size) (
        refl,
        boot_ap-sta nets (write_boot_mode n sta s) size (read-write_boot_mode reads sta s ok),
      )

-- ===== src/Http/Guard.antt =====
-- http_server.rs: what a request without the token can do.
use watercontroller.Base.{
  ◌<>◌, ◌≡◌, ◌≢◌, ◌↔◌, ◌⊎◌, inl, inr, refl, ap, sym, ◌∙◌, arith, String, Bool, true, false, Option,
  none, some, [], ◌∷◌, ◌&&◌, Option-cases, Bool-cases, is_empty, is_empty_iff, strip_prefix,
  strip_prefix_sound, strip_prefix-append, str_eq, str_eq_iff,
}
use watercontroller.Config.{Config}
use watercontroller.Config.Persist.{Codec}
use watercontroller.App.{App}
use watercontroller.App.Env.{Platform}
use watercontroller.Http.{
  Method, get, put, post, Request, Server, Answer, no_handler, header_or_empty, is_token,
  require_auth,
}
use watercontroller.Http.Routes.{
  Json, Moment, Route, put_config, put_sect, post_switch, post_ota, post_reconnect,
  post_alarm_clear, post_test, post_reset, Registered, registered, route_of, same_method,
  write_unauthorized, serve, handle,
}

-- The header that the device asks for.
abbrev pub Bears : Request → String → Type 0
Bears req token = req.authorization ≡ some ("Bearer " <> token)

token_sound :
    (o : Option String) (token : String)
    → is_token (strip_prefix "Bearer " (header_or_empty o)) token ≡ true
    → o ≡ some ("Bearer " <> token)
token_sound none token h = absurd (unfold strip_prefix in ground (arith, h))
token_sound (some s) token h = elim (Option-cases (strip_prefix "Bearer " s)) [
  | inl e ↦ absurd (ground (arith, h, e))
  | inr (t, e) ↦
      let same : t ≡ token = ground (arith, h, e, str_eq_iff t token) in
      ap some (strip_prefix_sound "Bearer " s t e ∙ ap (λ u. "Bearer " <> u) same)
]

token_complete :
    (token : String) → is_token (strip_prefix "Bearer " ("Bearer " <> token)) token ≡ true
token_complete token = ground (arith, strip_prefix-append "Bearer " token, str_eq_iff token token)

-- A request passes the check if no token is set or if it bears the token, and only then.
require_auth_iff :
    (p : Platform) (req : Request) (a : App p)
    → (require_auth p req a ≡ true) ↔ ((a.config.admin_token ≡ "") ⊎ Bears req a.config.admin_token)
unfolding require_auth
require_auth_iff p req a =
    let token = a.config.admin_token in
    (
      λ h. elim (Bool-cases (is_empty token)) [
        | inl e ↦ inl ((is_empty_iff token).0 e)
        | inr e ↦ inr (token_sound req.authorization token (ground (arith, h, e)))
      ],
      λ h. elim h [
        | inl e ↦ ground (arith, (is_empty_iff token).1 e)
        | inr e ↦ rw e (ground (arith, token_complete token))
      ],
    )

pub require_auth_fails :
    (p : Platform) (req : Request) (a : App p)
    → a.config.admin_token ≢ ""
    → ¬ Bears req a.config.admin_token
    → require_auth p req a ≡ false
require_auth_fails p req a h k = elim (Bool-cases (require_auth p req a)) [
  | inl e ↦ absurd (elim ((require_auth_iff p req a).0 e) [ inl x ↦ h x | inr x ↦ k x ])
  | inr e ↦ e
]

-- The routes that ask for the token before anything else.
abbrev pub guards : Route → Bool
guards put_config = true
guards (put_sect n) = true
guards post_switch = true
guards post_ota = true
guards post_reconnect = true
guards post_alarm_clear = true
guards post_test = true
guards post_reset = true
guards _ = false

abbrev guarded_entry : Method → Route → Bool
guarded_entry get r = true
guarded_entry _ r = guards r

abbrev all_guarded : Registered → Bool
all_guarded [] = true
all_guarded ((m, path, r) ∷ rs) = let rest = all_guarded rs in guarded_entry m r && rest

same_method_sound : (m n : Method) → same_method m n ≡ true → m ≡ n
same_method_sound get get h = refl
same_method_sound put put h = refl
same_method_sound post post h = refl
same_method_sound get put h = absurd (ground (arith, h))
same_method_sound get post h = absurd (ground (arith, h))
same_method_sound put get h = absurd (ground (arith, h))
same_method_sound put post h = absurd (ground (arith, h))
same_method_sound post get h = absurd (ground (arith, h))
same_method_sound post put h = absurd (ground (arith, h))

entry-guards : (m : Method) (r : Route) → m ≢ get → guarded_entry m r ≡ true → guards r ≡ true
entry-guards get r h k = absurd (h refl)
entry-guards put r h k = k
entry-guards post r h k = k

route_of-guards :
    (m : Method) (path : String) (rs : Registered) (r : Route)
    → m ≢ get
    → all_guarded rs ≡ true
    → route_of m path rs ≡ some r
    → guards r ≡ true
unfolding route_of
route_of-guards m path [] r h k e = absurd (ground (arith, e))
route_of-guards m path ((m', path', r') ∷ rs) r h k e =
    elim (Bool-cases (same_method m' m && str_eq path' path)) [
      | inl c ↦
          let same : m' ≡ m = same_method_sound m' m (ground (arith, c)) in
          let hit : r' ≡ r = ground (arith, e, c) in
          let entry : guarded_entry m' r' ≡ true = ground (arith, k) in
          entry-guards m r h (rw (sym same, sym hit) entry)
      | inr c ↦ route_of-guards m path rs r h (ground (arith, k)) (ground (arith, e, c))
    ]

module _ (p : Platform) (codec : Codec (Config p.F32)) (default : Config p.F32)
    (json : Json p.F32) where
  pub serve-refuses :
      (r : Route) (m : Moment) (req : Request) (s : Server p)
      → guards r ≡ true
      → require_auth p req s.app ≡ false
      → serve p codec default json r m req s ≡ (write_unauthorized, s)
  unfolding serve
  serve-refuses put_config m req s h k = rw k refl
  serve-refuses (put_sect n) m req s h k = rw k refl
  serve-refuses post_switch m req s h k = rw k refl
  serve-refuses post_ota m req s h k = rw k refl
  serve-refuses post_reconnect m req s h k = rw k refl
  serve-refuses post_alarm_clear m req s h k = rw k refl
  serve-refuses post_test m req s h k = rw k refl
  serve-refuses post_reset m req s h k = rw k refl
  serve-refuses _ m req s h k = absurd (ground (arith, h))

  abbrev refusal : Option Route → Answer p.F32
  refusal none = no_handler
  refusal (some r) = write_unauthorized

  -- With an admin token set, a request with another method than `GET` that does not bear the token
  -- changes nothing at all, not even by a part of its body, and gets the answer 401 on every path that
  -- has a handler for the method.
  pub handle-refuses :
      (m : Moment) (req : Request) (s : Server p)
      → s.app.config.admin_token ≢ ""
      → ¬ Bears req s.app.config.admin_token
      → req.method ≢ get
      → handle p codec default json m req s ≡ (refusal (route_of req.method req.path registered), s)
  unfolding handle
  handle-refuses m req s h k g = elim (Option-cases (route_of req.method req.path registered)) [
    | inl e ↦ rw (e, handle) refl
    | inr (r, e) ↦
        rw (e, handle)
          (serve-refuses r m req s (route_of-guards req.method req.path registered r g refl e)
            (require_auth_fails p req s.app h k))
  ]

-- ===== src/Post/Urls.antt =====
-- webhook.rs: a URL that is written from its parts is taken apart into them.
use Prim.Native.Char.{Char, code}
use Prim.Native.String.{String, [], ◌∷◌}
use text.Mathlib.TextLemmas.{nil-append, cons-append, append_assoc}
use watercontroller.Base.{
  ℕ, ◌+◌, ◌-◌, ◌*◌, ◌≤◌, ◌<◌, ◌≡◌, ◌≢◌, ◌⊎◌, refl, sym, ap, ◌∙◌, arith, Bool, true, false, none,
  some, ◌<>◌, ◌==◌, is_empty, strip_prefix, strip_prefix-append, to_string, value, IsNumeral,
  to_string-IsNumeral, value-to_string, to_string_nonempty, singleton-append, if◌then◌else◌,
}
use watercontroller.Post.{
  split_rest, with_authority, with_host, digits_from, parse_uint, at_slash, rsplit_once, parse_url,
}

-- No character of this code.
abbrev pub HasNo : ℕ → String → Type 0
HasNo k [] = Unit
HasNo k (c ∷ s) = (code c ≢ k) × HasNo k s

pub HasNo-append : (k : ℕ) (s t : String) → HasNo k s → HasNo k t → HasNo k (s <> t)
HasNo-append k [] t h g = rw (nil-append t) g
HasNo-append k (c ∷ s) t (h, hs) g = rw (cons-append c s t) (h, HasNo-append k s t hs g)

IsNumeral-HasNo : (k : ℕ) (s : String) → IsNumeral s → (k < 48) ⊎ (57 < k) → HasNo k s
IsNumeral-HasNo k [] h l = tt
IsNumeral-HasNo k (c ∷ s) (a, b, h) l = (omega arith, IsNumeral-HasNo k s h l)

le-value : (acc : ℕ) (s : String) → acc ≤ value acc s
le-value acc [] = omega arith
le-value acc (c ∷ s) = omega (arith, le-value (acc * 10 + (code c - 48)) s)

digits_from-value :
    (max acc : ℕ) (s : String)
    → IsNumeral s
    → value acc s ≤ max
    → digits_from max acc s ≡ some (value acc s)
unfolding digits_from
digits_from-value max acc [] h l = refl
digits_from-value max acc (c ∷ s) (a, b, h) l =
    let next = acc * 10 + (code c - 48) in
    ground (arith, le-value next s, digits_from-value max next s h l)

parse_uint-numeral :
    (max : ℕ) (c : Char) (s : String)
    → IsNumeral (c ∷ s)
    → value 0 (c ∷ s) ≤ max
    → parse_uint max (c ∷ s) ≡ some (value 0 (c ∷ s))
unfolding parse_uint
parse_uint-numeral max c s h l =
    let unsigned : (code c == 43) ≡ false = ground (arith, h.0) in
    rw unsigned (digits_from-value max 0 (c ∷ s) h l)

-- A number that is written is read back.
pub parse_uint-to_string : (max n : ℕ) → n ≤ max → parse_uint max (to_string n) ≡ some n
parse_uint-to_string max n h =
    let (c, s, same) = to_string_nonempty n in
    let numeral : IsNumeral (c ∷ s) = rw same at (to_string-IsNumeral n) in
    let number : value 0 (c ∷ s) ≡ n = ap (value 0) (sym same) ∙ value-to_string n in
    ap (parse_uint max) same
    ∙ parse_uint-numeral max c s numeral (omega (arith, number))
    ∙ ap some number

at_slash-append :
    (a rest : String) (c : Char)
    → HasNo 47 a
    → code c ≡ 47
    → at_slash (a <> (c ∷ rest)) ≡ (a, c ∷ rest)
unfolding at_slash
at_slash-append [] rest c h k = rw (nil-append (c ∷ rest)) (ground arith)
at_slash-append (d ∷ a) rest c (h, hs) k =
    rw (cons-append d a (c ∷ rest)) (ground (arith, at_slash-append a rest c hs k))

rsplit_once-HasNo : (sep : ℕ) (s : String) → HasNo sep s → rsplit_once sep s ≡ none
unfolding rsplit_once
rsplit_once-HasNo sep [] h = refl
rsplit_once-HasNo sep (c ∷ s) (h, hs) = rw (rsplit_once-HasNo sep s hs) (ground arith)

rsplit_once-append :
    (h p : String) (c : Char) → HasNo (code c) p → rsplit_once (code c) (h <> (c ∷ p)) ≡ some (h, p)
unfolding rsplit_once
rsplit_once-append [] p c k = rw (nil-append (c ∷ p), rsplit_once-HasNo (code c) p k) (ground arith)
rsplit_once-append (d ∷ h) p c k =
    rw (cons-append d h (c ∷ p)) (rw (rsplit_once-append h p c k) refl)

abbrev pub scheme : Bool → String
scheme true = "https://"
scheme false = "http://"

http_only : (r : String) → strip_prefix "https://" ("http://" <> r) ≡ none
unfolding strip_prefix
http_only r = rw (cons-append "h" "ttp://" r) (
    rw (cons-append "t" "tp://" r) (
      rw (cons-append "t" "p://" r)
        (rw (cons-append "p" "://" r) (rw (cons-append ":" "//" r) refl))))

pub to_string-HasNo : (k n : ℕ) → (k < 48) ⊎ (57 < k) → HasNo k (to_string n)
to_string-HasNo k n h = IsNumeral-HasNo k (to_string n) (to_string-IsNumeral n) h

parse_url-scheme :
    (https : Bool) (r : String) → parse_url (scheme https <> r) ≡ split_rest https (at_slash r)
unfolding parse_url
parse_url-scheme true r = rw (parse_url, strip_prefix-append "https://" r) refl
parse_url-scheme false r = rw (parse_url, http_only r, strip_prefix-append "http://" r) refl

parse_url-path :
    (https : Bool) (authority rest : String)
    → HasNo 47 authority
    → parse_url (scheme https <> (authority <> ("/" <> rest)))
      ≡ with_authority https ("/" <> rest) authority (rsplit_once 58 authority)
parse_url-path https authority rest h =
    let path = singleton-append "/" rest in
    parse_url-scheme https (authority <> ("/" <> rest))
    ∙ ap (λ (t : String). split_rest https (at_slash (authority <> t))) path
    ∙ ap (split_rest https) (at_slash-append authority rest "/" h refl)
    ∙ ap (λ (t : String). with_authority https t authority (rsplit_once 58 authority)) (sym path)

is_empty-cons : (s : String) (c : Char) (r : String) → s ≡ c ∷ r → is_empty s ≡ false
is_empty-cons s c r h = ap is_empty h

-- A URL of either scheme is taken apart into its parts: the host, which is not empty and has no `/`,
-- the port, if it is written behind a `:`, and the path; else, if the host has no `:`, the port is
-- that of the scheme.
pub parse_url_lem :
    (https : Bool) (c : Char) (h rest : String) (port : ℕ)
    → HasNo 47 (c ∷ h)
    → HasNo 58 (c ∷ h)
    → port ≤ 65535
    → (parse_url (scheme https <> ((c ∷ h) <> (":" <> to_string port) <> ("/" <> rest)))
        ≡ some (record { https = https; host = c ∷ h; port = port; path = "/" <> rest }))
      × (parse_url (scheme https <> ((c ∷ h) <> ("/" <> rest)))
          ≡ some (record {
            https = https;
            host = c ∷ h;
            port = if https then 443 else 80;
            path = "/" <> rest;
          }))
parse_url_lem https c h rest port slash colon k =
    let host = c ∷ h in
    let p = to_string port in
    let authority = host <> (":" <> p) in
    let plain : HasNo 47 authority =
      HasNo-append 47 host (":" <> p) slash
        (HasNo-append 47 ":" p (omega arith, tt) (to_string-HasNo 47 port (omega arith))) in
    let parts : rsplit_once 58 authority ≡ some (host, p) =
      ap (λ (t : String). rsplit_once 58 (host <> t)) (singleton-append ":" p)
      ∙ rsplit_once-append host p ":" (to_string-HasNo 58 port (omega arith)) in
    (
      ap (λ (t : String). parse_url (scheme https <> t))
            (sym (append_assoc host (":" <> p) ("/" <> rest)))
          ∙ parse_url-path https authority rest plain
          ∙ ap (with_authority https ("/" <> rest) authority) parts
          ∙ ap (with_host https ("/" <> rest) host) (parse_uint-to_string 65535 port k),
      parse_url-path https host rest slash
          ∙ ap (with_authority https ("/" <> rest) host) (rsplit_once-HasNo 58 host colon),
    )

-- ===== src/Post/Requests.antt =====
-- webhook.rs: how a server reads a request that is sent.
use Prim.Native.Char.{Char, code}
use Prim.Native.String
use Prim.Native.String.{String, [], ◌∷◌}
use mathlib.Core.List.{List}
use text.Mathlib.TextLemmas.{nil-append, cons-append}
use watercontroller.Base.{
  ℕ, zero, suc, ◌+◌, ◌≤◌, ◌<◌, ◌≡◌, ◌≢◌, ◌&&◌, refl, sym, ap, ◌∙◌, arith, Bool, true, false, Option,
  none, some, ◌<>◌, ◌==◌, to_string, singleton-append, if◌then◌else◌, inl, inr, Bool-cases,
}
use watercontroller.Base as Base
use watercontroller.Webhook.{HeaderEntry, WebhookConfig}
use watercontroller.Post.{
  Url, header_line, push_headers, push_type, method_of, eq_ignore_case, has_content_type,
  build_request,
}
use watercontroller.Post.Urls.{HasNo, HasNo-append, to_string-HasNo}

abbrev longer : Char → Option (String × String) → Option (String × String)
longer c none = none
longer c (some (a, b)) = some (c ∷ a, b)

abbrev or_end : Char → String → Option (String × String) → Option (String × String)
or_end c [] rest = longer c rest
or_end c (d ∷ s) rest = if (code c == 13) && (code d == 10) then some ([], s) else longer c rest

-- The first line, up to CR and LF, and what follows them.
pub line : String → Option (String × String)
line [] = none
line (c ∷ s) = or_end c s (line s)

abbrev in_front : String → Option (List String × String) → Option (List String × String)
in_front l none = none
in_front l (some (ls, b)) = some (List.◌∷◌ l ls, b)

-- The lines of a request up to the empty one, and its body behind that.
pub message : ℕ → String → Option (List String × String)
message zero t = none
message (suc fuel) t = elim (line t) [
  | none ↦ none
  | some ([], b) ↦ some (List.[], b)
  | some (c ∷ l, b) ↦ in_front (c ∷ l) (message fuel b)
]

crlf : (t : String) → "\r\n" <> t ≡ "\r" ∷ ("\n" ∷ t)
crlf t = cons-append "\r" "\n" t ∙ ap (λ (u : String). "\r" ∷ u) (singleton-append "\n" t)

or_end-other :
    (c : Char) (s : String) (r : Option (String × String)) → code c ≢ 13 → or_end c s r ≡ longer c r
or_end-other c [] r h = refl
or_end-other c (d ∷ s) r h = ground arith

line-append : (s t : String) → HasNo 13 s → line (s <> ("\r\n" <> t)) ≡ some (s, t)
unfolding line
line-append [] t h = ap line (nil-append ("\r\n" <> t) ∙ crlf t) ∙ refl
line-append (c ∷ s) t (h, hs) =
    ap line (cons-append c s ("\r\n" <> t))
    ∙ or_end-other c (s <> ("\r\n" <> t)) (line (s <> ("\r\n" <> t))) h
    ∙ ap (longer c) (line-append s t hs)

message-line :
    (fuel : ℕ) (c : Char) (s t : String)
    → HasNo 13 (c ∷ s)
    → message (suc fuel) ((c ∷ s) <> ("\r\n" <> t)) ≡ in_front (c ∷ s) (message fuel t)
unfolding message
message-line fuel c s t h = rw (message, line-append (c ∷ s) t h) refl

message-end : (fuel : ℕ) (t : String) → message (suc fuel) ("\r\n" <> t) ≡ some (List.[], t)
unfolding message
message-end fuel t =
    let empty : line ("\r\n" <> t) ≡ some ("", t) =
      ap line (sym (nil-append ("\r\n" <> t))) ∙ line-append "" t tt in
    rw (message, empty) refl

-- A text that is not empty.
message-some :
    (fuel : ℕ) (s t : String)
    → ((c : Char) × (r : String) × (s ≡ c ∷ r))
    → HasNo 13 s
    → message (suc fuel) (s <> ("\r\n" <> t)) ≡ in_front s (message fuel t)
message-some fuel s t (c, r, same) h =
    let plain : HasNo 13 (c ∷ r) = rw same at h in rw same (message-line fuel c r t plain)

abbrev pub ArePlain : List HeaderEntry → Type 0
ArePlain List.[] = Unit
ArePlain (List.◌∷◌ h hs) = HasNo 13 h.name × HasNo 13 h.value × ArePlain hs

abbrev pub lines_of : List HeaderEntry → List String → List String
lines_of List.[] after = after
lines_of (List.◌∷◌ h hs) after = List.◌∷◌ (header_line h) (lines_of hs after)

abbrev pub type_line : Bool → List String → List String
type_line true after = after
type_line false after = List.◌∷◌ "Content-Type: application/json" after

header_line_nonempty : (h : HeaderEntry) → (c : Char) × (r : String) × (header_line h ≡ c ∷ r)
header_line_nonempty h = go h.name
  where
    go : (n : String) → (c : Char) × (r : String) × (n <> (": " <> h.value) ≡ c ∷ r)
    go [] = (":", " " <> h.value, nil-append (": " <> h.value) ∙ cons-append ":" " " h.value)
    go (c ∷ n) = (c, n <> (": " <> h.value), cons-append c n (": " <> h.value))

message-push_headers :
    (fuel : ℕ) (hs : List HeaderEntry) (t : String) (ls : List String) (b : String)
    → ArePlain hs
    → message fuel t ≡ some (ls, b)
    → message (Base.length hs + fuel) (push_headers hs t) ≡ some (lines_of hs ls, b)
message-push_headers fuel List.[] t ls b h k = ap (λ (n : ℕ). message n t) (omega arith) ∙ k
message-push_headers fuel (List.◌∷◌ h hs) t ls b (n, v, ps) k =
    let plain : HasNo 13 (header_line h) =
      HasNo-append 13 h.name (": " <> h.value) n
        (HasNo-append 13 ": " h.value (omega arith, (omega arith, tt)) v) in
    let size : Base.length (List.◌∷◌ h hs) + fuel ≡ suc (Base.length hs + fuel) = omega arith in
    ap (λ (m : ℕ). message m (push_headers (List.◌∷◌ h hs) t)) size
    ∙ message-some (Base.length hs + fuel) (header_line h) (push_headers hs t)
        (header_line_nonempty h) plain
    ∙ ap (in_front (header_line h)) (message-push_headers fuel hs t ls b ps k)

message-push_type :
    (fuel : ℕ) (has : Bool) (t : String) (ls : List String) (b : String)
    → ((n : ℕ) → message (suc (suc (suc n))) t ≡ some (ls, b))
    → message (suc (suc (suc (suc fuel)))) (push_type has t) ≡ some (type_line has ls, b)
message-push_type fuel true t ls b k = k (suc fuel)
message-push_type fuel false t ls b k =
    let plain : HasNo 13 "Content-Type: application/json" = omega arith in
    message-some (suc (suc (suc fuel))) "Content-Type: application/json" t
      ("C", "ontent-Type: application/json", refl) plain
    ∙ ap (in_front "Content-Type: application/json") (k fuel)

-- The last lines: the number of bytes of the body, and that the connection closes.
abbrev pub length_line : String → String
length_line body = "Content-Length: " <> to_string (String.len body)

message-last :
    (body : String) (fuel : ℕ)
    → message
        (suc (suc (suc fuel)))
        (length_line body <> "\r\n" <> "Connection: close" <> "\r\n" <> "\r\n" <> body)
      ≡ some (List.◌∷◌ (length_line body) (List.◌∷◌ "Connection: close" List.[]), body)
message-last body fuel =
    let n = to_string (String.len body) in
    let plain : HasNo 13 (length_line body) =
      HasNo-append 13 "Content-Length: " n (omega arith)
        (to_string-HasNo 13 (String.len body) (omega arith)) in
    let closes : HasNo 13 "Connection: close" = omega arith in
    message-some (suc (suc fuel)) (length_line body) _
      ("C", "ontent-Length: " <> n, cons-append "C" "ontent-Length: " n) plain
    ∙ ap (in_front (length_line body)) (
        message-some (suc fuel) "Connection: close" ("\r\n" <> body) ("C", "onnection: close", refl)
          closes
        ∙ ap (in_front "Connection: close") (message-end fuel body))

abbrev request_line : Bool → String → String
request_line put path = (if put then "PUT" else "POST") <> " " <> path <> " HTTP/1.1"

request_line_plain : (put : Bool) (path : String) → HasNo 13 path → HasNo 13 (request_line put path)
request_line_plain put path h =
    let rest =
      HasNo-append 13 " " (path <> " HTTP/1.1") (omega arith, tt)
        (HasNo-append 13 path " HTTP/1.1" h (omega arith)) in
    HasNo-append 13 (if put then "PUT" else "POST") _ (word put) rest
  where
    word : (put : Bool) → HasNo 13 (if put then "PUT" else "POST")
    word true = omega arith
    word false = omega arith

request_line_nonempty :
    (put : Bool) (path : String) → (c : Char) × (r : String) × (request_line put path ≡ c ∷ r)
request_line_nonempty true path = ("P", _, cons-append "P" "UT" (" " <> path <> " HTTP/1.1"))
request_line_nonempty false path = ("P", _, cons-append "P" "OST" (" " <> path <> " HTTP/1.1"))

-- If no part that the request is made of has a CR, a server reads it as it is meant: as the request
-- line with the method, `PUT` or `POST`, and the path, then the line of the host, then those of the
-- headers, in their order, one for the type of the body unless a header gives it, and two for its length
-- in bytes and the end of the connection, and then the body, untouched.
pub message-build_request :
    (wh : WebhookConfig) (url : Url) (body : String)
    → HasNo 13 url.path
    → HasNo 13 url.host
    → ArePlain wh.headers
    → message (Base.length wh.headers + 6) (build_request wh url body)
      ≡ some (
        List.◌∷◌ (method_of wh <> " " <> url.path <> " HTTP/1.1") (
            List.◌∷◌ ("Host: " <> url.host) (
              lines_of wh.headers (
                type_line
                  (has_content_type wh.headers)
                  (List.◌∷◌ (length_line body) (List.◌∷◌ "Connection: close" List.[]))))),
        body,
      )
unfolding build_request
message-build_request wh url body path host plain =
    let h = Base.length wh.headers in
    let tail =
      push_type (has_content_type wh.headers)
        (length_line body <> "\r\n" <> "Connection: close" <> "\r\n" <> "\r\n" <> body) in
    let rest = push_headers wh.headers tail in
    let first = method_of wh <> " " <> url.path <> " HTTP/1.1" in
    let fuel : h + 6 ≡ suc (suc (h + 4)) = omega arith in
    let headers =
      message-push_headers 4 wh.headers tail _ body plain
        (message-push_type 0 (has_content_type wh.headers) _ _ body (message-last body)) in
    let put = eq_ignore_case wh.method "put" in
    let path_line : HasNo 13 first = request_line_plain put url.path path in
    let host_line : HasNo 13 ("Host: " <> url.host) =
      HasNo-append 13 "Host: " url.host (omega arith) host in
    ap (λ (n : ℕ). message n (build_request wh url body)) fuel
    ∙ message-some (suc (h + 4)) first _ (request_line_nonempty put url.path) path_line
    ∙ ap (in_front first) (
        message-some (h + 4) ("Host: " <> url.host) rest
          ("H", "ost: " <> url.host, cons-append "H" "ost: " url.host) host_line
        ∙ ap (in_front ("Host: " <> url.host)) headers)

-- ===== src/Post.antt =====
-- crates/firmware-nostd/src/webhook.rs: the delivery of webhooks over HTTP. The network is what its calls
-- answer; the certificate checks and records of TLS belong to the crate embedded_tls.
pub mod Urls
pub mod Requests
mod Tests
use Prim.Native.Char.{Char, code}
use Prim.Native.String
use Prim.Native.String.{String, [], ◌∷◌}
use mathlib.Core.List
use mathlib.Core.List.{List}
use watercontroller.Base.{
  ℕ, ◌+◌, ◌-◌, ◌*◌, Bool, true, false, not, ◌&&◌, Option, none, some, ◌<>◌, ◌==◌, leb, ltb,
  is_empty, strip_prefix, to_string, if◌then◌else◌,
}
use watercontroller.Base as Base
use watercontroller.Nvs.{Bytes}
use watercontroller.Webhook.{HeaderEntry, WebhookConfig, WebhookEvent}
use watercontroller.Webhook.Dispatch.{deliveries}

-- `str::parse` into an unsigned number up to `max`: digits, behind a sign or not.
unfoldable pub digits_from : ℕ → ℕ → String → Option ℕ
digits_from max acc [] = some acc
digits_from max acc (c ∷ s) =
    let next = acc * 10 + (code c - 48) in
    let rest = digits_from max next s in
    if not (leb 48 (code c) && leb (code c) 57) then none else if ltb max next then none else rest

abbrev digits : ℕ → String → Option ℕ
digits max [] = none
digits max (c ∷ s) = digits_from max 0 (c ∷ s)

unfoldable pub parse_uint : ℕ → String → Option ℕ
unfolding digits_from
parse_uint max [] = none
parse_uint max (c ∷ s) = if code c == 43 then digits max s else digits_from max 0 (c ∷ s)

abbrev in_front : Char → String × String → String × String
in_front c (a, b) = (c ∷ a, b)

-- The text up to the first `/`, and from it on; a `/` if there is none.
unfoldable pub at_slash : String → String × String
at_slash [] = ([], "/")
at_slash (c ∷ s) = let rest = at_slash s in if code c == 47 then ([], c ∷ s) else in_front c rest

abbrev or_here : Char → String → ℕ → Option (String × String) → Option (String × String)
or_here c s sep none = if code c == sep then some ([], s) else none
or_here c s sep (some (a, b)) = some (c ∷ a, b)

-- `s.rsplit_once(sep)`.
unfoldable pub rsplit_once : ℕ → String → Option (String × String)
rsplit_once sep [] = none
rsplit_once sep (c ∷ s) = or_here c s sep (rsplit_once sep s)

pub record Url : Type 0 where
  pub https : Bool
  pub host : String
  pub port : ℕ
  pub path : String

abbrev with_host : Bool → String → String → Option ℕ → Option Url
with_host https path host none = none
with_host https path host (some port) =
    if is_empty host
    then none
    else some (record { https = https; host = host; port = port; path = path })

abbrev with_authority : Bool → String → String → Option (String × String) → Option Url
with_authority https path authority none =
    with_host https path authority (some (if https then 443 else 80))
with_authority https path authority (some (h, p)) = with_host https path h (parse_uint 65535 p)

abbrev split_rest : Bool → String × String → Option Url
split_rest https (authority, path) = with_authority https path authority (rsplit_once 58 authority)

abbrev other_scheme : Option String → Option Url
other_scheme none = none
other_scheme (some r) = split_rest false (at_slash r)

unfoldable pub parse_url : String → Option Url
unfolding at_slash rsplit_once parse_uint strip_prefix
parse_url url = elim (strip_prefix "https://" url) [
  | some r ↦ split_rest true (at_slash r)
  | none ↦ other_scheme (strip_prefix "http://" url)
]

abbrev before : Char → List String → List String
before c List.[] = List.◌∷◌ (c ∷ []) List.[]
before c (List.◌∷◌ w ws) = List.◌∷◌ (c ∷ w) ws

-- `s.split('.')`.
unfoldable pub split_dots : String → List String
split_dots [] = List.◌∷◌ [] List.[]
split_dots (c ∷ s) =
    let rest = split_dots s in if code c == 46 then List.◌∷◌ [] rest else before c rest

-- The loop over the parts, with the octets so far.
unfoldable pub octets_from : Bytes → List String → Option Bytes
octets_from octets List.[] = if Base.length octets == 4 then some octets else none
octets_from octets (List.◌∷◌ part parts) =
    let more = λ (o : ℕ). octets_from (List.◌++◌ octets (List.◌∷◌ o List.[])) parts in
    if Base.length octets == 4
    then none
    else elim (parse_uint 255 part) [ none ↦ none | some o ↦ more o ]

unfoldable pub parse_ipv4 : String → Option Bytes
unfolding octets_from split_dots parse_uint
parse_ipv4 s = octets_from List.[] (split_dots s)

abbrev lower : ℕ → ℕ
lower c = if leb 65 c && leb c 90 then c + 32 else c

-- `eq_ignore_ascii_case`.
unfoldable pub eq_ignore_case : String → String → Bool
eq_ignore_case [] [] = true
eq_ignore_case (c ∷ s) (d ∷ t) =
    let rest = eq_ignore_case s t in if lower (code c) == lower (code d) then rest else false
eq_ignore_case _ _ = false

abbrev pub header_line : HeaderEntry → String
header_line h = h.name <> ": " <> h.value

abbrev pub push_headers : List HeaderEntry → String → String
push_headers List.[] after = after
push_headers (List.◌∷◌ h hs) after = header_line h <> "\r\n" <> push_headers hs after

unfoldable pub has_content_type : List HeaderEntry → Bool
unfolding eq_ignore_case
has_content_type List.[] = false
has_content_type (List.◌∷◌ h hs) =
    let rest = has_content_type hs in if eq_ignore_case h.name "content-type" then true else rest

abbrev pub method_of : WebhookConfig → String
method_of wh = if eq_ignore_case wh.method "put" then "PUT" else "POST"

abbrev pub push_type : Bool → String → String
push_type true after = after
push_type false after = "Content-Type: application/json" <> "\r\n" <> after

unfoldable pub build_request : WebhookConfig → Url → String → String
unfolding has_content_type
build_request wh url body =
    (method_of wh <> " " <> url.path <> " HTTP/1.1")
    <> "\r\n"
    <> ("Host: " <> url.host)
    <> "\r\n"
    <> push_headers wh.headers (
        push_type (has_content_type wh.headers) (
          ("Content-Length: " <> to_string (String.len body))
          <> "\r\n"
          <> "Connection: close"
          <> "\r\n"
          <> "\r\n"
          <> body))

-- What the one read of the response comes to; its text is `none` if it is not UTF-8.
pub data Response : Type 0 where
  read_error timed_out : Response
  text : Option String → Response

-- White space, among the characters of ASCII.
abbrev is_space : ℕ → Bool
is_space c = if c == 32 then true else leb 9 c && leb c 13

abbrev pushed : String → List String → List String
pushed [] ws = ws
pushed (c ∷ s) ws = List.◌∷◌ (c ∷ s) ws

-- `split_whitespace`, with the word that was begun.
unfoldable pub words_from : String → String → List String
words_from word [] = pushed word List.[]
words_from word (c ∷ s) =
    let next = words_from [] s in
    let more = words_from (word <> (c ∷ [])) s in
    if is_space (code c) then pushed word next else more

abbrev second : List String → Option String
second (List.◌∷◌ a (List.◌∷◌ b ws)) = some b
second _ = none

pub data Delivered : Type 0 where
  status : ℕ → Delivered
  failed : String → Delivered

abbrev status_or : Option ℕ → Delivered
status_or none = failed "no status"
status_or (some n) = status n

abbrev number_of : Option String → Delivered
number_of none = failed "no status"
number_of (some w) = status_or (parse_uint 65535 w)

unfoldable pub read_status : Response → Delivered
unfolding words_from parse_uint
read_status read_error = failed "read"
read_status timed_out = failed "timeout"
read_status (text none) = failed "non-utf8"
read_status (text (some line)) = number_of (second (words_from [] line))

-- What the network answers during a delivery: the addresses of the name, and each further step.
pub record Net : Type 0 where
  pub dns : Option (List Bytes)
  pub connects : Bool
  pub handshakes : Bool
  pub writes : Bool
  pub flushes : Bool
  pub response : Response

abbrev first_of_addresses : Option (List Bytes) → Option Bytes
first_of_addresses (some (List.◌∷◌ ip ips)) = some ip
first_of_addresses _ = none

-- `resolve`.
unfoldable pub resolve : Net → String → Option Bytes
unfolding parse_ipv4
resolve net host = elim (parse_ipv4 host) [ some ip ↦ some ip | none ↦ first_of_addresses net.dns ]

-- What was sent, and where to, beside the result.
pub record Sent : Type 0 where
  pub ip : Bytes
  pub port : ℕ
  pub encrypted : Bool
  pub request : String

abbrev pub Delivery : Type 0
Delivery = Option Sent × Delivered

abbrev sent_to : Net → Bool → Sent → Delivery
sent_to net tls s =
    if not net.connects
    then (none, failed "connect")
    else if tls && not net.handshakes
    then (none, failed "tls handshake")
    else if not net.writes
    then (none, failed (if tls then "tls write" else "write"))
    else if not net.flushes
    then (some s, failed (if tls then "tls flush" else "flush"))
    else (some s, read_status net.response)

abbrev to_address : Net → WebhookConfig → Url → String → Option Bytes → Delivery
to_address net wh url body none = (none, failed "dns")
to_address net wh url body (some ip) = sent_to net url.https (record {
  ip = ip;
  port = url.port;
  encrypted = url.https;
  request = build_request wh url body;
})

abbrev to_url : Bool → Net → WebhookConfig → String → Option Url → Delivery
to_url tls net wh body none = (none, failed "bad url")
to_url tls net wh body (some url) =
    if url.https && not tls
    then (none, failed "https requires the `tls` feature")
    else to_address net wh url body (resolve net url.host)

-- `deliver` and `deliver_https`; the first argument is the feature `tls` of the build.
unfoldable pub deliver : Bool → Net → WebhookConfig → String → Delivery
unfolding parse_url resolve build_request read_status
deliver tls net wh body = to_url tls net wh body (parse_url wh.url)

abbrev deliver_all : Bool → (WebhookConfig → Net) → List (WebhookConfig × String) → List Delivery
deliver_all tls nets List.[] = List.[]
deliver_all tls nets (List.◌∷◌ (wh, body) subs) =
    List.◌∷◌ (deliver tls (nets wh) wh body) (deliver_all tls nets subs)

-- One event: its subscribers, one after the other.
unfoldable pub handle_event :
    Bool → (WebhookConfig → Net) → List WebhookConfig → WebhookEvent → List Delivery
unfolding deliver deliveries
handle_event tls nets webhooks event = deliver_all tls nets (deliveries webhooks event)

-- ===== src/Portal.antt =====
-- crates/firmware-nostd/src/ap.rs: the DHCP and the DNS server of the setup portal, which answer a
-- datagram each. A byte is a number below 256.
pub mod Names
pub mod Leases
mod Tests
use watercontroller.Base.{
  ℕ, zero, suc, ◌+◌, ◌*◌, ◌-◌, ◌/◌, ◌%◌, Bool, true, false, Option, none, some, List, [], ◌∷◌, ◌++◌,
  ◌==◌, ◌&&◌, not, leb, ltb, length, drop, take, if◌then◌else◌,
}
use watercontroller.Nvs.{Bytes}

abbrev pub ap_ip : Bytes
ap_ip = 192 ∷ 168 ∷ 4 ∷ 1 ∷ []

abbrev pub client_ip : Bytes
client_ip = 192 ∷ 168 ∷ 4 ∷ 2 ∷ []

abbrev pub lease_secs : ℕ
lease_secs = 2 * 60 * 60

abbrev pub dhcp_magic : Bytes
dhcp_magic = 0x63 ∷ 0x82 ∷ 0x53 ∷ 0x63 ∷ []

-- `x[a..b]`.
abbrev pub slice : ℕ → ℕ → Bytes → Bytes
slice a b x = take (b - a) (drop a x)

abbrev same_bytes : Bytes → Bytes → Bool
same_bytes [] [] = true
same_bytes (x ∷ xs) (y ∷ ys) = let rest = same_bytes xs ys in if x == y then rest else false
same_bytes _ _ = false

-- What is written so far, and the option behind it.
unfoldable pub put_opt : Bytes → ℕ → Bytes → Bytes
put_opt out code value = out ++ (code ∷ length value % 256 ∷ value)

-- The type of the message, or what a later option says.
abbrev type_or : ℕ → ℕ → Bytes → Option ℕ → Option ℕ
type_or code len [] later = later
type_or code len (t ∷ rest) later = if code == 53 && leb 1 len then some t else later

-- The loop over the options, with the bytes from `i` on. A turn takes a byte at least.
unfoldable pub options_type : ℕ → Bytes → Option ℕ
options_type (suc fuel) (code ∷ len ∷ rest) =
    let padded = options_type fuel (len ∷ rest) in
    let later = options_type fuel (drop len rest) in
    if code == 255 then none else if code == 0 then padded else type_or code len rest later
options_type _ _ = none

unfoldable pub dhcp_msg_type : Bytes → Option ℕ
unfolding options_type
dhcp_msg_type req =
    let found = options_type (length req) (drop 240 req) in
    if ltb (length req) 240
    then none
    else if not (same_bytes (slice 236 240 req) dhcp_magic)
    then none
    else found

abbrev pub zeros : ℕ → Bytes
zeros zero = []
zeros (suc n) = 0 ∷ zeros n

-- `u32::to_be_bytes`.
abbrev pub to_be_bytes : ℕ → Bytes
to_be_bytes n = (n / 16777216) % 256 ∷ (n / 65536) % 256 ∷ (n / 256) % 256 ∷ n % 256 ∷ []

-- The bytes of `out` up to the length that is returned: its fields in their order, with the zeros that
-- `fill` leaves between them.
unfoldable pub build_dhcp_reply : Bytes → ℕ → Bytes
unfolding put_opt
build_dhcp_reply req msg_type =
    let head =
      2
      ∷ 1
      ∷ 6
      ∷ 0
      ∷ (slice 4 8 req
          ++ (0
              ∷ 0
              ∷ (slice 10 12 req
                  ++ (0
                      ∷ 0
                      ∷ 0
                      ∷ 0
                      ∷ (client_ip
                          ++ (ap_ip
                              ++ (0
                                  ∷ 0
                                  ∷ 0
                                  ∷ 0
                                  ∷ (slice 28 44 req ++ (zeros 192 ++ dhcp_magic))))))))) in
    let typed = put_opt head 53 (msg_type ∷ []) in
    let server = put_opt typed 54 ap_ip in
    let lease = put_opt server 51 (to_be_bytes lease_secs) in
    let mask = put_opt lease 1 (255 ∷ 255 ∷ 255 ∷ 0 ∷ []) in
    let router = put_opt mask 3 ap_ip in let dns = put_opt router 6 ap_ip in dns ++ (255 ∷ [])

-- DISCOVER gets an OFFER, REQUEST an ACK, and any other type nothing.
abbrev reply_type : Option ℕ → Option ℕ
reply_type none = none
reply_type (some t) = if t == 1 then some 2 else if t == 3 then some 5 else none

abbrev op : Bytes → ℕ
op [] = 0
op (b ∷ bs) = b

abbrev replied : Bytes → Option ℕ → Option Bytes
replied req none = none
replied req (some t) = some (build_dhcp_reply req t)

-- One turn of `dhcp_server_task`: what is broadcast.
unfoldable pub dhcp_turn : Bytes → Option Bytes
dhcp_turn req =
    if ltb (length req) 240
    then none
    else if not (op req == 1)
    then none
    else replied req (reply_type (dhcp_msg_type req))

-- The loop over the labels, with the bytes from `i` on: the position at its end, and the bytes there.
unfoldable pub skip_name : ℕ → ℕ → Bytes → ℕ × Bytes
skip_name (suc fuel) i (len ∷ rest) =
    let next = skip_name fuel (i + 1 + len) (drop len rest) in
    if len == 0 then (i, len ∷ rest) else next
skip_name _ i rest = (i, rest)

-- A pointer to the name, its type and class, 60 seconds, and the address.
abbrev pub a_record : Bytes
a_record = 0xc0 ∷ 0x0c ∷ 0 ∷ 1 ∷ 0 ∷ 1 ∷ 0 ∷ 0 ∷ 0 ∷ 60 ∷ 0 ∷ 4 ∷ ap_ip

-- The type of the question, which stands behind the root label.
abbrev pub qtype : Bytes → ℕ
qtype (root ∷ t1 ∷ t0 ∷ rest) = t1 * 256 + t0
qtype _ = 0

-- The reply to a question whose name ends `i` bytes into the datagram, if the buffer has the room.
abbrev pub dns_reply : ℕ → ℕ → Bytes → ℕ → ℕ × Bytes → Option Bytes
dns_reply id1 id0 body room (i, rest) =
    let q_end = i + 5 in
    let answer = qtype rest == 1 in
    if ltb (12 + length body) q_end
    then none
    else if ltb room (q_end + 16)
    then none
    else some (
        (id1 ∷ id0 ∷ 0x81 ∷ 0x80 ∷ 0 ∷ 1 ∷ 0 ∷ (if answer then 1 else 0) ∷ 0 ∷ 0 ∷ 0 ∷ 0 ∷ [])
        ++ take (q_end - 12) body
        ++ (if answer then a_record else []))

-- The second argument is the length of `out`. Bit 7 of a byte is set if it is at least 128.
unfoldable pub build_dns_reply : Bytes → ℕ → Option Bytes
unfolding skip_name
build_dns_reply (id1 ∷ id0 ∷ f1 ∷ f0 ∷ qd1 ∷ qd0 ∷ an1 ∷ an0 ∷ ns1 ∷ ns0 ∷ ar1 ∷ ar0 ∷ body) room =
    if leb 128 f1
    then none
    else if not (qd1 * 256 + qd0 == 1)
    then none
    else dns_reply id1 id0 body room (skip_name (suc (length body)) 12 body)
build_dns_reply _ room = none

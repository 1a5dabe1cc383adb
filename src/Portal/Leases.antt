-- ===== src/Portal/Leases.antt =====
-- ap.rs: the DHCP server's reply to every well-formed request.
use watercontroller.Base.{
  ℕ, zero, suc, ◌+◌, ◌≤◌, ◌<◌, ◌≡◌, ◌≢◌, ◌⊎◌, refl, ap, sym, ◌∙◌, arith, Option, some, List, [],
  ◌∷◌, ◌++◌, false, ◌==◌, All, length, length-append, drop-length, drop-drop, take-length, drop,
  take, ltb,
}
use mathlib.Core.List.{append_assoc}
use watercontroller.Nvs.{Bytes}
use watercontroller.Portal.{
  ap_ip, dhcp_magic, slice, zeros, type_or, options_type, dhcp_msg_type, build_dhcp_reply,
  reply_type, op, dhcp_turn,
}

-- The fields of a message of BOOTP, RFC 951, up to the options.
pub record Bootp : Type 0 where
  pub htype : ℕ
  pub hlen : ℕ
  pub hops : ℕ
  pub xid : Bytes
  pub secs : Bytes
  pub flags : Bytes
  pub addresses : Bytes
  pub chaddr : Bytes
  pub names : Bytes

pub record IsBootp (m : Bootp) : Type 0 where
  pub xid_size : length m.xid ≡ 4
  pub secs_size : length m.secs ≡ 2
  pub flags_size : length m.flags ≡ 2
  pub addresses_size : length m.addresses ≡ 16
  pub chaddr_size : length m.chaddr ≡ 16
  pub names_size : length m.names ≡ 192

-- The options of DHCP, RFC 2132: a padding byte, or a code and a value.
pub data DhcpOption : Type 0 where
  pad : DhcpOption
  option : ℕ → Bytes → DhcpOption

abbrev pub encoded : List DhcpOption → Bytes
encoded [] = []
encoded (pad ∷ os) = 0 ∷ encoded os
encoded (option code value ∷ os) = code ∷ length value ∷ (value ++ encoded os)

-- An option that is neither the end nor the type of the message.
abbrev pub IsOther : DhcpOption → Type 0
IsOther pad = Unit
IsOther (option code value) = (0 < code) × (code < 255) × (code ≢ 53) × (length value < 256)

-- A message, by its first byte, its fields and the bytes of its options.
abbrev pub message : ℕ → Bootp → Bytes → Bytes
message code m options =
    code
    ∷ m.htype
    ∷ m.hlen
    ∷ m.hops
    ∷ (m.xid
        ++ (m.secs
            ++ (m.flags ++ (m.addresses ++ (m.chaddr ++ (m.names ++ (dhcp_magic ++ options)))))))

-- Other options, then the type of the message, then any bytes.
abbrev pub typed : List DhcpOption → ℕ → Bytes → Bytes
typed os t rest = encoded os ++ (53 ∷ 1 ∷ t ∷ rest)

type_or-later :
    (code len : ℕ) (rest : Bytes) (later : Option ℕ)
    → code ≢ 53
    → type_or code len rest later ≡ later
type_or-later code len [] later h = refl
type_or-later code len (t ∷ rest) later h = ground arith

options_type-pad :
    (fuel : ℕ) (rest : Bytes)
    → 1 ≤ length rest
    → options_type (suc fuel) (0 ∷ rest) ≡ options_type fuel rest
unfolding options_type
options_type-pad fuel [] h = absurd (omega arith)
options_type-pad fuel (b ∷ rest) h = refl

options_type-option :
    (fuel code : ℕ) (value rest : Bytes) (t : ℕ)
    → 0 < code
    → code < 255
    → options_type fuel (drop (length value) (value ++ rest)) ≡ some t
    → type_or code (length value) (value ++ rest) (some t) ≡ some t
    → options_type (suc fuel) (code ∷ length value ∷ (value ++ rest)) ≡ some t
unfolding options_type
options_type-option fuel code value rest t p q later skipped =
    let end : (code == 255) ≡ false = ground arith in
    let start : (code == 0) ≡ false = ground arith in rw (end, start, later) skipped

options_type-typed :
    (fuel t : ℕ) (os : List DhcpOption) (rest : Bytes)
    → All IsOther os
    → length (encoded os) < fuel
    → options_type fuel (typed os t rest) ≡ some t
options_type-typed zero t os rest h k = absurd (omega arith)
options_type-typed (suc fuel) t [] rest h k = unfold options_type in refl
options_type-typed (suc fuel) t (pad ∷ os) rest (o, h) k =
    options_type-pad fuel (typed os t rest)
      (omega (arith, length-append (encoded os) (53 ∷ 1 ∷ t ∷ rest)))
    ∙ options_type-typed fuel t os rest h (omega arith)
options_type-typed (suc fuel) t (option code value ∷ os) rest ((p, q, r, s), h) k =
    let after : (value ++ encoded os) ++ (53 ∷ 1 ∷ t ∷ rest) ≡ value ++ typed os t rest =
      append_assoc value (encoded os) (53 ∷ 1 ∷ t ∷ rest) in
    let later : options_type fuel (drop (length value) (value ++ typed os t rest)) ≡ some t =
      ap (options_type fuel) (drop-length value (typed os t rest))
      ∙ options_type-typed fuel t os rest h (omega (arith, length-append value (encoded os))) in
    let skipped = type_or-later code (length value) (value ++ typed os t rest) (some t) r in
    rw after (options_type-option fuel code value (typed os t rest) t p q later skipped)

-- A part of known length, past others.
drop_past : (n k : ℕ) (x y : Bytes) → length x + k ≡ n → drop n (x ++ y) ≡ drop k y
drop_past n k [] y h = ap (λ (j : ℕ). drop j y) (omega arith)
drop_past zero k (b ∷ x) y h = absurd (omega arith)
drop_past (suc n) k (b ∷ x) y h = drop_past n k x y (omega arith)

take_first : (n : ℕ) (x y : Bytes) → length x ≡ n → take n (x ++ y) ≡ x
take_first n x y h = ap (λ (j : ℕ). take j (x ++ y)) (sym h) ∙ take-length x y

ltb-false : (a b : ℕ) → b ≤ a → ltb a b ≡ false
ltb-false a b h = ground arith

dhcp_msg_type_lem :
    (req options : Bytes)
    → 240 ≤ length req
    → slice 236 240 req ≡ dhcp_magic
    → drop 240 req ≡ options
    → dhcp_msg_type req ≡ options_type (length req) options
unfolding dhcp_msg_type
dhcp_msg_type_lem req options long cookie behind =
    rw (ltb-false (length req) 240 long, cookie, behind) refl

dhcp_turn_answers :
    (req : Bytes) (t k : ℕ)
    → ltb (length req) 240 ≡ false
    → op req ≡ 1
    → dhcp_msg_type req ≡ some t
    → reply_type (some t) ≡ some k
    → dhcp_turn req ≡ some (build_dhcp_reply req k)
unfolding dhcp_turn
dhcp_turn_answers req t k long one asked answers = rw (long, one, asked, answers) refl

module _ (code : ℕ) (m : Bootp) (v : IsBootp m) (options : Bytes) where
  behind_secs :
      drop 6 (
        m.xid
        ++ (m.secs
            ++ (m.flags ++ (m.addresses ++ (m.chaddr ++ (m.names ++ (dhcp_magic ++ options)))))))
      ≡ m.flags ++ (m.addresses ++ (m.chaddr ++ (m.names ++ (dhcp_magic ++ options))))
  behind_secs =
      drop_past 6 2 m.xid _ (omega (arith, v.xid_size))
      ∙ drop_past 2 0 m.secs _ (omega (arith, v.secs_size))

  behind_addresses :
      drop 24 (
        m.xid
        ++ (m.secs
            ++ (m.flags ++ (m.addresses ++ (m.chaddr ++ (m.names ++ (dhcp_magic ++ options)))))))
      ≡ m.chaddr ++ (m.names ++ (dhcp_magic ++ options))
  behind_addresses =
      drop_past 24 20 m.xid _ (omega (arith, v.xid_size))
      ∙ drop_past 20 18 m.secs _ (omega (arith, v.secs_size))
      ∙ drop_past 18 16 m.flags _ (omega (arith, v.flags_size))
      ∙ drop_past 16 0 m.addresses _ (omega (arith, v.addresses_size))

  behind_names :
      drop 232 (
        m.xid
        ++ (m.secs
            ++ (m.flags ++ (m.addresses ++ (m.chaddr ++ (m.names ++ (dhcp_magic ++ options)))))))
      ≡ dhcp_magic ++ options
  behind_names =
      drop_past 232 228 m.xid _ (omega (arith, v.xid_size))
      ∙ drop_past 228 226 m.secs _ (omega (arith, v.secs_size))
      ∙ drop_past 226 224 m.flags _ (omega (arith, v.flags_size))
      ∙ drop_past 224 208 m.addresses _ (omega (arith, v.addresses_size))
      ∙ drop_past 208 192 m.chaddr _ (omega (arith, v.chaddr_size))
      ∙ drop_past 192 0 m.names _ (omega (arith, v.names_size))

  slice-xid : slice 4 8 (message code m options) ≡ m.xid
  slice-xid = take_first 4 m.xid _ v.xid_size

  slice-flags : slice 10 12 (message code m options) ≡ m.flags
  slice-flags = ap (take 2) behind_secs ∙ take_first 2 m.flags _ v.flags_size

  slice-chaddr : slice 28 44 (message code m options) ≡ m.chaddr
  slice-chaddr = ap (take 16) behind_addresses ∙ take_first 16 m.chaddr _ v.chaddr_size

  length-message : length (message code m options) ≡ 240 + length options
  length-message = omega (
    arith,
    v.xid_size,
    v.secs_size,
    v.flags_size,
    v.addresses_size,
    v.chaddr_size,
    v.names_size,
    length-append {0} {A = ℕ},
  )

  dhcp_msg_type-message :
      dhcp_msg_type (message code m options)
      ≡ options_type (length (message code m options)) options
  dhcp_msg_type-message =
      dhcp_msg_type_lem (message code m options) options (omega (arith, length-message))
        (ap (take 4) behind_names)
        (sym (
            drop-drop 4 232 (
              m.xid
              ++ (m.secs
                  ++ (m.flags
                      ++ (m.addresses ++ (m.chaddr ++ (m.names ++ (dhcp_magic ++ options))))))))
          ∙ ap (drop 4) behind_names)

-- The reply's fields: the client's address, the server's, and what is taken from the request.
abbrev pub leased : Bootp → Bootp
leased m = record {
  htype = 1;
  hlen = 6;
  hops = 0;
  xid = m.xid;
  secs = zeros 2;
  flags = m.flags;
  addresses = 0 ∷ 0 ∷ 0 ∷ 0 ∷ 192 ∷ 168 ∷ 4 ∷ 2 ∷ 192 ∷ 168 ∷ 4 ∷ 1 ∷ 0 ∷ 0 ∷ 0 ∷ 0 ∷ [];
  chaddr = m.chaddr;
  names = zeros 192;
}

leased-IsBootp : (m : Bootp) → IsBootp m → IsBootp (leased m)
leased-IsBootp m v = record {
  xid_size = v.xid_size;
  secs_size = refl;
  flags_size = v.flags_size;
  addresses_size = refl;
  chaddr_size = v.chaddr_size;
  names_size = refl;
}

-- The options of the reply: its type, the server, 7200 seconds, the mask, the router and the resolver.
abbrev pub lease_options : List DhcpOption
lease_options =
    option 54 ap_ip
    ∷ option 51 (0 ∷ 0 ∷ 28 ∷ 32 ∷ [])
    ∷ option 1 (255 ∷ 255 ∷ 255 ∷ 0 ∷ [])
    ∷ option 3 ap_ip
    ∷ option 6 ap_ip
    ∷ []

build_dhcp_reply_lem :
    (m : Bootp) (v : IsBootp m) (options : Bytes) (k : ℕ)
    → build_dhcp_reply (message 1 m options) k
      ≡ message 2 (leased m) (typed [] k (encoded lease_options ++ (255 ∷ [])))
unfolding build_dhcp_reply
build_dhcp_reply_lem m v options k =
    rw (slice-xid 1 m v options, slice-flags 1 m v options, slice-chaddr 1 m v options)
      (simp append_assoc)

-- A request with the fields that RFC 951 gives it, whatever other options and padding bytes stand
-- before the type of the message and whatever bytes follow it, gets a reply if that type is DISCOVER
-- or REQUEST: a message of the type OFFER or ACK, also as the server itself reads it, with the id, the
-- flags and the hardware address of the request, and with the lease of the one address.
pub dhcp_turn_lem :
    (m : Bootp) (os : List DhcpOption) (t k : ℕ) (rest : Bytes)
    → IsBootp m
    → All IsOther os
    → ((t ≡ 1) × (k ≡ 2)) ⊎ ((t ≡ 3) × (k ≡ 5))
    → let reply = message 2 (leased m) (typed [] k (encoded lease_options ++ (255 ∷ []))) in
      (dhcp_turn (message 1 m (typed os t rest)) ≡ some reply) × (dhcp_msg_type reply ≡ some k)
dhcp_turn_lem m os t k rest v h kind =
    let req = message 1 m (typed os t rest) in
    let size = length-message 1 m v (typed os t rest) in
    let fuel : length (encoded os) < length req =
      omega (arith, size, length-append (encoded os) (53 ∷ 1 ∷ t ∷ rest)) in
    let asked : dhcp_msg_type req ≡ some t =
      dhcp_msg_type-message 1 m v (typed os t rest)
      ∙ options_type-typed (length req) t os rest h fuel in
    let long = ltb-false (length req) 240 (omega (arith, size)) in
    let answers : reply_type (some t) ≡ some k = ground arith in
    (
      dhcp_turn_answers req t k long refl asked answers
          ∙ ap some (build_dhcp_reply_lem m v (typed os t rest) k),
      dhcp_msg_type-message 2 (leased m) (leased-IsBootp m v) _
          ∙ options_type-typed _ k [] (encoded lease_options ++ (255 ∷ [])) tt (omega arith),
    )

-- ===== src/Portal/Tests.antt =====
-- ap.rs: instances of the theorems, and what gets no reply.
use watercontroller.Base.{◌∷◌, ◌++◌, ◌≡◌, inl, refl, arith, none, some, List, [], ascii}
use watercontroller.Nvs.{Bytes}
use watercontroller.Captive.{header, record_of}
use watercontroller.Captive.Answer.{question, build_a_response_lem}
use watercontroller.Portal.{
  zeros, build_dns_reply, skip_name, dhcp_turn, dhcp_msg_type, options_type,
}
use watercontroller.Portal.Names.{portal, build_dns_reply-build_a_response}
use watercontroller.Portal.Leases.{
  Bootp, IsBootp, pad, option, encoded, message, typed, leased, lease_options, dhcp_turn_lem,
}

abbrev labels : List Bytes
labels = ascii "captive" ∷ ascii "test" ∷ []

abbrev reply : Bytes
reply = (0x12 ∷ 0x34 ∷ header) ++ question labels ++ record_of portal

build_dns_reply-build_a_response_example :
    build_dns_reply
      (0x12 ∷ 0x34 ∷ 1 ∷ 0 ∷ 0 ∷ 1 ∷ 0 ∷ 0 ∷ 0 ∷ 0 ∷ 0 ∷ 0 ∷ (question labels ++ []))
      512
    ≡ some reply
build_dns_reply-build_a_response_example =
    build_dns_reply-build_a_response 0x12 0x34 1 0 0 1 0 0 0 0 0 0 (question labels ++ []) 512 reply
      (build_a_response_lem 0x12 0x34 1 0 0 0 0 0 0 0 labels [] portal
        (omega arith, omega arith, (omega arith, omega arith, tt)))
      (omega arith) (omega arith)

-- A question for another type gets no record, and a response gets no reply.
other_types_are_empty :
    build_dns_reply
      (0x12 ∷ 0x34 ∷ 1 ∷ 0 ∷ 0 ∷ 1 ∷ 0 ∷ 0 ∷ 0 ∷ 0 ∷ 0 ∷ 0 ∷ 1 ∷ 97 ∷ 0 ∷ 0 ∷ 28 ∷ 0 ∷ 1 ∷ [])
      512
    ≡ some (
        0x12 ∷ 0x34 ∷ 0x81 ∷ 0x80 ∷ 0 ∷ 1 ∷ 0 ∷ 0 ∷ 0 ∷ 0 ∷ 0 ∷ 0 ∷ 1 ∷ 97 ∷ 0 ∷ 0 ∷ 28 ∷ 0 ∷ 1
        ∷ [])
unfolding build_dns_reply skip_name
other_types_are_empty = refl

abbrev phone : Bootp
phone = record {
  htype = 1;
  hlen = 6;
  hops = 0;
  xid = 0xde ∷ 0xad ∷ 0xbe ∷ 0xef ∷ [];
  secs = zeros 2;
  flags = 0x80 ∷ 0 ∷ [];
  addresses = zeros 16;
  chaddr = 2 ∷ 4 ∷ 6 ∷ 8 ∷ 10 ∷ 12 ∷ zeros 10;
  names = zeros 192;
}

phone-IsBootp : IsBootp phone
phone-IsBootp = record {
  xid_size = refl;
  secs_size = refl;
  flags_size = refl;
  addresses_size = refl;
  chaddr_size = refl;
  names_size = refl;
}

-- A DISCOVER with a maximal size and padding in front of its type.
dhcp_turn_lem_example :
    let offer = message 2 (leased phone) (typed [] 2 (encoded lease_options ++ (255 ∷ []))) in
    (dhcp_turn (message 1 phone (typed (option 57 (5 ∷ 220 ∷ []) ∷ pad ∷ []) 1 (255 ∷ [])))
      ≡ some offer)
    × (dhcp_msg_type offer ≡ some 2)
dhcp_turn_lem_example =
    dhcp_turn_lem phone (option 57 (5 ∷ 220 ∷ []) ∷ pad ∷ []) 1 2 (255 ∷ []) phone-IsBootp
      ((omega arith, omega arith, omega arith, omega arith), (tt, tt)) (inl (refl, refl))

-- A RELEASE gets no reply.
release_is_ignored : dhcp_turn (message 1 phone (typed [] 7 (255 ∷ []))) ≡ none
unfolding dhcp_turn dhcp_msg_type options_type
release_is_ignored = refl

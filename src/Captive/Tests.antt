-- ===== src/Captive/Tests.antt =====
-- captive_dns.rs: the source's tests.
use watercontroller.Base.{◌≡◌, refl, none, List, [], ◌∷◌, ◌++◌, ascii}
use watercontroller.Nvs.{Bytes}
use watercontroller.Captive.{Octets, walk, answer, build_a_response}
use watercontroller.Captive.Answer.{name}

abbrev ip : Octets
ip = record { a = 10; b = 0; c = 4; d = 1 }

abbrev labels : List Bytes
labels = ascii "captive" ∷ ascii "test" ∷ []

rejects_non_a_query :
    build_a_response
      (0x12
        ∷ 0x34
        ∷ 1
        ∷ 0
        ∷ 0
        ∷ 1
        ∷ 0
        ∷ 0
        ∷ 0
        ∷ 0
        ∷ 0
        ∷ 0
        ∷ (name (ascii "foo" ∷ []) ++ (0 ∷ 0 ∷ 0x10 ∷ 0 ∷ 1 ∷ [])))
      ip
    ≡ none
unfolding build_a_response walk answer
rejects_non_a_query = refl

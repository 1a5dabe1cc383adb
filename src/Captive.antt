-- ===== src/Captive.antt =====
-- crates/firmware/src/captive_dns.rs: the answer to a query of the captive portal. A byte is a number
-- below 256.
pub mod Answer
mod Tests
use watercontroller.Base.{
  ℕ, zero, suc, ◌+◌, ◌*◌, ◌-◌, Bool, true, false, Option, none, some, List, [], ◌∷◌, ◌++◌, ◌==◌,
  ◌&&◌, not, leb, ltb, length, drop, take, if◌then◌else◌,
}
use watercontroller.Nvs.{Bytes}

-- The four bytes of an `Ipv4Addr`.
pub record Octets : Type 0 where
  pub a : ℕ
  pub b : ℕ
  pub c : ℕ
  pub d : ℕ

abbrev pub octets : Octets → Bytes
octets ip = ip.a ∷ ip.b ∷ ip.c ∷ ip.d ∷ []

-- The loop over the labels, with the bytes from `i` on in place of `i`: what is left after the name.
-- A byte has one of its two highest bits if it is at least 64. A turn drops a byte at least.
unfoldable pub walk : ℕ → Bytes → Option Bytes
walk zero rest = none
walk (suc fuel) [] = some []
walk (suc fuel) (len ∷ rest) =
    let next = drop len rest in
    let more = walk fuel next in
    if len == 0
    then some rest
    else if leb 64 len
    then none
    else if length next == 0
    then none
    else more

-- The four bytes after the name are those of an A record of the class IN.
abbrev pub is_in_a : Bytes → Bool
is_in_a (t1 ∷ t0 ∷ c1 ∷ c0 ∷ rest) = t1 * 256 + t0 == 1 && c1 * 256 + c0 == 1
is_in_a _ = false

-- The header after the id: the flags, one question, one answer, nothing else.
abbrev pub header : Bytes
header = 0x81 ∷ 0x80 ∷ 0 ∷ 1 ∷ 0 ∷ 1 ∷ 0 ∷ 0 ∷ 0 ∷ 0 ∷ []

-- The answer: a pointer to the name, its type and class, 60 seconds, and the address.
abbrev pub record_of : Octets → Bytes
record_of ip = 0xc0 ∷ 0x0c ∷ 0 ∷ 1 ∷ 0 ∷ 1 ∷ 0 ∷ 0 ∷ 0 ∷ 0x3c ∷ 0 ∷ 4 ∷ octets ip

-- The answer to a question that ends four bytes into `rest`, which is what follows the name.
unfoldable pub answer : ℕ → ℕ → Bytes → Octets → Option Bytes → Option Bytes
answer id1 id0 body ip none = none
answer id1 id0 body ip (some rest) =
    if ltb (length rest) 4
    then none
    else if not (is_in_a rest)
    then none
    else some ((id1 ∷ id0 ∷ header) ++ take (length body - length rest + 4) body ++ record_of ip)

unfoldable pub build_a_response : Bytes → Octets → Option Bytes
unfolding walk answer
build_a_response (id1 ∷ id0 ∷ f1 ∷ f0 ∷ qd1 ∷ qd0 ∷ an1 ∷ an0 ∷ ns1 ∷ ns0 ∷ ar1 ∷ ar0 ∷ body) ip =
    let rest = answer id1 id0 body ip (walk (suc (length body)) body) in
    if not (qd1 * 256 + qd0 == 1) then none else rest
build_a_response _ ip = none

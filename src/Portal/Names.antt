-- ===== src/Portal/Names.antt =====
-- ap.rs: its DNS server answers as that of crates/firmware/src/captive_dns.rs does.
use watercontroller.Base.{
  ℕ, zero, suc, ◌+◌, ◌-◌, ◌≤◌, ◌<◌, ◌≡◌, ◌≢◌, true, false, ◌*◌, length-take_of_le, refl, ap, sym,
  ◌∙◌, arith, Option, none, some, [], ◌∷◌, ◌++◌, inl, inr, ◌==◌, length, length-append, length-drop,
  drop, take, ltb, leb, Bool-cases,
}
use watercontroller.Nvs.{Bytes}
use watercontroller.Captive.{Octets, walk, is_in_a, header, record_of, answer, build_a_response}
use watercontroller.Portal.{skip_name, qtype, build_dns_reply}

-- The address of the portal, as the other server takes it.
abbrev pub portal : Octets
portal = record { a = 192; b = 168; c = 4; d = 1 }

skip_name-walk :
    (fuel i : ℕ) (body rest : Bytes)
    → walk fuel body ≡ some rest
    → 1 ≤ length rest
    → (skip_name fuel i body ≡ (i + (length body - length rest - 1), 0 ∷ rest))
      × (length rest < length body)
unfolding walk skip_name
skip_name-walk zero i body rest h p = absurd (ground (arith, h))
skip_name-walk (suc fuel) i [] rest h p = absurd (ground (arith, h))
skip_name-walk (suc fuel) i (len ∷ body) rest h p = elim (Bool-cases (len == 0)) [
  | inl e ↦
      let same : rest ≡ body = ground (arith, h, e) in
      let root : len ≡ 0 = ground (arith, e) in
      rw (e, same, root) (ap (λ (j : ℕ). (j, 0 ∷ body)) (omega arith), omega arith)
  | inr e ↦
      let size = length-drop len body in
      let more : walk fuel (drop len body) ≡ some rest = ground (arith, h, e) in
      let labelled : length (drop len body) ≢ 0 = ground (arith, h, e) in
      let (next, less) = skip_name-walk fuel (i + 1 + len) (drop len body) rest more p in
      rw e (next ∙ ap (λ (j : ℕ). (j, 0 ∷ rest)) (omega arith), omega arith)
]

-- What the other server's answer comes from.
abbrev Answered : ℕ → ℕ → Bytes → Option Bytes → Bytes → Type 0
Answered id1 id0 body walked reply =
    (rest : Bytes) × (walked ≡ some rest)
    × (4 ≤ length rest)
    × ((qtype (0 ∷ rest) == 1) ≡ true)
    × (reply
        ≡ (id1 ∷ id0 ∷ header) ++ take (length body - length rest + 4) body ++ record_of portal)

qtype-is_in_a : (rest : Bytes) → is_in_a rest ≡ true → (qtype (0 ∷ rest) == 1) ≡ true
qtype-is_in_a [] h = cc
qtype-is_in_a (t1 ∷ []) h = cc
qtype-is_in_a (t1 ∷ t0 ∷ []) h = cc
qtype-is_in_a (t1 ∷ t0 ∷ c1 ∷ []) h = cc
qtype-is_in_a (t1 ∷ t0 ∷ c1 ∷ c0 ∷ rest) h = ground (arith, h)

answer-Answered :
    (id1 id0 : ℕ) (body : Bytes) (walked : Option Bytes) (reply : Bytes)
    → answer id1 id0 body portal walked ≡ some reply
    → Answered id1 id0 body walked reply
unfolding answer
answer-Answered id1 id0 body none reply h = cc
answer-Answered id1 id0 body (some rest) reply h = elim (Bool-cases (is_in_a rest)) [
  | inl e ↦
      let asked = qtype-is_in_a rest e in
      (rest, refl, ground (arith, h, e), asked, ground (arith, h, e))
  | inr e ↦ absurd (ground (arith, h, e))
]

-- Whatever the bytes of a query are: if the other server would answer it with the address of the
-- portal, if it is no response itself and the answer fits the buffer, then the two answers are the same.
pub build_dns_reply-build_a_response :
    (id1 id0 f1 f0 qd1 qd0 an1 an0 ns1 ns0 ar1 ar0 : ℕ) (body : Bytes) (room : ℕ) (reply : Bytes)
    → build_a_response
        (id1 ∷ id0 ∷ f1 ∷ f0 ∷ qd1 ∷ qd0 ∷ an1 ∷ an0 ∷ ns1 ∷ ns0 ∷ ar1 ∷ ar0 ∷ body)
        portal
      ≡ some reply
    → f1 < 128
    → length reply ≤ room
    → build_dns_reply
        (id1 ∷ id0 ∷ f1 ∷ f0 ∷ qd1 ∷ qd0 ∷ an1 ∷ an0 ∷ ns1 ∷ ns0 ∷ ar1 ∷ ar0 ∷ body)
        room
      ≡ some reply
unfolding build_a_response build_dns_reply answer
build_dns_reply-build_a_response id1 id0 f1 f0 qd1 qd0 an1 an0 ns1 ns0 ar1 ar0 body room reply h f
      fits =
    let one : (qd1 * 256 + qd0 == 1) ≡ true = ground (arith, h) in
    let query : leb 128 f1 ≡ false = ground arith in
    let found : answer id1 id0 body portal (walk (suc (length body)) body) ≡ some reply =
      rw one at h in
    let (rest, walked, four, asked, same) =
      answer-Answered id1 id0 body (walk (suc (length body)) body) reply found in
    let (skipped, less) = skip_name-walk (suc (length body)) 12 body rest walked (omega arith) in
    let n = length body - length rest + 4 in
    let echoed = length-take_of_le n body (omega arith) in
    let size : length reply ≡ 12 + n + 16 =
      ap length same ∙ omega (arith, echoed, length-append (take n body) (record_of portal)) in
    let inside : ltb (12 + length body) (12 + (length body - length rest - 1) + 5) ≡ false =
      ground arith in
    let room_left : ltb room (12 + (length body - length rest - 1) + 5 + 16) ≡ false =
      ground arith in
    let kept : 12 + (length body - length rest - 1) + 5 - 12 ≡ n = omega arith in
    rw (query, one, skipped, inside, room_left, asked, kept) (ap some (sym same))

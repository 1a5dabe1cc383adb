-- ===== src/Captive/Answer.antt =====
-- captive_dns.rs: the answer to every well-formed question, and what any answer says.
use watercontroller.Base.{
  ℕ, zero, suc, ◌+◌, ◌-◌, ◌≤◌, ◌<◌, ◌≡◌, refl, ap, ◌∙◌, arith, false, some, List, [], ◌∷◌, ◌++◌,
  length, length-append, drop-length, take-length, drop, take, ltb,
}
use mathlib.Core.List.{append_assoc}
use watercontroller.Nvs.{Bytes}
use watercontroller.Captive.{Octets, walk, header, record_of, answer, build_a_response}

-- A name as its labels, each of which has 1 to 63 bytes.
abbrev pub AreLabels : List Bytes → Type 0
AreLabels [] = Unit
AreLabels (l ∷ ls) = (1 ≤ length l) × (length l < 64) × AreLabels ls

-- The name on the wire, before the root label.
abbrev pub name : List Bytes → Bytes
name [] = []
name (l ∷ ls) = length l ∷ (l ++ name ls)

-- The question for the address of a name.
abbrev pub question : List Bytes → Bytes
question ls = name ls ++ (0 ∷ 0 ∷ 1 ∷ 0 ∷ 1 ∷ [])

walk-name :
    (fuel : ℕ) (ls : List Bytes) (rest : Bytes)
    → AreLabels ls
    → length (name ls) < fuel
    → walk fuel (name ls ++ (0 ∷ rest)) ≡ some rest
unfolding walk
walk-name zero ls rest h k = absurd (omega arith)
walk-name (suc fuel) [] rest h k = refl
walk-name (suc fuel) (l ∷ ls) rest (h, u, hs) k =
    let next : drop (length l) ((l ++ name ls) ++ (0 ∷ rest)) ≡ name ls ++ (0 ∷ rest) =
      ap (drop (length l)) (append_assoc l (name ls) (0 ∷ rest))
      ∙ drop-length l (name ls ++ (0 ∷ rest)) in
    let later = walk-name fuel ls rest hs (omega (arith, length-append l (name ls))) in
    let size = length-append (name ls) (0 ∷ rest) in rw next (ground (arith, later, size))

-- A query for the address of a name with labels of 1 to 63 bytes is answered, whatever its id, its
-- flags, the counts of its other sections and the bytes after its question are: the answer has its id,
-- no error, its question as it was asked, and one record that gives the device's address.
pub build_a_response_lem :
    (id1 id0 f1 f0 an1 an0 ns1 ns0 ar1 ar0 : ℕ) (ls : List Bytes) (extra : Bytes) (ip : Octets)
    → AreLabels ls
    → build_a_response
        (id1 ∷ id0 ∷ f1 ∷ f0 ∷ 0 ∷ 1 ∷ an1 ∷ an0 ∷ ns1 ∷ ns0 ∷ ar1 ∷ ar0 ∷ (question ls ++ extra))
        ip
      ≡ some ((id1 ∷ id0 ∷ header) ++ question ls ++ record_of ip)
unfolding build_a_response answer
build_a_response_lem id1 id0 f1 f0 an1 an0 ns1 ns0 ar1 ar0 ls extra ip h =
    let after = 0 ∷ 1 ∷ 0 ∷ 1 ∷ extra in
    let split : question ls ++ extra ≡ name ls ++ (0 ∷ after) =
      append_assoc (name ls) (0 ∷ 0 ∷ 1 ∷ 0 ∷ 1 ∷ []) extra in
    let size = length-append (name ls) (0 ∷ after) in
    let walked =
      walk-name (suc (length (name ls ++ (0 ∷ after)))) ls after h (omega (arith, size)) in
    let end : length (question ls ++ extra) - length after + 4 ≡ length (question ls) =
      omega (arith, size, ap length split, length-append (name ls) (0 ∷ 0 ∷ 1 ∷ 0 ∷ 1 ∷ [])) in
    let echoed : take (length (question ls ++ extra) - length after + 4) (question ls ++ extra)
        ≡ question ls =
      ap (λ n. take n (question ls ++ extra)) end ∙ take-length (question ls) extra in
    let found : walk (suc (length (question ls ++ extra))) (question ls ++ extra) ≡ some after =
      ap (λ (b : Bytes). walk (suc (length b)) b) split ∙ walked in
    let long : ltb (length after) 4 ≡ false = ground arith in rw (found, long, echoed) refl

-- ===== src/Console/Line.antt =====
-- serial.rs of crates/firmware-nostd: the line discipline of the loop in `serial_task`. A byte is the
-- character of its number (`b as char`), and `line` is a text of at most 80 bytes.
use Prim.Native.Char.{Char, code}
use Prim.Native.String.{[], ◌∷◌}
use watercontroller.Base.{
  ℕ, ◌+◌, ◌≤◌, String, Bool, true, false, List, All, ◌||◌, ◌==◌, ◌<>◌, leb, ltb, is_empty, chars,
  if◌then◌else◌, ◌≡◌, refl, ap, ◌∙◌, arith, Bool-cases, inl, inr,
}
use text.Mathlib.TextLemmas.{nil-append, cons-append, append_assoc, append-nil}
use watercontroller.Serial.Line.{pop, is_printable, IsPrintable}

-- `char::len_utf8` of a character below 256.
abbrev pub len_utf8 : Char → ℕ
len_utf8 c = if ltb (code c) 128 then 1 else 2

-- `line.len()`.
abbrev pub len : String → ℕ
len [] = 0
len (c ∷ s) = len_utf8 c + len s

abbrev pub capacity : ℕ
capacity = 80

-- `line.push(c)`, which is refused if the line is full, and then `line.clear()`.
unfoldable pub push : Char → String → String
push c line = if leb (len line + len_utf8 c) capacity then line <> (c ∷ []) else []

abbrev is_end : Char → Bool
is_end c = code c == 13 || code c == 10

abbrev is_erase : Char → Bool
is_erase c = code c == 8 || code c == 127

-- The line after a byte that does not end it.
unfoldable pub key : Char → String → String
unfolding pop push
key c line = if is_erase c then pop line else push c line

abbrev pub Lines : Type 0
Lines = List String

-- The lines that some bytes hand to `handle`, and what is left in `line`.
unfoldable pub read_keys : String → String → Lines × String
unfolding key
read_keys line [] = (List.[], line)
read_keys line (c ∷ cs) =
    let (lines, rest) = read_keys [] cs in
    let more = read_keys (key c line) cs in if is_end c then (List.◌∷◌ line lines, rest) else more

len-snoc : (s : String) (c : Char) → len (s <> (c ∷ [])) ≡ len s + len_utf8 c
len-snoc [] c = rw (nil-append (c ∷ [])) (omega arith)
len-snoc (d ∷ s) c = rw (cons-append d s (c ∷ []), len-snoc s c) (omega arith)

len-pop : (s : String) → len (pop s) ≤ len s
unfolding pop
len-pop [] = omega arith
len-pop (c ∷ s) = elim (Bool-cases (is_empty s)) [
  | inl e ↦ rw e (omega arith)
  | inr e ↦ rw e (omega (arith, len-pop s))
]

len-key : (c : Char) (s : String) → len s ≤ capacity → len (key c s) ≤ capacity
unfolding key push
len-key c s h = elim (Bool-cases (is_erase c)) [
  | inl e ↦ rw e (omega (arith, len-pop s))
  | inr e ↦ elim (Bool-cases (leb (len s + len_utf8 c) capacity)) [
    | inl f ↦ rw (e, f, len-snoc s c) (grind (arith, f))
    | inr f ↦ rw (e, f) (omega arith)
  ]
]

-- No line that is handed over, nor what is left, has more than 80 bytes.
pub len-read_keys :
    (line s : String)
    → len line ≤ capacity
    → let (lines, rest) = read_keys line s in
      All (λ l. len l ≤ capacity) lines × (len rest ≤ capacity)
unfolding read_keys
len-read_keys line [] h = (tt, h)
len-read_keys line (c ∷ cs) h =
    let (done, left) = len-read_keys [] cs (omega arith) in
    let more = len-read_keys (key c line) cs (len-key c line h) in
    elim (Bool-cases (is_end c)) [ inl e ↦ rw e ((h, done), left) | inr e ↦ rw e more ]

-- What a printable character is for the loop.
record Plain (c : Char) : Type 0 where
  end : is_end c ≡ false
  erase : is_erase c ≡ false
  one : len_utf8 c ≡ 1

printable-Plain : (c : Char) → is_printable c ≡ true → Plain c
printable-Plain c h = record {
  end = ground (arith, h);
  erase = ground (arith, h);
  one = ground (arith, h);
}

-- A printable character that fits is added, and one that does not empties the line.
read_keys-fits :
    (line : String) (c : Char) (s : String)
    → is_printable c ≡ true
    → len line + 1 ≤ capacity
    → read_keys line (c ∷ s) ≡ read_keys (line <> (c ∷ [])) s
unfolding read_keys key push
read_keys-fits line c s h k =
    let p = printable-Plain c h in
    let fits : leb (len line + len_utf8 c) capacity ≡ true = rw p.one (ground arith) in
    rw (p.end, p.erase, fits) refl

read_keys-overflow :
    (line : String) (c : Char) (s : String)
    → is_printable c ≡ true
    → capacity ≤ len line
    → read_keys line (c ∷ s) ≡ read_keys "" s
unfolding read_keys key push
read_keys-overflow line c s h k =
    let p = printable-Plain c h in
    let full : leb (len line + len_utf8 c) capacity ≡ false = rw p.one (ground arith) in
    rw (p.end, p.erase, full) refl

read_keys-printable :
    (line s t : String)
    → IsPrintable s
    → len line + chars s ≤ capacity
    → read_keys line (s <> t) ≡ read_keys (line <> s) t
read_keys-printable line [] t h k = rw (nil-append t, append-nil line) refl
read_keys-printable line (c ∷ s) t (h, hs) k =
    let grown = len-snoc line c ∙ ap (λ (n : ℕ). len line + n) (printable-Plain c h).one in
    let later = read_keys-printable (line <> (c ∷ [])) s t hs (omega (arith, grown)) in
    let same : (line <> (c ∷ [])) <> s ≡ line <> (c ∷ s) =
      append_assoc line (c ∷ []) s
      ∙ ap (λ u. line <> u) (cons-append c [] s ∙ ap (λ u. c ∷ u) (nil-append s)) in
    rw (cons-append c s t)
      (read_keys-fits line c (s <> t) h (omega arith) ∙ later ∙ ap (λ u. read_keys u t) same)

read_keys-full :
    (line s t : String)
    → IsPrintable s
    → len line ≤ capacity
    → len line + chars s ≡ capacity + 1
    → read_keys line (s <> t) ≡ read_keys "" t
read_keys-full line [] t h l k = absurd (omega arith)
read_keys-full line (c ∷ []) t (h, hs) l k =
    rw (cons-append c [] t, nil-append t) (read_keys-overflow line c t h (omega arith))
read_keys-full line (c ∷ d ∷ s) t (h, hs) l k =
    let grown = len-snoc line c ∙ ap (λ (n : ℕ). len line + n) (printable-Plain c h).one in
    rw (cons-append c (d ∷ s) t) (
      read_keys-fits line c ((d ∷ s) <> t) h (omega arith)
      ∙ read_keys-full (line <> (c ∷ [])) (d ∷ s) t hs (omega (arith, grown))
          (omega (arith, grown)))

-- Eighty-one printable characters.
abbrev pub IsBlock : String → Type 0
IsBlock s = IsPrintable s × (chars s ≡ capacity + 1)

abbrev pub joined : List String → String → String
joined List.[] s = s
joined (List.◌∷◌ b bs) s = b <> joined bs s

-- Of a line of printable characters, however long, the last ones are handed over that are left after
-- it is cut into blocks of 81 from its start. So a line of at most 80 is handed over whole.
pub read_keys-joined :
    (blocks : List String) (t rest : String)
    → All IsBlock blocks
    → IsPrintable t
    → chars t ≤ capacity
    → read_keys "" (joined blocks (t <> ("\r" ∷ rest)))
      ≡ (List.◌∷◌ t (read_keys "" rest).0, (read_keys "" rest).1)
unfolding read_keys
read_keys-joined List.[] t rest h k l =
    read_keys-printable "" t ("\r" ∷ rest) k (omega arith)
    ∙ ap (λ u. read_keys u ("\r" ∷ rest)) (nil-append t)
read_keys-joined (List.◌∷◌ b bs) t rest ((p, q), h) k l =
    read_keys-full "" b (joined bs (t <> ("\r" ∷ rest))) p (omega arith) (omega (arith, q))
    ∙ read_keys-joined bs t rest h k l

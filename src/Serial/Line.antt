-- ===== src/Serial/Line.antt =====
-- serial_cli.rs: the line discipline of the loop in `run`. A byte is the character of its number.
use Prim.Native.Char.{Char, code}
use Prim.Native.String.{[], ◌∷◌}
use watercontroller.Base.{
  String, Bool, true, false, List, ◌&&◌, ◌||◌, ◌==◌, ◌<>◌, leb, is_empty, if◌then◌else◌,
}
use mathlib.Core.List
use text.Mathlib.TextLemmas.{nil-append, cons-append, append_assoc, append-nil}
use watercontroller.Base.{◌≡◌, refl, ap, ◌∙◌, arith}

-- `buf.pop()`: the text without its last character.
unfoldable pub pop : String → String
pop [] = []
pop (c ∷ s) = let rest = pop s in if is_empty s then [] else c ∷ rest

-- What a byte does: the line is done, or the buffer changes.
pub data Key : Type 0 where
  line : String → Key
  typed : String → Key

abbrev pub is_printable : Char → Bool
is_printable c = leb 32 (code c) && leb (code c) 126

unfoldable pub key : Char → String → Key
unfolding pop
key c buf =
    if code c == 13 || code c == 10
    then line buf
    else if code c == 8 || code c == 127
    then typed (pop buf)
    else if is_printable c
    then typed (buf <> (c ∷ []))
    else typed buf

abbrev flush : String → List.List String → List.List String
flush [] words = words
flush (c ∷ s) words = List.◌∷◌ (c ∷ s) words

-- `split_whitespace`, with the word that was begun. The buffer has no other white space than blanks,
-- and `trim` takes off only what is skipped here.
unfoldable pub words_from : String → String → List.List String
words_from word [] = flush word List.[]
words_from word (c ∷ s) =
    let next = words_from [] s in
    let more = words_from (word <> (c ∷ [])) s in if code c == 32 then flush word next else more

abbrev pub Lines : Type 0
Lines = List.List (List.List String)

abbrev pub line_done : String → Lines → Lines
line_done [] rest = rest
line_done (c ∷ s) rest = List.◌∷◌ (words_from [] (c ∷ s)) rest

-- The lines that the loop hands to `dispatch` as it reads some bytes, and the buffer that it leaves.
unfoldable pub read_keys : String → String → Lines × String
unfolding key words_from
read_keys buf [] = (List.[], buf)
read_keys buf (c ∷ cs) = elim (key c buf) [
  | typed b ↦ read_keys b cs
  | line b ↦ let (lines, rest) = read_keys [] cs in (line_done b lines, rest)
]

-- No blank and no control character in a word; only printable characters in a text.
abbrev pub IsPrintable : String → Type 0
IsPrintable [] = Unit
IsPrintable (c ∷ s) = (is_printable c ≡ true) × IsPrintable s

is_empty-snoc : (s : String) (c : Char) → is_empty (s <> (c ∷ [])) ≡ false
is_empty-snoc [] c = rw (nil-append (c ∷ [])) refl
is_empty-snoc (d ∷ s) c = rw (cons-append d s (c ∷ [])) refl

pop-snoc : (s : String) (c : Char) → pop (s <> (c ∷ [])) ≡ s
unfolding pop
pop-snoc [] c = rw (nil-append (c ∷ [])) refl
pop-snoc (d ∷ s) c = rw (cons-append d s (c ∷ [])) (rw (is_empty-snoc s c, pop-snoc s c) refl)

key-printable :
    (c : Char) (buf : String) → is_printable c ≡ true → key c buf ≡ typed (buf <> (c ∷ []))
unfolding key
key-printable c buf h = ground (arith, h)

read_keys-printable :
    (buf s t : String) → IsPrintable s → read_keys buf (s <> t) ≡ read_keys (buf <> s) t
unfolding read_keys
read_keys-printable buf [] t h = rw (nil-append t, append-nil buf) refl
read_keys-printable buf (c ∷ s) t (h, hs) =
    let later = read_keys-printable (buf <> (c ∷ [])) s t hs in
    let same : (buf <> (c ∷ [])) <> s ≡ buf <> (c ∷ s) =
      append_assoc buf (c ∷ []) s
      ∙ ap (λ u. buf <> u) (cons-append c [] s ∙ ap (λ u. c ∷ u) (nil-append s)) in
    rw (cons-append c s t)
      (rw (key-printable c buf h, read_keys) (later ∙ ap (λ u. read_keys u t) same))

-- Printable characters are added to what was typed, a character that is typed and erased has no
-- effect, and the end of a line hands over exactly what was typed since the end of the line before.
pub read_keys_lem :
    (buf s t : String) (c : Char)
    → IsPrintable s
    → is_printable c ≡ true
    → (read_keys buf (s <> t) ≡ read_keys (buf <> s) t)
      × (read_keys buf (c ∷ "\u{8}" ∷ t) ≡ read_keys buf t)
      × (read_keys buf ("\r" ∷ t) ≡ (line_done buf (read_keys "" t).0, (read_keys "" t).1))
unfolding read_keys key
read_keys_lem buf s t c h k = (
  read_keys-printable buf s t h,
  rw (key-printable c buf k, read_keys, pop-snoc buf c) refl,
  refl,
)

-- ===== src/Tools/Lines.antt =====
-- `str::lines` and `str::trim` of the standard library.
use Prim.Native.String.{◌++◌ as ◌<>◌}
use Prim.Native.Char.{Char, code}
use text.Mathlib.TextLemmas.{cons-append, nil-append}
use orbit_chain_contracts.Common.{
  String, Bool, true, false, ◌||◌, ◌&&◌, List, [], ◌∷◌, ◌≡◌, refl, ap, ◌∙◌, arith, ◌==◌, leb,
  if◌then◌else◌,
}

-- '\n' and '\r'
abbrev pub is_newline : Char → Bool
is_newline c = code c == 10

abbrev pub is_return : Char → Bool
is_return c = code c == 13

abbrev starts_newline : String → Bool
starts_newline String.[] = false
starts_newline (String.◌∷◌ c s) = is_newline c

-- A character in front of the first line.
abbrev pub put_char : Char → List String → List String
put_char c [] = (String.◌∷◌ c String.[]) ∷ []
put_char c (l ∷ ls) = (String.◌∷◌ c l) ∷ ls

-- The lines, without their `\n` or `\r\n`; a last line that is empty does not count.
unfoldable pub lines : String → List String
lines String.[] = []
lines (String.◌∷◌ c s) =
    let rest = lines s in
    if is_newline c
    then String.[] ∷ rest
    else if is_return c && starts_newline s
    then rest
    else put_char c rest

-- The Unicode property `White_Space`.
abbrev pub is_whitespace : Char → Bool
is_whitespace c =
    let n = code c in
    (leb 9 n && leb n 13)
    || (n == 32)
    || (n == 133)
    || (n == 160)
    || (n == 5760)
    || (leb 8192 n && leb n 8202)
    || (n == 8232)
    || (n == 8233)
    || (n == 8239)
    || (n == 8287)
    || (n == 12288)

-- `s.trim().is_empty()`
unfoldable pub is_blank : String → Bool
is_blank String.[] = true
is_blank (String.◌∷◌ c s) = is_whitespace c && is_blank s

-- No character of the text ends a line.
unfoldable pub is_one_line : String → Bool
is_one_line String.[] = true
is_one_line (String.◌∷◌ c s) = if is_newline c || is_return c then false else is_one_line s

abbrev newline : Char
newline = "\n"

newline-append : (s : String) → "\n" <> s ≡ String.◌∷◌ newline s
newline-append s = cons-append newline String.[] s ∙ ap (String.◌∷◌ newline) (nil-append s)

lines-newline : (s : String) → lines (String.◌∷◌ newline s) ≡ "" ∷ lines s
unfolding lines
lines-newline s = refl

lines-cons :
    (c : Char) (s line : String) (rest : List String)
    → is_newline c ≡ false
    → is_return c ≡ false
    → lines s ≡ line ∷ rest
    → lines (String.◌∷◌ c s) ≡ String.◌∷◌ c line ∷ rest
unfolding lines
lines-cons c s line rest h k e = ground arith

-- A text without line ends is one line in front of the others.
pub lines-append :
    (line s : String) → is_one_line line ≡ true → lines (line <> "\n" <> s) ≡ line ∷ lines s
unfolding lines is_one_line
lines-append String.[] s h = ap lines (nil-append ("\n" <> s) ∙ newline-append s) ∙ lines-newline s
lines-append (String.◌∷◌ c line) s h =
    ap lines (cons-append c line ("\n" <> s))
    ∙ lines-cons c (line <> "\n" <> s) line (lines s) (ground arith) (ground arith)
        (lines-append line s (ground arith))

-- ===== src/Base/Strings.antt =====
-- Python's `str` as a list of code points, with the methods that the program calls.
-- `upper` is exact for ASCII and for U+FFFD, all that decoding as ASCII with replacement gives.
use Prim.Native.Char.{code}
use Prim.Native.Nat.{ℕ, ◌-◌}
use Prim.Native.String.{String}
use mathlib.Core.Bool.{Bool, true, false, ◌&&◌, ◌||◌}
use mathlib.Core.Option.{Option, none, some}
use mathlib.Core.List.{List, [], ◌∷◌, ◌++◌, map}
use owon_xdm1041_server.Base.Tests.{leb, ltb, ◌==◌, if◌then◌else◌}

abbrev pub Text : Type 0
Text = List ℕ

-- A literal of the source.
abbrev pub codes : String → Text
codes String.[] = []
codes (String.◌∷◌ c s) = code c ∷ codes s

-- `a == b` on strings.
unfoldable pub text_eq : Text → Text → Bool
text_eq [] [] = true
text_eq [] (d ∷ t) = false
text_eq (c ∷ s) [] = false
text_eq (c ∷ s) (d ∷ t) = c == d && text_eq s t

-- `str.isspace` of one character.
unfoldable pub is_space : ℕ → Bool
is_space c =
    (leb 9 c && leb c 13)
    || (leb 28 c && leb c 32)
    || c == 0x85
    || c == 0xa0
    || c == 0x1680
    || (leb 0x2000 c && leb c 0x200a)
    || c == 0x2028
    || c == 0x2029
    || c == 0x202f
    || c == 0x205f
    || c == 0x3000

unfoldable pub lstrip : Text → Text
lstrip [] = []
lstrip (c ∷ s) = let rest = lstrip s in if is_space c then rest else c ∷ s

-- A character in front of a text that has no trailing white space.
unfoldable pub cons_stripped : ℕ → Text → Text
cons_stripped c [] = if is_space c then [] else c ∷ []
cons_stripped c (d ∷ t) = c ∷ d ∷ t

unfoldable pub rstrip : Text → Text
unfolding cons_stripped
rstrip [] = []
rstrip (c ∷ s) = cons_stripped c (rstrip s)

unfoldable pub strip : Text → Text
unfolding lstrip rstrip is_space
strip s = rstrip (lstrip s)

unfoldable pub upper_char : ℕ → ℕ
upper_char c = if leb b'a' c && leb c b'z' then c - 32 else c

unfoldable pub upper : Text → Text
unfolding upper_char
upper = map upper_char

-- `s.startswith(prefix)`
unfoldable pub starts_with : Text → Text → Bool
starts_with s [] = true
starts_with [] (d ∷ p) = false
starts_with (c ∷ s) (d ∷ p) = c == d && starts_with s p

-- `pattern in s`
unfoldable pub has_text : Text → Text → Bool
unfolding starts_with
has_text pattern [] = starts_with [] pattern
has_text pattern (c ∷ s) = starts_with (c ∷ s) pattern || has_text pattern s

-- `c` in front of the words of `s`, to the first of which it belongs if no space follows it.
unfoldable pub cons_word : ℕ → Text → List Text → List Text
cons_word c [] ws = (c ∷ []) ∷ ws
cons_word c (d ∷ s) [] = (c ∷ []) ∷ []
cons_word c (d ∷ s) (w ∷ ws) = if is_space d then (c ∷ []) ∷ w ∷ ws else (c ∷ w) ∷ ws

-- `s.split()`
unfoldable pub split : Text → List Text
unfolding cons_word is_space
split [] = []
split (c ∷ s) = let rest = split s in if is_space c then rest else cons_word c s rest

-- `" ".join(words)`
unfoldable pub join_words : List Text → Text
join_words [] = []
join_words (w ∷ []) = w
join_words (w ∷ v ∷ ws) = w ++ (32 ∷ join_words (v ∷ ws))

-- `s[0] == c`
unfoldable pub first_is : ℕ → Text → Bool
first_is c [] = false
first_is c (d ∷ s) = d == c

-- `s[-1] == c`
unfoldable pub last_is : ℕ → Text → Bool
last_is c [] = false
last_is c (d ∷ []) = d == c
last_is c (d ∷ e ∷ s) = last_is c (e ∷ s)

-- `s[:-1]`
unfoldable pub but_last : Text → Text
but_last [] = []
but_last (c ∷ []) = []
but_last (c ∷ d ∷ s) = c ∷ but_last (d ∷ s)

-- `s[1:]`
unfoldable pub but_first : Text → Text
but_first [] = []
but_first (c ∷ s) = s

-- `s.encode("ascii")`; `none` is a `UnicodeEncodeError`.
unfoldable pub encode_ascii : Text → Option (List ℕ)
encode_ascii [] = some []
encode_ascii (c ∷ s) =
    if ltb c 128 then elim (encode_ascii s) [ none ↦ none | some t ↦ some (c ∷ t) ] else none

-- `raw.decode("ascii", errors="replace")`
unfoldable pub decode_ascii : List ℕ → Text
decode_ascii = map (λ b. if ltb b 128 then b else 0xfffd)

-- ===== src/Text.antt =====
-- Python's `str` as its code points, with the methods that the tools call on it. Case folding and
-- digits are those of ASCII; white space and line boundaries are Python's full sets.
pub mod Number
pub mod Laws
pub mod Plain
use Prim.Native.Char.{code}
use g_halo.Prelude.{
  ℕ, ◌+◌, ◌-◌, String, Bool, true, false, ◌&&◌, ◌||◌, List, [], ◌∷◌, ◌++◌, map, Option, none, some,
  ltb, leb, nat_eq, ◌==◌, if◌then◌else◌,
}

abbrev pub Text : Type 0
Text = List ℕ

-- A text literal of the source.
unfoldable pub lit : String → Text
lit String.[] = []
lit (String.◌∷◌ c s) = code c ∷ lit s

unfoldable pub is_space : ℕ → Bool
is_space c =
    (leb 9 c && leb c 13)
    || (leb 28 c && leb c 32)
    || c == 0x85
    || c == 0xa0
    || c == 0x1680
    || (leb 0x2000 c && leb c 0x200a)
    || c == 0x2028
    || c == 0x2029
    || c == 0x202f
    || c == 0x205f
    || c == 0x3000

-- the boundaries of `str.splitlines`
unfoldable pub is_line_break : ℕ → Bool
is_line_break c =
    (leb 10 c && leb c 13) || (leb 28 c && leb c 30) || c == 0x85 || c == 0x2028 || c == 0x2029

unfoldable pub lstrip : (ℕ → Bool) → Text → Text
lstrip drop [] = []
lstrip drop (c ∷ s) = if drop c then lstrip drop s else c ∷ s

unfoldable pub keep_right : (ℕ → Bool) → ℕ → Text → Text
keep_right drop c [] = if drop c then [] else c ∷ []
keep_right drop c (d ∷ s) = c ∷ d ∷ s

unfoldable pub rstrip : (ℕ → Bool) → Text → Text
unfolding keep_right
rstrip drop [] = []
rstrip drop (c ∷ s) = keep_right drop c (rstrip drop s)

unfoldable pub strip_by : (ℕ → Bool) → Text → Text
unfolding lstrip rstrip
strip_by drop s = lstrip drop (rstrip drop s)

-- s.strip()
unfoldable pub strip : Text → Text
unfolding strip_by
strip s = strip_by is_space s

unfoldable pub lower_char : ℕ → ℕ
lower_char c = if leb b'A' c && leb c b'Z' then c + 32 else c

-- s.lower()
unfoldable pub lower : Text → Text
unfolding lower_char
lower s = map lower_char s

-- s.startswith(prefix)
unfoldable pub starts_with : Text → Text → Bool
starts_with [] s = true
starts_with (p ∷ ps) [] = false
starts_with (p ∷ ps) (c ∷ s) = p == c && starts_with ps s

-- s.removeprefix(prefix), for the part that is left
unfoldable pub drop_prefix : Text → Text → Text
drop_prefix [] s = s
drop_prefix (p ∷ ps) [] = []
drop_prefix (p ∷ ps) (c ∷ s) = drop_prefix ps s

unfoldable pub remove_prefix : Text → Text → Text
unfolding starts_with drop_prefix
remove_prefix prefix s = if starts_with prefix s then drop_prefix prefix s else s

-- part in s
unfoldable pub contains : Text → Text → Bool
unfolding starts_with
contains part [] = starts_with part []
contains part (c ∷ s) = starts_with part (c ∷ s) || contains part s

-- s.split(c, 1), when c occurs in s
unfoldable pub split_once : ℕ → Text → Option (Text × Text)
split_once c [] = none
split_once c (d ∷ s) =
    if d == c
    then some ([], s)
    else elim (split_once c s) [ none ↦ none | some (a, b) ↦ some (d ∷ a, b) ]

-- What is left of an open line at the end of the text.
unfoldable pub last_line : Text → List Text
last_line [] = []
last_line (c ∷ s) = (c ∷ s) ∷ []

-- `open_line` holds what was read of the current line, and `after_cr` that the text just before was "\r".
unfoldable pub lines_from : Bool → Text → Text → List Text
unfolding last_line
lines_from after_cr open_line [] = last_line open_line
lines_from after_cr open_line (c ∷ s) =
    let rest = lines_from (c == 13) [] s in
    let longer = lines_from false (open_line ++ c ∷ []) s in
    let same = lines_from false open_line s in
    if after_cr && c == 10 then same else if is_line_break c then open_line ∷ rest else longer

-- s.splitlines()
unfoldable pub split_lines : Text → List Text
unfolding lines_from is_line_break
split_lines s = lines_from false [] s

unfoldable pub words_from : Text → Text → List Text
unfolding last_line
words_from word [] = last_line word
words_from word (c ∷ s) =
    let rest = words_from [] s in
    let longer = words_from (word ++ c ∷ []) s in
    if is_space c then last_line word ++ rest else longer

-- s.split()
unfoldable pub split_words : Text → List Text
unfolding words_from is_space
split_words s = words_from [] s

-- separator.join(parts)
unfoldable pub join : Text → List Text → Text
join separator [] = []
join separator (p ∷ []) = p
join separator (p ∷ q ∷ ps) = p ++ separator ++ join separator (q ∷ ps)

-- a or b, for texts
unfoldable pub or_else : Text → Text → Text
or_else [] b = b
or_else (c ∷ s) b = c ∷ s

-- ===== src/Json/Show.antt =====
-- Python's `str` and `repr` of a JSON value. A code point above 127 counts as printable.
use g_halo.Json.{Items, Fields, null, boolean, int, num, str, arr, obj, nil, cons, end, field}
use g_halo.Text.Number.{show_int}
use g_halo.Json.{Json, str, boolean, int, num, arr, obj, Items, cons, Fields, field, null, nil, end}
use g_halo.Float.{Float}
use g_halo.Text.{Text, lit}
use g_halo.Prelude.{
  ℕ, Bool, if◌then◌else◌, ltb, ◌==◌, false, ◌&&◌, ◌∷◌, ◌+◌, ◌||◌, ◌++◌, not, true, ◌-◌, [], ◌/◌,
  nat_eq, ◌%◌,
}

abbrev pub bool_text : Bool → Text
bool_text true = lit "True"
bool_text false = lit "False"

unfoldable pub hex_digit : ℕ → ℕ
hex_digit n = if ltb n 10 then b'0' + n else b'a' + (n - 10)

-- one character between quotes
unfoldable pub repr_char : ℕ → ℕ → Text
unfolding hex_digit
repr_char quote c =
    if c == quote || c == b'\\'
    then b'\\' ∷ c ∷ []
    else if c == 10
    then lit "\\n"
    else if c == 13
    then lit "\\r"
    else if c == 9
    then lit "\\t"
    else if ltb c 32 || c == 127
    then lit "\\x" ++ hex_digit (c / 16) ∷ hex_digit (c % 16) ∷ []
    else c ∷ []

unfoldable pub repr_chars : ℕ → Text → Text
unfolding repr_char
repr_chars quote [] = []
repr_chars quote (c ∷ s) = repr_char quote c ++ repr_chars quote s

unfoldable pub occurs_char : ℕ → Text → Bool
occurs_char c [] = false
occurs_char c (d ∷ s) = d == c || occurs_char c s

-- repr(text): in double quotes only if it has a single quote and no double one
unfoldable pub repr_text : Text → Text
unfolding repr_chars occurs_char
repr_text s =
    let quote = if occurs_char 39 s && not (occurs_char 34 s) then 34 else 39 in
    quote ∷ repr_chars quote s ++ quote ∷ []

module _ {F : Type 0} ⦃f : Float F⦄ where
  unfoldable mutual
    unfolding lit show_int repr_text

    pub repr : Json F → Text
    repr null = lit "None"
    repr (boolean b) = bool_text b
    repr (int n) = show_int n
    repr (num x) = f.show x
    repr (str s) = repr_text s
    repr (arr vs) = b'[' ∷ repr_items vs ++ lit "]"
    repr (obj fs) = b'{' ∷ repr_fields fs ++ lit "}"

    pub repr_items : Items F → Text
    repr_items nil = []
    repr_items (cons v nil) = repr v
    repr_items (cons v (cons w vs)) = repr v ++ lit ", " ++ repr_items (cons w vs)

    pub repr_fields : Fields F → Text
    repr_fields end = []
    repr_fields (field k v end) = repr_text k ++ lit ": " ++ repr v
    repr_fields (field k v (field j w fs)) =
        repr_text k ++ lit ": " ++ repr v ++ lit ", " ++ repr_fields (field j w fs)

  -- str(value)
  unfoldable pub str_of : Json F → Text
  unfolding repr
  str_of (str s) = s
  str_of value = repr value

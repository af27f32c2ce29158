-- ===== src/Analyze/Numbers.antt =====
-- The readers of numbers and texts of tools/ghalo_analyze.py.
use g_halo.Stalls.Load.{is_nil}
use g_halo.KeyValue.{Metadata}
use g_halo.Text.{split_once, split_words, lower, Text, contains, lit}
use g_halo.Text.Number.{int_of_text, is_digit, parse_nat, show_int}
use g_halo.Dict.{insert}
use g_halo.Prelude.{
  ℕ, Option, Bool, List, ℤ, [], if◌then◌else◌, ◌++◌, some, ◌∷◌, none, true, false, map, ◌==◌,
  list_eq, nat_eq, pos, int_eq,
}

-- parse_int, of a text or None
unfoldable pub parse_int : Option Text → Option ℤ
unfolding int_of_text
parse_int none = none
parse_int (some s) = if is_nil s then none else int_of_text s

-- the digits that the loop of `parse_first_int` collects
unfoldable pub first_digits : Bool → Text → Text
unfolding is_digit
first_digits started [] = []
first_digits started (c ∷ s) =
    let more = c ∷ first_digits true s in
    let skipped = first_digits false s in
    if is_digit c then more else if started then [] else skipped

unfoldable pub parse_first_int : Option Text → Option ℕ
unfolding first_digits parse_nat
parse_first_int none = none
parse_first_int (some s) =
    let digits = first_digits false s in if is_nil digits then none else parse_nat digits

-- one token of `parse_slurm_text`
unfoldable pub add_token : Metadata → Text → Metadata
unfolding split_once insert
add_token values token = elim (split_once b'=' token) [
  | none ↦ values
  | some (key, value) ↦ insert key value values
]

unfoldable pub add_tokens : Metadata → List Text → Metadata
unfolding add_token
add_tokens values [] = values
add_tokens values (token ∷ tokens) = add_tokens (add_token values token) tokens

unfoldable pub parse_slurm_text : Text → Metadata
unfolding add_tokens split_words
parse_slurm_text text = add_tokens [] (split_words (map (λ c. if c == 10 then b' ' else c) text))

unfoldable pub display_system : Text → Text
unfolding lower
display_system system =
    if lower system == lit "frontier"
    then lit "Frontier"
    else if lower system == lit "borg"
    then lit "Borg"
    else system

unfoldable pub display_backend : Text → Text
unfolding lower contains
display_backend backend =
    if contains (lit "hip") (lower backend)
    then lit "MPI-HIP"
    else if contains (lit "mpi") (lower backend)
    then lit "MPI"
    else backend

unfoldable pub plural : ℤ → Text → Text
unfolding show_int
plural count unit = show_int count ++ b' ' ∷ unit ++ (if count == pos 1 then [] else lit "s")

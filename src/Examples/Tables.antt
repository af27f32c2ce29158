-- ===== src/Examples/Tables.antt =====
-- The theorems on the entries, tables, ticks and labels of tools/ghalo_analyze.py at small inputs.
use g_halo.Analyze.Plot.Ticks.Powers.{IsPowerOfTwo, power_of_two_ticks_iff}
use g_halo.Analyze.Plot.Overrides.{length-label_overrides}
use g_halo.Text.{lit, Text, join, strip, is_space}
use g_halo.Analyze.Output.Widths.{Reads, ReadsRows, table_lines-ReadsRows}
use g_halo.Analyze.Results.Quoted.{quoted, unquote_csv_string-quoted}
use g_halo.Analyze.Results.Required.{
  HasCells, missing, HasFields, result_from_csv-missing, result_from_json-missing,
}
use g_halo.Analyze.Results.Read.{text_cell, result_from_csv, result_from_json}
use g_halo.Stalls.Load.{Row, is_nil, member}
use g_halo.Analyze.Plot.{label_overrides}
use g_halo.Analyze.Output.{rows_to_markdown, Cells, rule, ordered_fields, table_lines}
use g_halo.Analyze.Plot.Ticks.{power_of_two_ticks}
use g_halo.Sort.Laws.{IsSorted}
use g_halo.Analyze.Results.{unquote_csv_string}
use g_halo.Examples.{text, fields, row, value_of, IsOk, eq_value_of}
use g_halo.Float.Micro.{micro, unit}
use g_halo.Json.{int, num, obj, Fields, find}
use g_halo.Prelude.{
  ℕ, pos, none, int_eq, ltb_ℤ, list_eq, nat_eq, List, All, length, ◌∷◌, ◌≡◌, [], ◌*◌, map, refl, ℤ,
  true, ◌↔◌, ◌⊎◌,
}

quoted_example : unquote_csv_string (quoted (lit "a\"b\\c")) ≡ lit "a\"b\\c"
quoted_example = unquote_csv_string-quoted (lit "a\"b\\c")

ticks_example :
    IsSorted ltb_ℤ (power_of_two_ticks (pos 4 ∷ pos 1 ∷ pos 4 ∷ []))
    × (((h : ℤ)
          → member h (power_of_two_ticks (pos 4 ∷ pos 1 ∷ pos 4 ∷ []))
            ≡ member h (pos 4 ∷ pos 1 ∷ pos 4 ∷ []))
        ↔ All IsPowerOfTwo (pos 4 ∷ pos 1 ∷ pos 4 ∷ []))
    × (All IsPowerOfTwo (pos 4 ∷ pos 1 ∷ pos 4 ∷ [])
        ⊎ (power_of_two_ticks (pos 4 ∷ pos 1 ∷ pos 4 ∷ []) ≡ []))
ticks_example = power_of_two_ticks_iff (pos 4 ∷ pos 1 ∷ pos 4 ∷ [])

ticks : power_of_two_ticks (pos 4 ∷ pos 1 ∷ pos 4 ∷ []) ≡ pos 1 ∷ pos 4 ∷ []
unfolding power_of_two_ticks
ticks = refl

no_ticks : power_of_two_ticks (pos 4 ∷ pos 6 ∷ []) ≡ []
unfolding power_of_two_ticks
no_ticks = refl

abbrev table : List (Cells ℕ)
table =
    ((lit "halo_words", int (pos 64)) ∷ (lit "seconds", num (12 * unit)) ∷ [])
    ∷ ((lit "halo_words", int (pos 100000000000)) ∷ [])
    ∷ []

table_example :
    (heading dashes : Text) × (body : List Text) × (table_lines table ≡ heading ∷ dashes ∷ body)
    × Reads table (λ field. field) (ordered_fields table) heading
    × (dashes ≡ join (lit "  ") (map (rule table) (ordered_fields table)))
    × ReadsRows table (ordered_fields table) table body
table_example = table_lines-ReadsRows table

markdown :
    rows_to_markdown table
    ≡ lit "| halo_words | seconds |\n| --- | --- |\n| 64 | 12 |\n| 100000000000 |  |\n"
unfolding rows_to_markdown lit
markdown = refl

given : IsOk (label_overrides (lit "a" ∷ []) (lit "b, c") 3)
unfolding label_overrides lit
given = tt

label_overrides_example :
    length (value_of (label_overrides (lit "a" ∷ []) (lit "b, c") 3) given) ≡ 3
label_overrides_example =
    length-label_overrides (lit "a" ∷ []) (lit "b, c") 3
      (value_of (label_overrides (lit "a" ∷ []) (lit "b, c") 3) given)
      (eq_value_of (label_overrides (lit "a" ∷ []) (lit "b, c") 3) given)

-- a row without an algorithm
abbrev short_row : Row
short_row = row ("backend" ∷ "algorithm" ∷ []) ("rccl" ∷ "" ∷ [])

has_backend : HasCells (lit "backend" ∷ []) short_row
unfolding text_cell lit
has_backend = (refl, tt)

no_algorithm : is_nil (text_cell (lit "algorithm") short_row) ≡ true
unfolding text_cell lit
no_algorithm = refl

abbrev later_fields : List Text
later_fields =
    map lit
      ("halo_words" ∷ "total_exchange_bytes_per_rank" ∷ "iterations" ∷ "max_average_seconds" ∷ [])

csv_missing_example : result_from_csv {F = ℕ} short_row ≡ missing (lit "algorithm")
csv_missing_example =
    result_from_csv-missing (lit "backend" ∷ []) (lit "algorithm") later_fields short_row refl
      has_backend no_algorithm

abbrev full_row : Row
full_row =
    row
      ("backend" ∷ "algorithm" ∷ "halo_words" ∷ "total_exchange_bytes_per_rank" ∷ "iterations"
        ∷ "max_average_seconds" ∷ [])
      ("rccl" ∷ "halo" ∷ "64" ∷ "512" ∷ "10" ∷ "3" ∷ [])

read : IsOk (result_from_csv {F = ℕ} full_row)
unfolding result_from_csv lit strip is_space
read = tt

-- an entry without an algorithm
abbrev short_entry : Fields ℕ
short_entry = fields (("backend", text "rccl") ∷ [])

has_field : HasFields (lit "backend" ∷ []) short_entry
unfolding find lit
has_field = ((text "rccl", refl), tt)

no_field : find (lit "algorithm") short_entry ≡ none
unfolding find lit
no_field = refl

json_missing_example : result_from_json (obj short_entry) ≡ missing (lit "algorithm")
json_missing_example =
    result_from_json-missing (lit "backend" ∷ []) (lit "algorithm") later_fields short_entry refl
      has_field no_field

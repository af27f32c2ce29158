-- ===== src/Analyze/Output.antt =====
-- The rows that tools/ghalo_analyze.py writes, and its markdown and text tables.
pub mod Widths
use g_halo.Json.Show.{str_of}
use g_halo.Float.{Float}
use g_halo.Stalls.Load.{member}
use g_halo.Text.{Text, join, lit}
use g_halo.Dict.{Dict, get_or}
use g_halo.Json.{null, boolean, int, num, str, arr, obj, Json}
use g_halo.Prelude.{
  pos, negsuc, ℕ, zero, suc, some, none, List, [], ◌++◌, length, ◌∷◌, ◌-◌, if◌then◌else◌, map,
  list_eq, nat_eq, ltb,
}

-- A row: its columns in their order, each with its value.
abbrev pub Cells : Type 0 → Type 0
Cells F = Dict Text (Json F)

-- text.ljust(width)
unfoldable pub spaces : ℕ → ℕ → Text
spaces c zero = []
spaces c (suc n) = c ∷ spaces c n

unfoldable pub ljust : ℕ → Text → Text
unfolding spaces
ljust width text = text ++ spaces b' ' (width - length text)

-- max(number, *numbers)
unfoldable pub greatest : ℕ → List ℕ → ℕ
greatest best [] = best
greatest best (n ∷ numbers) = greatest (if ltb best n then n else best) numbers

unfoldable pub markdown_line : List Text → Text
unfolding join
markdown_line cells = lit "| " ++ join (lit " | ") cells ++ lit " |"

module _ {F : Type 0} where
  -- the keys of a row that are not among the fields
  unfoldable pub add_fields : List Text → Cells F → List Text
  unfolding member
  add_fields fields [] = fields
  add_fields fields ((key, value) ∷ row) =
      add_fields (if member key fields then fields else fields ++ key ∷ []) row

  unfoldable pub fields_from : List Text → List (Cells F) → List Text
  unfolding add_fields
  fields_from fields [] = fields
  fields_from fields (row ∷ rows) = fields_from (add_fields fields row) rows

  unfoldable pub ordered_fields : List (Cells F) → List Text
  unfolding fields_from
  ordered_fields rows = fields_from [] rows

module _ {F : Type 0} ⦃f : Float F⦄ where
  unfoldable pub format_cell : Json F → Text
  unfolding str_of
  format_cell (num x) = f.show12 x
  format_cell value = str_of value

  -- format_cell(row.get(field, ""))
  unfoldable pub cell_text : Cells F → Text → Text
  unfolding format_cell get_or
  cell_text row field = format_cell (get_or (str []) field row)

  unfoldable pub markdown_rows : List Text → List (Cells F) → List Text
  unfolding markdown_line cell_text
  markdown_rows fields [] = []
  markdown_rows fields (row ∷ rows) =
      markdown_line (map (cell_text row) fields) ∷ markdown_rows fields rows

  unfoldable pub rows_to_markdown : List (Cells F) → Text
  unfolding ordered_fields markdown_line markdown_rows join
  rows_to_markdown [] = lit "_No rows._\n"
  rows_to_markdown (row ∷ rows) =
      let fields = ordered_fields (row ∷ rows) in
      join (lit "\n") (
        markdown_line fields
        ∷ markdown_line (map (λ field. lit "---") fields)
        ∷ markdown_rows fields (row ∷ rows))
      ++ lit "\n"

  -- the width of a column
  unfoldable pub column_width : List (Cells F) → Text → ℕ
  unfolding greatest cell_text
  column_width rows field = greatest (length field) (map (λ row. length (cell_text row field)) rows)

  abbrev pub padded : List (Cells F) → (Text → Text) → Text → Text
  padded rows shown field = ljust (column_width rows field) (shown field)

  -- a line of the table: what the columns show, each padded to its width
  unfoldable pub table_line : List (Cells F) → List Text → (Text → Text) → Text
  unfolding ljust column_width join
  table_line rows fields shown = join (lit "  ") (map (padded rows shown) fields)

  unfoldable pub table_rows : List (Cells F) → List Text → List (Cells F) → List Text
  unfolding table_line cell_text
  table_rows all fields [] = []
  table_rows all fields (row ∷ rows) =
      table_line all fields (cell_text row) ∷ table_rows all fields rows

  -- "-" * widths[field]
  abbrev pub rule : List (Cells F) → Text → Text
  rule rows field = spaces b'-' (column_width rows field)

  unfoldable pub table_lines : List (Cells F) → List Text
  unfolding ordered_fields table_line table_rows join spaces column_width
  table_lines rows =
      let fields = ordered_fields rows in
      table_line rows fields (λ field. field)
      ∷ join (lit "  ") (map (rule rows) fields)
      ∷ table_rows rows fields rows

  unfoldable pub rows_to_table : List (Cells F) → Text
  unfolding table_lines join
  rows_to_table [] = lit "No rows.\n"
  rows_to_table (row ∷ rows) = join (lit "\n") (table_lines (row ∷ rows)) ++ lit "\n"

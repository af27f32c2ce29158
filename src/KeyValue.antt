-- ===== src/KeyValue.antt =====
-- The `key=value` files beside a result: `parse_metadata_text` of tools/ghalo_analyze.py, and
-- `parse_key_value_file` of tools/analyze_iteration_stalls.py and tools/migrate_results.py.
use g_halo.Prelude.{List, [], ◌∷◌, Option, none, some, list_eq, nat_eq}
use g_halo.Text.{Text, strip, split_once, split_lines}
use g_halo.Dict.{Dict, insert}

abbrev pub Metadata : Type 0
Metadata = Dict Text Text

-- one line; a line with no "=" is passed over
unfoldable pub add_line : Metadata → Text → Metadata
unfolding insert
add_line values line = elim (split_once b'=' line) [
  | none ↦ values
  | some (key, value) ↦ insert (strip key) (strip value) values
]

unfoldable pub add_lines : Metadata → List Text → Metadata
unfolding add_line
add_lines values [] = values
add_lines values (line ∷ lines) = add_lines (add_line values line) lines

unfoldable pub parse_metadata_text : Text → Metadata
unfolding add_lines
parse_metadata_text text = add_lines [] (split_lines text)

-- `none` is a file that does not exist
unfoldable pub parse_key_value_file : Option Text → Metadata
parse_key_value_file none = []
parse_key_value_file (some text) = parse_metadata_text text

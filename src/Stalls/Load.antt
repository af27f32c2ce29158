-- ===== src/Stalls/Load.antt =====
-- `load_samples` and the CSV readers of tools/analyze_iteration_stalls.py.
pub mod Keys
use g_halo.Prelude.{
  ℕ, Bool, true, false, not, ◌&&◌, ◌||◌, List, [], ◌∷◌, map, Option, none, some, ℤ, pos, negsuc, Eq,
  ◌==◌, nat_eq, list_eq, if◌then◌else◌,
}
use g_halo.Result.{Result, ok, err, ◌>>=◌, ◌>>◌, raise_if, map_m}
use g_halo.Text.{Text, lit}
use g_halo.Text.Number.{int_of_text}
use g_halo.Dict.{Dict, lookup}
use g_halo.Float.{Float}
use g_halo.Json.{Json, int, Builtin, get, get_or, as_list, to_int}
use g_halo.Sort.{sort_by}
use g_halo.Stalls.{
  SampleKey, SampleInfo, key_eq, key_le, IterationRecord, PhaseRecord, RankRecord, StallError,
  Fault, Warning,
}

-- A JSON file: absent, of size 0, not JSON, or its value.
pub data JsonFile (F : Type 0) : Type 0 where
  absent blank malformed : JsonFile F
  parsed : Json F → JsonFile F

unfoldable pub lift_builtin {ℓ} : {A : Type ℓ} → Result Builtin A → Result Fault A
lift_builtin (ok a) = ok a
lift_builtin (err b) = err (Fault.builtin b)

module _ {ℓ} {A : Type ℓ} ⦃e : Eq A⦄ where
  unfoldable pub member : A → List A → Bool
  member a [] = false
  member a (x ∷ xs) = x == a || member a xs

abbrev pub is_nil {ℓ} : {A : Type ℓ} → List A → Bool
is_nil [] = true
is_nil (x ∷ xs) = false

unfoldable pub nonempty {ℓ} : {A : Type ℓ} → Option (List A) → Result Fault (List A)
nonempty none = err (Fault.stall StallError.no_results)
nonempty (some []) = err (Fault.stall StallError.no_results)
nonempty (some (x ∷ xs)) = ok (x ∷ xs)

abbrev pub sample_le : SampleInfo → SampleInfo → Bool
sample_le a b = key_le a.key b.key

module _ {F : Type 0} ⦃f : Float F⦄ where
  -- int(result.get(key, default))
  unfoldable pub int_field : Text → ℤ → Json F → Result Fault ℤ
  unfolding lift_builtin
  int_field key default result =
      lift_builtin (get_or (int default) key result >>= λ value. to_int value)

  unfoldable pub sample_key : Json F → Result Fault SampleKey
  sample_key result = do
    halo ← int_field (lit "halo_words") (pos 0) result
    sample ← int_field (lit "sample_index") (pos 1) result
    ok (record { halo_words = halo; sample_index = sample })

  -- the loop over the results; `seen` are the keys so far
  unfoldable pub collect_samples : List SampleKey → List (Json F) → Result Fault (List SampleInfo)
  unfolding member
  collect_samples seen [] = ok []
  collect_samples seen (result ∷ results) = do
    key ← sample_key result
    raise_if (member key seen) (Fault.stall (StallError.duplicate_sample key))
    iterations ← int_field (lit "iterations") (pos 0) result
    sample_count ← int_field (lit "sample_count") (pos 1) result
    rest ← collect_samples (key ∷ seen) results
    ok (record { key = key; iterations = iterations; sample_count = sample_count } ∷ rest)

  -- the results of a payload, which must be a list that is not empty
  unfoldable pub result_list : Json F → Result Fault (List (Json F))
  unfolding lift_builtin nonempty
  result_list payload = lift_builtin (get (lit "results") payload) >>= λ found. elim found [
    | none ↦ err (Fault.stall StallError.no_results)
    | some value ↦ nonempty (as_list value)
  ]

  unfoldable pub load_samples : JsonFile F → Result Fault (List SampleInfo × Json F)
  unfolding collect_samples result_list
  load_samples absent = err (Fault.stall StallError.missing_json)
  load_samples blank = err (Fault.stall StallError.missing_json)
  load_samples malformed = err Fault.malformed_json
  load_samples (parsed payload) = do
    results ← result_list payload
    samples ← collect_samples [] results
    ok (sort_by sample_le samples, payload)

-- A CSV file: absent, of size 0, or its header and its rows. No header is the empty list. A row has
-- a cell for each column of the header.
abbrev pub Row : Type 0
Row = Dict Text Text

pub data CsvFile : Type 0 where
  absent blank : CsvFile
  table : List Text → List Row → CsvFile

-- row[column]
unfoldable pub cell : Text → Row → Result Fault Text
cell column row = elim (lookup column row) [
  | none ↦ err (Fault.builtin Builtin.key_error)
  | some value ↦ ok value
]

-- row.get(column, "")
unfoldable pub cell_or_blank : Text → Row → Text
cell_or_blank column row = elim (lookup column row) [ none ↦ [] | some value ↦ value ]

-- int(value)
unfoldable pub int_of_cell : Text → Result Fault ℤ
int_of_cell text = elim (int_of_text text) [
  | none ↦ err (Fault.builtin Builtin.value_error)
  | some n ↦ ok n
]

-- int(row[column])
unfoldable pub int_cell : Text → Row → Result Fault ℤ
unfolding cell int_of_cell
int_cell column row = cell column row >>= int_of_cell

-- parse_int(row, column, default)
unfoldable pub parse_int : Text → ℤ → Row → Result Fault ℤ
unfolding cell_or_blank int_of_cell
parse_int column default row =
    let value = cell_or_blank column row in if is_nil value then ok default else int_of_cell value

module _ {F : Type 0} ⦃f : Float F⦄ where
  unfoldable pub float_of_cell : Text → Result Fault F
  float_of_cell text = elim (f.of_text text) [
    | none ↦ err (Fault.builtin Builtin.value_error)
    | some x ↦ ok x
  ]

  -- float(row[column])
  unfoldable pub float_cell : Text → Row → Result Fault F
  unfolding cell float_of_cell
  float_cell column row = cell column row >>= float_of_cell

  -- parse_float(row, column)
  unfoldable pub parse_float : Text → Row → Result Fault F
  unfolding cell_or_blank float_of_cell
  parse_float column row =
      let value = cell_or_blank column row in
      if is_nil value then ok (f.literal 0 1) else float_of_cell value

-- required.issubset(reader.fieldnames)
unfoldable pub has_columns : List Text → List Text → Bool
unfolding member
has_columns [] header = true
has_columns (column ∷ columns) header = member column header && has_columns columns header

-- The readers' common frame: the two warnings, the header check, and a record for each row.
unfoldable pub read_table {ℓ} :
    {A : Type ℓ}
    → Text
    → List Text
    → (Row → Result Fault A)
    → CsvFile
    → Result Fault (List A × List Warning)
unfolding has_columns
read_table name required record_of absent = ok ([], Warning.missing_file name ∷ [])
read_table name required record_of blank = ok ([], Warning.empty_file name ∷ [])
read_table name required record_of (table header rows) = do
  raise_if (is_nil header || not (has_columns required header))
      (Fault.stall (StallError.missing_columns name))
  records ← map_m record_of rows
  ok (records, [])

-- ===== src/Analyze/Results/Required.antt =====
-- The required fields of a result, for both readers of tools/ghalo_analyze.py.
use g_halo.Float.{Float}
use g_halo.Analyze.Results.{AnalyzeFault, AnalysisError, required_fields, python_err}
use g_halo.Result.{Result, err, ◌>>◌}
use g_halo.Stalls.Load.{Row, is_nil}
use g_halo.Text.{Text}
use g_halo.Analyze.Results.Read.{
  check_cells, text_cell, check_fields, result_from_csv, result_from_json, build_csv_result,
  build_result,
}
use g_halo.Json.{obj, Fields, find, Json}
use g_halo.Prelude.{List, All, ◌≡◌, [], ◌∷◌, refl, none, false, true, ◌++◌, ap, ◌∙◌, some}

-- the cells of the columns are not empty
abbrev pub HasCells : List Text → Row → Type 0
HasCells names row = All (λ name. is_nil (text_cell name row) ≡ false) names

-- the entry has the fields
abbrev pub HasFields : {F : Type 0} → List Text → Fields F → Type 0
HasFields {F = F} names item = All (λ name. (value : Json F) × (find name item ≡ some value)) names

abbrev pub missing : {A : Type 0} → Text → Result AnalyzeFault A
missing name = err (AnalyzeFault.analysis (AnalysisError.missing_field name))

check_cells-missing :
    (before : List Text) (name : Text) (after : List Text) (row : Row)
    → HasCells before row
    → is_nil (text_cell name row) ≡ true
    → check_cells (before ++ name ∷ after) row ≡ missing name
unfolding check_cells
check_cells-missing [] name after row h e = rw e refl
check_cells-missing (first ∷ before) name after row h e =
    rw (h.0) (check_cells-missing before name after row h.1 e)

module _ {F : Type 0} ⦃f : Float F⦄ where
  check_fields-missing :
      (before : List Text) (name : Text) (after : List Text) (item : Fields F)
      → HasFields before item
      → find name item ≡ none
      → check_fields (before ++ name ∷ after) item ≡ missing name
  unfolding check_fields
  check_fields-missing [] name after item h e =
      ap (λ o. elim o [ none ↦ missing name | some value ↦ check_fields after item ]) e
  check_fields-missing (first ∷ before) name after item h e =
      let (value, found) = h.0 in
      ap
        (λ o. elim o [
          | none ↦ missing first
          | some value ↦ check_fields (before ++ name ∷ after) item
        ])
        found
      ∙ check_fields-missing before name after item h.1 e

module _ {F : Type 0} ⦃f : Float F⦄ where
  -- A row whose cell of a required column is empty, and whose cells of the required columns before it
  -- are not, is refused with that column's name.
  pub result_from_csv-missing :
      (before : List Text) (name : Text) (after : List Text) (row : Row)
      → required_fields ≡ before ++ name ∷ after
      → HasCells before row
      → is_nil (text_cell name row) ≡ true
      → result_from_csv {F = F} row ≡ missing name
  unfolding result_from_csv
  result_from_csv-missing before name after row split h e =
      let first : check_cells required_fields row ≡ missing name =
        ap (λ names. check_cells names row) split ∙ check_cells-missing before name after row h e in
      ap (λ m. m >> python_err (build_csv_result row)) first

  -- An entry that lacks a required field, and has the required fields before it, is refused with that
  -- field's name.
  pub result_from_json-missing :
      (before : List Text) (name : Text) (after : List Text) (item : Fields F)
      → required_fields ≡ before ++ name ∷ after
      → HasFields before item
      → find name item ≡ none
      → result_from_json (obj item) ≡ missing name
  unfolding result_from_json
  result_from_json-missing before name after item split h e =
      let first : check_fields required_fields item ≡ missing name =
        ap (λ names. check_fields names item) split
        ∙ check_fields-missing before name after item h e in
      ap (λ m. m >> python_err (build_result item)) first

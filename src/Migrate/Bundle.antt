-- ===== src/Migrate/Bundle.antt =====
-- `split_flat_name`, `load_json`, `infer_system`, `infer_category` and `infer_bundle` of
-- tools/migrate_results.py.
use g_halo.Prelude.Partial.{◌>>=◌}
use g_halo.Prelude.{zero, suc}
use g_halo.Dict.{get_or}
use g_halo.Migrate.{categories, normalize_rocm, normalize_label, sanitize}
use g_halo.Stalls.Summary.{truthy}
use g_halo.KeyValue.{parse_key_value_file, Metadata}
use g_halo.Json.{find, Json, Fields, str, end, obj, arr, boolean, cons}
use g_halo.Stalls.Load.{member, JsonFile, is_nil, parsed, absent, blank, malformed}
use g_halo.Float.{Float}
use g_halo.Stalls.Paths.{FilePath, path_name}
use g_halo.Migrate.{normalize_backend}
use g_halo.Text.{Text, split_once, lit, lower, contains, starts_with, or_else}
use g_halo.Text.Number.{is_digit}
use g_halo.Prelude.{
  ℕ, Option, if◌then◌else◌, ◌∷◌, none, some, ◌==◌, Bool, [], ◌++◌, get_elem?, false, suc, nat_eq,
  list_eq, ◌||◌,
}

-- \d{8}T\d{6}Z at the start of a name: the text and what follows it
unfoldable pub take_digits : ℕ → Text → Option (Text × Text)
unfolding is_digit
take_digits zero s = some ([], s)
take_digits (suc n) [] = none
take_digits (suc n) (c ∷ s) =
    let rest = take_digits n s in
    if is_digit c then elim rest [ none ↦ none | some (a, b) ↦ some (c ∷ a, b) ] else none

-- the character c at the start
unfoldable pub take_char : ℕ → Text → Option Text
take_char c [] = none
take_char c (d ∷ s) = if d == c then some s else none

unfoldable pub take_timestamp : Text → Option (Text × Text)
unfolding take_digits take_char
take_timestamp name = do
  (day, s) ← take_digits 8 name
  t ← take_char b'T' s
  (time, u) ← take_digits 6 t
  rest ← take_char b'Z' u
  some (day ++ b'T' ∷ time ++ b'Z' ∷ [], rest)

-- (.*)$: no line break but a last one, which is not part of the group
unfoldable pub rest_of_line : Text → Option Text
rest_of_line [] = some []
rest_of_line (c ∷ []) = if c == 10 then some [] else some (c ∷ [])
rest_of_line (c ∷ d ∷ s) =
    let rest = rest_of_line (d ∷ s) in
    if c == 10 then none else elim rest [ none ↦ none | some t ↦ some (c ∷ t) ]

-- ([^_]+)_, after the underscore
unfoldable pub take_field : Text → Option (Text × Text)
unfolding split_once
take_field s = elim (split_once b'_' s) [
  | none ↦ none
  | some (a, b) ↦ if is_nil a then none else some (a, b)
]

unfoldable pub match_flat_name : Text → Option (Text × Text × Text)
unfolding take_timestamp take_char take_field rest_of_line
match_flat_name name = do
  (timestamp, s) ← take_timestamp name
  t ← take_char b'_' s
  (backend, u) ← take_field t
  label ← rest_of_line u
  some (timestamp, backend, label)

unfoldable pub split_flat_name : Text → Text × Text × Text
unfolding match_flat_name normalize_backend
split_flat_name name = elim (match_flat_name name) [
  | none ↦ (lit "unknown", lit "unknown", name)
  | some (timestamp, backend, label) ↦ (timestamp, normalize_backend backend, label)
]

-- path.parent
unfoldable pub parent : FilePath → FilePath
parent [] = []
parent (part ∷ []) = []
parent (part ∷ next ∷ parts) = part ∷ parent (next ∷ parts)

-- parts[parts.index("results") + 1], if there is one
unfoldable pub part_after_results : FilePath → Option Text
part_after_results [] = none
part_after_results (part ∷ parts) =
    let rest = part_after_results parts in if part == lit "results" then get_elem? parts 0 else rest

unfoldable pub infer_system : FilePath → Metadata → Text
unfolding get_or part_after_results path_name parent sanitize
infer_system bundle metadata =
    let active = get_or [] (lit "active_system") metadata in
    let by_path : Text = elim (part_after_results bundle) [
      | some part ↦ sanitize part (lit "unknown")
      | none ↦ sanitize (path_name (parent bundle)) (lit "unknown")
    ] in
    if is_nil active then by_path else sanitize active (lit "unknown")

module _ {F : Type 0} ⦃f : Float F⦄ where
  -- load_json: the fields of the object, or of {}
  unfoldable pub load_json : JsonFile F → Fields F
  load_json absent = end
  load_json blank = end
  load_json malformed = end
  load_json (parsed (obj fields)) = fields
  load_json (parsed _) = end

  -- value if isinstance(value, dict) else {}, for what `get` found
  unfoldable pub object_or_empty : Option (Json F) → Fields F
  object_or_empty (some (obj fields)) = fields
  object_or_empty _ = end

  -- the first of the results, if there is a list of them and it is an object, else {}
  unfoldable pub first_of : Fields F → Fields F
  unfolding find object_or_empty
  first_of payload = elim (find (lit "results") payload) [
    | some (arr (cons first rest)) ↦ object_or_empty (some first)
    | some _ ↦ end
    | none ↦ end
  ]

  -- bool(fields.get(key))
  unfoldable pub truthy_field : Text → Fields F → Bool
  unfolding find truthy
  truthy_field key fields = elim (find key fields) [ none ↦ false | some value ↦ truthy value ]

  -- value is True
  unfoldable pub is_true : Option (Json F) → Bool
  is_true (some (boolean b)) = b
  is_true _ = false

  unfoldable pub infer_category : Text → Fields F → Text
  unfolding truthy_field is_true object_or_empty find lower contains starts_with
  infer_category label result =
      let lowered = lower label in
      let metadata = object_or_empty (find (lit "metadata") result) in
      if truthy_field (lit "phase_timing") result
      then lit "phase-timing"
      else if is_true (find (lit "validation_enabled") metadata)
      then lit "validation"
      else if contains (lit "phase") lowered
      then lit "phase-timing"
      else if contains (lit "valid") lowered || contains (lit "smoke") lowered
      then lit "validation"
      else if contains (lit "scaling") lowered
          || (starts_with (lit "scale-") lowered || starts_with (lit "scale_") lowered)
      then lit "scaling"
      else lit "repeatability"

  -- str(value), where `shown` is `str` on the values that are not texts
  unfoldable pub text_of : (Json F → Text) → Json F → Text
  text_of shown (str t) = t
  text_of shown value = shown value

  -- str(fields.get(key) or other)
  unfoldable pub field_or : (Json F → Text) → Text → Fields F → Text → Text
  unfolding find truthy text_of
  field_or shown key fields other = elim (find key fields) [
    | none ↦ other
    | some value ↦ if truthy value then text_of shown value else other
  ]

-- what `infer_bundle` reads: the bundle's path and three of its files
pub record BundleFiles (F : Type 0) : Type 0 where
  pub path : FilePath
  pub system_resolution : Option Text
  pub result_metadata : Option Text
  pub ghalo_json : JsonFile F

pub record Placement : Type 0 where
  pub system : Text
  pub rocm : Text
  pub category : Text
  pub backend : Text
  pub label : Text

unfoldable pub known_category : Text → Text
unfolding member
known_category category = if member category categories then category else lit "repeatability"

module _ {F : Type 0} ⦃f : Float F⦄ where
  unfoldable pub infer_bundle : (Json F → Text) → BundleFiles F → Placement
  unfolding split_flat_name parse_key_value_file load_json first_of object_or_empty find
      infer_system normalize_backend normalize_rocm infer_category known_category normalize_label
      field_or get_or or_else
  infer_bundle shown files =
      let (timestamp, flat_backend, flat_label) = split_flat_name (path_name files.path) in
      let system_metadata = parse_key_value_file files.system_resolution in
      let result_metadata = parse_key_value_file files.result_metadata in
      let first = first_of (load_json files.ghalo_json) in
      let first_metadata = object_or_empty (find (lit "metadata") first) in
      let backend = normalize_backend (
        field_or shown (lit "backend") first
          (or_else (get_or [] (lit "backend") system_metadata) flat_backend)) in
      record {
        system = infer_system files.path system_metadata;
        rocm = normalize_rocm (
            field_or shown (lit "rocm_version") first_metadata (
              or_else (get_or [] (lit "rocm_version") result_metadata)
                (or_else (get_or [] (lit "loaded_rocm_module") result_metadata) (lit "none"))));
        category = known_category (
            or_else (get_or [] (lit "result_category") result_metadata)
              (infer_category flat_label first));
        backend = backend;
        label = normalize_label flat_label backend;
      }

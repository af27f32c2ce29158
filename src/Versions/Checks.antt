-- ===== src/Versions/Checks.antt =====
-- `load_json`, `infer_version`, `validate_payload` and `sample_fast_median_us` of
-- tools/compare_rccl_versions.py.
use g_halo.KeyValue.{Metadata}
use g_halo.Result.{◌>>=◌, raise_if}
use g_halo.Dict.{get_or}
use g_halo.Statistics.{median}
use g_halo.Dict.{lookup}
use g_halo.Text.{lit, Text, contains}
use g_halo.Versions.{normalize_rocm, expected_codes}
use g_halo.Json
use g_halo.Stalls.{Fault, SampleKey, million, key_eq}
use g_halo.Stalls.Paths.{infer_rocm_from_path, FilePath}
use g_halo.Stalls.Load.{
  lift_builtin, JsonFile, parsed, sample_key, member, absent, is_nil, blank, malformed,
}
use g_halo.Json.{Builtin, Json, num, find, str, items, arr, obj, as_list, end, to_float}
use g_halo.Stalls.Summary.{as_text, truthy}
use g_halo.Versions.{lift_fault, CompareFault, CompareError}
use g_halo.Result.{Result, err, ok, ◌>>◌}
use g_halo.Float.{Float}
use g_halo.Prelude.{
  Option, List, some, ◌∷◌, none, [], Bool, false, ◌==◌, ◌||◌, list_eq, nat_eq, true, if◌then◌else◌,
  not, ◌&&◌,
}

abbrev pub lift : {A : Type 0} → Result Builtin A → Result CompareFault A
lift m = lift_fault (lift_builtin m)

module _ {F : Type 0} ⦃f : Float F⦄ where
  unfoldable pub some_results : Option (List (Json F)) → Result CompareFault (List (Json F))
  some_results none = err (CompareFault.compare CompareError.no_results)
  some_results (some []) = err (CompareFault.compare CompareError.no_results)
  some_results (some (r ∷ rs)) = ok (r ∷ rs)

  -- the results of the payload, which is what the callers use of it
  unfoldable pub load_results : JsonFile F → Result CompareFault (List (Json F))
  unfolding some_results lift_fault lift_builtin
  load_results absent = err (CompareFault.compare CompareError.missing_json)
  load_results blank = err (CompareFault.compare CompareError.missing_json)
  load_results malformed = err (CompareFault.case_fault Fault.malformed_json)
  load_results (parsed payload) = lift (Json.get (lit "results") payload) >>= λ found. elim found [
    | none ↦ err (CompareFault.compare CompareError.no_results)
    | some value ↦ some_results (as_list value)
  ]

  -- normalize_rocm(value): the value must have `strip`
  unfoldable pub normalized : Json F → Result CompareFault Text
  unfolding as_text normalize_rocm lift_fault
  normalized value = lift_fault (as_text value) >>= λ text. ok (normalize_rocm text)

  unfoldable pub infer_version : FilePath → Json F → Metadata → Result CompareFault Text
  unfolding normalized truthy infer_rocm_from_path normalize_rocm lift_fault lift_builtin get_or
  infer_version result_dir first metadata = do
    first_metadata ← lift (Json.get_or (obj end) (lit "metadata") first)
    let requested = get_or [] (lit "requested_rocm_version") metadata
    value ←
        (if is_nil requested
          then lift (Json.get_or (str []) (lit "rocm_version") first_metadata)
          else ok (str requested))
    (if truthy value
        then normalized value
        else ok (normalize_rocm (infer_rocm_from_path result_dir)))

  unfoldable pub some_item : List (Json F) → Bool
  some_item [] = false
  some_item (str t ∷ vs) = t == lit "RCCL" || some_item vs
  some_item (v ∷ vs) = some_item vs

  -- "RCCL" in value
  unfoldable pub mentions_rccl : Json F → Result Builtin Bool
  unfolding contains find items some_item
  mentions_rccl (str t) = ok (contains (lit "RCCL") t)
  mentions_rccl (arr vs) = ok (some_item (items vs))
  mentions_rccl (obj fs) = ok (elim (find (lit "RCCL") fs) [ none ↦ false | some v ↦ true ])
  mentions_rccl _ = err Builtin.type_error

  -- value == text
  unfoldable pub is_text : Text → Json F → Bool
  is_text text (str t) = t == text
  is_text text _ = false

  -- the body of the loop over the results
  unfoldable pub validate_result : Text → Json F → Result CompareFault (Unit {0})
  unfolding mentions_rccl is_text normalized lift_fault lift_builtin
  validate_result version result = do
    metadata ← lift (Json.get_or (obj end) (lit "metadata") result)
    backend ← lift (Json.get_or (str []) (lit "backend") result)
    rccl ← lift (mentions_rccl backend)
    raise_if (not rccl) (CompareFault.compare CompareError.not_rccl)
    found ← lift (Json.get_or (str version) (lit "rocm_version") metadata)
    result_version ← normalized found
    raise_if (not (is_nil result_version) && not (result_version == version))
        (CompareFault.compare (CompareError.mixed_versions version result_version))
    mode ← lift (Json.get_or (str []) (lit "rccl_sync_mode") metadata)
    raise_if (not (is_text (lit "conservative") mode))
        (CompareFault.compare CompareError.not_conservative)

  unfoldable pub validate_results : Text → List (Json F) → Result CompareFault (Unit {0})
  unfolding validate_result
  validate_results version [] = ok tt
  validate_results version (result ∷ results) =
      validate_result version result >> validate_results version results

  unfoldable pub validate_payload : List (Json F) → Metadata → Text → Result CompareFault (Unit {0})
  unfolding validate_results lookup get_or
  validate_payload results metadata version = elim (lookup version expected_codes) [
    | none ↦ err (CompareFault.compare (CompareError.unexpected_version version))
    | some expected ↦
        let observed = get_or [] (lit "observed_rccl_version_code") metadata in
        raise_if (not (is_nil observed) && not (observed == expected))
          (CompareFault.compare (CompareError.wrong_code expected observed))
        >> validate_results version results
  ]

  -- float(result.get("max_average_seconds", 0.0)) * 1.0e6
  unfoldable pub average_us : Json F → Result Fault F
  unfolding lift_builtin
  average_us result =
      lift_builtin (
        Json.get_or (num (f.literal 0 1)) (lit "max_average_seconds") result >>= λ value.
        to_float value)
      >>= λ seconds. ok (f.fmul seconds million)

  -- the loop: `values` are those of the samples with no stall, `fallback` those of all
  unfoldable pub fast_values : List SampleKey → List (Json F) → Result Fault (List F × List F)
  unfolding sample_key average_us member
  fast_values stalled [] = ok ([], [])
  fast_values stalled (result ∷ results) = do
    key ← sample_key result
    value ← average_us result
    rest ← fast_values stalled results
    ok ((if member key stalled then rest.0 else value ∷ rest.0), value ∷ rest.1)

  unfoldable pub median_of : List F → Option F
  unfolding median
  median_of [] = none
  median_of (x ∷ xs) = some (median (x ∷ xs))

  unfoldable pub sample_fast_median_us : List (Json F) → List SampleKey → Result Fault (Option F)
  unfolding fast_values median_of
  sample_fast_median_us results stalled = fast_values stalled results >>= λ found.
      ok (if is_nil found.0 then median_of found.1 else median_of found.0)

-- ===== src/Versions/Print.antt =====
-- The report that tools/compare_rccl_versions.py writes. The time that it shows is an argument.
use g_halo.Stalls.Ranks.Tally.{entry_le}
use g_halo.Stalls.Load.{is_nil}
use g_halo.Json.Show.{str_of}
use g_halo.Versions.{VersionSummary}
use g_halo.Dict.{Dict}
use g_halo.Analyze.Keys.{path_text}
use g_halo.Analyze.Output.{markdown_line}
use g_halo.Stalls.Rows.{class_text, warning_text, text_or, format_optional}
use g_halo.Float.{Float}
use g_halo.Stalls.Ranks.{RankClass}
use g_halo.Sort.{sort_by}
use g_halo.Text.Number.{show_nat, show_int}
use g_halo.Text.{Text, lit, join, or_else}
use g_halo.Prelude.{
  ℕ, if◌then◌else◌, List, ◌∷◌, ltb, ◌++◌, ◌==◌, ◌+◌, ◌/◌, ◌||◌, map, [], ◌%◌, ◌&&◌, ◌-◌, list_le,
  nat_eq, nat_ord,
}

-- a digit of a \u escape, of a number below 16
abbrev hex_digit : ℕ → ℕ
hex_digit n = if ltb n 10 then 48 + n else 87 + n

-- \uXXXX
unfoldable pub unicode_escape : ℕ → Text
unicode_escape c =
    lit "\\u"
    ++ hex_digit (c / 4096 % 16)
      ∷ hex_digit (c / 256 % 16)
      ∷ hex_digit (c / 16 % 16)
      ∷ hex_digit (c % 16)
      ∷ []

-- what json.dumps writes for a code point: ASCII alone, the others by their UTF-16 units
unfoldable pub json_char : ℕ → Text
unfolding unicode_escape
json_char c =
    if c == b'"'
    then lit "\\\""
    else if c == b'\\'
    then lit "\\\\"
    else if c == 10
    then lit "\\n"
    else if c == 13
    then lit "\\r"
    else if c == 9
    then lit "\\t"
    else if c == 12
    then lit "\\f"
    else if c == 8
    then lit "\\b"
    else if ltb c 32 || ltb 126 c && ltb c 65536
    then unicode_escape c
    else if ltb c 65536
    then c ∷ []
    else unicode_escape (55296 + (c - 65536) / 1024) ++ unicode_escape (56320 + (c - 65536) % 1024)

unfoldable pub json_text : Text → Text
unfolding json_char
json_text [] = []
json_text (c ∷ s) = json_char c ++ json_text s

unfoldable pub json_entry : Text × ℕ → Text
unfolding json_text show_nat
json_entry (key, count) = lit "\"" ++ json_text key ++ lit "\": " ++ show_nat count

-- json.dumps(counts, sort_keys=True)
unfoldable pub json_counts : Dict Text ℕ → Text
unfolding sort_by json_entry join
json_counts counts =
    lit "{" ++ join (lit ", ") (map json_entry (sort_by (entry_le list_le) counts)) ++ lit "}"

abbrev named_class : RankClass × ℕ → Text × ℕ
named_class (class, count) = (class_text class, count)

module _ {F : Type 0} ⦃f : Float F⦄ where
  unfoldable pub observed_or : VersionSummary F → Text → Text
  unfolding or_else
  observed_or s other = or_else s.observed_rccl_code other

  unfoldable pub version_row : VersionSummary F → Text
  unfolding markdown_line observed_or str_of show_nat show_int format_optional
  version_row s = markdown_line (
      s.rocm_version
      ∷ observed_or s (str_of s.rccl_version)
      ∷ show_int s.total_iterations
      ∷ show_nat s.stalled_iterations
      ∷ f.show_fixed 3 s.stall_percentage
      ∷ (show_nat s.samples_containing_stalls ++ lit "/" ++ show_nat s.total_samples)
      ∷ show_nat s.stall_events
      ∷ format_optional s.median_stall_us
      ∷ format_optional s.max_stall_us
      ∷ format_optional s.fast_path_median_us
      ∷ [])

  unfoldable pub version_warnings : VersionSummary F → List Text
  unfolding warning_text
  version_warnings s =
      if is_nil s.warnings
      then []
      else lit "Warnings:" ∷ map (λ w. lit "- " ++ warning_text s.result_dir w) s.warnings
        ++ [] ∷ []

  unfoldable pub version_lines : VersionSummary F → List Text
  unfolding path_text observed_or text_or show_nat format_optional json_counts class_text
      version_warnings
  version_lines s =
      (lit "## ROCm " ++ s.rocm_version)
      ∷ []
      ∷ (lit "- Result: `" ++ path_text s.result_dir ++ lit "`")
      ∷ (lit "- Expected RCCL version code: " ++ s.expected_rccl_code)
      ∷ (lit "- Observed RCCL version code: " ++ observed_or s (lit "unknown"))
      ∷ (lit "- HIP runtime: " ++ text_or s.hip_runtime_version (lit "unknown"))
      ∷ (lit "- RCCL version: " ++ text_or s.rccl_version (lit "unknown"))
      ∷ (lit "- Plugin path: `" ++ text_or s.plugin_path (lit "unknown") ++ lit "`")
      ∷ (lit "- Validation passed: " ++ (if s.validation_passed then lit "True" else lit "False"))
      ∷ (lit "- Median event length: "
          ++ format_optional s.median_event_length
          ++ lit " iterations")
      ∷ (lit "- Max event length: " ++ show_nat s.max_event_length ++ lit " iterations")
      ∷ (lit "- Dominant phase counts: `" ++ json_counts s.dominant_phase_counts ++ lit "`")
      ∷ (lit "- Rank-event classifications: `"
          ++ json_counts (map named_class s.rank_event_classifications)
          ++ lit "`")
      ∷ []
      ∷ version_warnings s

  unfoldable pub all_version_lines : List (VersionSummary F) → List Text
  unfolding version_lines
  all_version_lines [] = []
  all_version_lines (s ∷ summaries) = version_lines s ++ all_version_lines summaries

  unfoldable pub markdown_report : Text → List (VersionSummary F) → Text
  unfolding version_row all_version_lines join
  markdown_report generated summaries = join (lit "\n") (
      lit "# Borg RCCL ROCm Stack Comparison"
        ∷ []
        ∷ (lit "Generated: " ++ generated)
        ∷ []
        ∷ lit
            "This is a ROCm/RCCL stack comparison, not a pure RCCL-only test. HIP runtime, RCCL, and other ROCm components change together."
        ∷ lit
            "Zero observed stalls in this sample is not proof that a stack is immune to stalls; compare the sample and iteration counts."
        ∷ []
        ∷ lit
            "| ROCm | RCCL | Iterations | Stalls | Stall % | Samples affected | Events | Median stall us | Max stall us | Fast median us |"
        ∷ lit "| --- | --- | ---: | ---: | ---: | ---: | ---: | ---: | ---: | ---: |"
        ∷ map version_row summaries
      ++ [] ∷ all_version_lines summaries)

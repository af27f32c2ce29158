-- ===== src/Analyze/Run/Title.antt =====
-- `Run.label` of tools/ghalo_analyze.py.
use g_halo.Stalls.Load.{is_nil}
use g_halo.Stalls.Paths.{path_name}
use g_halo.Analyze.Run.Counts.{ranks, nodes, magnitude}
use g_halo.Analyze.Run.Texts.{rccl_sync_mode, rocm_version}
use g_halo.Analyze.Run.Texts.{system}
use g_halo.Analyze.Run.Counts.{magnitude, nodes}
use g_halo.Analyze.Run.{Run}
use g_halo.Analyze.Run.Texts.{memory_location}
use g_halo.Float.{Float}
use g_halo.Text.{Text, lit, join, contains, lower}
use g_halo.Analyze.Numbers.{plural, display_system}
use g_halo.Prelude.{
  Option, ℤ, List, Bool, [], ◌∷◌, false, if◌then◌else◌, some, not, ◌==◌, none, nat_eq, list_eq,
  ◌||◌, ◌++◌,
}

-- a count that is there and not 0
unfoldable pub is_count : Option ℤ → Bool
is_count none = false
is_count (some n) = not (magnitude n == 0)

unfoldable pub count_part : Text → Option ℤ → List Text
unfolding plural
count_part unit none = []
count_part unit (some n) = plural n unit ∷ []

unfoldable pub text_part : Text → List Text
text_part [] = []
text_part (c ∷ s) = (c ∷ s) ∷ []

module _ {F : Type 0} ⦃f : Float F⦄ where
  unfoldable pub rank_kind : Run F → Text
  unfolding memory_location
  rank_kind run = if memory_location run == lit "device" then lit "GPU rank" else lit "rank"

  unfoldable pub label_parts : Run F → List Text
  unfolding text_part display_system system count_part nodes ranks rank_kind rccl_sync_mode
      rocm_version contains lower path_name
  label_parts run =
      text_part (display_system (system run))
      ++ count_part (lit "node") (nodes run)
      ++ count_part (rank_kind run) (ranks run)
      ++ text_part (rccl_sync_mode run)
      ++ text_part (rocm_version run)
      ++ (if contains (lit "repeat") (lower (path_name run.result_path))
          then lit "repeat" ∷ []
          else [])

  unfoldable pub label : Run F → Text
  unfolding display_system system is_count nodes ranks join label_parts path_name
  label run =
      if not (is_nil (display_system (system run)))
        || (is_count (nodes run) || is_count (ranks run))
      then join (lit " | ") (label_parts run)
      else path_name run.input_path

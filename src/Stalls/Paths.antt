-- ===== src/Stalls/Paths.antt =====
-- What tools/analyze_iteration_stalls.py reads off a result directory's path, and the two small
-- text helpers beside it. A path is the list of its parts.
use g_halo.Stalls.Load.{member, is_nil}
use g_halo.Text.{Text, starts_with, strip, lit}
use g_halo.Prelude.{
  ℕ, List, get_elem?, if◌then◌else◌, [], ◌∷◌, ◌==◌, none, ◌++◌, some, list_eq, nat_eq,
}

abbrev pub FilePath : Type 0
FilePath = List Text

-- path.name
unfoldable pub path_name : FilePath → Text
path_name [] = []
path_name (part ∷ []) = part
path_name (part ∷ next ∷ parts) = path_name (next ∷ parts)

-- parts[parts.index(part) + offset], or "" if there is no such part
unfoldable pub part_at : ℕ → FilePath → Text
part_at n parts = elim (get_elem? parts n) [ none ↦ [] | some part ↦ part ]

unfoldable pub after_part : Text → ℕ → FilePath → Text
unfolding part_at
after_part wanted offset [] = []
after_part wanted offset (part ∷ parts) =
    let rest = after_part wanted offset parts in
    if part == wanted then part_at offset (part ∷ parts) else rest

unfoldable pub infer_system_from_path : FilePath → Text
unfolding after_part
infer_system_from_path path = after_part (lit "results") 1 path

unfoldable pub infer_category_from_path : FilePath → Text
unfolding after_part
infer_category_from_path path = after_part (lit "results") 3 path

unfoldable pub infer_rocm_from_path : FilePath → Text
unfolding starts_with
infer_rocm_from_path [] = []
infer_rocm_from_path (part ∷ parts) =
    if starts_with (lit "rocm-") part then part else infer_rocm_from_path parts

unfoldable pub normalize_rocm : Text → Text
unfolding strip starts_with
normalize_rocm value =
    let stripped = strip value in
    if starts_with (lit "rocm-") stripped
    then stripped
    else if is_nil stripped
    then []
    else lit "rocm-" ++ stripped

-- The first of the paths that resolve to one place.
module _ (resolve : FilePath → FilePath) where
  unfoldable pub unique_from : List FilePath → List FilePath → List FilePath
  unfolding member
  unique_from seen [] = []
  unique_from seen (path ∷ paths) =
      let skipped = unique_from seen paths in
      let taken = path ∷ unique_from (resolve path ∷ seen) paths in
      if member (resolve path) seen then skipped else taken

  unfoldable pub unique_paths : List FilePath → List FilePath
  unfolding unique_from
  unique_paths paths = unique_from [] paths

-- ===== src/Migrate.antt =====
-- tools/migrate_results.py: where a flat result bundle goes in the versioned hierarchy. The names
-- that a destination is made of stand here; the modules below read a bundle and choose its place.
pub mod Label
pub mod Names
pub mod Bundle
pub mod Place
pub mod Found
pub mod Copy
use g_halo.Text.Plain.{squeeze}
use g_halo.Stalls.Load.{is_nil}
use g_halo.Text.{
  Text, strip, lower, starts_with, remove_prefix, or_else, lit, strip_by, contains, drop_prefix,
}
use g_halo.Text.Number.{is_digit}
use g_halo.Prelude.{zero, suc}
use g_halo.Prelude.{
  ℕ, List, Bool, leb, map, ◌++◌, ◌∷◌, some, suc, [], ◌&&◌, false, if◌then◌else◌, ◌==◌, Option, ◌||◌,
  length, true, none, nat_eq,
}

abbrev pub categories : List Text
categories = lit "validation" ∷ lit "scaling" ∷ lit "repeatability" ∷ lit "phase-timing" ∷ []

-- s.replace(" ", "_")
unfoldable pub underscores : Text → Text
underscores s = map (λ c. if c == b' ' then b'_' else c) s

unfoldable pub sanitize : Text → Text → Text
unfolding squeeze underscores strip strip_by or_else
sanitize value default =
    or_else (strip_by (λ c. c == b'_') (squeeze b'_' false (underscores (strip value)))) default

unfoldable pub normalize_backend : Text → Text
unfolding lower contains sanitize
normalize_backend value =
    let lowered = lower value in
    if contains (lit "mpi-hip") lowered || contains (lit "mpihip") lowered
    then lit "mpi-hip"
    else if contains (lit "rccl") lowered
    then lit "rccl"
    else if contains (lit "mpi") lowered
    then lit "mpi"
    else sanitize lowered (lit "unknown")

-- s.split(c, 1)[0]
unfoldable pub before : ℕ → Text → Text
before c [] = []
before c (d ∷ s) = if d == c then [] else d ∷ before c s

-- s.rsplit(part, 1)[1]: what follows the last occurrence of `part`, if it occurs
unfoldable pub after_last : Text → Text → Option Text
unfolding starts_with drop_prefix
after_last part [] = if starts_with part [] then some [] else none
after_last part (c ∷ s) = elim (after_last part s) [
  | some rest ↦ some rest
  | none ↦ if starts_with part (c ∷ s) then some (drop_prefix part (c ∷ s)) else none
]

unfoldable pub after_last_or_all : Text → Text → Text
unfolding after_last
after_last_or_all part s = elim (after_last part s) [ some rest ↦ rest | none ↦ s ]

unfoldable pub normalize_rocm : Text → Text
unfolding strip remove_prefix after_last_or_all before sanitize
normalize_rocm value =
    let stripped = strip value in
    let version =
      before b'/' (after_last_or_all (lit "rocm-") (remove_prefix (lit "rocm/") stripped)) in
    if is_nil stripped
    then lit "none"
    else sanitize (remove_prefix (lit "rocm-") version) (lit "none")

-- the test and the body of the loop of `normalize_label`
unfoldable pub has_backend_prefix : Text → Text → Bool
unfolding starts_with
has_backend_prefix backend label =
    starts_with (backend ++ lit "_") label || starts_with (backend ++ lit "-") label

unfoldable pub drop_backend_prefix : Text → Text → Text
unfolding remove_prefix
drop_backend_prefix backend label =
    remove_prefix (backend ++ lit "-") (remove_prefix (backend ++ lit "_") label)

-- the loop, on fuel: each round shortens the label
unfoldable pub drop_prefixes : ℕ → Text → Text → Text
unfolding has_backend_prefix drop_backend_prefix
drop_prefixes zero backend label = label
drop_prefixes (suc fuel) backend label =
    let rest = drop_prefixes fuel backend (drop_backend_prefix backend label) in
    if has_backend_prefix backend label then rest else label

unfoldable pub normalize_label : Text → Text → Text
unfolding drop_prefixes sanitize or_else
normalize_label label backend =
    let clean = sanitize label (lit "run") in
    or_else (drop_prefixes (length clean) backend clean) (lit "run")

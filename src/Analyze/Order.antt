-- ===== src/Analyze/Order.antt =====
-- The sort keys of tools/ghalo_analyze.py.
use g_halo.Stalls.Load.{is_nil}
use g_halo.Text.{lower, contains, Text, lit}
use g_halo.Prelude.{ℕ, Option, ℤ, if◌then◌else◌, pos, some, ◌&&◌, [], none, ◌==◌, list_eq, nat_eq}

unfoldable pub backend_sort_key : Text → ℕ × Text
unfolding lower contains
backend_sort_key backend =
    let lowered = lower backend in
    if contains (lit "mpi") lowered && contains (lit "hip") lowered
    then (0, lowered)
    else if contains (lit "rccl") lowered
    then (1, lowered)
    else if contains (lit "mpi") lowered
    then (2, lowered)
    else (9, lowered)

unfoldable pub rccl_sync_sort_key : Text → ℕ × Text
unfolding lower
rccl_sync_sort_key mode =
    let lowered = lower mode in
    if is_nil lowered
    then (0, [])
    else if lowered == lit "conservative"
    then (1, lowered)
    else if lowered == lit "stream-ordered"
    then (2, lowered)
    else (3, lowered)

unfoldable pub optional_count_sort_key : Option ℤ → ℕ × ℤ
optional_count_sort_key none = (1, pos 0)
optional_count_sort_key (some value) = (0, value)

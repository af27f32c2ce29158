-- ===== src/Analyze/Keys/Sorted.antt =====
-- `sorted_runs_for_output` of tools/ghalo_analyze.py.
use g_halo.Analyze.Run.Counts.{nodes, ranks}
use g_halo.Analyze.Order.{backend_sort_key, rccl_sync_sort_key, optional_count_sort_key}
use g_halo.Analyze.Run.Texts.{system, rocm_version, backend, rccl_sync_mode, timestamp}
use g_halo.Text.{lower}
use g_halo.Sort.Laws.{IsBelow, IsSorted, sort_by-IsSorted, sort_by-perm}
use g_halo.Analyze.Keys.{sorted_runs_for_output, run_le, run_output_sort_key, path_text}
use g_halo.Analyze.Run.{Run}
use g_halo.Sort.{insert_by, sort_by}
use g_halo.Float.{Float}
use mathlib.Core.List.{Perm}
use g_halo.Prelude.{
  pair_ord, pair_eq, text_ord, nat_ord, int_ord, list_eq, nat_eq, int_eq, Bool, List, ◌≡◌, ◌∷◌,
  true, ap, ◌⊎◌, pair_le_trans, [], ◌∙◌, pair_le_total, refl, Less, pair_le-Less, All, list_le,
}

module _ {ℓ} {A : Type ℓ} (le : A → A → Bool) where
  insert_front : (x : A) (l : List A) → IsBelow le x l → insert_by le x l ≡ x ∷ l
  unfolding insert_by
  insert_front x [] b = refl
  insert_front x (y ∷ l) b = rw (b.0) refl

  sort_sorted : (l : List A) → IsSorted le l → sort_by le l ≡ l
  unfolding sort_by
  sort_sorted [] s = refl
  sort_sorted (x ∷ l) s = ap (insert_by le x) (sort_sorted l s.1) ∙ insert_front x l s.0

module _ {F : Type 0} ⦃f : Float F⦄ where
  run_le_total : (a b : Run F) → (run_le a b ≡ true) ⊎ (run_le b a ≡ true)
  run_le_total a b = pair_le_total (run_output_sort_key a) (run_output_sort_key b)

  run_le_trans : (a b c : Run F) → run_le a b ≡ true → run_le b c ≡ true → run_le a c ≡ true
  run_le_trans a b c h k =
      pair_le_trans (run_output_sort_key a) (run_output_sort_key b) (run_output_sort_key c) h k

  sorted_runs_for_output-IsSorted :
      (runs : List (Run F)) → IsSorted run_le (sorted_runs_for_output runs)
  unfolding sorted_runs_for_output
  sorted_runs_for_output-IsSorted runs = sort_by-IsSorted run_le run_le_total run_le_trans runs

  -- The one may stand before the other: system, ROCm version, backend, mode, nodes, ranks, timestamp
  -- and path decide, each where those before it are equal. A count that is missing comes last.
  abbrev pub InOrder : Run F → Run F → Type 0
  InOrder a b = Less (lower (system a)) (lower (system b)) (
      Less (lower (rocm_version a)) (lower (rocm_version b)) (
        Less (backend_sort_key (backend a)) (backend_sort_key (backend b)) (
          Less (rccl_sync_sort_key (rccl_sync_mode a)) (rccl_sync_sort_key (rccl_sync_mode b)) (
            Less (optional_count_sort_key (nodes a)) (optional_count_sort_key (nodes b)) (
              Less (optional_count_sort_key (ranks a)) (optional_count_sort_key (ranks b)) (
                Less (timestamp a) (timestamp b)
                  (list_le (path_text a.result_path) (path_text b.result_path) ≡ true)))))))

  run_le-InOrder : (a b : Run F) → run_le a b ≡ true → InOrder a b
  unfolding run_output_sort_key
  run_le-InOrder a b h = pair_le-Less (run_output_sort_key a) (run_output_sort_key b) h (λ h1.
      pair_le-Less (run_output_sort_key a).1 (run_output_sort_key b).1 h1 (λ h2.
        pair_le-Less (run_output_sort_key a).1.1 (run_output_sort_key b).1.1 h2 (λ h3.
          pair_le-Less (run_output_sort_key a).1.1.1 (run_output_sort_key b).1.1.1 h3 (λ h4.
            pair_le-Less (run_output_sort_key a).1.1.1.1 (run_output_sort_key b).1.1.1.1 h4 (λ h5.
              pair_le-Less (run_output_sort_key a).1.1.1.1.1 (run_output_sort_key b).1.1.1.1.1 h5
                (λ h6.
                  pair_le-Less (run_output_sort_key a).1.1.1.1.1.1
                    (run_output_sort_key b).1.1.1.1.1.1 h6 (λ last. last)))))))

  -- every run that follows one of the list may stand after it
  abbrev pub IsInOrder : List (Run F) → Type 0
  IsInOrder [] = Unit
  IsInOrder (run ∷ runs) = All (InOrder run) runs × IsInOrder runs

  IsBelow-InOrder :
      (run : Run F) (runs : List (Run F)) → IsBelow run_le run runs → All (InOrder run) runs
  IsBelow-InOrder run [] below = tt
  IsBelow-InOrder run (other ∷ runs) below =
      (run_le-InOrder run other below.0, IsBelow-InOrder run runs below.1)

  IsSorted-IsInOrder : (runs : List (Run F)) → IsSorted run_le runs → IsInOrder runs
  IsSorted-IsInOrder [] sorted = tt
  IsSorted-IsInOrder (run ∷ runs) sorted =
      (IsBelow-InOrder run runs sorted.0, IsSorted-IsInOrder runs sorted.1)

  -- The runs for the output are a permutation of the runs. Of two of them the earlier has the lesser
  -- system, or the same and the lesser ROCm version, or both the same and the lesser backend by its
  -- rank, and so on by mode, nodes, ranks, timestamp and path. Sorting them again changes nothing.
  pub sorted_runs_for_output-IsInOrder :
      (runs : List (Run F))
      → IsInOrder (sorted_runs_for_output runs)
        × Perm (sorted_runs_for_output runs) runs
        × (sorted_runs_for_output (sorted_runs_for_output runs) ≡ sorted_runs_for_output runs)
  unfolding sorted_runs_for_output
  sorted_runs_for_output-IsInOrder runs = (
    IsSorted-IsInOrder (sort_by run_le runs) (sorted_runs_for_output-IsSorted runs),
    sort_by-perm run_le runs,
    sort_sorted run_le (sort_by run_le runs) (sorted_runs_for_output-IsSorted runs),
  )

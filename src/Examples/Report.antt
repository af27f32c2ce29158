-- ===== src/Examples/Report.antt =====
-- Lines of the report of tools/analyze_iteration_stalls.py at small inputs.
use g_halo.Versions.Print.{json_counts}
use g_halo.Stalls.{Warning}
use g_halo.Stalls.Case.{Affected}
use g_halo.Stalls.Rows.{warning_text, stall_row, table_or, rank_count_row}
use g_halo.Float.Micro.{micro, unit}
use g_halo.Prelude.{refl, ◌≡◌, ◌∷◌, [], pos, ◌*◌, ℕ}
use g_halo.Text.{lit}

missing_times :
    warning_text
      (lit "results" ∷ lit "run" ∷ [])
      (Warning.missing_file (lit "iteration timing file"))
    ≡ lit "missing iteration timing file: results/run/iteration-times.csv"
unfolding warning_text lit
missing_times = refl

abbrev affected : Affected ℕ
affected = record {
  key = record { halo_words = pos 64; sample_index = pos 0; iteration_index = pos 1 };
  duration = 5 * unit;
  max_rank = pos 3;
}

row_of_stall : stall_row affected ≡ lit "| 64 | 0 | 1 | 5 | 3 |"
unfolding stall_row lit
row_of_stall = refl

rank_table :
    table_or
      (lit "| Rank | Stalls |")
      (lit "| ---: | ---: |")
      (lit "None.")
      (rank_count_row (pos 3, 2) ∷ [])
    ≡ lit "| Rank | Stalls |" ∷ lit "| ---: | ---: |" ∷ lit "| 3 | 2 |" ∷ []
unfolding table_or rank_count_row lit
rank_table = refl

counts : json_counts ((lit "b\"", 2) ∷ (lit "a", 1) ∷ []) ≡ lit "{\"a\": 1, \"b\\\"\": 2}"
unfolding json_counts lit
counts = refl

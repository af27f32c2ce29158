-- ===== src/Analyze/Compare/Halos.antt =====
-- The halo sizes of the rows of `compare_rows` in tools/ghalo_analyze.py.
use g_halo.Analyze.Compare.Entries.{keys-HasNoRepeat, member-adjust, member-lookup}
use g_halo.Analyze.Keys.{configuration_differences}
use g_halo.Result.{ok, raise_if-eq-ok, >>=-eq-ok, ok_inj}
use g_halo.Analyze.Compare.Sets.{
  HasNoRepeat, sort_by-ascends, union-HasNoRepeat, member-sort_by, intersection-HasNoRepeat,
  member-union, member-intersection,
}
use g_halo.Dict.Laws.{UniqueKeys, adjust-UniqueKeys}
use g_halo.Sort.Laws.{IsSorted}
use g_halo.Float.{Float}
use g_halo.Stalls.Load.{member, is_nil}
use g_halo.Dict.{lookup, Dict, insert}
use g_halo.Analyze.Run.{Run}
use g_halo.Analyze.Results.{RunResult, python_err}
use g_halo.Analyze.Compare.{
  index_results, halo_sizes, compared_halos, results_by_halo, compare_row, rows_of, compare_rows,
  compare_results, CompareRow, halo_key, halo_of_row,
}
use g_halo.Prelude.{
  some, none, int_eq, ltb_ℤ, Bool, ◌||◌, ℤ, List, ◌&&◌, map, ◌≡◌, [], Option, ◌∷◌, true, false,
  arith, ◌∙◌, ap₂, refl, sym, not, ap, subst,
}

-- in one of two sets, or in both
abbrev pub in_either_or_both : Bool → Bool → Bool → Bool
in_either_or_both true a b = a || b
in_either_or_both false a b = a && b

module _ {F : Type 0} where
  abbrev pub halo_of : RunResult F → ℤ
  halo_of r = r.halo_words

  -- the halo sizes of a run's results
  abbrev pub halos_of : Run F → List ℤ
  halos_of run = map halo_of run.results

  index_results-UniqueKeys :
      (d : Dict ℤ (RunResult F)) (results : List (RunResult F))
      → UniqueKeys d
      → UniqueKeys (index_results d results)
  unfolding index_results insert
  index_results-UniqueKeys d [] u = u
  index_results-UniqueKeys d (r ∷ results) u =
      index_results-UniqueKeys (insert r.halo_words r d) results
        (adjust-UniqueKeys r.halo_words (λ o. r) d u)

  halo_sizes-HasNoRepeat : (run : Run F) → HasNoRepeat (halo_sizes run)
  unfolding halo_sizes results_by_halo
  halo_sizes-HasNoRepeat run = keys-HasNoRepeat _ (index_results-UniqueKeys [] run.results tt)

  member-index :
      (h : ℤ) (d : Dict ℤ (RunResult F)) (results : List (RunResult F))
      → member h (map halo_key (index_results d results))
        ≡ (member h (map halo_key d) || member h (map halo_of results))
  unfolding member index_results insert
  member-index h d [] = ground arith
  member-index h d (r ∷ results) =
      member-index h (insert r.halo_words r d) results
      ∙ ground (arith, member-adjust h r.halo_words (λ o. r) d)

  pub member-halo_sizes :
      (h : ℤ) (run : Run F) → member h (halo_sizes run) ≡ member h (halos_of run)
  unfolding halo_sizes results_by_halo member
  member-halo_sizes h run = member-index h [] run.results

  -- A halo size is in a run's results exactly if the dictionary has a result for it.
  pub member-results_by_halo :
      (h : ℤ) (run : Run F)
      → member h (halos_of run)
        ≡ elim (lookup h (results_by_halo run)) [ none ↦ false | some r ↦ true ]
  unfolding halo_sizes
  member-results_by_halo h run =
      sym (member-halo_sizes h run) ∙ member-lookup h (results_by_halo run)

  compared_halos-ascends : (allow : Bool) (a b : Run F) → IsSorted ltb_ℤ (compared_halos allow a b)
  unfolding compared_halos
  compared_halos-ascends true a b =
      sort_by-ascends _
        (union-HasNoRepeat _ _ (halo_sizes-HasNoRepeat a) (halo_sizes-HasNoRepeat b))
  compared_halos-ascends false a b =
      sort_by-ascends _ (intersection-HasNoRepeat _ (halo_sizes b) (halo_sizes-HasNoRepeat a))

  member-compared_halos :
      (h : ℤ) (allow : Bool) (a b : Run F)
      → member h (compared_halos allow a b)
        ≡ in_either_or_both allow (member h (halos_of a)) (member h (halos_of b))
  unfolding compared_halos
  member-compared_halos h true a b =
      member-sort_by h _
      ∙ member-union h (halo_sizes a) (halo_sizes b)
      ∙ ap₂ ◌||◌ (member-halo_sizes h a) (member-halo_sizes h b)
  member-compared_halos h false a b =
      member-sort_by h _
      ∙ member-intersection h (halo_sizes a) (halo_sizes b)
      ∙ ap₂ ◌&&◌ (member-halo_sizes h a) (member-halo_sizes h b)

module _ {F : Type 0} ⦃f : Float F⦄ where
  halo-compare_row :
      (differs : Bool) (halo : ℤ) (ra rb : Option (RunResult F))
      → halo_of_row (compare_row differs halo ra rb) ≡ halo
  unfolding compare_row compare_results
  halo-compare_row differs halo none rb = refl
  halo-compare_row differs halo (some ra) none = refl
  halo-compare_row differs halo (some ra) (some rb) = refl

  halos-rows_of :
      (differs : Bool) (a b : Run F) (halos : List ℤ)
      → map halo_of_row (rows_of differs a b halos) ≡ halos
  unfolding rows_of
  halos-rows_of differs a b [] = refl
  halos-rows_of differs a b (halo ∷ halos) =
      ap₂ ◌∷◌ (halo-compare_row differs halo _ _) (halos-rows_of differs a b halos)

  -- The halo sizes of the rows that `compare_rows` returns are strictly ascending; if missing sizes
  -- are allowed they are those that a result of one of the runs has, and else those of both runs.
  pub compare_rows-halos :
      (a b : Run F) (allow_missing : Bool) (rows : List (CompareRow F))
      → compare_rows a b allow_missing ≡ ok rows
      → IsSorted ltb_ℤ (map halo_of_row rows)
        × ((h : ℤ)
            → member h (map halo_of_row rows)
              ≡ in_either_or_both allow_missing (member h (halos_of a)) (member h (halos_of b)))
  unfolding compare_rows
  compare_rows-halos a b allow_missing rows h =
      let (passed, h1) = raise_if-eq-ok _ _ _ h in
      let (differences, found, h2) = >>=-eq-ok (python_err (configuration_differences a b)) _ h1 in
      let same : compared_halos allow_missing a b ≡ map halo_of_row rows =
        sym (halos-rows_of (not (is_nil differences)) a b (compared_halos allow_missing a b))
        ∙ ap (map halo_of_row) (ok_inj _ rows h2) in
      (
        subst (IsSorted ltb_ℤ) same (compared_halos-ascends allow_missing a b),
        (λ k. ap (member k) (sym same) ∙ member-compared_halos k allow_missing a b),
      )

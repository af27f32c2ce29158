-- ===== src/Analyze/Compare/Missing.antt =====
-- How `compare_rows` of tools/ghalo_analyze.py refuses runs with different halo sizes.
use g_halo.Analyze.Results.{AnalyzeFault, AnalysisError}
use g_halo.Analyze.Compare.Halos.{halos_of, member-halo_sizes}
use g_halo.Analyze.Run.{Run}
use g_halo.Stalls.Load.{member}
use g_halo.Float.{Float}
use g_halo.Analyze.Compare.{all_in, same_set, compare_rows, halo_sizes}
use g_halo.Result.{err}
use g_halo.Prelude.{
  int_eq, ℤ, List, ◌≡◌, true, ◌≢◌, arith, false, ◌∷◌, Bool-cases, ◌==◌, inl, subst, ◌∙◌, eq_of_==,
  sym, inr, [], refl,
}

member-all_in : (h : ℤ) (a b : List ℤ) → all_in a b ≡ true → member h a ≡ true → member h b ≡ true
unfolding all_in member
member-all_in h [] b s o = cc
member-all_in h (x ∷ a) b s o =
    let here : member x b ≡ true = ground (arith, s) in
    let rest : all_in a b ≡ true = ground (arith, s) in
    elim (Bool-cases (x == h)) [
      | inl e ↦ subst (λ k. member k b ≡ true) (eq_of_== x h e) here
      | inr e ↦ member-all_in h a b rest (ground (arith, o))
    ]

member-same_set : (h : ℤ) (a b : List ℤ) → same_set a b ≡ true → member h a ≡ member h b
unfolding same_set
member-same_set h a b s =
    let one : all_in a b ≡ true = ground arith in
    let other : all_in b a ≡ true = ground arith in
    elim (Bool-cases (member h a)) [
      | inl e ↦ e ∙ sym (member-all_in h a b one e)
      | inr e ↦ elim (Bool-cases (member h b)) [
        | inl k ↦ let back = member-all_in h b a other k in cc
        | inr k ↦ e ∙ sym k
      ]
    ]

module _ {F : Type 0} ⦃f : Float F⦄ where
  -- If a halo size is in the results of one of two runs only, and missing sizes are not allowed, then
  -- the comparison is refused as one of different sizes.
  pub compare_rows-different_sizes :
      (a b : Run F) (h : ℤ)
      → member h (halos_of a) ≢ member h (halos_of b)
      → compare_rows a b false ≡ err (AnalyzeFault.analysis AnalysisError.different_sizes)
  unfolding compare_rows
  compare_rows-different_sizes a b h apart =
      elim (Bool-cases (same_set (halo_sizes a) (halo_sizes b))) [
        | inl s ↦ absurd (
            apart (
              sym (member-halo_sizes h a)
              ∙ member-same_set h (halo_sizes a) (halo_sizes b) s
              ∙ member-halo_sizes h b))
        | inr s ↦ rw s refl
      ]

-- ===== src/Analyze/Plot/Overrides.antt =====
-- `label_overrides` of tools/ghalo_analyze.py.
use g_halo.Analyze.Results.{AnalyzeFault, AnalysisError}
use g_halo.Stalls.Load.{is_nil}
use g_halo.Text.{Text}
use g_halo.Analyze.Plot.{no_labels, label_overrides, split_labels}
use g_halo.Result.{ok, err, ok_inj, not_ok}
use g_halo.Prelude.{
  ℕ, some, zero, suc, length, List, ◌≡◌, ap, Option, refl, if◌then◌else◌, ◌++◌, ◌==◌, [], map, sym,
  ◌∙◌, ◌∷◌, Bool-cases, inl, length-map, eq_of_==, inr, nat_eq,
}

length-no_labels : (n : ℕ) → length (no_labels n) ≡ n
unfolding no_labels
length-no_labels zero = refl
length-no_labels (suc n) = ap suc (length-no_labels n)

accepted :
    (labels : List Text) (number : ℕ) (result : List (Option Text))
    → (if is_nil labels
        then ok (no_labels number)
        else if length labels == number
        then ok (map (λ text. some text) labels)
        else err (AnalyzeFault.analysis (AnalysisError.label_count (length labels) number)))
      ≡ ok result
    → length result ≡ number
accepted [] number result h = sym (ap length (ok_inj _ result h)) ∙ length-no_labels number
accepted (label ∷ labels) number result h = elim (Bool-cases (length (label ∷ labels) == number)) [
  | inl e ↦
      let h1 = rw e at h in
      sym (ap length (ok_inj _ result h1))
      ∙ length-map (label ∷ labels) _
      ∙ eq_of_== (length (label ∷ labels)) number e
  | inr e ↦ absurd (not_ok (rw e at h))
]

-- The labels that are accepted are as many as the runs.
pub length-label_overrides :
    (given : List Text) (comma_labels : Text) (number : ℕ) (labels : List (Option Text))
    → label_overrides given comma_labels number ≡ ok labels
    → length labels ≡ number
unfolding label_overrides
length-label_overrides given comma_labels number labels h =
    accepted (given ++ (if is_nil comma_labels then [] else split_labels comma_labels)) number
      labels h

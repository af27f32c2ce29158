-- ===== src/Analyze/Scaling/Baseline.antt =====
-- The run that `choose_baseline` of tools/ghalo_analyze.py takes for the smallest.
use g_halo.Analyze.Results.{AnalyzeFault, AnalysisError}
use g_halo.Stalls.Ranks.Event.{keep_if}
use g_halo.Text.{lit}
use g_halo.Sort.Laws.{IsBelow}
use g_halo.Analyze.Load.{RunFiles}
use g_halo.Analyze.Run.{Run}
use g_halo.Analyze.Scaling.{
  first_least, smallest_run, choose_baseline, size_key, BaselineOptions, known_nodes,
}
use g_halo.Float.{Float}
use g_halo.Result.{ok, err, ok_inj}
use g_halo.Prelude.{
  pair_ord, pair_eq, int_ord, int_eq, none, ℤ, Bool, ◌≡◌, pair_le, List, true, false, ◌∷◌, Occurs,
  ◌⊎◌, pair_le_trans, ◌≢◌, [], inl, ap, Bool-cases, pair_le_total, sym, inr, if◌then◌else◌, subst,
  ◌∙◌, refl, ◌==◌, list_eq, nat_eq,
}

module _ {ℓ} {A : Type ℓ} (key : A → ℤ × ℤ) where
  abbrev pub counts_le : A → A → Bool
  counts_le a b = pair_le {A = ℤ} {B = ℤ} (key a) (key b)

  keeps :
      (x y : A) (l : List A)
      → counts_le x y ≡ true
      → first_least key x (y ∷ l) ≡ first_least key x l
  unfolding first_least
  keeps x y l e = ap (λ b. first_least key (if b then x else y) l) e

  moves :
      (x y : A) (l : List A)
      → counts_le x y ≡ false
      → first_least key x (y ∷ l) ≡ first_least key y l
  unfolding first_least
  moves x y l e = ap (λ b. first_least key (if b then x else y) l) e

  first_least-Occurs : (x : A) (l : List A) → Occurs (first_least key x l) (x ∷ l)
  unfolding first_least
  first_least-Occurs x [] = inl refl
  first_least-Occurs x (y ∷ l) = elim (Bool-cases (counts_le x y)) [
    | inl e ↦
        subst (λ r. Occurs r (x ∷ y ∷ l)) (sym (keeps x y l e))
          (elim (first_least-Occurs x l) [ inl p ↦ inl p | inr o ↦ inr (inr o) ])
    | inr e ↦ subst (λ r. Occurs r (x ∷ y ∷ l)) (sym (moves x y l e)) (inr (first_least-Occurs y l))
  ]

  key_le_total : (a b : A) → (counts_le a b ≡ true) ⊎ (counts_le b a ≡ true)
  key_le_total a b = pair_le_total (key a) (key b)

  key_le_trans : (a b c : A) → counts_le a b ≡ true → counts_le b c ≡ true → counts_le a c ≡ true
  key_le_trans a b c h k = pair_le_trans (key a) (key b) (key c) h k

  key_le_refl : (a : A) → counts_le a a ≡ true
  key_le_refl a = elim (key_le_total a a) [ inl h ↦ h | inr h ↦ h ]

  above : (a b : A) → counts_le a b ≡ false → counts_le b a ≡ true
  above a b e = elim (key_le_total a b) [ inl h ↦ absurd (apart h) | inr h ↦ h ]
    where
      apart : counts_le a b ≢ true
      apart h = let bad : false ≡ true = sym e ∙ h in cc

  first_least-IsBelow : (x : A) (l : List A) → IsBelow counts_le (first_least key x l) (x ∷ l)
  unfolding first_least
  first_least-IsBelow x [] = (key_le_refl x, tt)
  first_least-IsBelow x (y ∷ l) = elim (Bool-cases (counts_le x y)) [
    | inl e ↦
        subst (λ r. IsBelow counts_le r (x ∷ y ∷ l)) (sym (keeps x y l e))
          (let (first, rest) = first_least-IsBelow x l in
            (first, (key_le_trans (first_least key x l) x y first e, rest)))
    | inr e ↦
        subst (λ r. IsBelow counts_le r (x ∷ y ∷ l)) (sym (moves x y l e))
          (let (first, rest) = first_least-IsBelow y l in
            (key_le_trans (first_least key y l) y x first (above x y e), (first, rest)))
  ]

module _ {F : Type 0} ⦃f : Float F⦄ where
  -- the node count and then the rank count, an unknown one as 0, are at most those of the other
  abbrev pub at_most : Run F → Run F → Bool
  at_most run other = counts_le size_key run other

  smallest_run-IsBelow :
      (known runs : List (Run F)) (run : Run F)
      → known ≢ []
      → smallest_run known runs ≡ ok run
      → Occurs run known × IsBelow at_most run known
  unfolding smallest_run
  smallest_run-IsBelow [] runs run some_known k = absurd (some_known refl)
  smallest_run-IsBelow (one ∷ known) runs run some_known k =
      let same = ok_inj (first_least size_key one known) run k in
      (
        subst (λ r. Occurs r (one ∷ known)) same (first_least-Occurs size_key one known),
        subst (λ r. IsBelow at_most r (one ∷ known)) same (first_least-IsBelow size_key one known),
      )

  choose_baseline-smallest_run :
      (files : RunFiles F) (options : BaselineOptions) (runs : List (Run F))
      → options.baseline_path ≡ []
      → options.baseline ≡ lit "smallest-nodes"
      → options.baseline_nodes ≡ none
      → choose_baseline files options runs ≡ smallest_run (keep_if known_nodes runs) runs
  unfolding choose_baseline
  choose_baseline-smallest_run files options runs no_path smallest no_nodes =
      rw (no_path, smallest, no_nodes, choose_baseline)
        (let test : (options.baseline == lit "smallest-nodes") ≡ true =
            (list_eq.beq_iff options.baseline (lit "smallest-nodes")).1 smallest in
          ap
            (λ b.
              if b
              then smallest_run (keep_if known_nodes runs) runs
              else err
                  (AnalyzeFault.analysis (AnalysisError.unsupported_baseline options.baseline)))
            test)

  -- With no path and no node count given, and "smallest-nodes" as the baseline, the baseline of runs
  -- some of which know their node count is one of these, and none of them has a smaller node count,
  -- or the same with a smaller rank count.
  pub choose_baseline-smallest :
      (files : RunFiles F) (options : BaselineOptions) (runs : List (Run F)) (run : Run F)
      → options.baseline_path ≡ []
      → options.baseline ≡ lit "smallest-nodes"
      → options.baseline_nodes ≡ none
      → keep_if known_nodes runs ≢ []
      → choose_baseline files options runs ≡ ok run
      → Occurs run (keep_if known_nodes runs) × IsBelow at_most run (keep_if known_nodes runs)
  choose_baseline-smallest files options runs run no_path smallest no_nodes some_known h =
      let known = keep_if known_nodes runs in
      let chosen : smallest_run known runs ≡ ok run =
        sym (choose_baseline-smallest_run files options runs no_path smallest no_nodes) ∙ h in
      smallest_run-IsBelow known runs run some_known chosen

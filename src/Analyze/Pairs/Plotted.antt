-- ===== src/Analyze/Pairs/Plotted.antt =====
-- The pairs that `percent_difference_pairs` of tools/ghalo_analyze.py returns.
use g_halo.Analyze.Keys.{value_eq}
use g_halo.Prelude.{list_eq}
use g_halo.Analyze.Keys.{value_eq, sorted_runs_for_output}
use g_halo.Analyze.Compare.{CompareRow, percent_difference_rows_for_plot}
use g_halo.Analyze.Keys.{Value, percent_difference_pair_key}
use g_halo.Analyze.Pairs.{
  caught, is_pair, pairs_with, same_series, pairs_of, percent_difference_pairs,
}
use g_halo.Analyze.Run.{Run}
use g_halo.Analyze.Results.{AnalyzeFault, python_err}
use g_halo.Json.{Builtin}
use g_halo.Float.{Float}
use g_halo.Result.{Result, ok, >>=-eq-ok, err, ok_inj}
use g_halo.Prelude.{
  List, Bool, ◌≡◌, Occurs, if◌then◌else◌, true, ◌∷◌, ◌⊎◌, inl, inr, not, ==_refl, subst, false,
  ◌==◌, sym, [], refl, ap, ◌∙◌, eq_of_==, Occurs-append_cases, ◌++◌, ◌↔◌, Occurs-append_left,
  Occurs-append_right,
}

-- The one stands before the other in the list.
abbrev pub Precedes {ℓ} : {A : Type ℓ} → A → A → List A → Type ℓ
Precedes a b [] = (a ≡ b) × ⊥
Precedes a b (x ∷ xs) = ((a ≡ x) × Occurs b xs) ⊎ Precedes a b xs

module _ {A : Type 0} where
  kept_cases :
      (kept : Bool) (x y : A) (rest : List A)
      → Occurs x (if kept then y ∷ rest else rest)
      → ((x ≡ y) × (kept ≡ true)) ⊎ Occurs x rest
  kept_cases true x y rest (inl e) = inl (e, refl)
  kept_cases true x y rest (inr o) = inr o
  kept_cases false x y rest o = inr o

  kept_head :
      (kept : Bool) (x y : A) (rest : List A)
      → kept ≡ true
      → x ≡ y
      → Occurs x (if kept then y ∷ rest else rest)
  kept_head true x y rest h e = inl e
  kept_head false x y rest h e = cc

  kept_tail :
      (kept : Bool) (x y : A) (rest : List A)
      → Occurs x rest
      → Occurs x (if kept then y ∷ rest else rest)
  kept_tail true x y rest o = inr o
  kept_tail false x y rest o = o

  python_err-ok : (m : Result Builtin A) (a : A) → python_err m ≡ ok a → m ≡ ok a
  python_err-ok (ok b) a h = cc
  python_err-ok (err e) a h = cc

-- what the tests of the loop's body come to
tested :
    (same_key same : Bool) (rows : Result AnalyzeFault Bool)
    → (if not same_key then ok false else if same then ok false else rows) ≡ ok true
    → (same_key ≡ true) × (same ≡ false) × (rows ≡ ok true)
tested true true rows h = cc
tested true false rows h = (refl, refl, h)
tested false same rows h = cc

module _ {F : Type 0} ⦃f : Float F⦄ where
  -- The two runs have one key, are not of one series, and their rows are returned.
  pub record IsPlotted (left right : Run F) : Type 0 where
    key : List Value
    left_key : percent_difference_pair_key left ≡ ok key
    right_key : percent_difference_pair_key right ≡ ok key
    other_series : same_series left right ≡ false
    rows : List (CompareRow F)
    plotted : percent_difference_rows_for_plot (left ∷ right ∷ []) ≡ ok rows

  caught-ok :
      (m : Result AnalyzeFault (List (CompareRow F)))
      → caught m ≡ ok true
      → (rows : List (CompareRow F)) × (m ≡ ok rows)
  unfolding caught
  caught-ok (ok rows) h = (rows, refl)
  caught-ok (err (AnalyzeFault.analysis e)) h = cc
  caught-ok (err (AnalyzeFault.python e)) h = cc

  is_pair-IsPlotted : (left right : Run F) → is_pair left right ≡ ok true → IsPlotted left right
  unfolding is_pair
  is_pair-IsPlotted left right h =
      let (k, p, h1) = >>=-eq-ok (python_err (percent_difference_pair_key left)) _ h in
      let (m, q, h2) = >>=-eq-ok (python_err (percent_difference_pair_key right)) _ h1 in
      let (same, other, c) = tested (k == m) (same_series left right) _ h2 in
      let (rows, found) = caught-ok (percent_difference_rows_for_plot (left ∷ right ∷ [])) c in
      record {
        key = k;
        left_key = python_err-ok (percent_difference_pair_key left) k p;
        right_key =
            python_err-ok (percent_difference_pair_key right) m q ∙ ap ok (sym (eq_of_== k m same));
        other_series = other;
        rows = rows;
        plotted = found;
      }

  IsPlotted-is_pair : (left right : Run F) → IsPlotted left right → is_pair left right ≡ ok true
  unfolding is_pair caught
  IsPlotted-is_pair left right w =
      rw (w.left_key, w.right_key, ==_refl w.key, w.other_series, w.plotted) refl

  pairs_with_sound :
      (left : Run F) (others : List (Run F)) (pairs : List (Run F × Run F))
      → pairs_with left others ≡ ok pairs
      → (l r : Run F) → Occurs (l, r) pairs
      → (l ≡ left) × Occurs r others × (is_pair left r ≡ ok true)
  unfolding pairs_with
  pairs_with_sound left [] pairs h l r o =
      absurd (subst (Occurs (l, r)) (sym (ok_inj [] pairs h)) o).1
  pairs_with_sound left (right ∷ others) pairs h l r o =
      let (paired, p, h1) = >>=-eq-ok (is_pair left right) _ h in
      let (rest, q, h2) = >>=-eq-ok (pairs_with left others) _ h1 in
      let list = if paired then (left, right) ∷ rest else rest in
      elim (kept_cases paired (l, r) (left, right) rest
        (subst (Occurs (l, r)) (sym (ok_inj list pairs h2)) o)) [
          | inl (e, t) ↦ (
            ap (λ (x : Run F × Run F). x.0) e,
            inl (ap (λ (x : Run F × Run F). x.1) e),
            ap (λ (x : Run F × Run F). is_pair left x.1) e ∙ p ∙ ap ok t,
          )
          | inr o' ↦
              let (e, occurs, t) = pairs_with_sound left others rest q l r o' in (e, inr occurs, t)
        ]

  pairs_with_complete :
      (left : Run F) (others : List (Run F)) (pairs : List (Run F × Run F))
      → pairs_with left others ≡ ok pairs
      → (r : Run F) → Occurs r others
      → is_pair left r ≡ ok true
      → Occurs (left, r) pairs
  unfolding pairs_with
  pairs_with_complete left [] pairs h r o t = absurd o.1
  pairs_with_complete left (right ∷ others) pairs h r o t =
      let (paired, p, h1) = >>=-eq-ok (is_pair left right) _ h in
      let (rest, q, h2) = >>=-eq-ok (pairs_with left others) _ h1 in
      let list = if paired then (left, right) ∷ rest else rest in
      subst (Occurs (left, r)) (ok_inj list pairs h2) (elim o [
        | inl e ↦
            kept_head paired (left, r) (left, right) rest
              (ok_inj paired true (sym p ∙ ap (is_pair left) (sym e) ∙ t)) (ap (λ x. (left, x)) e)
        | inr o' ↦
            kept_tail paired (left, r) (left, right) rest
              (pairs_with_complete left others rest q r o' t)
      ])

  pairs_of_sound :
      (runs : List (Run F)) (pairs : List (Run F × Run F))
      → pairs_of runs ≡ ok pairs
      → (l r : Run F) → Occurs (l, r) pairs
      → Precedes l r runs × (is_pair l r ≡ ok true)
  unfolding pairs_of
  pairs_of_sound [] pairs h l r o = absurd (subst (Occurs (l, r)) (sym (ok_inj [] pairs h)) o).1
  pairs_of_sound (left ∷ others) pairs h l r o =
      let (first, p, h1) = >>=-eq-ok (pairs_with left others) _ h in
      let (rest, q, h2) = >>=-eq-ok (pairs_of others) _ h1 in
      elim (Occurs-append_cases (l, r) first rest
        (subst (Occurs (l, r)) (sym (ok_inj (first ++ rest) pairs h2)) o)) [
          | inl o' ↦
              let (e, occurs, t) = pairs_with_sound left others first p l r o' in
              (inl (e, occurs), ap (λ x. is_pair x r) e ∙ t)
          | inr o' ↦ let (before, t) = pairs_of_sound others rest q l r o' in (inr before, t)
        ]

  pairs_of_complete :
      (runs : List (Run F)) (pairs : List (Run F × Run F))
      → pairs_of runs ≡ ok pairs
      → (l r : Run F) → Precedes l r runs
      → is_pair l r ≡ ok true
      → Occurs (l, r) pairs
  unfolding pairs_of
  pairs_of_complete [] pairs h l r before t = absurd before.1
  pairs_of_complete (left ∷ others) pairs h l r before t =
      let (first, p, h1) = >>=-eq-ok (pairs_with left others) _ h in
      let (rest, q, h2) = >>=-eq-ok (pairs_of others) _ h1 in
      subst (Occurs (l, r)) (ok_inj (first ++ rest) pairs h2) (elim before [
        | inl (e, o) ↦
            Occurs-append_left (l, r) first rest
              (subst (λ x. Occurs (x, r) first) (sym e)
                (pairs_with_complete left others first p r o (ap (λ x. is_pair x r) (sym e) ∙ t)))
        | inr later ↦
            Occurs-append_right (l, r) first rest (pairs_of_complete others rest q l r later t)
      ])

  -- If the pairs are returned, then two runs are one of them exactly if the one stands before the
  -- other in the order of the output, they have the same key and not the same backend, mode and path
  -- at once, and the rows of their percent-difference plot are returned.
  pub percent_difference_pairs-IsPlotted :
      (runs : List (Run F)) (pairs : List (Run F × Run F))
      → percent_difference_pairs runs ≡ ok pairs
      → (l r : Run F)
      → Occurs (l, r) pairs ↔ (Precedes l r (sorted_runs_for_output runs) × IsPlotted l r)
  unfolding percent_difference_pairs
  percent_difference_pairs-IsPlotted runs pairs h l r = (
    (λ o.
        let (before, t) = pairs_of_sound (sorted_runs_for_output runs) pairs h l r o in
        (before, is_pair-IsPlotted l r t)),
    (λ w.
        pairs_of_complete (sorted_runs_for_output runs) pairs h l r w.0
          (IsPlotted-is_pair l r w.1)),
  )

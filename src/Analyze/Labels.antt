-- ===== src/Analyze/Labels.antt =====
-- The labels and file names of tools/ghalo_analyze.py.
use native.Mathlib.Nat.{zero-add}
use g_halo.Dict.Counts.{occurrences}
use g_halo.Dict.Laws.{lookup-adjust}
use g_halo.Text.{Text, strip, strip_by, lower, or_else, lit}
use g_halo.Text.Plain.{
  squeeze, is_plain, IsPlainText, or_else_nonempty, or_else-IsPlainText, strip_by-IsPlainText,
  squeeze-IsPlainText,
}
use g_halo.Text.Number.{show_nat}
use g_halo.Dict.{get_or, insert, Dict}
use g_halo.Prelude.{
  ℕ, List, if◌then◌else◌, [], ◌∷◌, ◌==◌, ◌+◌, ◌++◌, list_eq, nat_eq, ◌||◌, false, ◌≡◌, get_elem?,
  length, ◌≢◌, arith, some, ◌∙◌, ap, refl, Bool-cases, sym, inl, eq_of_==, inr,
}

-- the label of an occurrence that `count` others precede
unfoldable pub repeat_label : Text → ℕ → Text
unfolding show_nat
repeat_label label count =
    if count == 0 then label else label ++ lit " | repeat " ++ show_nat (count + 1)

-- the loop of `run_labels`, with the counts so far
unfoldable pub unique_from : Dict Text ℕ → List Text → List Text
unfolding repeat_label insert get_or
unique_from seen [] = []
unique_from seen (label ∷ labels) =
    let count = get_or 0 label seen in
    repeat_label label count ∷ unique_from (insert label (count + 1) seen) labels

-- run_labels, for the labels that the runs or the overrides give
unfoldable pub run_labels : List Text → List Text
unfolding unique_from
run_labels labels = unique_from [] labels

unfoldable pub filename_slug : Text → Text → Text
unfolding squeeze strip strip_by lower or_else
filename_slug text default =
    or_else
      (strip_by (λ c. c == b'-' || c == b'_' || c == b'.')
        (squeeze b'-' false (lower (strip text))))
      default

get_or-insert :
    (x y : Text) (n : ℕ) (seen : Dict Text ℕ)
    → get_or 0 x (insert y n seen) ≡ (if y == x then n else get_or 0 x seen)
unfolding get_or insert
get_or-insert x y n seen = rw (lookup-adjust y x (λ o. n) seen, get_or) (ground arith)

plus_zero : (n : ℕ) → n + 0 ≡ n
plus_zero n = omega arith

count_step :
    (seen : Dict Text ℕ) (first label : Text) (n : ℕ)
    → get_or 0 label (insert first (get_or 0 first seen + 1) seen) + n
      ≡ get_or 0 label seen + ((if first == label then 1 else 0) + n)
count_step seen first label n =
    let e = get_or-insert label first (get_or 0 first seen + 1) seen in
    elim (Bool-cases (first == label)) [
      | inl h ↦
          let same : get_or 0 first seen ≡ get_or 0 label seen =
            ap (λ k. get_or 0 k seen) (eq_of_== first label h) in
          rw (e, h) (omega (arith, same))
      | inr h ↦ rw (e, h) (omega arith)
    ]

label_after :
    (seen : Dict Text ℕ) (before : List Text) (label : Text) (after : List Text)
    → get_elem? (unique_from seen (before ++ label ∷ after)) (length before)
      ≡ some (repeat_label label (get_or 0 label seen + occurrences label before))
unfolding unique_from
label_after seen [] label after =
    ap (λ n. some (repeat_label label n)) (sym (plus_zero (get_or 0 label seen)))
label_after seen (first ∷ before) label after =
    let ih = label_after (insert first (get_or 0 first seen + 1) seen) before label after in
    ih
    ∙ ap (λ n. some (repeat_label label n)) (count_step seen first label (occurrences label before))

-- Each label that `run_labels` returns is the given one if no equal label stands before it, and else
-- the given one with the number of its occurrence, counted from 2.
pub run_labels-repeat_label :
    (before : List Text) (label : Text) (after : List Text)
    → get_elem? (run_labels (before ++ label ∷ after)) (length before)
      ≡ some (repeat_label label (occurrences label before))
unfolding run_labels
run_labels-repeat_label before label after =
    label_after [] before label after
    ∙ ap (λ n. some (repeat_label label n)) (zero-add (occurrences label before))

-- If the default is not empty and all its characters are plain, then so is the slug.
pub filename_slug-IsPlainText :
    (text default : Text)
    → default ≢ []
    → IsPlainText default
    → (filename_slug text default ≢ []) × IsPlainText (filename_slug text default)
unfolding filename_slug is_plain
filename_slug-IsPlainText text default ne plain = (
  or_else_nonempty _ default ne,
  or_else-IsPlainText _ default
      (strip_by-IsPlainText (λ c. c == b'-' || c == b'_' || c == b'.') _
        (squeeze-IsPlainText b'-' false (lower (strip text)) refl))
      plain,
)

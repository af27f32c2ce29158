-- ===== src/Migrate/Label.antt =====
-- The loop of `normalize_label` of tools/migrate_results.py ends with no backend prefix left.
use g_halo.Text.Laws.{drop-starts, snoc_append, false_ne_true}
use g_halo.Prelude.{zero, suc}
use g_halo.Migrate.{
  has_backend_prefix, drop_backend_prefix, drop_prefixes, normalize_label, sanitize,
}
use g_halo.Text.{Text, starts_with, remove_prefix, lit, drop_prefix, or_else}
use g_halo.Prelude.{
  ℕ, false, ◌≡◌, ◌++◌, length, ◌∷◌, true, ◌≤◌, inl, Bool-cases, ◌+◌, ◌⊎◌, [], subst, ◌<◌, arith, ap,
  sym, length-append, inr, suc, refl, ◌∙◌, nat_eq,
}

-- What the loop does: it takes prefixes off, and stops where there is none.
pub data StripsTo (backend : Text) : Text → Text → Type 0 where
  done : {label : Text} → has_backend_prefix backend label ≡ false → StripsTo backend label label
  underscore :
      {label rest : Text}
      → StripsTo backend label rest
      → StripsTo backend (backend ++ b'_' ∷ label) rest
  dash :
      {label rest : Text}
      → StripsTo backend label rest
      → StripsTo backend (backend ++ b'-' ∷ label) rest

empty_label : (backend label : Text) → length label ≡ 0 → has_backend_prefix backend label ≡ false
unfolding has_backend_prefix starts_with lit
empty_label [] [] h = refl
empty_label (b ∷ bs) [] h = refl
empty_label backend (c ∷ s) h = absurd (omega arith)

length-drop_prefix :
    (prefix s : Text)
    → starts_with prefix s ≡ true
    → length s ≡ length prefix + length (drop_prefix prefix s)
length-drop_prefix prefix s h =
    ap length (sym (drop-starts prefix s h)) ∙ length-append prefix (drop_prefix prefix s)

-- one of the two prefixes of a round
remove_cases :
    (prefix s : Text)
    → ((starts_with prefix s ≡ true) × (prefix ++ remove_prefix prefix s ≡ s))
      ⊎ ((starts_with prefix s ≡ false) × (remove_prefix prefix s ≡ s))
unfolding remove_prefix
remove_cases prefix s = elim (Bool-cases (starts_with prefix s)) [
  | inl h ↦ inl (h, rw h (drop-starts prefix s h))
  | inr h ↦ inr (h, rw h refl)
]

-- a round takes a prefix off and makes the label shorter
round :
    (backend label rest : Text)
    → StripsTo backend (drop_backend_prefix backend label) rest
    → StripsTo backend label rest
unfolding drop_backend_prefix lit
round backend label rest t =
    let first = remove_prefix (backend ++ lit "_") label in
    let after_dash : StripsTo backend first rest = elim (remove_cases (backend ++ lit "-") first) [
      | inl (h, e) ↦
          subst (λ x. StripsTo backend x rest) (sym (snoc_append backend b'-' _) ∙ e)
            (StripsTo.dash t)
      | inr (h, e) ↦ subst (λ x. StripsTo backend x rest) e t
    ] in
    elim (remove_cases (backend ++ lit "_") label) [
      | inl (h, e) ↦
          subst (λ x. StripsTo backend x rest) (sym (snoc_append backend b'_' _) ∙ e)
            (StripsTo.underscore after_dash)
      | inr (h, e) ↦ subst (λ x. StripsTo backend x rest) e after_dash
    ]

shorter :
    (backend : Text) (c : ℕ) (s : Text)
    → (starts_with (backend ++ c ∷ []) s ≡ true)
    → length (remove_prefix (backend ++ c ∷ []) s) < length s
unfolding remove_prefix
shorter backend c s h =
    let a = length-drop_prefix (backend ++ c ∷ []) s h in
    let b = length-append backend (c ∷ []) in rw h (omega (arith, a, b))

not_longer : (prefix s : Text) → length (remove_prefix prefix s) ≤ length s
unfolding remove_prefix
not_longer prefix s = elim (Bool-cases (starts_with prefix s)) [
  | inl h ↦ let a = length-drop_prefix prefix s h in rw h (omega (arith, a))
  | inr h ↦ rw h (omega arith)
]

round-shorter :
    (backend label : Text)
    → has_backend_prefix backend label ≡ true
    → length (drop_backend_prefix backend label) < length label
unfolding has_backend_prefix drop_backend_prefix lit
round-shorter backend label h =
    let first = remove_prefix (backend ++ lit "_") label in
    let a = not_longer (backend ++ lit "-") first in
    elim (Bool-cases (starts_with (backend ++ lit "_") label)) [
      | inl p ↦ let b = shorter backend b'_' label p in omega (arith, a, b)
      | inr p ↦
          let same : first ≡ label = elim (remove_cases (backend ++ lit "_") label) [
            | inl q ↦ absurd (false_ne_true (sym p ∙ q.0))
            | inr q ↦ q.1
          ] in
          let dash : starts_with (backend ++ lit "-") label ≡ true = rw p at h in
          subst (λ s. length (remove_prefix (backend ++ lit "-") s) < length label) (sym same)
            (shorter backend b'-' label dash)
    ]

drop_prefixes-StripsTo :
    (fuel : ℕ) (backend label : Text)
    → length label ≤ fuel
    → StripsTo backend label (drop_prefixes fuel backend label)
unfolding drop_prefixes
drop_prefixes-StripsTo zero backend label h =
    StripsTo.done (empty_label backend label (omega arith))
drop_prefixes-StripsTo (suc fuel) backend label h =
    elim (Bool-cases (has_backend_prefix backend label)) [
      | inl p ↦
          let less = round-shorter backend label p in
          rw p (
            round backend label _ (
              drop_prefixes-StripsTo fuel backend (drop_backend_prefix backend label)
                (omega (arith, less))))
      | inr p ↦ rw p (StripsTo.done p)
    ]

-- The loop of `normalize_label` ends: with the given fuel, it takes backend prefixes off the clean
-- label until none is left. What is left is the result, or "run" if nothing is.
pub normalize_label-StripsTo :
    (label backend : Text)
    → (rest : Text) × StripsTo backend (sanitize label (lit "run")) rest
      × (normalize_label label backend ≡ or_else rest (lit "run"))
unfolding normalize_label
normalize_label-StripsTo label backend =
    let clean = sanitize label (lit "run") in
    (
      drop_prefixes (length clean) backend clean,
      drop_prefixes-StripsTo (length clean) backend clean (omega arith),
      refl,
    )

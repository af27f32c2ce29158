-- ===== src/Text/Laws.antt =====
-- Laws of `starts_with`.
use mathlib.Core.List.{append_assoc}
use g_halo.Text.{starts_with, Text, drop_prefix}
use g_halo.Prelude.{
  ℕ, false, ◌≢◌, ◌++◌, true, ◌≡◌, ◌∷◌, Bool-cases, [], ◌==◌, inl, ap₂, eq_of_==, inr, refl, nat_eq,
}

pub false_ne_true : false ≢ true
false_ne_true h = cc

-- A prefix and what is left make the text.
pub drop-starts :
    (prefix s : Text) → starts_with prefix s ≡ true → prefix ++ drop_prefix prefix s ≡ s
unfolding starts_with drop_prefix
drop-starts [] s h = refl
drop-starts (p ∷ ps) [] h = cc
drop-starts (p ∷ ps) (c ∷ s) h = elim (Bool-cases (p == c)) [
  | inl e ↦ ap₂ (λ x y. x ∷ y) (eq_of_== p c e) (drop-starts ps s (rw e at h))
  | inr e ↦ absurd (false_ne_true (rw e at h))
]

pub snoc_append : (b : Text) (c : ℕ) (s : Text) → (b ++ c ∷ []) ++ s ≡ b ++ c ∷ s
snoc_append b c s = append_assoc b (c ∷ []) s

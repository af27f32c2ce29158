-- ===== src/Analyze/Compare/Entries.antt =====
-- The keys of the dictionaries by halo size in tools/ghalo_analyze.py.
use g_halo.Analyze.Compare.Sets.{HasNoRepeat}
use g_halo.Analyze.Compare.{halo_key}
use g_halo.Dict.Laws.{UniqueKeys}
use g_halo.Stalls.Load.{member}
use g_halo.Dict.{lookup, Dict, adjust}
use g_halo.Prelude.{
  some, none, int_eq, ℤ, ◌≡◌, map, Option, false, true, ◌==◌, [], ◌∷◌, if◌then◌else◌, Option-cases,
  ◌||◌, ◌≢◌, Bool-cases, inl, sym, ap, inr, ◌∙◌, eq_of_==, arith, refl,
}

module _ {V : Type 0} where
  pub unknown_key : (h : ℤ) (d : Dict ℤ V) → lookup h d ≡ none → member h (map halo_key d) ≡ false
  unfolding lookup member
  unknown_key h [] e = refl
  unknown_key h ((j, r) ∷ d) e =
      let ih = unknown_key h d in
      elim (Bool-cases (j == h)) [
        | inl t ↦ absurd (some_of_test t e)
        | inr t ↦ rw t (ih (sym (rest_of_test t) ∙ e))
      ]
    where
      some_of_test : (j == h) ≡ true → (if j == h then some r else lookup h d) ≢ none
      some_of_test t e = let k : some r ≡ none = sym (rw t refl) ∙ e in cc

      rest_of_test : (j == h) ≡ false → (if j == h then some r else lookup h d) ≡ lookup h d
      rest_of_test t = rw t refl

  pub keys-HasNoRepeat : (d : Dict ℤ V) → UniqueKeys d → HasNoRepeat (map halo_key d)
  keys-HasNoRepeat [] u = tt
  keys-HasNoRepeat ((h, r) ∷ d) u = (unknown_key h d u.0, keys-HasNoRepeat d u.1)

  known_key :
      (h : ℤ) (v : V) (d : Dict ℤ V) → lookup h d ≡ some v → member h (map halo_key d) ≡ true
  unfolding lookup member
  known_key h v [] e = cc
  known_key h v ((j, r) ∷ d) e = elim (Bool-cases (j == h)) [
    | inl t ↦ rw t refl
    | inr t ↦ rw t (known_key h v d (sym (skipped t) ∙ e))
  ]
    where
      skipped : (j == h) ≡ false → (if j == h then some r else lookup h d) ≡ lookup h d
      skipped t = rw t refl

  -- A key is among the keys exactly if it has a value.
  pub member-lookup :
      (h : ℤ) (d : Dict ℤ V)
      → member h (map halo_key d) ≡ elim (lookup h d) [ none ↦ false | some v ↦ true ]
  member-lookup h d = elim (Option-cases (lookup h d)) [
    | inl e ↦ rw e (unknown_key h d e)
    | inr (v, e) ↦ rw e (known_key h v d e)
  ]

  pub member-adjust :
      (h j : ℤ) (f : Option V → V) (d : Dict ℤ V)
      → member h (map halo_key (adjust j f d)) ≡ (j == h || member h (map halo_key d))
  unfolding member adjust
  member-adjust h j f [] = refl
  member-adjust h j f ((i, q) ∷ d) =
      let ih = member-adjust h j f d in
      elim (Bool-cases (i == j)) [
        | inl e ↦ let same = ap (λ k. k == h) (eq_of_== i j e) in ground (arith, same)
        | inr e ↦ ground (arith, ih)
      ]

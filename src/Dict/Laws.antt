-- ===== src/Dict/Laws.antt =====
-- Laws of dictionaries: what a key holds after a write, and the totals of counters and groups.
use g_halo.Sort.{insert_by, sort_by}
use g_halo.Prelude.{
  ℕ, suc, ◌+◌, List, [], ◌∷◌, ◌≡◌, refl, sym, ap, ==_refl, arith, Option, some, Eq, ◌==◌, length,
  length-append, if◌then◌else◌, none, Bool-cases, Occurs, inl, inr, ◌∙◌, ==_false_sym, Bool,
}
use g_halo.Dict.{Dict, lookup, adjust, bump, append_to}

module _ {ℓ κ} {K : Type ℓ} {V : Type κ} ⦃e : Eq K⦄ where
  pub lookup-adjust :
      (k j : K) (f : Option V → V) (d : Dict K V)
      → lookup j (adjust k f d) ≡ (if k == j then some (f (lookup k d)) else lookup j d)
  unfolding lookup adjust
  lookup-adjust k j f [] = refl
  lookup-adjust k j f ((i, v) ∷ d) =
      ground (arith, lookup-adjust k j f d, e.beq_iff i k, e.beq_iff i j, e.beq_iff k j)

-- The sum of all counts.
abbrev pub total {ℓ} : {K : Type ℓ} → Dict K ℕ → ℕ
total [] = 0
total ((k, n) ∷ d) = n + total d

-- The number of values in all groups.
abbrev pub grouped {ℓ κ} : {K : Type ℓ} {V : Type κ} → Dict K (List V) → ℕ
grouped [] = 0
grouped ((k, l) ∷ d) = length l + grouped d

module _ {ℓ} {K : Type ℓ} ⦃e : Eq K⦄ where
  pub total-bump : (k : K) (d : Dict K ℕ) → total (bump k d) ≡ suc (total d)
  unfolding bump adjust
  total-bump k [] = omega arith
  total-bump k ((j, n) ∷ d) = ground (arith, total-bump k d)

module _ {ℓ κ} {K : Type ℓ} {V : Type κ} ⦃e : Eq K⦄ where
  pub grouped-append_to :
      (k : K) (v : V) (d : Dict K (List V)) → grouped (append_to k v d) ≡ suc (grouped d)
  unfolding append_to adjust
  grouped-append_to k v [] = omega arith
  grouped-append_to k v ((j, l) ∷ d) =
      ground (arith, grouped-append_to k v d, length-append l (v ∷ []))

-- No key stands in two entries.
abbrev pub UniqueKeys {ℓ κ} : {K : Type ℓ} {V : Type κ} ⦃e : Eq K⦄ → Dict K V → Type κ
UniqueKeys [] = Unit
UniqueKeys ((k, v) ∷ d) = (lookup k d ≡ none) × UniqueKeys d

module _ {ℓ κ} {K : Type ℓ} {V : Type κ} ⦃e : Eq K⦄ where
  pub adjust-UniqueKeys :
      (k : K) (f : Option V → V) (d : Dict K V) → UniqueKeys d → UniqueKeys (adjust k f d)
  unfolding adjust lookup
  adjust-UniqueKeys k f [] u = (refl, tt)
  adjust-UniqueKeys k f ((j, v) ∷ d) u = elim (Bool-cases (j == k)) [
    | inl h ↦ rw h u
    | inr h ↦
        rw h (lookup-adjust k j f d ∙ rw (==_false_sym j k h) u.0, adjust-UniqueKeys k f d u.1)
  ]

  pub lookup_of_Occurs :
      (k : K) (v : V) (d : Dict K V) → UniqueKeys d → Occurs (k, v) d → lookup k d ≡ some v
  unfolding lookup
  lookup_of_Occurs k v [] u o = absurd o.1
  lookup_of_Occurs k v ((j, w) ∷ d) u (inl p) =
      let e : j ≡ k = sym (ap (λ q. q.0) p) in
      let e' : w ≡ v = sym (ap (λ q. q.1) p) in rw (e, e', ==_refl k) refl
  lookup_of_Occurs k v ((j, w) ∷ d) u (inr o) =
      let ih = lookup_of_Occurs k v d u.1 o in ground (arith, ih, e.beq_iff j k)

module _ {ℓ} {K : Type ℓ} (le : K × ℕ → K × ℕ → Bool) where
  total-insert_by : (p : K × ℕ) (d : Dict K ℕ) → total (insert_by le p d) ≡ p.1 + total d
  unfolding insert_by
  total-insert_by (k, n) [] = refl
  total-insert_by (k, n) ((j, m) ∷ d) = ground (arith, total-insert_by (k, n) d)

  -- Sorting the entries keeps the total.
  pub total-sort_by : (d : Dict K ℕ) → total (sort_by le d) ≡ total d
  unfolding sort_by
  total-sort_by [] = refl
  total-sort_by ((k, n) ∷ d) =
      total-insert_by (k, n) (sort_by le d) ∙ ap (λ m. n + m) (total-sort_by d)

module _ {ℓ κ} {K : Type ℓ} {V : Type κ} (le : K × List V → K × List V → Bool) where
  grouped-insert_by :
      (p : K × List V) (d : Dict K (List V)) → grouped (insert_by le p d) ≡ length p.1 + grouped d
  unfolding insert_by
  grouped-insert_by (k, l) [] = refl
  grouped-insert_by (k, l) ((j, m) ∷ d) = ground (arith, grouped-insert_by (k, l) d)

  pub grouped-sort_by : (d : Dict K (List V)) → grouped (sort_by le d) ≡ grouped d
  unfolding sort_by
  grouped-sort_by [] = refl
  grouped-sort_by ((k, l) ∷ d) =
      grouped-insert_by (k, l) (sort_by le d) ∙ ap (λ m. length l + m) (grouped-sort_by d)

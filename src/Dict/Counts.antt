-- ===== src/Dict/Counts.antt =====
-- Counters: a counter holds how often each key was counted, and when its most common key is one that
-- was counted in most cases.
use g_halo.Sort.Max.{IsAbove, max_by, max_by-Occurs, max_by-IsAbove}
use g_halo.Dict.Laws.{
  total, UniqueKeys, adjust-UniqueKeys, lookup_of_Occurs, lookup-adjust, total-bump,
}
use g_halo.Dict.{get_or, lookup, bump, count_all, Dict, most_common, count_le, add_one}
use mathlib.Core.Option.{some-injective}
use g_halo.Prelude.{
  ℕ, arith, Eq, List, ◌∷◌, ◌≡◌, ◌≤◌, Occurs, some, [], if◌then◌else◌, true, ◌+◌, ◌==◌, ◌⊎◌,
  leb_trans, length, false, leb_total, subst, none, refl,
}

-- How often k stands in the list.
abbrev pub occurrences {ℓ} : {K : Type ℓ} ⦃e : Eq K⦄ → K → List K → ℕ
occurrences k [] = 0
occurrences k (j ∷ js) = (if j == k then 1 else 0) + occurrences k js

module _ {ℓ} {K : Type ℓ} where
  count_le_total : (p q : K × ℕ) → (count_le p q ≡ true) ⊎ (count_le q p ≡ true)
  count_le_total (j, m) (k, n) = leb_total m n

  count_le_trans : (p q r : K × ℕ) → count_le p q ≡ true → count_le q r ≡ true → count_le p r ≡ true
  count_le_trans (j, m) (k, n) (i, l) h g = leb_trans m n l h g

module _ {ℓ} {K : Type ℓ} ⦃e : Eq K⦄ where
  -- counter[k], which is 0 for a key that was not counted
  unfoldable pub count_of : K → Dict K ℕ → ℕ
  unfolding get_or
  count_of k d = get_or 0 k d

  pub count_of-cons :
      (k j : K) (n : ℕ) (d : Dict K ℕ)
      → count_of k ((j, n) ∷ d) ≡ (if j == k then n else count_of k d)
  unfolding count_of lookup
  count_of-cons k j n d = ground arith

  pub count_of-nil : (k : K) → count_of k [] ≡ 0
  unfolding count_of lookup
  count_of-nil k = refl

  pub count_of-bump :
      (k j : K) (d : Dict K ℕ) → count_of k (bump j d) ≡ (if j == k then 1 else 0) + count_of k d
  unfolding bump count_of get_or
  count_of-bump k j d =
      rw (lookup-adjust j k add_one d, count_of, get_or, bump) (ground (arith, e.beq_iff j k))

  pub total-count_all : (d : Dict K ℕ) (ks : List K) → total (count_all d ks) ≡ total d + length ks
  unfolding count_all
  total-count_all d [] = omega arith
  total-count_all d (k ∷ ks) = omega (arith, total-count_all (bump k d) ks, total-bump k d)

  pub count_of-count_all :
      (k : K) (d : Dict K ℕ) (ks : List K)
      → count_of k (count_all d ks) ≡ count_of k d + occurrences k ks
  unfolding count_all
  count_of-count_all k d [] = omega arith
  count_of-count_all k d (j ∷ js) =
      omega (arith, count_of-count_all k (bump j d) js, count_of-bump k j d)

  bump-UniqueKeys : (k : K) (d : Dict K ℕ) → UniqueKeys d → UniqueKeys (bump k d)
  unfolding bump
  bump-UniqueKeys k d u = adjust-UniqueKeys k add_one d u

  pub count_all-UniqueKeys :
      (d : Dict K ℕ) (ks : List K) → UniqueKeys d → UniqueKeys (count_all d ks)
  unfolding count_all
  count_all-UniqueKeys d [] u = u
  count_all-UniqueKeys d (k ∷ ks) u = count_all-UniqueKeys (bump k d) ks (bump-UniqueKeys k d u)

  pub count_of-le-total : (k : K) (d : Dict K ℕ) → count_of k d ≤ total d
  count_of-le-total k [] = unfold count_of lookup in omega arith
  count_of-le-total k ((j, n) ∷ d) = rw count_of-cons (ground (arith, count_of-le-total k d))

  -- The counts of two keys fit into the total.
  pub two_counts-le-total :
      (j k : K) (d : Dict K ℕ) → (j == k) ≡ false → count_of j d + count_of k d ≤ total d
  two_counts-le-total j k [] h = unfold count_of lookup in omega arith
  two_counts-le-total j k ((i, n) ∷ d) h =
      rw (count_of-cons j i n d, count_of-cons k i n d)
        (ground (
          arith,
          two_counts-le-total j k d h,
          count_of-le-total j d,
          count_of-le-total k d,
          e.beq_iff i j,
          e.beq_iff i k,
          e.beq_iff j k,
        ))

  count_of-Occurs :
      (k : K) (n : ℕ) (d : Dict K ℕ) → UniqueKeys d → Occurs (k, n) d → count_of k d ≡ n
  unfolding count_of get_or
  count_of-Occurs k n d u o = rw (lookup_of_Occurs k n d u o, get_or, count_of)

  above_count : (k j : K) (n : ℕ) (d : Dict K ℕ) → IsAbove count_le (k, n) d → count_of j d ≤ n
  above_count k j n [] a = unfold count_of lookup in omega arith
  above_count k j n ((i, m) ∷ d) a =
      rw (count_of-cons j i m d) (ground (arith, above_count k j n d a.1))

  -- The most common key has its count, and no key has a higher one.
  pub most_common_counts :
      (d : Dict K ℕ) (k : K) (n : ℕ)
      → UniqueKeys d
      → most_common d ≡ some (k, n)
      → (count_of k d ≡ n) × ((j : K) → count_of j d ≤ n)
  unfolding most_common
  most_common_counts [] k n u h = cc
  most_common_counts (p ∷ d) k n u h =
      let best : max_by count_le p d ≡ (k, n) = some-injective _ _ h in
      let present = max_by-Occurs count_le p d in
      let above = max_by-IsAbove count_le count_le_total count_le_trans p d in
      (
        count_of-Occurs k n (p ∷ d) u (subst (λ q. Occurs q (p ∷ d)) best present),
        λ j. above_count k j n (p ∷ d) (subst (λ q. IsAbove count_le q (p ∷ d)) best above),
      )

  pub most_common-none : (d : Dict K ℕ) → most_common d ≡ none → total d ≡ 0
  unfolding most_common
  most_common-none [] h = refl
  most_common-none (p ∷ d) h = cc

-- ===== src/Dict.antt =====
-- Python's `dict`: keys in the order of their first insertion, each with its last value. A `Counter`
-- and a `defaultdict(list)` are dictionaries that are written through `adjust`.
pub mod Laws
pub mod Counts
pub mod Groups
use g_halo.Prelude.{
  ℕ, ◌+◌, Bool, true, false, List, [], ◌∷◌, ◌++◌, Option, none, some, Eq, ◌==◌, leb, if◌then◌else◌,
}
use g_halo.Sort.Max.{max_by}

abbrev pub Dict {ℓ κ} : Type ℓ → Type κ → Type (ℓ ⊔ κ)
Dict K V = List (K × V)

module _ {ℓ κ} {K : Type ℓ} {V : Type κ} ⦃e : Eq K⦄ where
  -- d.get(k)
  unfoldable pub lookup : K → Dict K V → Option V
  lookup k [] = none
  lookup k ((j, v) ∷ d) = if j == k then some v else lookup k d

  -- d.get(k, default)
  unfoldable pub get_or : V → K → Dict K V → V
  unfolding lookup
  get_or default k d = elim (lookup k d) [ none ↦ default | some v ↦ v ]

  -- k in d
  unfoldable pub has_key : K → Dict K V → Bool
  unfolding lookup
  has_key k d = elim (lookup k d) [ none ↦ false | some v ↦ true ]

  -- d[k] = f(d.get(k)): a new key goes to the end
  unfoldable pub adjust : K → (Option V → V) → Dict K V → Dict K V
  adjust k f [] = (k, f none) ∷ []
  adjust k f ((j, v) ∷ d) = if j == k then (j, f (some v)) ∷ d else (j, v) ∷ adjust k f d

  -- d[k] = v
  unfoldable pub insert : K → V → Dict K V → Dict K V
  unfolding adjust
  insert k v d = adjust k (λ o. v) d

abbrev pub add_one : Option ℕ → ℕ
add_one none = 1
add_one (some n) = n + 1

module _ {ℓ} {K : Type ℓ} ⦃e : Eq K⦄ where
  -- counter[k] += 1
  unfoldable pub bump : K → Dict K ℕ → Dict K ℕ
  unfolding adjust
  bump k d = adjust k add_one d

abbrev pub snoc {ℓ} : {V : Type ℓ} → V → Option (List V) → List V
snoc v none = v ∷ []
snoc v (some l) = l ++ v ∷ []

module _ {ℓ κ} {K : Type ℓ} {V : Type κ} ⦃e : Eq K⦄ where
  -- groups[k].append(v) for a defaultdict(list), or groups.setdefault(k, []).append(v)
  unfoldable pub append_to : K → V → Dict K (List V) → Dict K (List V)
  unfolding adjust
  append_to k v d = adjust k (snoc v) d

-- Counter(keys), and the first of the most frequent keys with its count, counter.most_common(1)[0]
module _ {ℓ} {K : Type ℓ} ⦃e : Eq K⦄ where
  unfoldable pub count_all : Dict K ℕ → List K → Dict K ℕ
  unfolding bump
  count_all d [] = d
  count_all d (k ∷ ks) = count_all (bump k d) ks

module _ {ℓ} {K : Type ℓ} where
  abbrev pub count_le : K × ℕ → K × ℕ → Bool
  count_le (j, m) (k, n) = leb m n

  unfoldable pub most_common : Dict K ℕ → Option (K × ℕ)
  unfolding max_by
  most_common [] = none
  most_common (p ∷ d) = some (max_by count_le p d)

-- ===== src/Dict/Groups.antt =====
-- Groups: under each key, the values that were appended under it, in their order.
use mathlib.Core.List.{append-nil}
use g_halo.Dict.Laws.{UniqueKeys, adjust-UniqueKeys, lookup_of_Occurs, lookup-adjust}
use g_halo.Dict.{get_or, append_to, Dict, snoc, lookup}
use g_halo.Prelude.{
  Eq, List, ◌∷◌, [], if◌then◌else◌, ◌≡◌, ◌==◌, ◌++◌, Occurs, Option, none, some, Bool-cases, inl,
  ap, eq_of_==, inr, sym,
}

module _ {ℓ κ} {K : Type ℓ} {V : Type κ} ⦃e : Eq K⦄ where
  -- groups.get(k, [])
  unfoldable pub group_of : K → Dict K (List V) → List V
  unfolding get_or
  group_of k d = get_or [] k d

  -- The values whose key is k.
  abbrev pub selected : (V → K) → K → List V → List V
  selected key k [] = []
  selected key k (v ∷ vs) = (if key v == k then v ∷ [] else []) ++ selected key k vs

  pub group_of-append_to :
      (j k : K) (v : V) (d : Dict K (List V))
      → group_of k (append_to j v d) ≡ group_of k d ++ (if j == k then v ∷ [] else [])
  unfolding append_to group_of get_or
  group_of-append_to j k v d = elim (Bool-cases (j == k)) [
    | inl h ↦
        rw (lookup-adjust j k (snoc v) d, group_of, get_or, append_to, h)
          (added (lookup j d) (lookup k d) (ap (λ x. lookup x d) (eq_of_== j k h)))
    | inr h ↦
        rw (lookup-adjust j k (snoc v) d, group_of, get_or, append_to, h)
          (sym (append-nil (group_of k d)))
  ]
    where
      added :
          (o p : Option (List V)) → o ≡ p → snoc v o ≡ (elim p [ none ↦ [] | some l ↦ l ]) ++ v ∷ []
      added o none q = rw q
      added o (some l) q = rw q

  pub append_to-UniqueKeys :
      (j : K) (v : V) (d : Dict K (List V)) → UniqueKeys d → UniqueKeys (append_to j v d)
  unfolding append_to
  append_to-UniqueKeys j v d u = adjust-UniqueKeys j (snoc v) d u

  pub group_of-Occurs :
      (k : K) (l : List V) (d : Dict K (List V)) → UniqueKeys d → Occurs (k, l) d → group_of k d ≡ l
  unfolding group_of get_or
  group_of-Occurs k l d u o = rw (lookup_of_Occurs k l d u o, group_of, get_or)

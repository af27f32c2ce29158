-- ===== src/Analyze/Run/Derived.antt =====
-- The counts that a `Run` of tools/ghalo_analyze.py derives from two others.
use g_halo.Analyze.Run.{Run}
use g_halo.Float.{Float}
use g_halo.Analyze.Run.Counts.{
  exact_quotient, floor_div, nodes, ranks_per_node, stated_nodes, stated_ranks_per_node, ranks,
  nodes_without_derivation, or_count,
}
use native.Mathlib.Nat.{mul-mod_left, mul-div_cancel, div-add-mod'}
use g_halo.Prelude.{
  pos, ℕ, zero, suc, some, none, if◌then◌else◌, ◌%◌, ◌==◌, ◌≡◌, ◌/◌, ◌↔◌, ◌*◌, Bool-cases, ◌<◌,
  arith, inl, subst, ap, sym, ◌∙◌, inr, ne_of_==, nat_eq, false, refl,
}

quotient_iff :
    (a b m : ℕ)
    → ((if suc a % suc b == 0 then some (pos (suc a / suc b)) else none) ≡ some (pos m))
      ↔ (m * suc b ≡ suc a)
quotient_iff a b m = elim (Bool-cases (suc a % suc b == 0)) [
  | inl divides ↦
      let exact : suc a % suc b ≡ 0 = ground arith in
      let whole : (suc a / suc b) * suc b ≡ suc a = omega (arith, div-add-mod' (suc a) (suc b)) in
      rw divides (
        λ h. let e : suc a / suc b ≡ m = cc in subst (λ n. n * suc b ≡ suc a) e whole,
        λ h. ap (λ n. some (pos n)) (ap (λ n. n / suc b) (sym h) ∙ mul-div_cancel m (omega arith)),
      )
  | inr fails ↦ rw fails (
    λ h. cc,
    λ h.
        let e : suc a % suc b ≡ 0 = ap (λ n. n % suc b) (sym h) ∙ mul-mod_left m (suc b) in
        absurd (ne_of_== (suc a % suc b) 0 fails e),
  )
]

nonzero : (n : ℕ) → (suc n == 0) ≡ false
nonzero n = ground arith

-- The quotient is there exactly if it is exact and not of 0.
exact_quotient_iff :
    (a b m : ℕ)
    → (exact_quotient (some (pos a)) (some (pos (suc b))) ≡ some (pos m))
      ↔ ((m * suc b ≡ a) × (0 < a))
unfolding exact_quotient floor_div
exact_quotient_iff zero b m = (λ h. cc, λ h. absurd (omega (arith, h.1)))
exact_quotient_iff (suc a) b m =
    let (to, from) = quotient_iff a b m in
    rw (nonzero a, nonzero b) ((λ h. (to h, omega arith)), (λ h. from h.0))

module _ {F : Type 0} ⦃f : Float F⦄ where
  nodes-or_count :
      (run : Run F)
      → nodes run ≡ or_count (stated_nodes run) (exact_quotient (ranks run) (ranks_per_node run))
  unfolding nodes
  nodes-or_count run = refl

  ranks_per_node-or_count :
      (run : Run F)
      → ranks_per_node run
        ≡ or_count
            (stated_ranks_per_node run)
            (exact_quotient (ranks run) (nodes_without_derivation run))
  unfolding ranks_per_node
  ranks_per_node-or_count run = refl

  -- If the number of nodes is not stated, and the ranks and the positive number of ranks per node are
  -- known, then the run has a node count exactly if there are ranks and the nodes with that many
  -- ranks each have them all; the count is the number of these nodes.
  pub nodes_iff :
      (run : Run F) (total each count : ℕ)
      → stated_nodes run ≡ none
      → ranks run ≡ some (pos total)
      → ranks_per_node run ≡ some (pos (suc each))
      → (nodes run ≡ some (pos count)) ↔ ((count * suc each ≡ total) × (0 < total))
  nodes_iff run total each count unstated known known_each =
      rw (nodes-or_count run, unstated, known, known_each) (exact_quotient_iff total each count)

  -- If the ranks per node are not stated, and the ranks and the positive number of nodes that is
  -- stated are known, then the run has ranks per node exactly if there are ranks and they can be
  -- shared among the nodes equally; they are the share.
  pub ranks_per_node_iff :
      (run : Run F) (total count share : ℕ)
      → stated_ranks_per_node run ≡ none
      → ranks run ≡ some (pos total)
      → nodes_without_derivation run ≡ some (pos (suc count))
      → (ranks_per_node run ≡ some (pos share)) ↔ ((share * suc count ≡ total) × (0 < total))
  ranks_per_node_iff run total count share unstated known known_nodes =
      rw (ranks_per_node-or_count run, unstated, known, known_nodes)
        (exact_quotient_iff total count share)

-- ===== src/Analyze/Aggregate/Halos.antt =====
-- The halo sizes of a group of runs in `aggregate_rows` of tools/ghalo_analyze.py.
use g_halo.Analyze.Compare.Entries.{member-adjust}
use g_halo.Analyze.Compare.Halos.{halos_of, halo_of}
use g_halo.Analyze.Compare.{halo_key}
use g_halo.Dict.Laws.{UniqueKeys, adjust-UniqueKeys}
use g_halo.Analyze.Run.{Run}
use g_halo.Analyze.Results.{RunResult}
use g_halo.Dict.{Dict, adjust}
use g_halo.Analyze.Aggregate.{add_sizes, smallest_sizes, min_with}
use g_halo.Sort.Sums.{sum_over, sum_over_same, sum_over_add}
use g_halo.Analyze.Compare.Sets.{HasNoRepeat, member_head, member_tail}
use g_halo.Stalls.Load.{member}
use g_halo.Prelude.{
  ℕ, int_eq, Bool, List, ℤ, true, ◌≡◌, false, ◌∷◌, ◌==◌, length, Bool-cases, ◌+◌, inl, ap, subst,
  eq_of_==, ◌∙◌, arith, inr, [], refl, map, Occurs, ◌||◌,
}

-- 1 for a test that is passed
abbrev pub indicator : Bool → ℕ
indicator true = 1
indicator false = 0

-- 1 for a size that is among the sizes
abbrev pub among : List ℤ → ℤ → ℕ
among l h = indicator (member h l)

equal_once :
    (x : ℤ) (l : List ℤ)
    → HasNoRepeat l
    → sum_over (λ h. indicator (x == h)) l ≡ indicator (member x l)
unfolding member
equal_once x [] s = refl
equal_once x (h ∷ l) s =
    let ih = equal_once x l s.1 in
    elim (Bool-cases (x == h)) [
      | inl e ↦
          let absent : member x l ≡ false = ap (λ k. member k l) (eq_of_== x h e) ∙ s.0 in
          let rest = ih ∙ ap indicator absent in ground (arith, rest, absent)
      | inr e ↦ ground (arith, ih)
    ]

among-cons :
    (x : ℤ) (l : List ℤ)
    → member x l ≡ false
    → (h : ℤ) → among (x ∷ l) h ≡ indicator (x == h) + among l h
unfolding member
among-cons x l new h = elim (Bool-cases (x == h)) [
  | inl e ↦
      let absent : member h l ≡ false = subst (λ k. member k l ≡ false) (eq_of_== x h e) new in
      ground (arith, absent)
  | inr e ↦ ground arith
]

none_among : (all : List ℤ) → sum_over (among []) all ≡ 0
unfolding member
none_among [] = refl
none_among (h ∷ all) = omega (arith, none_among all)

-- Of the sizes of a list, each stands once among others that have them all.
pub sum_over-among :
    (all l : List ℤ)
    → HasNoRepeat all
    → HasNoRepeat l
    → ((h : ℤ) → member h l ≡ true → member h all ≡ true)
    → sum_over (among l) all ≡ length l
unfolding member
sum_over-among all [] s t inside = none_among all
sum_over-among all (x ∷ l) s t inside =
    let once = equal_once x all s in
    let here : member x all ≡ true = inside x (member_head x l) in
    let ih = sum_over-among all l s t.1 (λ h o. inside h (member_tail h x l o)) in
    sum_over_same (among (x ∷ l)) (λ h. indicator (x == h) + among l h) all (among-cons x l t.0)
    ∙ sum_over_add (λ h. indicator (x == h)) (among l) all
    ∙ (let one = once ∙ ap indicator here in omega (arith, one, ih))

add_sizes-UniqueKeys :
    {F : Type 0}
    → (d : Dict ℤ ℤ) (results : List (RunResult F)) → UniqueKeys d
    → UniqueKeys (add_sizes d results)
unfolding add_sizes
add_sizes-UniqueKeys d [] u = u
add_sizes-UniqueKeys d (r ∷ results) u =
    add_sizes-UniqueKeys (adjust r.halo_words (min_with r.total_exchange_bytes_per_rank) d) results
      (adjust-UniqueKeys r.halo_words (min_with r.total_exchange_bytes_per_rank) d u)

pub smallest_sizes-UniqueKeys :
    {F : Type 0}
    → (d : Dict ℤ ℤ) (runs : List (Run F)) → UniqueKeys d
    → UniqueKeys (smallest_sizes d runs)
unfolding smallest_sizes
smallest_sizes-UniqueKeys d [] u = u
smallest_sizes-UniqueKeys d (run ∷ runs) u =
    smallest_sizes-UniqueKeys (add_sizes d run.results) runs (add_sizes-UniqueKeys d run.results u)

module _ {F : Type 0} where
  member-add_sizes :
      (h : ℤ) (d : Dict ℤ ℤ) (results : List (RunResult F))
      → member h (map halo_key (add_sizes d results))
        ≡ (member h (map halo_key d) || member h (map halo_of results))
  unfolding member add_sizes
  member-add_sizes h d [] = ground arith
  member-add_sizes h d (r ∷ results) =
      member-add_sizes h (adjust r.halo_words (min_with r.total_exchange_bytes_per_rank) d) results
      ∙ ground (arith, member-adjust h r.halo_words (min_with r.total_exchange_bytes_per_rank) d)

  member-smallest_kept :
      (h : ℤ) (d : Dict ℤ ℤ) (runs : List (Run F))
      → member h (map halo_key d) ≡ true
      → member h (map halo_key (smallest_sizes d runs)) ≡ true
  unfolding smallest_sizes
  member-smallest_kept h d [] o = o
  member-smallest_kept h d (run ∷ runs) o =
      member-smallest_kept h (add_sizes d run.results) runs
        (member-add_sizes h d run.results ∙ rw o refl)

  -- The sizes of every run of the group are among the keys.
  pub member-smallest_sizes :
      (h : ℤ) (d : Dict ℤ ℤ) (runs : List (Run F)) (run : Run F)
      → Occurs run runs
      → member h (halos_of run) ≡ true
      → member h (map halo_key (smallest_sizes d runs)) ≡ true
  unfolding smallest_sizes
  member-smallest_sizes h d [] run o m = absurd o.1
  member-smallest_sizes h d (other ∷ runs) run (inl e) m =
      member-smallest_kept h (add_sizes d other.results) runs
        (member-add_sizes h d other.results ∙ ground (arith, here))
    where
      here : member h (map halo_of other.results) ≡ true
      here = subst (λ (r : Run F). member h (halos_of r) ≡ true) e m
  member-smallest_sizes h d (other ∷ runs) run (inr o) m =
      member-smallest_sizes h (add_sizes d other.results) runs run o m

-- ===== src/Versions/Events.antt =====
-- The event lengths of tools/compare_rccl_versions.py: the maximal runs of consecutive iterations.
use native.Mathlib.Nat.{zero-add}
use mathlib.Core.List.{append_assoc}
use g_halo.Sort.Laws.{length-sort_by}
use g_halo.Dict.{append_to}
use g_halo.Sort.{sort_by}
use g_halo.Dict.Laws.{grouped, grouped-append_to}
use g_halo.Stalls.Case.{Affected}
use g_halo.Versions.{
  run_loop, sample_runs, iterations_by_sample, event_lengths, continues, Iterations,
  affected_sample,
}
use g_halo.Prelude.{
  ℕ, List, ℤ, ◌++◌, Option, ◌∷◌, [], ◌+◌, none, ◌≡◌, ◌+ℤ◌, some, arith, length, pos, Bool-cases,
  suc, ◌==◌, leb_ℤ, inl, ◌≢◌, eq_of_==, inr, ◌∙◌, ne_of_==, int_eq, ap, ◌≤◌, length-append,
}

-- The lengths of the maximal runs of consecutive numbers in a list.
pub data Runs : List ℤ → List ℕ → Type 0 where
  single : {x : ℤ} → Runs (x ∷ []) (1 ∷ [])
  longer :
      {x y : ℤ} {l : List ℤ} {n : ℕ} {ns : List ℕ}
      → y ≡ x +ℤ pos 1
      → Runs (y ∷ l) (n ∷ ns)
      → Runs (x ∷ y ∷ l) (suc n ∷ ns)
  gap :
      {x y : ℤ} {l : List ℤ} {ns : List ℕ}
      → y ≢ x +ℤ pos 1
      → Runs (y ∷ l) ns
      → Runs (x ∷ y ∷ l) (1 ∷ ns)

add_suc : (a n : ℕ) → (a + 1) + n ≡ a + suc n
add_suc a n = omega arith

-- the loop after a number: the open run has `current` numbers more than the first run of the rest
loop_from :
    (current : ℕ) (x : ℤ) (lengths : List ℕ) (l : List ℤ)
    → (n : ℕ) × (ns : List ℕ) × Runs (x ∷ l) (n ∷ ns)
      × (run_loop (current + 1) (some x) lengths l ≡ lengths ++ (current + n) ∷ ns)
unfolding run_loop continues
loop_from current x lengths [] = (1, [], Runs.single, ground arith)
loop_from current x lengths (y ∷ l) = elim (Bool-cases (y == x +ℤ pos 1)) [
  | inl h ↦
      let (n, ns, r, e) = loop_from (current + 1) y lengths l in
      (
        suc n,
        ns,
        Runs.longer (eq_of_== y (x +ℤ pos 1) h) r,
        rw h (e ∙ ap (λ m. lengths ++ m ∷ ns) (add_suc current n)),
      )
  | inr h ↦
      let (n, ns, r, e) = loop_from 0 y (lengths ++ (current + 1) ∷ []) l in
      (
        1,
        n ∷ ns,
        Runs.gap (ne_of_== y (x +ℤ pos 1) h) r,
        rw h (
            e
            ∙ append_assoc lengths ((current + 1) ∷ []) ((0 + n) ∷ ns)
            ∙ ap (λ m. lengths ++ (current + 1) ∷ m ∷ ns) (zero-add n)),
      )
]

-- For a sample with an affected iteration, the loop appends to the lengths those of the maximal runs
-- of consecutive numbers in its sorted iterations.
pub run_loop-Runs :
    (lengths : List ℕ) (x : ℤ) (l : List ℤ)
    → (runs : List ℕ) × Runs (x ∷ l) runs × (run_loop 0 none lengths (x ∷ l) ≡ lengths ++ runs)
unfolding run_loop continues
run_loop-Runs lengths x l =
    let (n, ns, r, e) = loop_from 0 x lengths l in
    (n ∷ ns, r, e ∙ ap (λ m. lengths ++ m ∷ ns) (zero-add n))

run_loop_count :
    (current : ℕ) (previous : Option ℤ) (lengths : List ℕ) (l : List ℤ)
    → length (run_loop current previous lengths l) ≤ length lengths + 1 + length l
unfolding run_loop
run_loop_count current previous lengths [] =
    let a = length-append lengths (current ∷ []) in ground (arith, a)
run_loop_count current previous lengths (x ∷ l) =
    let a = length-append lengths (current ∷ []) in
    let b = run_loop_count (current + 1) (some x) lengths l in
    let c = run_loop_count 1 (some x) (lengths ++ current ∷ []) l in
    elim (Bool-cases (continues previous x)) [
      | inl h ↦ rw h (omega (arith, b))
      | inr h ↦ rw h (omega (arith, a, c))
    ]

start_count :
    (lengths : List ℕ) (l : List ℤ) → length (run_loop 0 none lengths l) ≤ length lengths + length l
unfolding run_loop continues
start_count lengths [] = omega arith
start_count lengths (x ∷ l) = let a = run_loop_count 1 (some x) lengths l in omega (arith, a)

sample_runs_count :
    (lengths : List ℕ) (samples : Iterations)
    → length (sample_runs lengths samples) ≤ length lengths + grouped samples
unfolding sample_runs
sample_runs_count lengths [] = omega arith
sample_runs_count lengths ((key, l) ∷ samples) =
    let a = sample_runs_count (run_loop 0 none lengths (sort_by leb_ℤ l)) samples in
    let b = start_count lengths (sort_by leb_ℤ l) in omega (arith, a, b, length-sort_by leb_ℤ l)

abbrev pub sum_ℕ : List ℕ → ℕ
sum_ℕ [] = 0
sum_ℕ (n ∷ ns) = n + sum_ℕ ns

sum-append : (xs ys : List ℕ) → sum_ℕ (xs ++ ys) ≡ sum_ℕ xs + sum_ℕ ys
sum-append [] ys = omega arith
sum-append (x ∷ xs) ys = omega (arith, sum-append xs ys)

run_loop_sum :
    (current : ℕ) (previous : Option ℤ) (lengths : List ℕ) (l : List ℤ)
    → sum_ℕ (run_loop current previous lengths l) ≡ sum_ℕ lengths + current + length l
unfolding run_loop
run_loop_sum current previous lengths [] =
    let a = sum-append lengths (current ∷ []) in ground (arith, a)
run_loop_sum current previous lengths (x ∷ l) =
    let a = sum-append lengths (current ∷ []) in
    let b = run_loop_sum (current + 1) (some x) lengths l in
    let c = run_loop_sum 1 (some x) (lengths ++ current ∷ []) l in
    elim (Bool-cases (continues previous x)) [
      | inl h ↦ rw h (omega (arith, b))
      | inr h ↦ rw h (omega (arith, a, c))
    ]

sample_runs_sum :
    (lengths : List ℕ) (samples : Iterations)
    → sum_ℕ (sample_runs lengths samples) ≡ sum_ℕ lengths + grouped samples
unfolding sample_runs
sample_runs_sum lengths [] = omega arith
sample_runs_sum lengths ((key, l) ∷ samples) =
    let a = sample_runs_sum (run_loop 0 none lengths (sort_by leb_ℤ l)) samples in
    let b = run_loop_sum 0 none lengths (sort_by leb_ℤ l) in
    omega (arith, a, b, length-sort_by leb_ℤ l)

module _ {F : Type 0} where
  by_sample_size :
      (samples : Iterations) (affected : List (Affected F))
      → grouped (iterations_by_sample samples affected) ≡ grouped samples + length affected
  unfolding iterations_by_sample
  by_sample_size samples [] = omega arith
  by_sample_size samples (a ∷ affected) = omega (
    arith,
    by_sample_size (append_to (affected_sample a) a.key.iteration_index samples) affected,
    grouped-append_to (affected_sample a) a.key.iteration_index samples,
  )

  -- Each affected iteration is in exactly one event: the lengths of the events add up to their number.
  pub event_lengths_sum :
      (affected : List (Affected F)) → sum_ℕ (event_lengths affected) ≡ length affected
  unfolding event_lengths
  event_lengths_sum affected =
      let a = sample_runs_sum [] (iterations_by_sample [] affected) in
      let b = by_sample_size [] affected in omega (arith, a, b)

  -- There are no more events than affected iterations.
  pub event_lengths_count :
      (affected : List (Affected F)) → length (event_lengths affected) ≤ length affected
  unfolding event_lengths
  event_lengths_count affected =
      let a = sample_runs_count [] (iterations_by_sample [] affected) in
      let b = by_sample_size [] affected in omega (arith, a, b)

-- ===== src/Analyze/Results/Valid.antt =====
-- `validate_run` of tools/ghalo_analyze.py, for the results of a run.
use g_halo.Result.{Result, ok, err, raise_if, ◌>>◌, not_ok}
use g_halo.Json.Equal.{json_eq}
use g_halo.Text.{lit}
use g_halo.Stalls.Load.{member}
use g_halo.Analyze.Results.{RunResult, AnalyzeFault, AnalysisError}
use g_halo.Float.{Float}
use g_halo.Json.{null, find, Json}
use g_halo.Prelude.{
  List, Bool, ℤ, ◌≡◌, ◌∷◌, false, [], none, true, ◌↔◌, some, not, refl, int_eq, ◌≢◌, All, arith,
}

checks_pass :
    (a b c : Bool) (k : Result AnalyzeFault (Unit {0})) (x y z : AnalyzeFault)
    → ((raise_if a x >> (raise_if b y >> (raise_if (not c) z >> k))) ≡ ok tt)
      ↔ ((a ≡ false) × (b ≡ false) × (c ≡ true) × (k ≡ ok tt))
checks_pass true b c k x y z = ((λ h. absurd (not_ok h)), λ h. cc)
checks_pass false true c k x y z = ((λ h. absurd (not_ok h)), λ h. cc)
checks_pass false false true k x y z = ((λ h. (refl, refl, refl, h)), λ h. h.3)
checks_pass false false false k x y z = ((λ h. absurd (not_ok h)), λ h. cc)

member-cons :
    (a x : ℤ) (xs : List ℤ) → (member a (x ∷ xs) ≡ false) ↔ ((a ≢ x) × (member a xs ≡ false))
unfolding member
member-cons a x xs = ground (arith, int_eq.beq_iff x a)

module _ {F : Type 0} ⦃f : Float F⦄ where
  -- value == value of `topology.get("world_size")`, where None stands for a missing key
  abbrev pub world_size_of : RunResult F → Json F
  world_size_of r = elim (find (lit "world_size") r.topology) [ none ↦ null | some v ↦ v ]

  -- the loop; `seen` are the halo sizes so far
  unfoldable pub validate_from :
      Json F → List ℤ → List (RunResult F) → Result AnalyzeFault (Unit {0})
  unfolding member json_eq find
  validate_from ranks seen [] = ok tt
  validate_from ranks seen (r ∷ results) = do
    raise_if (member r.halo_words seen)
        (AnalyzeFault.analysis (AnalysisError.duplicate_halo r.halo_words))
    raise_if (f.fle r.max_average_seconds (f.literal 0 1))
        (AnalyzeFault.analysis AnalysisError.nonpositive_seconds)
    raise_if (not (json_eq ranks (world_size_of r)))
        (AnalyzeFault.analysis AnalysisError.inconsistent_ranks)
    validate_from ranks (r.halo_words ∷ seen) results

  unfoldable pub validate_run : List (RunResult F) → Result AnalyzeFault (Unit {0})
  unfolding validate_from find
  validate_run [] = err (AnalyzeFault.analysis AnalysisError.empty_results)
  validate_run (r ∷ results) = validate_from (world_size_of r) [] (r ∷ results)

  -- no halo size stands twice
  abbrev pub HasDifferentHalos : List (RunResult F) → Type 0
  HasDifferentHalos [] = Unit
  HasDifferentHalos (r ∷ results) =
      All (λ (q : RunResult F). q.halo_words ≢ r.halo_words) results × HasDifferentHalos results

  abbrev pub HasPositiveTime : RunResult F → Type 0
  HasPositiveTime r = f.fle r.max_average_seconds (f.literal 0 1) ≡ false

  abbrev pub HasRanks : Json F → RunResult F → Type 0
  HasRanks ranks r = json_eq ranks (world_size_of r) ≡ true

  abbrev IsUnseen : List ℤ → RunResult F → Type 0
  IsUnseen seen r = member r.halo_words seen ≡ false

  IsUnseen-cons :
      (h : ℤ) (seen : List ℤ) (results : List (RunResult F))
      → All (IsUnseen (h ∷ seen)) results
        ↔ (All (λ (q : RunResult F). q.halo_words ≢ h) results × All (IsUnseen seen) results)
  IsUnseen-cons h seen [] = ((λ a. (tt, tt)), λ a. tt)
  IsUnseen-cons h seen (r ∷ results) =
      let ih = IsUnseen-cons h seen results in
      let m = member-cons r.halo_words h seen in
      (
        (λ a. let (x, y) = m.0 a.0 in let (xs, ys) = ih.0 a.1 in ((x, xs), (y, ys))),
        (λ a. (m.1 (a.0.0, a.1.0), ih.1 (a.0.1, a.1.1))),
      )

  validate_from_iff :
      (ranks : Json F) (seen : List ℤ) (results : List (RunResult F))
      → (validate_from ranks seen results ≡ ok tt) ↔ (
          All (IsUnseen seen) results
          × HasDifferentHalos results
          × All HasPositiveTime results
          × All (HasRanks ranks) results)
  unfolding validate_from
  validate_from_iff ranks seen [] = ((λ h. (tt, tt, tt, tt)), λ h. refl)
  validate_from_iff ranks seen (r ∷ results) =
      let ih = validate_from_iff ranks (r.halo_words ∷ seen) results in
      let cons = IsUnseen-cons r.halo_words seen results in
      let checks =
        checks_pass (member r.halo_words seen) (f.fle r.max_average_seconds (f.literal 0 1))
          (json_eq ranks (world_size_of r)) (validate_from ranks (r.halo_words ∷ seen) results) _ _
          _ in
      (
        (λ h.
            let (a, b, c, k) = checks.0 h in
            let (unseen, different, positive, same) = ih.0 k in
            let (apart, old) = cons.0 unseen in
            ((a, old), (apart, different), (b, positive), (c, same))),
        (λ h.
            let (unseen, different, positive, same) = h in
            checks.1 (
              unseen.0,
              positive.0,
              same.0,
              ih.1 (cons.1 (different.0, unseen.1), different.1, positive.1, same.1),
            )),
      )

  IsUnseen-nil : (results : List (RunResult F)) → All (IsUnseen []) results
  unfolding member
  IsUnseen-nil [] = tt
  IsUnseen-nil (r ∷ results) = (refl, IsUnseen-nil results)

  -- The check of a run with results passes exactly if no halo size stands twice, and each result has
  -- a positive time and the rank count of the first.
  pub validate_run_iff :
      (r : RunResult F) (results : List (RunResult F))
      → (validate_run (r ∷ results) ≡ ok tt) ↔ (
          HasDifferentHalos (r ∷ results)
          × All HasPositiveTime (r ∷ results)
          × All (HasRanks (world_size_of r)) (r ∷ results))
  unfolding validate_run
  validate_run_iff r results =
      let checks = validate_from_iff (world_size_of r) [] (r ∷ results) in
      (
        (λ h. let (unseen, different, positive, same) = checks.0 h in (different, positive, same)),
        (λ h.
            let (different, positive, same) = h in
            checks.1 (IsUnseen-nil (r ∷ results), different, positive, same)),
      )

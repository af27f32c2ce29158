-- ===== src/Versions/Matrix.antt =====
-- `validate_complete_matrix` of tools/compare_rccl_versions.py: one case for each version.
use g_halo.Dict.Laws.{lookup-adjust}
use g_halo.Stalls.Load.{is_nil}
use g_halo.Result.{◌>>=◌, >>=-eq-ok, ok_inj, raise_if-eq-ok, not_ok}
use g_halo.Json.{Builtin}
use g_halo.Stalls.{Fault}
use g_halo.Versions.{VersionSummary, CompareFault, CompareError, version_order}
use g_halo.Text.{Text}
use g_halo.Result.{map_m, Result, ok, err, ◌>>◌, raise_if}
use g_halo.Stalls.Ranks.Event.{keep_if}
use g_halo.Dict.{has_key, lookup, insert, Dict}
use g_halo.Prelude.{
  List, Bool, not, none, list_eq, nat_eq, ◌∷◌, [], map, ◌≡◌, some, Occurs, Eq, ◌==◌, ◌≢◌, ◌⊎◌,
  false, Option-cases, subst, ◌||◌, Option, inl, arith, if◌then◌else◌, ap, ap₂, inr, sym, ◌∙◌,
  Bool-cases, refl, eq_of_==,
}

abbrev text_eq : Eq Text
text_eq = list_eq

split_or : (j k : Text) (b : Bool) → (j == k || b) ≡ false → (k ≢ j) × (b ≡ false)
split_or j k b h = ground (arith, text_eq.beq_iff j k)

module _ {F : Type 0} where
  -- the loop that indexes the summaries
  unfoldable pub index_versions :
      Dict Text (VersionSummary F)
      → List (VersionSummary F)
      → Result CompareFault (Dict Text (VersionSummary F))
  unfolding has_key insert
  index_versions index [] = ok index
  index_versions index (s ∷ summaries) = do
    raise_if (has_key s.rocm_version index)
        (CompareFault.compare (CompareError.duplicate_version s.rocm_version))
    index_versions (insert s.rocm_version s index) summaries

  -- by_version[version]
  unfoldable pub select_version :
      Dict Text (VersionSummary F) → Text → Result CompareFault (VersionSummary F)
  unfolding lookup
  select_version index version = elim (lookup version index) [
    | none ↦ err (CompareFault.case_fault (Fault.builtin Builtin.key_error))
    | some s ↦ ok s
  ]

  unfoldable pub is_missing : Dict Text (VersionSummary F) → Text → Bool
  unfolding has_key
  is_missing index version = not (has_key version index)

  unfoldable pub validate_complete_matrix :
      List (VersionSummary F) → Result CompareFault (List (VersionSummary F))
  unfolding index_versions keep_if is_missing select_version map_m
  validate_complete_matrix summaries = do
    index ← index_versions [] summaries
    let missing = keep_if (is_missing index) version_order
    raise_if (not (is_nil missing)) (CompareFault.compare (CompareError.missing_versions missing))
    map_m (select_version index) version_order

  abbrev pub versions : List (VersionSummary F) → List Text
  versions summaries = map (λ (s : VersionSummary F). s.rocm_version) summaries

  -- no version stands twice
  abbrev pub NoRepeat : List (VersionSummary F) → Type 0
  NoRepeat [] = Unit
  NoRepeat (s ∷ summaries) =
      ((t : VersionSummary F) → Occurs t summaries → t.rocm_version ≢ s.rocm_version)
      × NoRepeat summaries

  has_key-insert :
      (j k : Text) (s : VersionSummary F) (index : Dict Text (VersionSummary F))
      → has_key k (insert j s index) ≡ (j == k || has_key k index)
  unfolding has_key insert
  has_key-insert j k s index = rw (lookup-adjust j k (λ o. s) index, has_key) (ground arith)

  lookup-insert :
      (j k : Text) (s t : VersionSummary F) (index : Dict Text (VersionSummary F))
      → lookup k (insert j s index) ≡ some t
      → ((j ≡ k) × (s ≡ t)) ⊎ (lookup k index ≡ some t)
  unfolding insert
  lookup-insert j k s t index h =
      let h' : (if j == k then some s else lookup k index) ≡ some t =
        sym (lookup-adjust j k (λ o. s) index) ∙ h in
      elim (Bool-cases (j == k)) [
        | inl e ↦ inl (eq_of_== j k e, some_inj s t (rw e at h'))
        | inr e ↦ inr (rw e at h')
      ]
    where
      some_inj :
          (a b : VersionSummary F) → ◌≡◌ {A = Option (VersionSummary F)} (some a) (some b) → a ≡ b
      some_inj a b q = cc

  indexed :
      (index : Dict Text (VersionSummary F)) (summaries : List (VersionSummary F))
      (found : Dict Text (VersionSummary F))
      → index_versions index summaries ≡ ok found
      → NoRepeat summaries
        × ((s : VersionSummary F) → Occurs s summaries → has_key s.rocm_version index ≡ false)
        × ((v : Text) (s : VersionSummary F)
            → lookup v found ≡ some s
            → (lookup v index ≡ some s) ⊎ (Occurs s summaries × (s.rocm_version ≡ v)))
  unfolding index_versions
  indexed index [] found h =
      (tt, λ s o. absurd o.1, λ v s e. inl (ap (lookup v) (ok_inj index found h) ∙ e))
  indexed index (s ∷ summaries) found h =
      let (new, h') =
        raise_if-eq-ok (has_key s.rocm_version index)
          (CompareFault.compare (CompareError.duplicate_version s.rocm_version)) _ h in
      let (different, fresh, kept) = indexed (insert s.rocm_version s index) summaries found h' in
      let other : (t : VersionSummary F)
          → Occurs t summaries
          → (t.rocm_version ≢ s.rocm_version) × (has_key t.rocm_version index ≡ false) =
        λ t o.
          split_or s.rocm_version t.rocm_version _
            (sym (has_key-insert s.rocm_version t.rocm_version s index) ∙ fresh t o) in
      (
        (λ t o. (other t o).0, different),
        (λ t o. elim o [
          | inl e ↦
              subst (λ (x : VersionSummary F). has_key x.rocm_version index ≡ false) (sym e) new
          | inr o' ↦ (other t o').1
        ]),
        (λ v t e. elim (kept v t e) [
          | inl k ↦ elim (lookup-insert s.rocm_version v s t index k) [
            | inl (p, q) ↦
                inr (inl (sym q), ap (λ (x : VersionSummary F). x.rocm_version) (sym q) ∙ p)
            | inr q ↦ inl q
          ]
          | inr (o, p) ↦ inr (inr o, p)
        ]),
      )

  nothing :
      (v : Text) (s : VersionSummary F) → ◌≢◌ {A = Option (VersionSummary F)} (lookup v []) (some s)
  unfolding lookup
  nothing v s q = cc

  select_version-lookup :
      (index : Dict Text (VersionSummary F)) (v : Text) (s : VersionSummary F)
      → select_version index v ≡ ok s
      → lookup v index ≡ some s
  unfolding select_version
  select_version-lookup index v s h = elim (Option-cases (lookup v index)) [
    | inl e ↦ absurd (not_ok (rw (e, select_version) at h))
    | inr (t, e) ↦ e ∙ ap some (ok_inj t s (rw (e, select_version) at h))
  ]

  selected_all :
      (index : Dict Text (VersionSummary F)) (summaries : List (VersionSummary F))
      (wanted : List Text) (l : List (VersionSummary F))
      → ((v : Text) (s : VersionSummary F)
          → lookup v index ≡ some s
          → Occurs s summaries × (s.rocm_version ≡ v))
      → map_m (select_version index) wanted ≡ ok l
      → (versions l ≡ wanted) × ((s : VersionSummary F) → Occurs s l → Occurs s summaries)
  unfolding map_m
  selected_all index summaries [] l own h =
      subst (λ x. (versions x ≡ []) × ((s : VersionSummary F) → Occurs s x → Occurs s summaries))
        (ok_inj [] l h) (refl, λ s o. absurd o.1)
  selected_all index summaries (v ∷ wanted) l own h =
      let (s, e, h') = >>=-eq-ok (select_version index v) _ h in
      let (rest, r, h'') = >>=-eq-ok (map_m (select_version index) wanted) _ h' in
      let (from, is) = own v s (select_version-lookup index v s e) in
      let ih = selected_all index summaries wanted rest own r in
      subst
        (λ x.
          (versions x ≡ v ∷ wanted) × ((s : VersionSummary F) → Occurs s x → Occurs s summaries))
        (ok_inj (s ∷ rest) l h'')
        (
          ap₂ (λ a b. a ∷ b) is ih.0,
          λ t o. elim o [ inl q ↦ subst (λ x. Occurs x summaries) (sym q) from | inr q ↦ ih.1 t q ],
        )

  -- If the matrix is complete, no version stands twice in the summaries, and the result has exactly
  -- one summary for each version of the order, in that order, each of them one of the given.
  pub validate_complete_matrix-versions :
      (summaries l : List (VersionSummary F))
      → validate_complete_matrix summaries ≡ ok l
      → NoRepeat summaries
        × (versions l ≡ version_order)
        × ((s : VersionSummary F) → Occurs s l → Occurs s summaries)
  unfolding validate_complete_matrix
  validate_complete_matrix-versions summaries l h =
      let (index, i, h1) = >>=-eq-ok (index_versions [] summaries) _ h in
      let missing = keep_if (is_missing index) version_order in
      let (complete, h2) =
        raise_if-eq-ok (not (is_nil missing))
          (CompareFault.compare (CompareError.missing_versions missing)) _ h1 in
      let (different, fresh, kept) = indexed [] summaries index i in
      let (order, from) =
        selected_all index summaries version_order l
          (λ v s e. elim (kept v s e) [ inl k ↦ absurd (nothing v s k) | inr k ↦ k ]) h2 in
      (different, order, from)

-- ===== src/Migrate/Place.antt =====
-- `unique_destination` and `candidate_bundles` of tools/migrate_results.py. The file system is what
-- the tool asks of it: which paths exist, which are directories, and what a directory holds.
use g_halo.Sort.Laws.{Occurs-sort_by}
use native.Mathlib.Nat.{zero-add}
use native.Mathlib.Decide.{dec_lt}
use g_halo.Prelude.{
  text_ord, list_eq, ◌≢◌, sym, subst, ◌∙◌, ap, refl, ◌⊎◌, Occurs, Occurs-append_cases,
}
use g_halo.Sort.{sort_by}
use g_halo.Text.{Text, lit}
use g_halo.Stalls.Ranks.Event.{keep_if}
use g_halo.Text.Number.{show_nat}
use g_halo.Stalls.Paths.{FilePath, path_name}
use g_halo.Migrate.Bundle.{split_flat_name, take_timestamp, Placement, take_char}
use g_halo.Prelude.{
  ℕ, List, Bool, ◌∷◌, ◌++◌, Option, ◌≡◌, ◌+◌, ◌&&◌, list_le, none, if◌then◌else◌, [], false, suc,
  list_eq, nat_eq, ◌==◌, some, ◌<◌, ◌||◌, true, arith, Bool-cases, inr, inl, zero,
}

-- the stem of the destination's name
unfoldable pub stem_of : Text → Text → Text → Text
unfolding split_flat_name
stem_of name backend label =
    let (timestamp, flat_backend, flat_label) = split_flat_name name in
    let short = backend ++ b'_' ∷ label in
    if timestamp == lit "unknown" then short else timestamp ++ b'_' ∷ short

-- root / "results" / system / f"rocm-{rocm}" / category
unfoldable pub parent_of : FilePath → Placement → FilePath
parent_of root p = root ++ lit "results" ∷ p.system ∷ (lit "rocm-" ++ p.rocm) ∷ p.category ∷ []

-- the candidates: with no suffix, then with the suffixes 2, 3, …
unfoldable pub candidate : FilePath → Text → ℕ → FilePath
unfolding show_nat
candidate folder stem zero = folder ++ stem ∷ []
candidate folder stem (suc n) = folder ++ (stem ++ b'_' ∷ show_nat (n + 2)) ∷ []

-- the loop, on fuel: the first candidate from the n-th on that does not exist
unfoldable pub first_free : (FilePath → Bool) → FilePath → Text → ℕ → ℕ → Option FilePath
unfolding candidate
first_free exists folder stem zero n = none
first_free exists folder stem (suc fuel) n =
    let rest = first_free exists folder stem fuel (suc n) in
    if exists (candidate folder stem n) then rest else some (candidate folder stem n)

unfoldable pub unique_destination :
    (FilePath → Bool) → ℕ → FilePath → Placement → FilePath → Option FilePath
unfolding first_free parent_of stem_of
unique_destination exists fuel root p source =
    first_free exists (parent_of root p) (stem_of (path_name source) p.backend p.label) fuel 0

-- A candidate that is free, and that comes after no other free one.
pub record FirstFree (exists : FilePath → Bool) (folder : FilePath) (stem : Text) (path : FilePath)
    : Type 0 where
  pub index : ℕ
  pub is_candidate : path ≡ candidate folder stem index
  pub is_free : exists path ≡ false
  is_first : (i : ℕ) → i < index → exists (candidate folder stem i) ≡ true

true_ne_false : true ≢ false
true_ne_false h = cc

plus_zero : (m : ℕ) → m + 0 ≡ m
plus_zero m = omega arith

plus_suc : (m k : ℕ) → m + suc k ≡ suc m + k
plus_suc m k = omega arith

none_before : (P : ℕ → Type 0) (i : ℕ) → i < 0 → P i
none_before P i h = absurd (omega arith)

and_then : (P : ℕ → Type 0) (m : ℕ) → ((i : ℕ) → i < m → P i) → P m → (i : ℕ) → i < suc m → P i
and_then P m before now i h = elim (dec_lt i m) [
  | yes p ↦ before i p
  | no p ↦ subst P (omega arith) now
]

-- what the round of a taken candidate hands on: a free one is left
later :
    (exists : FilePath → Bool) (folder : FilePath) (stem : Text) (m k : ℕ)
    → exists (candidate folder stem (m + k)) ≡ false
    → exists (candidate folder stem m) ≡ true
    → (j : ℕ) × (k ≡ suc j) × (exists (candidate folder stem (suc m + j)) ≡ false)
later exists folder stem m zero free taken = absurd (
    true_ne_false
      (sym taken ∙ ap (λ i. exists (candidate folder stem i)) (sym (plus_zero m)) ∙ free))
later exists folder stem m (suc j) free taken =
    (j, refl, ap (λ i. exists (candidate folder stem i)) (sym (plus_suc m j)) ∙ free)

first_free_from :
    (exists : FilePath → Bool) (folder : FilePath) (stem : Text) (fuel m k : ℕ)
    → exists (candidate folder stem (m + k)) ≡ false
    → k < fuel
    → ((i : ℕ) → i < m → exists (candidate folder stem i) ≡ true)
    → (path : FilePath) × (first_free exists folder stem fuel m ≡ some path)
      × FirstFree exists folder stem path
unfolding first_free
first_free_from exists folder stem zero m k free enough before = absurd (omega arith)
first_free_from exists folder stem (suc fuel) m k free enough before =
    elim (Bool-cases (exists (candidate folder stem m))) [
      | inr h ↦ (
        candidate folder stem m,
        rw h refl,
        record { index = m; is_candidate = refl; is_free = h; is_first = before },
      )
      | inl h ↦
          let (j, e, free') = later exists folder stem m k free h in
          rw h (
            first_free_from exists folder stem fuel (suc m) j free' (omega (arith, e))
              (and_then (λ i. exists (candidate folder stem i) ≡ true) m before h))
    ]

-- If some candidate does not exist, and the fuel is more than its number, then a destination is
-- found: it is a candidate, it does not exist, and every candidate before it does.
pub unique_destination-FirstFree :
    (exists : FilePath → Bool) (root : FilePath) (p : Placement) (source : FilePath) (fuel n : ℕ)
    → exists (candidate (parent_of root p) (stem_of (path_name source) p.backend p.label) n) ≡ false
    → n < fuel
    → (path : FilePath) × (unique_destination exists fuel root p source ≡ some path)
      × FirstFree exists (parent_of root p) (stem_of (path_name source) p.backend p.label) path
unfolding unique_destination
unique_destination-FirstFree exists root p source fuel n free enough =
    let folder = parent_of root p in
    let stem = stem_of (path_name source) p.backend p.label in
    first_free_from exists folder stem fuel 0 n
      (ap (λ i. exists (candidate folder stem i)) (zero-add n) ∙ free) enough
      (none_before (λ i. exists (candidate folder stem i) ≡ true))

-- What `candidate_bundles` asks of the file system. `entries` is `iterdir`.
pub record Folders : Type 0 where
  pub is_dir : FilePath → Bool
  pub exists : FilePath → Bool
  pub entries : FilePath → List FilePath

-- re.match(r"^\d{8}T\d{6}Z_", name)
unfoldable pub is_flat_name : Text → Bool
unfolding take_timestamp take_char
is_flat_name name = elim (take_timestamp name) [
  | none ↦ false
  | some (timestamp, rest) ↦ elim (take_char b'_' rest) [ none ↦ false | some label ↦ true ]
]

unfoldable pub has_result : Folders → FilePath → Bool
has_result folders path =
    folders.is_dir path
    && (folders.exists (path ++ lit "ghalo.json" ∷ [])
        || folders.exists (path ++ lit "ghalo.csv" ∷ []))

-- the order of paths: by their parts
abbrev pub path_le : FilePath → FilePath → Bool
path_le a b = list_le a b

-- an entry that is yielded
unfoldable pub is_flat_bundle : Folders → FilePath → Bool
unfolding has_result is_flat_name path_name
is_flat_bundle folders child =
    (folders.is_dir child && is_flat_name (path_name child)) && has_result folders child

abbrev pub flat_entries : Folders → FilePath → List FilePath
flat_entries folders path =
    keep_if (is_flat_bundle folders) (sort_by path_le (folders.entries path))

unfoldable pub bundles_in : Folders → FilePath → List FilePath
unfolding has_result keep_if is_flat_bundle sort_by
bundles_in folders path =
    if has_result folders path
    then path ∷ []
    else if folders.is_dir path
    then flat_entries folders path
    else []

unfoldable pub candidate_bundles : Folders → List FilePath → List FilePath
unfolding bundles_in
candidate_bundles folders [] = []
candidate_bundles folders (path ∷ paths) =
    bundles_in folders path ++ candidate_bundles folders paths

-- What is yielded for a path: itself, or an entry of it with a flat name.
abbrev pub IsBundleOf : Folders → FilePath → FilePath → Type 0
IsBundleOf folders path bundle =
    (has_result folders bundle ≡ true)
    × ((bundle ≡ path)
        ⊎ ((has_result folders path ≡ false)
            × Occurs bundle (folders.entries path)
            × (is_flat_name (path_name bundle) ≡ true)))

Occurs-keep_if :
    {A : Type 0} (test : A → Bool) (a : A) (l : List A)
    → Occurs a (keep_if test l)
    → Occurs a l × (test a ≡ true)
unfolding keep_if
Occurs-keep_if test a [] o = absurd o.1
Occurs-keep_if test a (x ∷ xs) o = elim (Bool-cases (test x)) [
  | inl h ↦
      let o' : Occurs a (x ∷ keep_if test xs) =
        subst (Occurs a) {y = x ∷ keep_if test xs} (rw h refl) o in
      elim o' [
        | inl e ↦ (inl e, ap test e ∙ h)
        | inr q ↦ let ih = Occurs-keep_if test a xs q in (inr ih.0, ih.1)
      ]
  | inr h ↦
      let o' : Occurs a (keep_if test xs) = subst (Occurs a) {y = keep_if test xs} (rw h refl) o in
      let ih = Occurs-keep_if test a xs o' in (inr ih.0, ih.1)
]

and_true : (a b c : Bool) → ((a && b) && c) ≡ true → (b ≡ true) × (c ≡ true)
and_true a b c h = ground arith

bundles_in-IsBundleOf :
    (folders : Folders) (path bundle : FilePath)
    → Occurs bundle (bundles_in folders path)
    → IsBundleOf folders path bundle
unfolding bundles_in is_flat_bundle
bundles_in-IsBundleOf folders path bundle o = elim (Bool-cases (has_result folders path)) [
  | inl h ↦
      let o' : Occurs bundle (path ∷ []) = subst (Occurs bundle) {y = path ∷ []} (rw h refl) o in
      elim o' [ inl e ↦ (ap (has_result folders) e ∙ h, inl e) | inr q ↦ absurd q.1 ]
  | inr h ↦ elim (Bool-cases (folders.is_dir path)) [
    | inr k ↦
        let o' : Occurs bundle [] = subst (Occurs bundle) {y = []} (rw (h, k) refl) o in absurd o'.1
    | inl k ↦
        let o' = subst (Occurs bundle) {y = flat_entries folders path} (rw (h, k) refl) o in
        let (listed, tests) =
          Occurs-keep_if (is_flat_bundle folders) bundle (sort_by path_le (folders.entries path))
            o' in
        let (flat, result) = and_true (folders.is_dir bundle) _ _ tests in
        (result, inr (h, Occurs-sort_by path_le bundle (folders.entries path) listed, flat))
  ]
]

-- A bundle that is yielded for the paths has a result file, and for some path of the list it is that
-- path, or, where that path has no result file itself, an entry of it with a flat name.
pub candidate_bundles-IsBundleOf :
    (folders : Folders) (paths : List FilePath) (bundle : FilePath)
    → Occurs bundle (candidate_bundles folders paths)
    → (path : FilePath) × Occurs path paths × IsBundleOf folders path bundle
unfolding candidate_bundles
candidate_bundles-IsBundleOf folders [] bundle o = absurd o.1
candidate_bundles-IsBundleOf folders (path ∷ paths) bundle o =
    elim (Occurs-append_cases bundle (bundles_in folders path) _ o) [
      | inl p ↦ (path, inl refl, bundles_in-IsBundleOf folders path bundle p)
      | inr q ↦
          let (found, where_, is) = candidate_bundles-IsBundleOf folders paths bundle q in
          (found, inr where_, is)
    ]

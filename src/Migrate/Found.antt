-- ===== src/Migrate/Found.antt =====
-- `unique_destination` of tools/migrate_results.py finds a destination, whatever finitely many paths
-- exist.
use g_halo.Text.Number.{show_nat}
use g_halo.Prelude.{zero, suc, ◌+◌, sym, Bool}
use g_halo.Migrate.Place.{FirstFree, parent_of, stem_of, unique_destination-FirstFree}
use g_halo.Migrate.Bundle.{Placement}
use g_halo.Text.Number.RoundTrip.{show_nat_inj}
use g_halo.Text.{Text}
use g_halo.Migrate.Place.{candidate, unique_destination}
use g_halo.Stalls.Load.{member}
use g_halo.Stalls.Paths.{FilePath, path_name}
use g_halo.Prelude.{
  list_eq, nat_eq, Eq, List, length, ◌≡◌, ◌≢◌, ◌∷◌, if◌then◌else◌, ◌≤◌, true, false, ◌==◌, arith,
  ◌<◌, Bool-cases, inl, inr, [], eq_of_==, ◌||◌, ◌++◌, suc, refl, ap, length-append, some,
}
use g_halo.Prelude.{ℕ}

instance abbrev path_eq : Eq FilePath
path_eq = list_eq

-- the list with no occurrence of a
without : FilePath → List FilePath → List FilePath
without a [] = []
without a (x ∷ xs) = let rest = without a xs in if x == a then rest else x ∷ rest

length-without : (a : FilePath) (l : List FilePath) → length (without a l) ≤ length l
unfolding without
length-without a [] = omega arith
length-without a (x ∷ xs) = ground (arith, length-without a xs)

shorter_without :
    (a : FilePath) (l : List FilePath) → member a l ≡ true → length (without a l) < length l
unfolding without member
shorter_without a [] h = cc
shorter_without a (x ∷ xs) h =
    let ih = shorter_without a xs in ground (arith, ih, length-without a xs)

member-without :
    (a b : FilePath) (l : List FilePath)
    → b ≢ a
    → member b (without a l) ≡ false
    → member b l ≡ false
unfolding without member
member-without a b [] ne h = h
member-without a b (x ∷ xs) ne h = elim (Bool-cases (x == a)) [
  | inl p ↦
      let ih = member-without a b xs ne (rw p at h) in
      ground (arith, ih, path_eq.beq_iff x a, path_eq.beq_iff x b, eq_of_== x a p)
  | inr p ↦
      let h' : (x == b || member b (without a xs)) ≡ false = rw p at h in
      let ih = member-without a b xs ne in ground (arith, ih, h')
]

none_in : (a : FilePath) → member a [] ≡ false
unfolding member
none_in a = refl

-- Of more different paths than the list has, one is not in the list.
free_of :
    (size : ℕ) (path : ℕ → FilePath) (l : List FilePath)
    → ((i j : ℕ) → path i ≡ path j → i ≡ j)
    → length l ≤ size
    → (n : ℕ) × (n ≤ size) × (member (path n) l ≡ false)
free_of zero path [] inj h = (0, omega arith, none_in (path 0))
free_of zero path (x ∷ xs) inj h = absurd (omega arith)
free_of (suc size) path l inj h = elim (Bool-cases (member (path (suc size)) l)) [
  | inr free ↦ (suc size, omega arith, free)
  | inl taken ↦
      let less = shorter_without (path (suc size)) l taken in
      let (n, small, free) =
        free_of size path (without (path (suc size)) l) inj (omega (arith, less, h)) in
      (
        n,
        omega (arith, small),
        member-without (path (suc size)) (path n) l
            (λ e. let same = inj n (suc size) e in omega (arith, same, small)) free,
      )
]

cons_inj : {A : Type 0} (a b : A) (s t : List A) → a ∷ s ≡ b ∷ t → s ≡ t
cons_inj a b s t h = cc

append_cancel : {A : Type 0} (xs ys zs : List A) → xs ++ ys ≡ xs ++ zs → ys ≡ zs
append_cancel [] ys zs h = h
append_cancel (x ∷ xs) ys zs h = append_cancel xs ys zs (cons_inj x x (xs ++ ys) (xs ++ zs) h)

single_inj : (a b : Text) → ◌≡◌ {A = List Text} (a ∷ []) (b ∷ []) → a ≡ b
single_inj a b h = cc

suffixed : (stem : Text) (s : Text) → stem ≢ stem ++ b'_' ∷ s
suffixed stem s h =
    let a = ap length h in let b = length-append stem (b'_' ∷ s) in omega (arith, a, b)

-- Candidates of different numbers are different paths.
candidate_inj :
    (folder : FilePath) (stem : Text) (i j : ℕ)
    → candidate folder stem i ≡ candidate folder stem j
    → i ≡ j
unfolding candidate
candidate_inj folder stem zero zero h = refl
candidate_inj folder stem zero (suc j) h =
    absurd (suffixed stem (show_nat (j + 2)) (single_inj _ _ (append_cancel folder _ _ h)))
candidate_inj folder stem (suc i) zero h =
    absurd (suffixed stem (show_nat (i + 2)) (sym (single_inj _ _ (append_cancel folder _ _ h))))
candidate_inj folder stem (suc i) (suc j) h =
    let names = append_cancel stem _ _ (single_inj _ _ (append_cancel folder _ _ h)) in
    let same =
      show_nat_inj (i + 2) (j + 2)
        (cons_inj b'_' b'_' (show_nat (i + 2)) (show_nat (j + 2)) names) in
    omega (arith, same)

-- the file system in which the paths of the list exist, and no others
abbrev pub exists_in : List FilePath → FilePath → Bool
exists_in existing path = member path existing

-- Whatever list of paths exists, with the fuel of one more than its length a destination is found: it is a candidate,
-- it does not exist, and every candidate before it does.
pub unique_destination-found :
    (existing : List FilePath) (root : FilePath) (p : Placement) (source : FilePath)
    → (path : FilePath) × (unique_destination
          (exists_in existing)
          (suc (length existing))
          root
          p
          source
        ≡ some path)
      × FirstFree
          (exists_in existing)
          (parent_of root p)
          (stem_of (path_name source) p.backend p.label)
          path
unique_destination-found existing root p source =
    let folder = parent_of root p in
    let stem = stem_of (path_name source) p.backend p.label in
    let (n, small, free) =
      free_of (length existing) (candidate folder stem) existing (candidate_inj folder stem)
        (omega arith) in
    unique_destination-FirstFree (exists_in existing) root p source (suc (length existing)) n free
      (omega (arith, small))

-- ===== src/Stalls/Discover/Unique.antt =====
-- Which directories `result_dirs_from_inputs` of tools/analyze_iteration_stalls.py returns.
use g_halo.Sort.Laws.{Occurs-sort_by, sort_by-Occurs}
use g_halo.Stalls.Discover.{path_le}
use g_halo.Sort.{sort_by}
use g_halo.Text.Laws.{false_ne_true}
use g_halo.Result.{ok, ok_inj, >>=-eq-ok, not_ok}
use g_halo.Stalls.Discover.{Tree, input_dirs, all_dirs, result_dirs_from_inputs, has_json}
use g_halo.Stalls.Load.{member}
use g_halo.Stalls.Paths.{unique_from, unique_paths, FilePath}
use g_halo.Prelude.{
  Eq, List, list_eq, Occurs, ◌∷◌, ◌≡◌, nat_eq, ◌≢◌, true, false, Bool-cases, ◌⊎◌, arith, inr, inl,
  [], ◌==◌, subst, eq_of_==, sym, ap, refl, ◌↔◌, ◌++◌, ◌∙◌, Occurs-append_cases, Occurs-append_left,
  Occurs-append_right,
}

-- no two paths of the list resolve to one place
abbrev pub NoTwo : (FilePath → FilePath) → List FilePath → Type 0
NoTwo resolve [] = Unit
NoTwo resolve (p ∷ ps) = ((q : FilePath) → Occurs q ps → resolve q ≢ resolve p) × NoTwo resolve ps

-- some path of the list resolves to where p does
abbrev pub Reached : (FilePath → FilePath) → List FilePath → FilePath → Type 0
Reached resolve dirs p = (q : FilePath) × Occurs q dirs × (resolve q ≡ resolve p)

instance abbrev path_eq : Eq FilePath
path_eq = list_eq

member_cons :
    (a x : FilePath) (xs : List FilePath)
    → member a (x ∷ xs) ≡ true
    → (x ≡ a) ⊎ (member a xs ≡ true)
unfolding member
member_cons a x xs h = elim (Bool-cases (x == a)) [
  | inl e ↦ inl (eq_of_== x a e)
  | inr e ↦ inr (rw e at h)
]

member_skip :
    (a x : FilePath) (xs : List FilePath)
    → member a (x ∷ xs) ≡ false
    → (a ≢ x) × (member a xs ≡ false)
unfolding member
member_skip a x xs h = ground (arith, path_eq.beq_iff x a)

none_seen : (a : FilePath) → member a [] ≢ true
unfolding member
none_seen a h = cc

module _ (resolve : FilePath → FilePath) where
  record DistinctFrom (seen paths dirs : List FilePath) : Type 0 where
    given : (p : FilePath) → Occurs p dirs → Occurs p paths
    fresh : (p : FilePath) → Occurs p dirs → member (resolve p) seen ≡ false
    different : NoTwo resolve dirs
    reached :
        (p : FilePath) → Occurs p paths → (member (resolve p) seen ≡ true) ⊎ Reached resolve dirs p

  taken_from :
      (seen : List FilePath) (path : FilePath) (paths dirs : List FilePath)
      → member (resolve path) seen ≡ false
      → DistinctFrom (resolve path ∷ seen) paths dirs
      → DistinctFrom seen (path ∷ paths) (path ∷ dirs)
  taken_from seen path paths dirs new d = record {
    given = λ p o. elim o [ inl e ↦ inl e | inr q ↦ inr (d.given p q) ];
    fresh = λ p o. elim o [
      | inl e ↦ subst (λ x. member (resolve x) seen ≡ false) (sym e) new
      | inr q ↦ (member_skip (resolve p) (resolve path) seen (d.fresh p q)).1
    ];
    different = (λ q o. (member_skip (resolve q) (resolve path) seen (d.fresh q o)).0, d.different);
    reached = λ p o. elim o [
      | inl e ↦ inr (path, inl refl, ap resolve (sym e))
      | inr q ↦ elim (d.reached p q) [
        | inl m ↦ elim (member_cons (resolve p) (resolve path) seen m) [
          | inl e ↦ inr (path, inl refl, e)
          | inr n ↦ inl n
        ]
        | inr (r, at, same) ↦ inr (r, inr at, same)
      ]
    ];
  }

  skipped_from :
      (seen : List FilePath) (path : FilePath) (paths dirs : List FilePath)
      → member (resolve path) seen ≡ true
      → DistinctFrom seen paths dirs
      → DistinctFrom seen (path ∷ paths) dirs
  skipped_from seen path paths dirs old d = record {
    given = λ p o. inr (d.given p o);
    fresh = d.fresh;
    different = d.different;
    reached = λ p o. elim o [
      | inl e ↦ inl (subst (λ x. member (resolve x) seen ≡ true) (sym e) old)
      | inr q ↦ d.reached p q
    ];
  }

  unique_from-DistinctFrom :
      (seen paths : List FilePath) → DistinctFrom seen paths (unique_from resolve seen paths)
  unfolding unique_from
  unique_from-DistinctFrom seen [] = record {
    given = λ p o. o;
    fresh = λ p o. absurd o.1;
    different = tt;
    reached = λ p o. absurd o.1;
  }
  unique_from-DistinctFrom seen (path ∷ paths) = elim (Bool-cases (member (resolve path) seen)) [
    | inl h ↦ rw h (skipped_from seen path paths _ h (unique_from-DistinctFrom seen paths))
    | inr h ↦
        rw h (taken_from seen path paths _ h (unique_from-DistinctFrom (resolve path ∷ seen) paths))
  ]

-- p is a result directory that the input stands for
abbrev pub IsListed : Tree → FilePath → FilePath → Type 0
IsListed tree input p =
    ((has_json tree input ≡ true) × (p ≡ input))
    ⊎ ((has_json tree input ≡ false) × (tree.is_dir input ≡ true) × Occurs p (tree.found input))

input_dirs-IsListed :
    (tree : Tree) (input : FilePath) (dirs : List FilePath)
    → input_dirs tree input ≡ ok dirs
    → ((p : FilePath) → Occurs p dirs ↔ IsListed tree input p)
unfolding input_dirs
input_dirs-IsListed tree input dirs h p = elim (Bool-cases (has_json tree input)) [
  | inl j ↦
      let e : input ∷ [] ≡ dirs = ok_inj _ dirs (rw j at h) in
      (
        λ o.
            let o' : Occurs p (input ∷ []) = subst (Occurs p) (sym e) o in
            elim o' [ inl q ↦ inl (j, q) | inr q ↦ absurd q.1 ],
        λ l.
            subst (Occurs p) e
              (elim l [ inl (k, q) ↦ inl q | inr (k, d, o) ↦ absurd (false_ne_true (sym k ∙ j)) ]),
      )
  | inr j ↦ elim (Bool-cases (tree.is_dir input)) [
    | inl d ↦
        let e : sort_by path_le (tree.found input) ≡ dirs = ok_inj _ dirs (rw (j, d) at h) in
        (
          λ o. inr (j, d, Occurs-sort_by path_le p (tree.found input) (subst (Occurs p) (sym e) o)),
          λ l. subst (Occurs p) e (elim l [
            | inl (k, q) ↦ absurd (false_ne_true (sym j ∙ k))
            | inr (k, c, o) ↦ sort_by-Occurs path_le p (tree.found input) o
          ]),
        )
    | inr d ↦ absurd (not_ok (rw (j, d) at h))
  ]
]

all_dirs-IsListed :
    (tree : Tree) (inputs dirs : List FilePath)
    → all_dirs tree inputs ≡ ok dirs
    → ((p : FilePath)
        → Occurs p dirs
        → (input : FilePath) × Occurs input inputs × IsListed tree input p)
      × ((input p : FilePath) → Occurs input inputs → IsListed tree input p → Occurs p dirs)
unfolding all_dirs
all_dirs-IsListed tree [] dirs h =
    let e = ok_inj [] dirs h in
    (λ p o. absurd (subst (Occurs p) (sym e) o).1, λ input p o l. absurd o.1)
all_dirs-IsListed tree (first ∷ inputs) dirs h =
    let (some_dirs, s, h1) = >>=-eq-ok (input_dirs tree first) _ h in
    let (rest, r, h2) = >>=-eq-ok (all_dirs tree inputs) _ h1 in
    let e = ok_inj (some_dirs ++ rest) dirs h2 in
    let here = input_dirs-IsListed tree first some_dirs s in
    let (there, back) = all_dirs-IsListed tree inputs rest r in
    (
      (λ p o. elim (Occurs-append_cases p some_dirs rest (subst (Occurs p) (sym e) o)) [
        | inl q ↦ (first, inl refl, (here p).0 q)
        | inr q ↦ let (input, at, l) = there p q in (input, inr at, l)
      ]),
      (λ input p o l. subst (Occurs p) e (elim o [
        | inl q ↦
            Occurs-append_left p some_dirs rest ((here p).1 (subst (λ x. IsListed tree x p) q l))
        | inr q ↦ Occurs-append_right p some_dirs rest (back input p q l)
      ])),
    )

-- If directories are returned, then no two of them resolve to one place; each is a result directory
-- that one of the inputs stands for, itself or below it; and each that an input stands for resolves
-- to where one of the returned does.
pub result_dirs_from_inputs-NoTwo :
    (tree : Tree) (inputs dirs : List FilePath)
    → result_dirs_from_inputs tree inputs ≡ ok dirs
    → NoTwo tree.resolve dirs
      × ((p : FilePath)
          → Occurs p dirs
          → (input : FilePath) × Occurs input inputs × IsListed tree input p)
      × ((input p : FilePath)
          → Occurs input inputs
          → IsListed tree input p
          → Reached tree.resolve dirs p)
unfolding result_dirs_from_inputs unique_paths
result_dirs_from_inputs-NoTwo tree inputs dirs h =
    let (discovered, a, h1) = >>=-eq-ok (all_dirs tree inputs) _ h in
    let e : unique_from tree.resolve [] discovered ≡ dirs = ok_inj _ dirs h1 in
    let d =
      subst (DistinctFrom tree.resolve [] discovered) e
        (unique_from-DistinctFrom tree.resolve [] discovered) in
    let (there, back) = all_dirs-IsListed tree inputs discovered a in
    (
      d.different,
      (λ p o. there p (d.given p o)),
      (λ input p o l. elim (d.reached p (back input p o l)) [
        | inl m ↦ absurd (none_seen (tree.resolve p) m)
        | inr r ↦ r
      ]),
    )

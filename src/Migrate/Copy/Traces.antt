-- ===== src/Migrate/Copy/Traces.antt =====
-- The copies of the bundles of one input in the loop of `main` in tools/migrate_results.py.
use g_halo.Migrate.Found.{unique_destination-found, exists_in}
use g_halo.Prelude.{list_eq, nat_eq, suc, length, ◌∙◌}
use g_halo.Migrate.Place.{candidate, parent_of, stem_of, unique_destination}
use g_halo.Json.Show.{str_of}
use g_halo.Migrate.Bundle.{infer_bundle}
use g_halo.Migrate.Copy.Within.{
  IsNew, HasNoTwin, IsWithin, member_head_path, IsWithin-nil, IsWithin-tree, member_later,
  bind_some, not_in_nil, All-IsNew, not_among, IsWithin-cons,
}
use g_halo.Stalls.Paths.{FilePath, path_name}
use g_halo.Float.{Float}
use g_halo.Migrate.Copy.{
  Trace, Move, copied, Failure, copy_tree, CopyTools, copy_bundles, Reply, move_of, destination_of,
  bundle_of,
}
use g_halo.Prelude.{
  Option, List, ◌++◌, All, [], map, ◌∷◌, ◌≡◌, none, true, ap, Option-cases, some, inl, refl, ℕ, inr,
}
use g_halo.Stalls.Load.{member}

abbrev pub line_of : Option Failure → List Move
line_of none = []
line_of (some failure) = failure.move ∷ []

-- the moves that are printed: those that were done, and the one that failed
abbrev pub lines_of : Trace → List Move
lines_of trace = trace.moves ++ line_of trace.failure

abbrev pub destinations : Trace → List FilePath
destinations trace = map destination_of (lines_of trace)

-- The moves are those of the bundles, in their order: of all of them, or, where a move failed, of
-- those before the one whose move it is.
abbrev pub Reached : List FilePath → List Move → Option Failure → Type 0
Reached bundles moves none = map bundle_of moves ≡ bundles
Reached bundles moves (some failure) =
    (skipped : List FilePath) × (map bundle_of moves ++ failure.move.bundle ∷ skipped ≡ bundles)

Reached-cons :
    (move : Move) (bundles : List FilePath) (moves : List Move) (failure : Option Failure)
    → Reached bundles moves failure
    → Reached (move.bundle ∷ bundles) (move ∷ moves) failure
Reached-cons move bundles moves none reached = ap (λ l. move.bundle ∷ l) reached
Reached-cons move bundles moves (some failure) reached =
    (reached.0, ap (λ l. move.bundle ∷ l) reached.1)

pub lines_joined :
    (first later : List Move) (failure : Option Failure)
    → (first ++ later) ++ line_of failure ≡ first ++ (later ++ line_of failure)
lines_joined [] later failure = refl
lines_joined (move ∷ first) later failure = ap (λ l. move ∷ l) (lines_joined first later failure)

pub lines_done : (moves : List Move) → moves ++ line_of none ≡ moves
lines_done [] = refl
lines_done (move ∷ moves) = ap (λ l. move ∷ l) (lines_done moves)

pub All-join {ℓ} :
    {A : Type 0} (P : A → Type ℓ) (xs ys : List A) → All P xs → All P ys → All P (xs ++ ys)
All-join P [] ys hx hy = hy
All-join P (x ∷ xs) ys hx hy = (hx.0, All-join P xs ys hx.1 hy)

copied-IsWithin :
    (destination : FilePath) (existing : List FilePath) (reply : Reply)
    → IsWithin existing (copied destination existing reply).0
unfolding copied
copied-IsWithin destination existing reply path h = elim (Option-cases reply.error) [
  | inl e ↦ rw e (IsWithin-tree destination reply.created existing path h)
  | inr (x, e) ↦ rw e (member_later path reply.created existing h)
]

copied_made :
    (destination : FilePath) (existing : List FilePath) (reply : Reply)
    → (copied destination existing reply).1 ≡ none
    → member destination (copied destination existing reply).0 ≡ true
unfolding copied
copied_made destination existing reply done = elim (Option-cases reply.error) [
  | inl e ↦ rw e (member_head_path destination (reply.created ++ existing))
  | inr (x, e) ↦ let bad : some x ≡ none = rw e at done in cc
]

module _ {F : Type 0} ⦃f : Float F⦄ where
  copy_tree-IsWithin :
      (tools : CopyTools F) (bundle destination : FilePath) (existing : List FilePath)
      → IsWithin existing (copy_tree tools true bundle destination existing).0
  unfolding copy_tree
  copy_tree-IsWithin tools bundle destination existing path h =
      let parents = tools.make_parents existing destination in
      let ready = parents.created ++ existing in
      let kept = member_later path parents.created existing h in
      elim (Option-cases parents.error) [
        | inl e ↦
            rw (e, copy_tree)
              (copied-IsWithin destination ready (tools.copy_files ready bundle destination) path
                kept)
        | inr (x, e) ↦ rw (e, copy_tree) kept
      ]

  copy_tree_made :
      (tools : CopyTools F) (bundle destination : FilePath) (existing : List FilePath)
      → (copy_tree tools true bundle destination existing).1 ≡ none
      → member destination (copy_tree tools true bundle destination existing).0 ≡ true
  unfolding copy_tree
  copy_tree_made tools bundle destination existing done =
      let parents = tools.make_parents existing destination in
      let ready = parents.created ++ existing in
      elim (Option-cases parents.error) [
        | inl e ↦
            rw (e, copy_tree)
              (copied_made destination ready (tools.copy_files ready bundle destination)
                (rw (e, copy_tree) at done))
        | inr (x, e) ↦ let bad : some x ≡ none = rw (e, copy_tree) at done in cc
      ]

  -- The placement is what the files of the bundle say, and the destination is a candidate for it.
  abbrev pub IsPlaced : CopyTools F → FilePath → Move → Type 0
  IsPlaced tools root move =
      (move.placement ≡ infer_bundle str_of (tools.bundle_files move.bundle))
      × (n : ℕ) × (move.destination
          ≡ candidate (parent_of root move.placement)
              (stem_of (path_name move.bundle) move.placement.backend move.placement.label) n)

  -- What the copies of some bundles come to: new and different destinations, which exist then, as
  -- what existed before does.
  abbrev pub IsDone : CopyTools F → FilePath → List FilePath → Trace → Type 0
  IsDone tools root existing trace =
      All (IsNew existing) (destinations trace)
      × HasNoTwin (destinations trace)
      × IsWithin existing trace.after
      × IsWithin (map destination_of trace.moves) trace.after
      × All (IsPlaced tools root) (lines_of trace)

  pub copy_bundles-IsDone :
      (tools : CopyTools F) (root : FilePath) (existing bundles : List FilePath)
      → (trace : Trace) × (copy_bundles tools root true existing bundles ≡ some trace)
        × Reached bundles trace.moves trace.failure
        × IsDone tools root existing trace
  unfolding copy_bundles move_of
  copy_bundles-IsDone tools root existing [] = (
    record { moves = []; after = existing; failure = none },
    refl,
    refl,
    (tt, tt, (λ path h. h), IsWithin-nil existing, tt),
  )
  copy_bundles-IsDone tools root existing (bundle ∷ bundles) =
      let placement = infer_bundle str_of (tools.bundle_files bundle) in
      let (destination, found, free) = unique_destination-found existing root placement bundle in
      let done = copy_tree tools true bundle destination existing in
      let move : Move = record {
        bundle = bundle;
        destination = destination;
        placement = placement;
      } in
      let placed : IsPlaced tools root move = (refl, free.index, free.is_candidate) in
      let within = copy_tree-IsWithin tools bundle destination existing in
      elim (Option-cases done.1) [
        | inr (error, e) ↦ (
          record {
            moves = [];
            after = done.0;
            failure = some (record { move = move; error = error });
          },
          bind_some
                (unique_destination (exists_in existing) (suc (length existing)) root placement
                  bundle)
                _ destination found
              ∙ rw e refl,
          (bundles, refl),
          (
            (free.is_free, tt),
            (not_in_nil destination, tt),
            within,
            IsWithin-nil done.0,
            (placed, tt),
          ),
        )
        | inl e ↦
            let (later, rest, reached, ready) = copy_bundles-IsDone tools root done.0 bundles in
            let (new, different, kept, made, all_placed) = ready in
            let here = copy_tree_made tools bundle destination existing e in
            let paths = destinations later in
            (
              record later { moves = move ∷ later.moves },
              bind_some
                    (unique_destination (exists_in existing) (suc (length existing)) root placement
                      bundle)
                    _ destination found
                  ∙ rw (e, rest) refl,
              Reached-cons move bundles later.moves later.failure reached,
              (
                (free.is_free, All-IsNew existing done.0 paths within new),
                (not_among destination done.0 paths here new, different),
                (λ path h. kept path (within path h)),
                IsWithin-cons destination (map destination_of later.moves) later.after
                    (kept destination here) made,
                (placed, all_placed),
              ),
            )
      ]

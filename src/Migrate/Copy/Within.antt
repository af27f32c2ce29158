-- ===== src/Migrate/Copy/Within.antt =====
-- Lists of paths: what the destinations in the loop of `main` in tools/migrate_results.py are to.
use g_halo.Prelude.Partial.{◌>>=◌}
use g_halo.Prelude.{list_eq, nat_eq}
use g_halo.Stalls.Paths.{FilePath}
use g_halo.Stalls.Load.{member}
use g_halo.Prelude.{
  List, Option, ◌≡◌, Bool-cases, All, ◌∷◌, [], ◌++◌, false, true, some, inl, arith, ◌==◌, ==_refl,
  inr, subst, ap, eq_of_==, refl,
}

-- No path stands twice.
abbrev pub HasNoTwin : List FilePath → Type 0
HasNoTwin [] = Unit
HasNoTwin (path ∷ paths) = (member path paths ≡ false) × HasNoTwin paths

-- Every path of the one list is in the other.
abbrev pub IsWithin : List FilePath → List FilePath → Type 0
IsWithin l m = (path : FilePath) → member path l ≡ true → member path m ≡ true

-- The path is not in the list.
abbrev pub IsNew : List FilePath → FilePath → Type 0
IsNew existing path = member path existing ≡ false

pub member_later :
    (path : FilePath) (l m : List FilePath) → member path m ≡ true → member path (l ++ m) ≡ true
unfolding member
member_later path [] m h = h
member_later path (x ∷ l) m h = let ih = member_later path l m h in ground (arith, ih)

IsNew-IsWithin :
    (l m : List FilePath) (path : FilePath) → IsWithin l m → IsNew m path → IsNew l path
IsNew-IsWithin l m path within new = elim (Bool-cases (member path l)) [
  | inl h ↦ let found = within path h in cc
  | inr h ↦ h
]

pub All-IsNew :
    (l m paths : List FilePath) → IsWithin l m → All (IsNew m) paths → All (IsNew l) paths
All-IsNew l m [] within new = tt
All-IsNew l m (path ∷ paths) within new =
    (IsNew-IsWithin l m path within new.0, All-IsNew l m paths within new.1)

-- A path of a list is not among others that are new to the list.
pub not_among :
    (path : FilePath) (l others : List FilePath)
    → member path l ≡ true
    → All (IsNew l) others
    → member path others ≡ false
unfolding member
not_among path l [] h new = refl
not_among path l (other ∷ others) h new = elim (Bool-cases (other == path)) [
  | inl e ↦ let found = subst (λ p. member p l ≡ false) (eq_of_== other path e) new.0 in cc
  | inr e ↦ rw e (not_among path l others h new.1)
]

pub All-append :
    (l paths others : List FilePath)
    → All (IsNew l) paths
    → All (IsNew l) others
    → All (IsNew l) (paths ++ others)
All-append l [] others new new' = new'
All-append l (path ∷ paths) others new new' = (new.0, All-append l paths others new.1 new')

member_neither :
    (path : FilePath) (l m : List FilePath)
    → member path l ≡ false
    → member path m ≡ false
    → member path (l ++ m) ≡ false
unfolding member
member_neither path [] m h k = k
member_neither path (x ∷ l) m h k = elim (Bool-cases (x == path)) [
  | inl e ↦ let bad : true ≡ false = rw e at h in cc
  | inr e ↦ rw e (member_neither path l m (rw e at h) k)
]

member_tail_path :
    (path first : FilePath) (l : List FilePath)
    → member path l ≡ true
    → member path (first ∷ l) ≡ true
unfolding member
member_tail_path path first l h = elim (Bool-cases (first == path)) [
  | inl e ↦ rw e refl
  | inr e ↦ rw e h
]

pub member_head_path : (path : FilePath) (l : List FilePath) → member path (path ∷ l) ≡ true
unfolding member
member_head_path path l = rw (==_refl path) refl

pub append-HasNoTwin :
    (l paths others : List FilePath)
    → HasNoTwin paths
    → HasNoTwin others
    → IsWithin paths l
    → All (IsNew l) others
    → HasNoTwin (paths ++ others)
unfolding member
append-HasNoTwin l [] others s t within new = t
append-HasNoTwin l (path ∷ paths) others s t within new = (
  member_neither path paths others s.0
      (not_among path l others (within path (member_head_path path paths)) new),
  append-HasNoTwin l paths others s.1 t (λ p h. within p (member_tail_path p path paths h)) new,
)

pub IsWithin-nil : (l : List FilePath) → IsWithin [] l
unfolding member
IsWithin-nil l path h = cc

pub IsWithin-cons :
    (first : FilePath) (paths l : List FilePath)
    → member first l ≡ true
    → IsWithin paths l
    → IsWithin (first ∷ paths) l
unfolding member
IsWithin-cons first paths l here within path h = elim (Bool-cases (first == path)) [
  | inl e ↦ subst (λ p. member p l ≡ true) (eq_of_== first path e) here
  | inr e ↦ within path (rw e at h)
]

pub IsWithin-append :
    (paths others l : List FilePath)
    → IsWithin paths l
    → IsWithin others l
    → IsWithin (paths ++ others) l
IsWithin-append [] others l within within' = within'
IsWithin-append (path ∷ paths) others l within within' =
    IsWithin-cons path (paths ++ others) l (within path (member_head_path path paths))
      (IsWithin-append paths others l (λ p h. within p (member_tail_path p path paths h)) within')

pub IsWithin-tree :
    (destination : FilePath) (created existing : List FilePath)
    → IsWithin existing (destination ∷ created ++ existing)
IsWithin-tree destination created existing path h =
    member_tail_path path destination (created ++ existing) (member_later path created existing h)

pub bind_some {ℓ κ} :
    {A : Type ℓ} {B : Type κ} (o : Option A) (k : A → Option B) (a : A) → o ≡ some a → o >>= k ≡ k a
bind_some o k a h = ap (λ o. o >>= k) h

-- The path is in the list.
abbrev pub IsIn : List FilePath → FilePath → Type 0
IsIn paths path = member path paths ≡ true

pub IsWithin-All : (l m : List FilePath) → IsWithin l m → All (IsIn m) l
IsWithin-All [] m within = tt
IsWithin-All (path ∷ l) m within = (
  within path (member_head_path path l),
  IsWithin-All l m (λ p h. within p (member_tail_path p path l h)),
)

pub not_in_nil : (path : FilePath) → member path [] ≡ false
unfolding member
not_in_nil path = refl

-- ===== src/Analyze/Compare/Sets.antt =====
-- Lists without repetition as the sets of `compare_rows` in tools/ghalo_analyze.py.
use g_halo.Sort.Laws.{IsSorted, IsBelow}
use g_halo.Sort.{insert_by, sort_by}
use g_halo.Stalls.Ranks.Event.{keep_if}
use g_halo.Analyze.Compare.{union, intersection}
use g_halo.Stalls.Load.{member}
use g_halo.Prelude.{
  int_eq, leb_ℤ, ltb_ℤ, List, ℤ, ◌++◌, Bool, ◌≡◌, ◌∷◌, false, ◌||◌, ◌&&◌, true, ◌==◌, ◌∙◌, [],
  arith, Bool-cases, not, inl, refl, inr, ap, eq_of_==,
}

-- No number stands twice.
abbrev pub HasNoRepeat : List ℤ → Type 0
HasNoRepeat [] = Unit
HasNoRepeat (h ∷ hs) = (member h hs ≡ false) × HasNoRepeat hs

member-append : (h : ℤ) (a b : List ℤ) → member h (a ++ b) ≡ (member h a || member h b)
unfolding member
member-append h [] b = refl
member-append h (x ∷ a) b = ground (arith, member-append h a b)

member-keep_if :
    (h : ℤ) (test : ℤ → Bool) (a : List ℤ) → member h (keep_if test a) ≡ (member h a && test h)
unfolding member keep_if
member-keep_if h test [] = refl
member-keep_if h test (x ∷ a) =
    let ih = member-keep_if h test a in
    elim (Bool-cases (x == h)) [
      | inl e ↦ let same = ap test (eq_of_== x h e) in ground (arith, ih, same)
      | inr e ↦ ground (arith, ih)
    ]

pub member-union : (h : ℤ) (a b : List ℤ) → member h (union a b) ≡ (member h a || member h b)
unfolding union
member-union h a b =
    let kept = member-keep_if h (λ x. not (member x a)) b in
    member-append h a _ ∙ ground (arith, kept)

pub member-intersection :
    (h : ℤ) (a b : List ℤ) → member h (intersection a b) ≡ (member h a && member h b)
unfolding intersection
member-intersection h a b = member-keep_if h (λ x. member x b) a

keep_if-HasNoRepeat : (test : ℤ → Bool) (a : List ℤ) → HasNoRepeat a → HasNoRepeat (keep_if test a)
unfolding keep_if
keep_if-HasNoRepeat test [] s = tt
keep_if-HasNoRepeat test (x ∷ a) s =
    let new : member x (keep_if test a) ≡ false = member-keep_if x test a ∙ rw (s.0) refl in
    let ih = keep_if-HasNoRepeat test a s.1 in
    elim (Bool-cases (test x)) [ inl e ↦ rw e (new, ih) | inr e ↦ rw e ih ]

pub member_head : (x : ℤ) (a : List ℤ) → member x (x ∷ a) ≡ true
unfolding member
member_head x a = rw (int_eq.beq_iff x x).1 refl

pub member_tail : (h x : ℤ) (a : List ℤ) → member h a ≡ true → member h (x ∷ a) ≡ true
unfolding member
member_tail h x a o = ground (arith, o)

append-HasNoRepeat :
    (a b : List ℤ)
    → HasNoRepeat a
    → HasNoRepeat b
    → ((h : ℤ) → member h a ≡ true → member h b ≡ false)
    → HasNoRepeat (a ++ b)
append-HasNoRepeat [] b s t apart = t
append-HasNoRepeat (x ∷ a) b s t apart = (
  member-append x a b ∙ rw (s.0, apart x (member_head x a)) refl,
  append-HasNoRepeat a b s.1 t (λ h o. apart h (member_tail h x a o)),
)

insert_by-member : (h x : ℤ) (l : List ℤ) → member h (insert_by leb_ℤ x l) ≡ (x == h || member h l)
unfolding member insert_by
insert_by-member h x [] = refl
insert_by-member h x (y ∷ l) = ground (arith, insert_by-member h x l)

pub member-sort_by : (h : ℤ) (l : List ℤ) → member h (sort_by leb_ℤ l) ≡ member h l
unfolding member sort_by
member-sort_by h [] = refl
member-sort_by h (x ∷ l) =
    insert_by-member h x (sort_by leb_ℤ l) ∙ ground (arith, member-sort_by h l)

ltb_ℤ_trans : (a b c : ℤ) → ltb_ℤ a b ≡ true → ltb_ℤ b c ≡ true → ltb_ℤ a c ≡ true
ltb_ℤ_trans a b c h k = ground arith

IsBelow-IsBelow : (x y : ℤ) (l : List ℤ) → ltb_ℤ x y ≡ true → IsBelow ltb_ℤ y l → IsBelow ltb_ℤ x l
IsBelow-IsBelow x y [] h b = tt
IsBelow-IsBelow x y (z ∷ l) h b = (ltb_ℤ_trans x y z h b.0, IsBelow-IsBelow x y l h b.1)

insert_by-IsBelow :
    (y x : ℤ) (l : List ℤ)
    → ltb_ℤ y x ≡ true
    → IsBelow ltb_ℤ y l
    → IsBelow ltb_ℤ y (insert_by leb_ℤ x l)
unfolding insert_by
insert_by-IsBelow y x [] h b = (h, tt)
insert_by-IsBelow y x (z ∷ l) h b = elim (Bool-cases (leb_ℤ x z)) [
  | inl e ↦ rw e (h, b)
  | inr e ↦ rw e (b.0, insert_by-IsBelow y x l h b.1)
]

-- Sorting a set gives strictly ascending numbers.
insert_by-ascends :
    (x : ℤ) (l : List ℤ)
    → member x l ≡ false
    → IsSorted ltb_ℤ l
    → IsSorted ltb_ℤ (insert_by leb_ℤ x l)
unfolding insert_by member
insert_by-ascends x [] new s = (tt, tt)
insert_by-ascends x (y ∷ l) new s =
    let different : (y == x) ≡ false = ground arith in
    let later : member x l ≡ false = ground arith in
    elim (Bool-cases (leb_ℤ x y)) [
      | inl e ↦
          let below : ltb_ℤ x y ≡ true = ground arith in
          rw e ((below, IsBelow-IsBelow x y l below s.0), s)
      | inr e ↦
          let above : ltb_ℤ y x ≡ true = ground arith in
          rw e (insert_by-IsBelow y x l above s.0, insert_by-ascends x l later s.1)
    ]

pub sort_by-ascends : (l : List ℤ) → HasNoRepeat l → IsSorted ltb_ℤ (sort_by leb_ℤ l)
unfolding sort_by
sort_by-ascends [] s = tt
sort_by-ascends (x ∷ l) s =
    insert_by-ascends x (sort_by leb_ℤ l) (member-sort_by x l ∙ s.0) (sort_by-ascends l s.1)

pub union-HasNoRepeat : (a b : List ℤ) → HasNoRepeat a → HasNoRepeat b → HasNoRepeat (union a b)
unfolding union
union-HasNoRepeat a b s t =
    append-HasNoRepeat a _ s (keep_if-HasNoRepeat (λ x. not (member x a)) b t)
      (λ h o. member-keep_if h (λ x. not (member x a)) b ∙ ground (arith, o))

pub intersection-HasNoRepeat : (a b : List ℤ) → HasNoRepeat a → HasNoRepeat (intersection a b)
unfolding intersection
intersection-HasNoRepeat a b s = keep_if-HasNoRepeat (λ x. member x b) a s

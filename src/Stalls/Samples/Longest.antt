-- ===== src/Stalls/Samples/Longest.antt =====
-- `longest_stall_free_sequence` is the length of the longest run of "F".
use Prim.Native.Nat.{max}
use mathlib.Core.List.{append_assoc, append-nil}
use native.Mathlib.Numerals.{add-one}
use native.Mathlib.Decide.{dec_le}
use g_halo.Prelude.{
  ℕ, zero, suc, ◌+◌, ◌≤◌, ◌≡◌, refl, sym, ap, ◌∙◌, [], ◌∷◌, ◌++◌, inl, inr, arith, Bool-cases,
  nat_eq, ◌==◌, subst, eq_of_==, true,
}
use g_halo.Text.{Text}
use g_halo.Stalls.Samples.{longest_from, longest_stall_free_sequence}

-- a run of n stall-free samples
abbrev pub free_run : ℕ → Text
free_run zero = []
free_run (suc n) = b'F' ∷ free_run n

-- The sequence has a run of n stall-free samples in it.
abbrev pub HasRun : ℕ → Text → Type 0
HasRun n sequence = (before after : Text) × (sequence ≡ before ++ free_run n ++ after)

longest_from-ge : (l c : ℕ) (s : Text) → l ≤ longest_from l c s
unfolding longest_from
longest_from-ge l c [] = omega arith
longest_from-ge l c (m ∷ s) =
    ground (arith, longest_from-ge (max l (c + 1)) (c + 1) s, longest_from-ge l 0 s)

run_le : (n l c : ℕ) (after : Text) → c ≤ l → c + n ≤ longest_from l c (free_run n ++ after)
unfolding longest_from
run_le zero l c after h = omega (arith, longest_from-ge l c after)
run_le (suc n) l c after h = omega (arith, run_le n (max l (c + 1)) (c + 1) after (omega arith))

later_run_le :
    (before : Text) (n l c : ℕ) (after : Text)
    → c ≤ l
    → n ≤ longest_from l c (before ++ free_run n ++ after)
unfolding longest_from
later_run_le [] n l c after h = omega (arith, run_le n l c after h)
later_run_le (m ∷ before) n l c after h = ground (
  arith,
  later_run_le before n (max l (c + 1)) (c + 1) after (omega arith),
  later_run_le before n l 0 after (omega arith),
)

free_run-snoc : (n : ℕ) → free_run n ++ b'F' ∷ [] ≡ free_run (suc n)
free_run-snoc zero = refl
free_run-snoc (suc n) = ap (◌∷◌ b'F') (free_run-snoc n)

-- A run that is there stays there when the sequence goes on.
HasRun-append : (n : ℕ) (s t : Text) → HasRun n s → HasRun n (s ++ t)
HasRun-append n s t (before, after, e) =
    (before, after ++ t, rw e (append_assoc (before ++ free_run n) after t))

run_at_end : (n : ℕ) (before : Text) → HasRun n (before ++ free_run n)
run_at_end n before = (before, [], sym (append-nil (before ++ free_run n)))

longer_run : (l c : ℕ) (pre : Text) → HasRun l pre → HasRun c pre → HasRun (max l c) pre
longer_run l c pre h k = elim (dec_le c l) [
  | yes p ↦ let e : max l c ≡ l = omega arith in rw e h
  | no p ↦ let e : max l c ≡ c = omega arith in rw e k
]

next_free :
    (pre before : Text) (c m : ℕ)
    → (m == b'F') ≡ true
    → pre ≡ before ++ free_run c
    → pre ++ m ∷ [] ≡ before ++ free_run (suc c)
next_free pre before c m f e =
    rw (e, eq_of_== m b'F' f)
      (append_assoc before (free_run c) (b'F' ∷ []) ∙ ap (◌++◌ before) (free_run-snoc c))

attained :
    (s pre : Text) (l c : ℕ) (before : Text)
    → HasRun l pre
    → pre ≡ before ++ free_run c
    → HasRun (longest_from l c s) (pre ++ s)
unfolding longest_from
attained [] pre l c before h e = rw (append-nil pre) h
attained (m ∷ s) pre l c before h e = elim (Bool-cases (m == b'F')) [
  | inl f ↦
      let e' = next_free pre before c m f e in
      let run : HasRun (suc c) (pre ++ m ∷ []) = rw e' (run_at_end (suc c) before) in
      let longer = longer_run l (suc c) (pre ++ m ∷ []) (HasRun-append l pre (m ∷ []) h) run in
      let ih = attained s (pre ++ m ∷ []) (max l (suc c)) (suc c) before longer e' in
      rw (f, add-one c) (subst (HasRun _) (append_assoc pre (m ∷ []) s) ih)
  | inr f ↦
      let ih =
        attained s (pre ++ m ∷ []) l 0 (pre ++ m ∷ []) (HasRun-append l pre (m ∷ []) h)
          (sym (append-nil (pre ++ m ∷ []))) in
      rw f (subst (HasRun _) (append_assoc pre (m ∷ []) s) ih)
]

-- The longest run: the sequence has a run of that length, and no longer one.
pub longest_stall_free_sequence-IsLongest :
    (sequence : Text)
    → HasRun (longest_stall_free_sequence sequence) sequence
      × ((n : ℕ) → HasRun n sequence → n ≤ longest_stall_free_sequence sequence)
unfolding longest_stall_free_sequence
longest_stall_free_sequence-IsLongest sequence = (
  attained sequence [] 0 0 [] ([], [], refl) refl,
  λ n (before, after, e). rw e (later_run_le before n 0 0 after (omega arith)),
)

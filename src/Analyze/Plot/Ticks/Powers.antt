-- ===== src/Analyze/Plot/Ticks/Powers.antt =====
-- What `power_of_two_ticks` of tools/ghalo_analyze.py returns.
use g_halo.Sort.{sort_by}
use g_halo.Sort.Laws.{IsSorted}
use g_halo.Analyze.Compare.Sets.{
  member_head, HasNoRepeat, member_tail, member-sort_by, sort_by-ascends,
}
use g_halo.Stalls.Load.{member, is_nil}
use g_halo.Analyze.Plot.Ticks.{is_power_of_two, all_powers, value_set, power_of_two_ticks}
use Prim.Native.Nat.{bit_and, bit_and-bitwise, digits, min}
use native.Mathlib.Nat.{one-le-pow}
use Prim.Native.Nat.pow
use g_halo.Prelude.{
  pos, negsuc, ℕ, zero, suc, int_eq, leb_ℤ, ltb_ℤ, ◌≤◌, ℤ, ◌^◌, ◌≡◌, ◌-◌, arith, ◌/◌, ◌⊎◌, ◌*◌,
  refl, inl, ◌+◌, inr, ◌%◌, ap₂, subst, sym, true, ◌↔◌, ◌∙◌, not, ◌≢◌, ap, List, ◌==◌, pos_part,
  All, ◌&&◌, ◌∷◌, [], nat_eq, Bool-cases, if◌then◌else◌, false, eq_of_==,
}

-- the digits that two numbers share, with the fuel for n of them
abbrev shared : ℕ → ℕ → ℕ → ℕ
shared n a b = digits (λ c. 0) min n a b

shared_self : (n a : ℕ) → a ≤ n → shared n a a ≡ a
shared_self zero zero h = refl
shared_self (suc n) zero h = refl
shared_self zero (suc a) h = absurd (omega arith)
shared_self (suc n) (suc a) h =
    let ih = shared_self n (suc a / 2) (omega arith) in omega (arith, ih)

abbrev pub IsPowerOfTwo : ℤ → Type 0
IsPowerOfTwo value = (k : ℕ) × (value ≡ pos (2 ^ k))

ℕ-cases : (n : ℕ) → (n ≡ 0) ⊎ ((m : ℕ) × (n ≡ suc m))
ℕ-cases zero = inl refl
ℕ-cases (suc m) = inr (m, refl)

pow_two : (k : ℕ) → 2 ^ suc k ≡ 2 ^ k * 2
pow_two k = pow.suc 2 k

power_of_shared : (n a : ℕ) → suc a ≤ n → shared n (suc a) a ≡ 0 → (k : ℕ) × (suc a ≡ 2 ^ k)
power_of_shared zero a h e = absurd (omega arith)
power_of_shared (suc n) a h e =
    let low : shared n (suc a / 2) (a / 2) * 2 + min (suc a % 2) (a % 2) ≡ 0 = e in
    elim (ℕ-cases (suc a / 2)) [
      | inl none_left ↦ (0, omega (arith, none_left))
      | inr (m, half) ↦ elim (ℕ-cases (suc a % 2)) [
        | inl even ↦
            let other : a / 2 ≡ m = omega (arith, half, even) in
            let moved = ap₂ (shared n) half other in
            let rest : shared n (suc m) m ≡ 0 = omega (arith, low, moved) in
            let (k, power) = power_of_shared n m (omega (arith, half)) rest in
            (suc k, omega (arith, half, even, power, pow_two k))
        | inr (d, odd) ↦
            let other : a / 2 ≡ suc m = omega (arith, half, odd) in
            let same : shared n (suc m) (suc m) ≡ suc m =
              shared_self n (suc m) (omega (arith, half)) in
            let moved = ap₂ (shared n) half other in absurd (omega (arith, low, moved, same))
      ]
    ]

shared_double : (n q a : ℕ) → a ≡ suc q + q → shared n (suc q) q ≡ 0 → shared (suc n) (suc a) a ≡ 0
shared_double n q a twice e =
    let half : suc a / 2 ≡ suc q = omega (arith, twice) in
    let other : a / 2 ≡ q = omega (arith, twice) in
    let moved = ap₂ (shared n) half other in
    let even : suc a % 2 ≡ 0 = omega (arith, twice) in
    let low : shared n (suc a / 2) (a / 2) * 2 + min (suc a % 2) (a % 2) ≡ 0 =
      omega (arith, moved, e, even) in
    low

shared_of_power : (k n q : ℕ) → suc q ≡ 2 ^ k → suc q ≤ n → shared n (suc q) q ≡ 0
shared_of_power k zero q e h = absurd (omega (arith, h))
shared_of_power zero (suc n) q e h =
    let none_left : q ≡ 0 = omega (arith, e) in
    subst (λ p. shared (suc n) (suc p) p ≡ 0) (sym none_left)
      (let same = shared_self n 0 (omega arith) in omega (arith, same))
shared_of_power (suc k) (suc n) q e h = elim (ℕ-cases (2 ^ k)) [
  | inl impossible ↦ absurd (omega (arith, e, pow_two k, impossible))
  | inr (p, power) ↦
      let twice : q ≡ suc p + p = omega (arith, e, pow_two k, power) in
      shared_double n p q twice (shared_of_power k n p (sym power) (omega (arith, h, twice)))
]

bit_and-shared : (a : ℕ) → bit_and (suc a) (suc a - 1) ≡ shared (suc a) (suc a) a
bit_and-shared a =
    let less : suc a - 1 ≡ a = omega arith in
    bit_and-bitwise (suc a) (suc a - 1) ∙ ap (shared (suc a) (suc a)) less

test_iff : (a b : ℕ) → ((not (suc a == 0) && b == 0) ≡ true) ↔ (b ≡ 0)
test_iff a b = ground arith

power_not_zero : (k : ℕ) → 0 ≢ 2 ^ k
power_not_zero k e = let above = one-le-pow k 2 (omega arith) in omega (arith, e, above)

-- The test is passed exactly by the powers of two.
is_power_of_two_iff : (value : ℤ) → (is_power_of_two value ≡ true) ↔ IsPowerOfTwo value
unfolding is_power_of_two
is_power_of_two_iff (negsuc n) = (λ h. cc, λ h. let (k, e) = h in cc)
is_power_of_two_iff (pos zero) =
    (λ h. cc, λ h. let (k, e) = h in absurd (power_not_zero k (ap pos_part e)))
is_power_of_two_iff (pos (suc a)) =
    let (passed, passes) = test_iff a (bit_and (suc a) (suc a - 1)) in
    (
      λ h.
          let (k, e) =
            power_of_shared (suc a) a (omega arith) (sym (bit_and-shared a) ∙ passed h) in
          (k, ap pos e),
      λ h.
          let (k, e) = h in
          passes (bit_and-shared a ∙ shared_of_power k (suc a) a (ap pos_part e) (omega arith)),
    )

all_powers_iff : (values : List ℤ) → (all_powers values ≡ true) ↔ All IsPowerOfTwo values
unfolding all_powers
all_powers_iff [] = (λ h. tt, λ h. refl)
all_powers_iff (value ∷ values) =
    let (ih, hi) = all_powers_iff values in
    let (power, rewop) = is_power_of_two_iff value in
    (
      λ h. (power (ground (arith, h)), ih (ground (arith, h))),
      λ h. let one = rewop h.0 in let rest = hi h.1 in rw (one, rest) refl,
    )

member-value_set : (h : ℤ) (values : List ℤ) → member h (value_set values) ≡ member h values
unfolding value_set member
member-value_set h [] = refl
member-value_set h (value ∷ values) =
    let ih = member-value_set h values in
    elim (Bool-cases (member value (value_set values))) [
      | inl e ↦ rw e (elim (Bool-cases (value == h)) [
        | inl t ↦
            let found = subst (λ k. member k (value_set values) ≡ true) (eq_of_== value h t) e in
            ground (arith, ih, found)
        | inr t ↦ ground (arith, ih)
      ])
      | inr e ↦ rw e (ground (arith, ih))
    ]

value_set-HasNoRepeat : (values : List ℤ) → HasNoRepeat (value_set values)
unfolding value_set
value_set-HasNoRepeat [] = tt
value_set-HasNoRepeat (value ∷ values) = elim (Bool-cases (member value (value_set values))) [
  | inl e ↦ rw e (value_set-HasNoRepeat values)
  | inr e ↦ rw e (e, value_set-HasNoRepeat values)
]

All-at : (h : ℤ) (a : List ℤ) → All IsPowerOfTwo a → member h a ≡ true → IsPowerOfTwo h
unfolding member
All-at h [] all o = cc
All-at h (x ∷ a) all o = elim (Bool-cases (x == h)) [
  | inl e ↦ subst IsPowerOfTwo (eq_of_== x h e) all.0
  | inr e ↦ All-at h a all.1 (ground (arith, o))
]

-- A list whose members are powers of two has only such elements.
All-of_member : (a : List ℤ) → ((h : ℤ) → member h a ≡ true → IsPowerOfTwo h) → All IsPowerOfTwo a
All-of_member [] power = tt
All-of_member (x ∷ a) power =
    (power x (member_head x a), All-of_member a (λ h o. power h (member_tail h x a o)))

no_member : (values : List ℤ) → ((h : ℤ) → member h [] ≡ member h values) → values ≡ []
unfolding member
no_member [] same = refl
no_member (x ∷ values) same = let found = same x ∙ member_head x values in cc

chosen : List ℤ → List ℤ
chosen unique = if not (is_nil unique) && all_powers unique then unique else []

chosen-all : (unique : List ℤ) → all_powers unique ≡ true → chosen unique ≡ unique
unfolding chosen
chosen-all [] h = refl
chosen-all (x ∷ unique) h = rw h refl

chosen-none : (unique : List ℤ) → all_powers unique ≡ false → chosen unique ≡ []
unfolding chosen
chosen-none [] h = refl
chosen-none (x ∷ unique) h = rw h refl

-- The ticks are strictly ascending; they are the values, each once, exactly if all the values are
-- powers of two, and if not then there are no ticks.
pub power_of_two_ticks_iff :
    (values : List ℤ)
    → IsSorted ltb_ℤ (power_of_two_ticks values)
      × (((h : ℤ) → member h (power_of_two_ticks values) ≡ member h values)
          ↔ All IsPowerOfTwo values)
      × (All IsPowerOfTwo values ⊎ (power_of_two_ticks values ≡ []))
unfolding power_of_two_ticks chosen
power_of_two_ticks_iff values =
    let unique = sort_by leb_ℤ (value_set values) in
    let same : (h : ℤ) → member h unique ≡ member h values =
      λ h. member-sort_by h (value_set values) ∙ member-value_set h values in
    elim (Bool-cases (all_powers unique)) [
      | inl e ↦
          let ticks : chosen unique ≡ unique = chosen-all unique e in
          let all : All IsPowerOfTwo values =
            All-of_member values
              (λ h o. All-at h unique ((all_powers_iff unique).0 e) (same h ∙ o)) in
          (
            subst (IsSorted ltb_ℤ) (sym ticks)
                (sort_by-ascends (value_set values) (value_set-HasNoRepeat values)),
            ((λ h. all), (λ a h. ap (member h) ticks ∙ same h)),
            inl all,
          )
      | inr e ↦
          let ticks : chosen unique ≡ [] = chosen-none unique e in
          let not_all : ¬ All IsPowerOfTwo values = λ all.
            let passed =
              (all_powers_iff unique).1
                (All-of_member unique (λ h o. All-at h values all (sym (same h) ∙ o))) in
            cc in
          (
            subst (IsSorted ltb_ℤ) (sym ticks) tt,
            (
              (λ h.
                  let empty : values ≡ [] =
                    no_member values (λ k. sym (ap (member k) ticks) ∙ h k) in
                  absurd (not_all (subst (All IsPowerOfTwo) (sym empty) tt))),
              (λ all. absurd (not_all all)),
            ),
            inr ticks,
          )
    ]

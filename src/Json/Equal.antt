-- ===== src/Json/Equal.antt =====
-- Python's `==` between JSON values: by value between numbers, a bool among them, and by keys between
-- objects.
use g_halo.Json.{Items, Fields, null, boolean, int, num, str, arr, obj, nil, cons, end, field}
use g_halo.Json.{Json, Fields, find, field, end, boolean, int, num}
use g_halo.Float.{Float}
use g_halo.Prelude.{
  ℕ, Option, ℤ, Bool, ◌⊎◌, ◌+◌, some, inl, if◌then◌else◌, ◌==◌, pos, inr, false, int_eq, none, true,
  ◌&&◌, list_eq, nat_eq,
}

module _ {F : Type 0} ⦃f : Float F⦄ where
  -- a number as an integer or a float
  abbrev pub number_of : Json F → Option (ℤ ⊎ F)
  number_of (boolean b) = some (inl (if b then pos 1 else pos 0))
  number_of (int n) = some (inl n)
  number_of (num x) = some (inr x)
  number_of _ = none

  unfoldable pub same_number : Option (ℤ ⊎ F) → Option (ℤ ⊎ F) → Bool
  same_number (some (inl m)) (some (inl n)) = m == n
  same_number (some (inl m)) (some (inr y)) = f.feq (f.of_int m) y
  same_number (some (inr x)) (some (inl n)) = f.feq x (f.of_int n)
  same_number (some (inr x)) (some (inr y)) = f.feq x y
  same_number _ _ = false

  unfoldable pub field_count : Fields F → ℕ
  field_count end = 0
  field_count (field k v fs) = field_count fs + 1

  unfoldable mutual
    unfolding same_number field_count find

    pub json_eq : Json F → Json F → Bool
    json_eq null null = true
    json_eq (boolean b) w = same_number (number_of (boolean b)) (number_of w)
    json_eq (int n) w = same_number (number_of (int n)) (number_of w)
    json_eq (num x) w = same_number (number_of (num x)) (number_of w)
    json_eq (str s) (str t) = s == t
    json_eq (arr vs) (arr ws) = items_eq vs ws
    json_eq (obj fs) (obj gs) = field_count fs == field_count gs && fields_in fs gs
    json_eq _ _ = false

    pub items_eq : Items F → Items F → Bool
    items_eq nil nil = true
    items_eq (cons v vs) (cons w ws) = json_eq v w && items_eq vs ws
    items_eq _ _ = false

    -- each field of the first is in the second, with an equal value
    pub fields_in : Fields F → Fields F → Bool
    fields_in end gs = true
    fields_in (field k v fs) gs =
        (elim (find k gs) [ none ↦ false | some w ↦ json_eq v w ]) && fields_in fs gs

-- ===== src/Json.antt =====
-- The values that `json.load` returns, an object with different keys, and the conversions that the
-- tools apply to them.
pub mod Show
pub mod Equal
use g_halo.Prelude.{
  Bool, true, false, List, [], ◌∷◌, Option, none, some, ℤ, pos, ◌==◌, nat_eq, list_eq,
  if◌then◌else◌,
}
use g_halo.Result.{Result, ok, err}
use g_halo.Text.{Text}
use g_halo.Text.Number.{int_of_text}
use g_halo.Float.{Float}

-- The built-in exceptions that a conversion, a lookup or the opening of a file raises.
pub data Builtin : Type 0 where
  value_error type_error attribute_error key_error overflow_error os_error index_error : Builtin

mutual
  pub data Json (F : Type 0) : Type 0 where
    null : Json F
    boolean : Bool → Json F
    int : ℤ → Json F
    num : F → Json F
    str : Text → Json F
    arr : Items F → Json F
    obj : Fields F → Json F

  pub data Items (F : Type 0) : Type 0 where
    nil : Items F
    cons : Json F → Items F → Items F

  pub data Fields (F : Type 0) : Type 0 where
    end : Fields F
    field : Text → Json F → Fields F → Fields F

module _ {F : Type 0} where
  unfoldable pub items : Items F → List (Json F)
  items nil = []
  items (cons v vs) = v ∷ items vs

  -- json.load keeps the last value of a repeated key
  unfoldable pub find : Text → Fields F → Option (Json F)
  find k end = none
  find k (field j v fs) = elim (find k fs) [
    | some w ↦ some w
    | none ↦ if j == k then some v else none
  ]

  -- value.get(key)
  unfoldable pub get : Text → Json F → Result Builtin (Option (Json F))
  unfolding find
  get k (obj fs) = ok (find k fs)
  get k _ = err Builtin.attribute_error

  -- value.get(key, default)
  unfoldable pub get_or : Json F → Text → Json F → Result Builtin (Json F)
  unfolding find
  get_or default k (obj fs) = elim (find k fs) [ some v ↦ ok v | none ↦ ok default ]
  get_or default k _ = err Builtin.attribute_error

  -- isinstance(value, list), with its elements
  unfoldable pub as_list : Json F → Option (List (Json F))
  unfolding items
  as_list (arr vs) = some (items vs)
  as_list _ = none

module _ {F : Type 0} ⦃f : Float F⦄ where
  -- int(value)
  unfoldable pub to_int : Json F → Result Builtin ℤ
  to_int (boolean true) = ok (pos 1)
  to_int (boolean false) = ok (pos 0)
  to_int (int n) = ok n
  to_int (num x) = elim (f.trunc x) [ some n ↦ ok n | none ↦ err Builtin.overflow_error ]
  to_int (str t) = elim (int_of_text t) [ some n ↦ ok n | none ↦ err Builtin.value_error ]
  to_int _ = err Builtin.type_error

  -- float(value)
  unfoldable pub to_float : Json F → Result Builtin F
  to_float (boolean true) = ok (f.of_int (pos 1))
  to_float (boolean false) = ok (f.of_int (pos 0))
  to_float (int n) = ok (f.of_int n)
  to_float (num x) = ok x
  to_float (str t) = elim (f.of_text t) [ some x ↦ ok x | none ↦ err Builtin.value_error ]
  to_float _ = err Builtin.type_error

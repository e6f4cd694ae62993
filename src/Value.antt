-- ===== src/Value.antt =====
-- The Python values that events, contexts and guards hold, with the comparisons of the `operator`
-- module that definition guards use. A float is its 64-bit pattern; what Python's floats compute is
-- a parameter (`Floats`), and so is `repr`. Dictionaries compare without regard to order.
use Prim.Native.Nat.{Ordering}
use Prim.Native.String.{compare}
use text.Mathlib.Text.{find?}
use harel.Prelude.{
  ℕ, suc, String, Bool, true, false, ◌&&◌, ◌||◌, Option, none, some, List, [], ◌∷◌, eqb, is_some,
  if◌then◌else◌, ◌==◌, ◌^^◌, show,
}
use harel.Prelude.Int.{ℤ, pos, negsuc, eqb_ℤ, ltb_ℤ, leb_ℤ}
use harel.Prelude.Dict.{Dict}

mutual
  pub data Value : Type 0 where
    null : Value
    bool : Bool → Value
    int : ℤ → Value
    float : ℕ → Value
    str : String → Value
    seq : Items → Value
    dict : Fields → Value

  pub data Items : Type 0 where
    nil : Items
    cons : Value → Items → Items

  pub data Fields : Type 0 where
    end : Fields
    field : String → Value → Fields → Fields

-- The orders of `operator`: `lt`, `le`, `ge`, `gt`.
pub data Order : Type 0 where
  lt le ge gt : Order

-- The arithmetic of an assignment: `+ - * /`.
pub data ArithOp : Type 0 where
  add sub mul div : ArithOp

-- What Python does with floats: comparisons of two numbers of which one is a float at least, their
-- arithmetic and true division (`none`: Python raises OverflowError), and `str` of a value that is
-- no text, number, boolean or None.
pub record Floats : Type 0 where
  pub float_eq : Value → Value → Bool
  pub float_order : Order → Value → Value → Bool
  pub float_arith : ArithOp → Value → Value → Option Value
  pub repr : Value → String

-- A boolean is an `int` in Python.
abbrev pub as_int : Value → Option ℤ
as_int (bool true) = some (pos 1)
as_int (bool false) = some (pos 0)
as_int (int i) = some i
as_int _ = none

abbrev is_float : Value → Bool
is_float (float x) = true
is_float _ = false

abbrev pub is_num : Value → Bool
is_num v = is_some (as_int v) || is_float v

abbrev pub to_fields : Dict Value → Fields
to_fields [] = end
to_fields ((k, v) ∷ d) = field k v (to_fields d)

abbrev pub of_fields : Fields → Dict Value
of_fields end = []
of_fields (field k v d) = (k, v) ∷ of_fields d

abbrev pub to_items : List Value → Items
to_items [] = nil
to_items (v ∷ vs) = cons v (to_items vs)

abbrev pub of_items : Items → List Value
of_items nil = []
of_items (cons v vs) = v ∷ of_items vs

field_of : String → Fields → Option Value
field_of k end = none
field_of k (field j v d) = if j == k then some v else field_of k d

size : Fields → ℕ
size end = 0
size (field k v d) = suc (size d)

abbrev holds : Order → Ordering → Bool
holds lt Ordering.lt = true
holds lt _ = false
holds le Ordering.gt = false
holds le _ = true
holds ge Ordering.lt = false
holds ge _ = true
holds gt Ordering.gt = true
holds gt _ = false

order_ℤ : Order → ℤ → ℤ → Bool
order_ℤ lt i j = ltb_ℤ i j
order_ℤ le i j = leb_ℤ i j
order_ℤ ge i j = leb_ℤ j i
order_ℤ gt i j = ltb_ℤ j i

module _ (fl : Floats) where
  num_eq : Value → Value → Bool
  num_eq a b = elim (as_int a) [
    | none ↦ fl.float_eq a b
    | some i ↦ elim (as_int b) [ none ↦ fl.float_eq a b | some j ↦ eqb_ℤ i j ]
  ]

  num_order : Order → Value → Value → Bool
  unfolding order_ℤ
  num_order o a b = elim (as_int a) [
    | none ↦ fl.float_order o a b
    | some i ↦ elim (as_int b) [ none ↦ fl.float_order o a b | some j ↦ order_ℤ o i j ]
  ]

  -- `a == b`
  unfoldable mutual
    unfolding num_eq field_of size

    pub value_eq : Value → Value → Bool
    value_eq null null = true
    value_eq (str s) (str t) = s == t
    value_eq (seq xs) (seq ys) = items_eq xs ys
    value_eq (dict d) (dict e) = eqb (size d) (size e) && fields_eq d e
    value_eq a b = is_num a && is_num b && num_eq a b

    pub items_eq : Items → Items → Bool
    items_eq nil nil = true
    items_eq (cons x xs) (cons y ys) = value_eq x y && items_eq xs ys
    items_eq xs ys = false

    pub fields_eq : Fields → Fields → Bool
    fields_eq end e = true
    fields_eq (field k v d) e = elim (field_of k e) [
      | none ↦ false
      | some w ↦ value_eq v w && fields_eq d e
    ]

  -- `a < b` and its like; `none`: Python raises TypeError
  unfoldable mutual
    unfolding num_order value_eq

    pub value_order : Order → Value → Value → Option Bool
    value_order o (str s) (str t) = some (holds o (compare s t))
    value_order o (seq xs) (seq ys) = items_order o xs ys
    value_order o a b = if is_num a && is_num b then some (num_order o a b) else none

    pub items_order : Order → Items → Items → Option Bool
    items_order o nil nil = some (holds o Ordering.eq)
    items_order o nil (cons y ys) = some (holds o Ordering.lt)
    items_order o (cons x xs) nil = some (holds o Ordering.gt)
    items_order o (cons x xs) (cons y ys) =
        if value_eq x y then items_order o xs ys else value_order o x y

  -- any(x == v for x in items)
  items_have : Value → Items → Bool
  unfolding value_eq
  items_have v nil = false
  items_have v (cons x xs) = value_eq x v || items_have v xs

  -- `a in b`; a list or a dictionary is no dictionary key (TypeError)
  unfoldable pub value_in : Value → Value → Option Bool
  unfolding items_have field_of
  value_in (str s) (str t) = some (is_some (find? t s))
  value_in a (seq xs) = some (items_have a xs)
  value_in (seq xs) (dict d) = none
  value_in (dict e) (dict d) = none
  value_in (str s) (dict d) = some (is_some (field_of s d))
  value_in a (dict d) = some false
  value_in a b = none

  -- `str(v)`
  unfoldable pub to_str : Value → String
  to_str null = "None"
  to_str (bool true) = "True"
  to_str (bool false) = "False"
  to_str (int (pos n)) = show n
  to_str (int (negsuc n)) = "-" ^^ show (suc n)
  to_str (str s) = s
  to_str v = fl.repr v

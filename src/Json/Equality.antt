-- ===== src/Json/Equality.antt =====
-- Python's `==` on decoded JSON: a bool equals the number that it stands for, and two dicts are
-- equal if they have the same keys with equal values, in whatever order.
use simple_claude_code_githu.Prelude.{Bool, true, false, ◌&&◌, ◌||◌, none, some, str_eq, ◌==◌}
use simple_claude_code_githu.Json.{
  Json, null, bool, num, str, arr, obj, Items, nil, cons, Fields, end, field, lookup, size, int_of,
}

abbrev same_scalar : Json → Json → Bool
same_scalar null null = true
same_scalar (bool b) (bool c) = int_of b == int_of c
same_scalar (bool b) (num n) = int_of b == n
same_scalar (num m) (bool c) = m == int_of c
same_scalar (num m) (num n) = m == n
same_scalar (str s) (str t) = str_eq s t
same_scalar _ _ = false

unfoldable mutual
  pub py_eq : Json → Json → Bool
  py_eq (arr xs) (arr ys) = same_items xs ys
  py_eq (obj fs) (obj gs) = (size fs == size gs) && same_fields fs gs
  py_eq (arr xs) b = false
  py_eq (obj fs) b = false
  py_eq null b = same_scalar null b
  py_eq (bool x) b = same_scalar (bool x) b
  py_eq (num n) b = same_scalar (num n) b
  py_eq (str s) b = same_scalar (str s) b

  pub same_items : Items → Items → Bool
  same_items nil nil = true
  same_items (cons x xs) (cons y ys) = py_eq x y && same_items xs ys
  same_items _ _ = false

  pub same_fields : Fields → Fields → Bool
  same_fields end gs = true
  same_fields (field k v fs) gs = elim (lookup k gs) [
    | none ↦ false
    | some w ↦ py_eq v w && same_fields fs gs
  ]

-- `x in xs`
pub py_in : Json → Items → Bool
unfolding py_eq
py_in x nil = false
py_in x (cons y ys) = py_eq x y || py_in x ys

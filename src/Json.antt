-- ===== src/Json.antt =====
-- The values that `json.loads` gives and `json.dumps` takes, with Python's tests on them. The
-- program's payloads, job data and filters are such values. A number is a natural number: ids,
-- issue numbers, counts and clock readings. A `dict` keeps its entries in insertion order.
pub mod Equality
use simple_claude_code_githu.Prelude.{
  ℕ, suc, ◌+◌, String, ◌≡◌, refl, Bool, true, false, ◌&&◌, ◌||◌, Option, none, some, List, [], ◌∷◌,
  arith, str_eq, eq_iff, if◌then◌else◌, ◌==◌,
}

mutual
  pub data Json : Type 0 where
    null : Json
    bool : Bool → Json
    num : ℕ → Json
    str : String → Json
    arr : Items → Json
    obj : Fields → Json

  pub data Items : Type 0 where
    nil : Items
    cons : Json → Items → Items

  pub data Fields : Type 0 where
    end : Fields
    field : String → Json → Fields → Fields

-- `d.get(k)`
unfoldable pub lookup : String → Fields → Option Json
lookup k end = none
lookup k (field j v fs) = if str_eq j k then some v else lookup k fs

-- `d[k] = v`: in place for a key that is there, else at the end
unfoldable pub assign : String → Json → Fields → Fields
assign k v end = field k v end
assign k v (field j w fs) = if str_eq j k then field j v fs else field j w (assign k v fs)

-- `d.pop(k, None)`, without the value that it returns
unfoldable pub pop : String → Fields → Fields
pop k end = end
pop k (field j w fs) = let rest = pop k fs in if str_eq j k then rest else field j w rest

-- `len(d)`
pub size : Fields → ℕ
size end = 0
size (field j w fs) = suc (size fs)

pub lookup-assign :
    (k j : String) (v : Json) (fs : Fields)
    → lookup j (assign k v fs) ≡ (if str_eq k j then some v else lookup j fs)
unfolding lookup assign
lookup-assign k j v end = refl
lookup-assign k j v (field i w fs) =
    ground (arith, eq_iff k j, eq_iff i k, eq_iff i j, lookup-assign k j v fs)

pub lookup-pop :
    (k j : String) (fs : Fields) → lookup j (pop k fs) ≡ (if str_eq k j then none else lookup j fs)
unfolding lookup pop
lookup-pop k j end = ground arith
lookup-pop k j (field i w fs) =
    ground (arith, eq_iff k j, eq_iff i k, eq_iff i j, lookup-pop k j fs)

-- `bool(x)`
unfoldable pub truthy : Json → Bool
truthy null = false
truthy (bool b) = b
truthy (num n) = if n == 0 then false else true
truthy (str s) = if str_eq s "" then false else true
truthy (arr nil) = false
truthy (arr (cons x xs)) = true
truthy (obj end) = false
truthy (obj (field k v fs)) = true

-- `int(b)`: Python compares a bool with a number by it
abbrev pub int_of : Bool → ℕ
int_of true = 1
int_of false = 0

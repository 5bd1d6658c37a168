-- ===== src/Prelude/Text.antt =====
-- Text as the program uses it: equality tests, membership in lists of texts, and a test by which
-- two key prefixes can never give the same key.
use Prim.Native.Nat.{compare, Ordering}
use Prim.Native.Char.{code}
use Prim.Native.String.{String, [], ◌∷◌, ◌++◌}
use mathlib.Core.Path.{◌≡◌, refl, sym, ap, ◌∙◌}
use mathlib.Core.Logic.{◌≢◌, ◌⊎◌, inl, inr}
use mathlib.Core.Bool.{Bool, true, false, ◌||◌}
use mathlib.Core.List.{List, ◌++◌ as append}
use native.Mathlib.Omega.{arith}
use text.Mathlib.Text.{◌==◌ as str_eq}
use text.Mathlib.TextEquality.{eq_iff}
use simple_claude_code_githu.Prelude.{Bool-cases}
use text.Mathlib.TextLemmas.{cons-append, cons-eq-cons, append_cancel_left, append_cancel_right}

pub str_ne : (s t : String) → s ≢ t → str_eq s t ≡ false
str_ne s t h = ground (arith, eq_iff s t)

pub str_eq-sym : (s t : String) → str_eq s t ≡ str_eq t s
str_eq-sym s t = ground (arith, eq_iff s t, eq_iff t s)

-- `x in xs` for texts
unfoldable pub str_elem : String → List String → Bool
str_elem k List.[] = false
str_elem k (List.◌∷◌ x xs) = str_eq x k || str_elem k xs

pub str_elem-append :
    (x : String) (xs ys : List String) → str_elem x (append xs ys) ≡ str_elem x xs || str_elem x ys
unfolding str_elem
str_elem-append x List.[] ys = refl
str_elem-append x (List.◌∷◌ z xs) ys = elim (Bool-cases (str_eq z x)) [
  | inl e ↦ rw e refl
  | inr e ↦ rw e (str_elem-append x xs ys)
]

pub or_false : (a b : Bool) → a || b ≡ false → (a ≡ false) × (b ≡ false)
or_false true b e = cc
or_false false b e = (refl, e)

pub or_comm : (a b : Bool) → a || b ≡ b || a
or_comm true true = refl
or_comm true false = refl
or_comm false true = refl
or_comm false false = refl

pub or_true : (a b : Bool) → a || b ≡ true → (a ≡ true) ⊎ (b ≡ true)
or_true true b e = inl refl
or_true false b e = inr e

-- The two texts differ at a place that both have.
unfoldable pub clash : String → String → Bool
clash [] q = false
clash (c ∷ p) [] = false
clash (c ∷ p) (d ∷ q) = elim (compare (code c) (code d)) [ Ordering.eq ↦ clash p q | _ ↦ true ]

-- Whatever follows them, texts that clash stay different.
clash-ne : (p q s t : String) → clash p q ≡ true → p ++ s ≢ q ++ t
unfolding clash
clash-ne [] q s t h e = cc
clash-ne (c ∷ p) [] s t h e = cc
clash-ne (c ∷ p) (d ∷ q) s t h e = ground (arith, clash-ne p q s t, ap code parts.0, parts.1)
  where
    parts : (c ≡ d) × (p ++ s ≡ q ++ t)
    parts = cons-eq-cons.0 (sym (cons-append c p s) ∙ e ∙ cons-append d q t)

pub clash-str_eq : (p q s t : String) → clash p q ≡ true → str_eq (p ++ s) (q ++ t) ≡ false
clash-str_eq p q s t h = str_ne (p ++ s) (q ++ t) (clash-ne p q s t h)

-- A common prefix, or a common suffix, does not matter to equality.
pub str_eq_prefix : (p s t : String) → str_eq (p ++ s) (p ++ t) ≡ str_eq s t
str_eq_prefix p s t = ground (
  arith,
  eq_iff (p ++ s) (p ++ t),
  eq_iff s t,
  append_cancel_left p s t,
  ap (◌++◌ p) {x = s} {y = t},
)

pub str_eq_suffix : (p s t : String) → str_eq (s ++ p) (t ++ p) ≡ str_eq s t
str_eq_suffix p s t =
    ground (arith, eq_iff (s ++ p) (t ++ p), eq_iff s t, append_cancel_right s t p)

-- ===== src/Prelude/Lines.antt =====
-- Lines of a text, and Python's slices and joins of them.
use Prim.Native.Char.{Char, code}
use Prim.Native.String.{◌++◌}
use simple_claude_code_githu.Prelude.{
  ℕ, zero, suc, ◌-◌, String, Bool, true, ◌&&◌, ◌||◌, false, List, [], ◌∷◌, ◌==◌, leb, if◌then◌else◌,
  take,
}

abbrev pub drop {ℓ} : {A : Type ℓ} → ℕ → List A → List A
drop zero xs = xs
drop (suc n) [] = []
drop (suc n) (x ∷ xs) = drop n xs

-- `xs[a:b]` of bounds that are not negative
abbrev pub slice {ℓ} : {A : Type ℓ} → ℕ → ℕ → List A → List A
slice a b xs = take (b - a) (drop a xs)

-- `"\n".join(lines)`
pub join_lines : List String → String
join_lines [] = ""
join_lines (l ∷ []) = l
join_lines (l ∷ m ∷ ls) = l ++ ("\n" ++ join_lines (m ∷ ls))

-- the characters at which `str.splitlines` ends a line, and those that `str.strip` removes
pub ends_line : ℕ → Bool
ends_line c =
    (leb 10 c && leb c 13) || (leb 28 c && leb c 30) || (c == 133) || (c == 8232) || (c == 8233)

unfoldable pub is_space : ℕ → Bool
is_space c =
    (leb 9 c && leb c 13)
    || (leb 28 c && leb c 32)
    || (c == 133)
    || (c == 160)
    || (c == 5760)
    || (leb 8192 c && leb c 8202)
    || (c == 8232)
    || (c == 8233)
    || (c == 8239)
    || (c == 8287)
    || (c == 12288)

-- `not s.strip()`
unfoldable pub is_blank : String → Bool
unfolding is_space
is_blank String.[] = true
is_blank (String.◌∷◌ c s) = is_space (code c) && is_blank s

abbrev onto_line : Char → List String → List String
onto_line c [] = String.◌∷◌ c "" ∷ []
onto_line c (l ∷ ls) = String.◌∷◌ c l ∷ ls

abbrev opens_with_newline : String → Bool
opens_with_newline String.[] = false
opens_with_newline (String.◌∷◌ c s) = code c == 10

-- `s.splitlines()`: "\r\n" is one end of a line, and a text that ends with one has no further line.
unfoldable pub splitlines : String → List String
unfolding ends_line
splitlines String.[] = []
splitlines (String.◌∷◌ c s) =
    let rest = splitlines s in
    if (code c == 13) && opens_with_newline s
    then rest
    else if ends_line (code c)
    then "" ∷ rest
    else onto_line c rest

-- `s.strip()`
unfoldable pub strip_left : String → String
unfolding is_space
strip_left String.[] = ""
strip_left (String.◌∷◌ c s) =
    let rest = strip_left s in if is_space (code c) then rest else String.◌∷◌ c s

abbrev pub ended : Char → String → String
unfolding is_space
ended c String.[] = if is_space (code c) then "" else String.◌∷◌ c ""
ended c (String.◌∷◌ d s) = String.◌∷◌ c (String.◌∷◌ d s)

unfoldable pub strip_right : String → String
unfolding is_space
strip_right String.[] = ""
strip_right (String.◌∷◌ c s) = ended c (strip_right s)

unfoldable pub strip : String → String
unfolding strip_left strip_right
strip s = strip_right (strip_left s)

-- `separator.join(texts)`
abbrev pub join : String → List String → String
join separator [] = ""
join separator (x ∷ []) = x
join separator (x ∷ y ∷ xs) = x ++ (separator ++ join separator (y ∷ xs))

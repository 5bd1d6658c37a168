-- ===== src/Workflows/Names.antt =====
-- `_validate_workflow_names` of workflows/engine.py: the pattern, the length and the reserved names.
use Prim.Native.Char.{Char, code}
use simple_claude_code_githu.Prelude.{
  ℕ, suc, ◌≤◌, String, ◌≡◌, ◌↔◌, refl, inl, inr, Bool, true, false, not, ◌&&◌, ◌||◌, Option, none,
  some, List, [], ◌∷◌, All, arith, ltb, leb, if◌then◌else◌, ◌==◌, Bool-cases, Option-cases,
}
use simple_claude_code_githu.Prelude.Text.{str_elem}

-- `[a-z0-9]`
pub is_alnum : ℕ → Bool
is_alnum c = leb b'a' c && leb c b'z' || leb b'0' c && leb c b'9'

abbrev is_nil : String → Bool
is_nil String.[] = true
is_nil (String.◌∷◌ c s) = false

-- `re.match(r"^[a-z0-9]+(-[a-z0-9]+)*$", name)`, by the two states of its automaton: within a word,
-- and where a word must begin. `$` also matches before a newline that ends the text.
matches_from : Bool → String → Bool
unfolding is_alnum
matches_from within String.[] = within
matches_from within (String.◌∷◌ c rest) =
    let word = matches_from true rest in
    let hyphen = within && matches_from false rest in
    if is_alnum (code c)
    then word
    else if code c == b'-'
    then hyphen
    else within && (code c == 10) && is_nil rest

-- `len(name)`
pub char_count : String → ℕ
char_count String.[] = 0
char_count (String.◌∷◌ c rest) = suc (char_count rest)

-- The `ValueError`s, by what they say.
pub data NameError : Type 0 where
  invalid too_long reserved : NameError

abbrev reserved_names : List String
reserved_names = "test" ∷ "debug" ∷ "admin" ∷ "system" ∷ []

unfoldable pub check_name : String → Option NameError
unfolding matches_from char_count str_elem
check_name name =
    if not (matches_from false name)
    then some invalid
    else if ltb 50 (char_count name)
    then some too_long
    else if str_elem name reserved_names
    then some reserved
    else none

-- The first name that is refused, and why; `none` where all pass.
pub validate_workflow_names : List String → Option (String × NameError)
validate_workflow_names [] = none
validate_workflow_names (name ∷ names) = elim (check_name name) [
  | some e ↦ some (name, e)
  | none ↦ validate_workflow_names names
]

-- What may follow a letter or digit of a name: letters and digits, and single hyphens between them;
-- a newline may end it.
pub data Continues : String → Type 0 where
  done : Continues String.[]
  newline : (c : Char) → code c ≡ 10 → Continues (String.◌∷◌ c String.[])
  letter :
      {rest : String} (c : Char)
      → is_alnum (code c) ≡ true
      → Continues rest
      → Continues (String.◌∷◌ c rest)
  hyphen :
      {rest : String} (h c : Char)
      → code h ≡ b'-'
      → is_alnum (code c) ≡ true
      → Continues rest
      → Continues (String.◌∷◌ h (String.◌∷◌ c rest))

pub data IsName : String → Type 0 where
  name :
      {rest : String} (c : Char)
      → is_alnum (code c) ≡ true
      → Continues rest
      → IsName (String.◌∷◌ c rest)

Continues-matches : {s : String} → Continues s → matches_from true s ≡ true
unfolding matches_from
Continues-matches done = refl
Continues-matches (newline c e) = ground arith
Continues-matches (letter c a r) = ground (arith, Continues-matches r)
Continues-matches (hyphen h c e a r) = ground (arith, Continues-matches r)

IsName-matches : {s : String} → IsName s → matches_from false s ≡ true
unfolding matches_from
IsName-matches (name c a r) = ground (arith, Continues-matches r)

matches-Continues : (s : String) → matches_from true s ≡ true → Continues s
unfolding matches_from
matches-Continues String.[] e = done
matches-Continues (String.◌∷◌ c String.[]) e = elim (Bool-cases (is_alnum (code c))) [
  | inl a ↦ letter c a done
  | inr other ↦ newline c (ground arith)
]
matches-Continues (String.◌∷◌ c (String.◌∷◌ d rest)) e = elim (Bool-cases (is_alnum (code c))) [
  | inl a ↦ letter c a (matches-Continues (String.◌∷◌ d rest) (ground arith))
  | inr other ↦ hyphen c d (ground arith) (ground arith) (matches-Continues rest (ground arith))
]

matches-IsName : (s : String) → matches_from false s ≡ true → IsName s
unfolding matches_from
matches-IsName String.[] e = cc
matches-IsName (String.◌∷◌ c rest) e = name c (ground arith) (matches-Continues rest (ground arith))

-- What the validation promises of a name.
pub record IsValid (s : String) : Type 0 where
  pub well_formed : IsName s
  pub short : char_count s ≤ 50
  pub free : str_elem s reserved_names ≡ false

check_name-IsValid : (s : String) → check_name s ≡ none → IsValid s
unfolding check_name
check_name-IsValid s e = record {
  well_formed = matches-IsName s (ground arith);
  short = ground arith;
  free = ground arith;
}

IsValid-check_name : (s : String) → IsValid s → check_name s ≡ none
unfolding check_name
IsValid-check_name s v = ground (arith, IsName-matches v.well_formed, v.short, v.free)

-- The validation passes exactly when every name is made of words of lowercase letters and digits
-- with single hyphens between them, possibly with a newline at its end, has 50 characters at most
-- and is none of the reserved names.
pub validate_workflow_names_iff :
    (names : List String) → (validate_workflow_names names ≡ none) ↔ All IsValid names
unfolding validate_workflow_names
validate_workflow_names_iff [] = (λ e. tt, λ a. refl)
validate_workflow_names_iff (s ∷ names) = (
  λ e. elim (Option-cases (check_name s)) [
    | inl passed ↦ (
      check_name-IsValid s passed,
      (validate_workflow_names_iff names).0 (rw (passed, validate_workflow_names) at e),
    )
    | inr (x, failed) ↦ cc (rw (failed, validate_workflow_names) at e)
  ],
  λ a.
      rw (IsValid-check_name s a.0, validate_workflow_names)
        ((validate_workflow_names_iff names).1 a.1),
)

-- ===== src/CodeGraph/Diff/Hunks.antt =====
-- The hunks of a file as `git diff --unified=0` writes them, and the ranges that the parser reads.
use Prim.Native.String.{◌++◌ as str_append}
use simple_claude_code_githu.Prelude.{
  ℕ, ◌+◌, String, ◌≡◌, refl, ap, ◌∙◌, inl, inr, true, Option, none, some, List, [], ◌∷◌, ◌++◌, map,
  arith, ◌==◌, if◌then◌else◌, All, Bool-cases,
}
use simple_claude_code_githu.RepoSetup.{starts_with}
use simple_claude_code_githu.Webhook.{decimal}
use simple_claude_code_githu.CodeGraph.Diff.{
  Range, strip_prefix, more_digits, optional_count, or_one, hunk_range,
}
use simple_claude_code_githu.CodeGraph.Diff.Numbers.{EndsNumber, number-decimal}
use simple_claude_code_githu.CodeGraph.Diff.Blocks.{prefixed, IsHeader, NamesNoFile, hunks, hunk_of}

-- The numbers in the header of a hunk, what stands behind them, and the lines of the hunk.
pub record Hunk : Type 0 where
  pub old_start : ℕ
  pub old_count : ℕ
  pub new_start : ℕ
  pub new_count : ℕ
  pub section : String
  pub lines : List String

-- a count before some text; git leaves out the count 1
count_text : ℕ → String → String
count_text count rest = if count == 1 then rest else prefixed "," (str_append (decimal count) rest)

unfoldable pub hunk_line : Hunk → String
unfolding prefixed count_text
hunk_line h = prefixed "@@ -" (
    str_append (decimal h.old_start) (
      count_text h.old_count (
        prefixed " +"
          (str_append (decimal h.new_start) (count_text h.new_count (prefixed " @@" h.section))))))

-- The lines of the new file that a hunk is about.
unfoldable pub range_of : Hunk → Range
range_of h = record { first = h.new_start; after = h.new_start + h.new_count }

-- a count, where it is written
count_of : ℕ → Option ℕ
count_of count = if count == 1 then none else some count

or_one-count_of : (count : ℕ) → or_one (count_of count) ≡ count
unfolding count_of
or_one-count_of count = ground arith

count_text-EndsNumber :
    (count : ℕ) (rest : String) → EndsNumber rest → EndsNumber (count_text count rest)
unfolding count_text more_digits prefixed
count_text-EndsNumber count rest stop a = elim (Bool-cases (count == 1)) [
  | inl e ↦ rw e (stop a)
  | inr e ↦ rw e refl
]

optional_count-count_text :
    (count : ℕ) (rest : String)
    → EndsNumber rest
    → strip_prefix "," rest ≡ none
    → optional_count (count_text count rest) ≡ (count_of count, rest)
unfolding optional_count count_text count_of strip_prefix prefixed
optional_count-count_text count rest stop plain = elim (Bool-cases (count == 1)) [
  | inl e ↦ rw (e, plain) refl
  | inr e ↦ rw (e, number-decimal count rest stop) refl
]

-- The text behind the numbers of the old file.
new_part : Hunk → String
unfolding prefixed count_text
new_part h =
    prefixed " +"
      (str_append (decimal h.new_start) (count_text h.new_count (prefixed " @@" h.section)))

closing-EndsNumber : (section : String) → EndsNumber (prefixed " @@" section)
unfolding more_digits prefixed
closing-EndsNumber section a = refl

new_part-EndsNumber : (h : Hunk) → EndsNumber (new_part h)
unfolding more_digits new_part
new_part-EndsNumber h a = refl

closing_plain : (section : String) → strip_prefix "," (prefixed " @@" section) ≡ none
unfolding strip_prefix prefixed
closing_plain section = refl

new_part_plain : (h : Hunk) → strip_prefix "," (new_part h) ≡ none
unfolding strip_prefix new_part
new_part_plain h = refl

-- The parser reads the header of a hunk as the range that git means by it.
pub hunk_range-hunk_line : (h : Hunk) → hunk_range (hunk_line h) ≡ some (range_of h)
unfolding hunk_range hunk_line range_of strip_prefix new_part prefixed
hunk_range-hunk_line h =
    let closing = prefixed " @@" h.section in
    let stop = closing-EndsNumber h.section in
    rw
      (
        number-decimal h.old_start (count_text h.old_count (new_part h))
            (count_text-EndsNumber h.old_count (new_part h) (new_part-EndsNumber h)),
        optional_count-count_text h.old_count (new_part h) (new_part-EndsNumber h)
            (new_part_plain h),
        number-decimal h.new_start (count_text h.new_count closing)
            (count_text-EndsNumber h.new_count closing stop),
        optional_count-count_text h.new_count closing stop (closing_plain h.section),
        or_one-count_of h.new_count,
      )
      refl

-- The lines of some hunks.
unfoldable pub hunk_lines : List Hunk → List String
hunk_lines [] = []
hunk_lines (h ∷ hs) = hunk_line h ∷ (h.lines ++ hunk_lines hs)

-- No line below the header of the hunk looks like the name of a file or like such a header.
unfoldable pub IsHunk : Hunk → Type 0
IsHunk h = All IsHeader h.lines

hunks-append : (xs ys : List String) → All IsHeader xs → hunks (xs ++ ys) ≡ hunks ys
unfolding hunks hunk_of IsHeader
hunks-append [] ys all = refl
hunks-append (x ∷ xs) ys ((names, quiet), all) = rw quiet (hunks-append xs ys all)

hunk_line_starts : (h : Hunk) → starts_with "@@" (hunk_line h) ≡ true
unfolding starts_with hunk_line prefixed
hunk_line_starts h = refl

hunk_of-hunk_line : (h : Hunk) → hunk_of (hunk_line h) ≡ range_of h ∷ []
unfolding hunk_of
hunk_of-hunk_line h = rw (hunk_line_starts h, hunk_range-hunk_line h) refl

-- The ranges of written hunks are those of the hunks, in order.
pub hunks-hunk_lines : (hs : List Hunk) → All IsHunk hs → hunks (hunk_lines hs) ≡ map range_of hs
unfolding hunks hunk_lines IsHunk
hunks-hunk_lines [] all = refl
hunks-hunk_lines (h ∷ hs) (here, all) = rw (hunk_of-hunk_line h) (
    ap (λ rs. range_of h ∷ rs)
      (hunks-append h.lines (hunk_lines hs) here ∙ hunks-hunk_lines hs all))

hunk_line-NamesNoFile : (h : Hunk) → NamesNoFile (hunk_line h)
unfolding NamesNoFile starts_with hunk_line prefixed
hunk_line-NamesNoFile h = (refl, refl)

names_append :
    (xs ys : List String) → All IsHeader xs → All NamesNoFile ys → All NamesNoFile (xs ++ ys)
unfolding IsHeader
names_append [] ys all rest = rest
names_append (x ∷ xs) ys ((names, quiet), all) rest = (names, names_append xs ys all rest)

pub hunk_lines-NamesNoFile : (hs : List Hunk) → All IsHunk hs → All NamesNoFile (hunk_lines hs)
unfolding hunk_lines IsHunk
hunk_lines-NamesNoFile [] all = tt
hunk_lines-NamesNoFile (h ∷ hs) (here, all) = (
  hunk_line-NamesNoFile h,
  names_append h.lines (hunk_lines hs) here (hunk_lines-NamesNoFile hs all),
)

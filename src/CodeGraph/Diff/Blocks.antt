-- ===== src/CodeGraph/Diff/Blocks.antt =====
-- The parser of diffs against the files that a diff is made of.
use mathlib.Core.List.{append_assoc, append-nil}
use simple_claude_code_githu.Prelude.{
  String, ◌≡◌, refl, sym, ap, ◌∙◌, inl, inr, true, false, Option, none, some, List, [], ◌∷◌, ◌++◌,
  if◌then◌else◌, All, Bool-cases,
}
use simple_claude_code_githu.RepoSetup.{starts_with}
use simple_claude_code_githu.CodeGraph.Diff.{
  Range, DiffState, chars_from, hunk_range, is_set, flush, stale_source, read_line, add_range,
  at_source, at_destination, at_hunk, read_lines,
}

-- A file that was changed, and renamed if the two names differ: the lines of git's header, and those
-- after the names.
pub record FileDiff : Type 0 where
  pub header : List String
  pub old : String
  pub new : String
  pub body : List String

-- a text with another one before it, character by character
unfoldable pub prefixed : String → String → String
prefixed String.[] s = s
prefixed (String.◌∷◌ c p) s = String.◌∷◌ c (prefixed p s)

unfoldable pub source_line : String → String
unfolding prefixed
source_line name = prefixed "--- a/" name

unfoldable pub destination_line : String → String
unfolding prefixed
destination_line name = prefixed "+++ b/" name

unfoldable pub lines_of : FileDiff → List String
unfolding source_line destination_line
lines_of d = d.header ++ source_line d.old ∷ destination_line d.new ∷ d.body

unfoldable pub diff_lines : List FileDiff → List String
unfolding lines_of
diff_lines [] = []
diff_lines (d ∷ ds) = lines_of d ++ diff_lines ds

-- Lines that do not look like the name of a file.
unfoldable pub NamesNoFile : String → Type 0
NamesNoFile line = (starts_with "--- a/" line ≡ false) × (starts_with "+++ b/" line ≡ false)

-- Lines of a header, which do not look like the start of a hunk, either.
unfoldable pub IsHeader : String → Type 0
IsHeader line = NamesNoFile line × (starts_with "@@" line ≡ false)

unfoldable pub IsFileDiff : FileDiff → Type 0
IsFileDiff d = All IsHeader d.header × (All NamesNoFile d.body × (is_set (some d.new) ≡ true))

-- the ranges of the hunks among some lines
abbrev pub range_list : Option Range → List Range
range_list none = []
range_list (some r) = r ∷ []

unfoldable pub hunk_of : String → List Range
hunk_of line = if starts_with "@@" line then range_list (hunk_range line) else []

unfoldable pub hunks : List String → List Range
hunks [] = []
hunks (line ∷ lines) = hunk_of line ++ hunks lines

pub read-source_line :
    (name : String) (s : DiffState)
    → read_line (source_line name) s ≡ record (flush s) { current_src_file = some name }
unfolding read_line starts_with source_line at_source chars_from prefixed
read-source_line name s = refl

pub read-destination_line :
    (name : String) (s : DiffState)
    → read_line (destination_line name) s ≡ record s {
      current_dst_file = some name;
      stale_files = s.stale_files ++ stale_source s.current_src_file name;
      current_src_file = none;
    }
unfolding read_line starts_with destination_line at_destination chars_from prefixed
read-destination_line name s = refl

read-header : (line : String) (s : DiffState) → IsHeader line → read_line line s ≡ s
unfolding read_line IsHeader NamesNoFile
read-header line s ((source, destination), hunk) = rw (source, destination, hunk) refl

pub read_lines-append :
    (xs ys : List String) (s : DiffState)
    → read_lines (xs ++ ys) s ≡ read_lines ys (read_lines xs s)
unfolding read_lines
read_lines-append [] ys s = refl
read_lines-append (x ∷ xs) ys s = read_lines-append xs ys (read_line x s)

pub read_lines-header :
    (lines : List String) (s : DiffState) → All IsHeader lines → read_lines lines s ≡ s
unfolding read_lines
read_lines-header [] s all = refl
read_lines-header (line ∷ lines) s (here, all) =
    ap (read_lines lines) (read-header line s here) ∙ read_lines-header lines s all

add_range-list :
    (found : Option Range) (ranges : List Range)
    → add_range found ranges ≡ ranges ++ range_list found
add_range-list none ranges = sym (append-nil ranges)
add_range-list (some r) ranges = refl

read-body :
    (line : String) (s : DiffState)
    → NamesNoFile line
    → is_set s.current_dst_file ≡ true
    → read_line line s ≡ record s { ranges = s.ranges ++ hunk_of line }
unfolding read_line NamesNoFile at_hunk hunk_of
read-body line s (source, destination) set = elim (Bool-cases (starts_with "@@" line)) [
  | inl e ↦
      rw (source, destination, e, set)
        (ap (λ rs. record s { ranges = rs }) (add_range-list (hunk_range line) s.ranges))
  | inr e ↦
      rw (source, destination, e) (ap (λ rs. record s { ranges = rs }) (sym (append-nil s.ranges)))
]

pub read_lines-body :
    (lines : List String) (s : DiffState)
    → All NamesNoFile lines
    → is_set s.current_dst_file ≡ true
    → read_lines lines s ≡ record s { ranges = s.ranges ++ hunks lines }
unfolding read_lines hunks
read_lines-body [] s all set = ap (λ rs. record s { ranges = rs }) (sym (append-nil s.ranges))
read_lines-body (line ∷ lines) s (here, all) set =
    ap (read_lines lines) (read-body line s here set)
    ∙ read_lines-body lines (record s { ranges = s.ranges ++ hunk_of line }) all set
    ∙ ap (λ rs. record s { ranges = rs }) (append_assoc s.ranges (hunk_of line) (hunks lines))

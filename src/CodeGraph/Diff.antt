-- ===== src/CodeGraph/Diff.antt =====
-- `_parse_git_diff` of shared/code_graph.py: the files and line ranges that the output of
-- `git diff --unified=0` names. Digits are those that git writes.

pub mod Blocks
pub mod Files
pub mod Hunks
pub mod Numbers
pub mod Added
use Prim.Native.Char.{code}
use simple_claude_code_githu.Prelude.{
  ℕ, zero, suc, ◌+◌, ◌-◌, ◌*◌, String, Bool, true, false, not, ◌&&◌, Option, none, some, List, [],
  ◌∷◌, ◌++◌, leb, if◌then◌else◌, is_empty, str_eq,
}
use simple_claude_code_githu.Prelude.Lines.{splitlines}
use simple_claude_code_githu.RepoSetup.{starts_with}

module _ {A B : Type 0} where
  infixl 5 ◌>>=◌
  abbrev ◌>>=◌ : Option A → (A → Option B) → Option B
  ◌>>=◌ none next = none
  ◌>>=◌ (some value) next = next value

-- A range of lines: its first line and the one after its last. The source keeps the last line, which
-- is -1 in an empty range that starts at 0.
pub record Range : Type 0 where
  pub first : ℕ
  pub after : ℕ

pub record Change : Type 0 where
  pub file : String
  pub ranges : List Range

-- The local variables of the parser.
pub record DiffState : Type 0 where
  pub changes : List Change
  pub stale_files : List String
  pub current_src_file : Option String
  pub current_dst_file : Option String
  pub ranges : List Range

-- `s[n:]`
unfoldable pub chars_from : ℕ → String → String
chars_from zero s = s
chars_from (suc n) String.[] = ""
chars_from (suc n) (String.◌∷◌ c s) = chars_from n s

-- what follows a prefix that the pattern demands
unfoldable pub strip_prefix : String → String → Option String
strip_prefix String.[] s = some s
strip_prefix (String.◌∷◌ p ps) String.[] = none
strip_prefix (String.◌∷◌ p ps) (String.◌∷◌ c s) =
    let rest = strip_prefix ps s in
    if leb (code p) (code c) && leb (code c) (code p) then rest else none

abbrev pub is_digit : ℕ → Bool
is_digit c = leb 48 c && leb c 57

-- The digits of a number, read on to the first character that is none.
unfoldable pub more_digits : ℕ → String → ℕ × String
more_digits n String.[] = (n, "")
more_digits n (String.◌∷◌ c s) =
    let rest = more_digits (10 * n + (code c - 48)) s in
    if is_digit (code c) then rest else (n, String.◌∷◌ c s)

-- `(\d+)`
unfoldable pub number : String → Option (ℕ × String)
unfolding more_digits
number String.[] = none
number (String.◌∷◌ c s) = if is_digit (code c) then some (more_digits (code c - 48) s) else none

-- what a comma and a number give, if they are there
abbrev counted_or : String → Option (ℕ × String) → Option ℕ × String
counted_or s none = (none, s)
counted_or s (some (n, rest)) = (some n, rest)

-- `(?:,(\d+))?`
unfoldable pub optional_count : String → Option ℕ × String
unfolding strip_prefix number
optional_count s = counted_or s (do rest ← strip_prefix "," s; number rest)

-- `int(m.group(2)) if m.group(2) else 1`
abbrev or_one : Option ℕ → ℕ
or_one none = 1
or_one (some n) = n

-- `re.match(r"@@ -\d+(?:,\d+)? \+(\d+)(?:,(\d+))? @@", line)` and the range of its groups
unfoldable pub hunk_range : String → Option Range
unfolding strip_prefix number optional_count
hunk_range line = do
  old ← strip_prefix "@@ -" line
  after_old ← number old
  new ← strip_prefix " +" (optional_count after_old.1).1
  start ← number new
  let count = optional_count start.1
  closing ← strip_prefix " @@" count.1
  some (record { first = start.0; after = start.0 + or_one count.0 })

-- `if name:` for a name that may be `None`
unfoldable pub is_set : Option String → Bool
is_set none = false
is_set (some name) = not (str_eq name "")

abbrev pub name_or_empty : Option String → String
name_or_empty none = ""
name_or_empty (some name) = name

unfoldable pub flush : DiffState → DiffState
flush s = record {
  changes =
      if is_set s.current_dst_file && not (is_empty s.ranges)
      then s.changes ++ record { file = name_or_empty s.current_dst_file; ranges = s.ranges } ∷ []
      else s.changes;
  stale_files = s.stale_files;
  current_src_file = s.current_src_file;
  current_dst_file = none;
  ranges = [];
}

-- `if current_src_file and current_src_file != current_dst_file`
unfoldable pub stale_source : Option String → String → List String
stale_source none dst = []
stale_source (some src) dst = if is_set (some src) && not (str_eq src dst) then src ∷ [] else []

abbrev pub add_range : Option Range → List Range → List Range
add_range none ranges = ranges
add_range (some r) ranges = ranges ++ r ∷ []

-- the three kinds of lines that the parser reads
unfoldable pub at_source : String → DiffState → DiffState
unfolding flush chars_from
at_source line s = record (flush s) { current_src_file = some (chars_from 6 line) }

unfoldable pub at_destination : String → DiffState → DiffState
unfolding chars_from stale_source
at_destination line s = record s {
  current_dst_file = some (chars_from 6 line);
  stale_files = s.stale_files ++ stale_source s.current_src_file (chars_from 6 line);
  current_src_file = none;
}

unfoldable pub at_hunk : String → DiffState → DiffState
at_hunk line s = record s { ranges = add_range (hunk_range line) s.ranges }

-- The body of the loop over the lines.
unfoldable pub read_line : String → DiffState → DiffState
unfolding at_source at_destination at_hunk starts_with
read_line line s =
    if starts_with "--- a/" line
    then at_source line s
    else if starts_with "+++ b/" line
    then at_destination line s
    else if starts_with "@@" line && is_set s.current_dst_file
    then at_hunk line s
    else s

unfoldable pub read_lines : List String → DiffState → DiffState
unfolding read_line
read_lines [] s = s
read_lines (line ∷ lines) s = read_lines lines (read_line line s)

pub record DiffData : Type 0 where
  pub changes : List Change
  pub stale_files : List String

-- a last file that was deleted, as no `+++ b/` line follows
abbrev pub last_deleted : Option String → Option String → List String
last_deleted src dst = if is_set src && not (is_set dst) then name_or_empty src ∷ [] else []

unfoldable pub finish : DiffState → DiffData
unfolding flush
finish s =
    let flushed = flush s in
    record {
      changes = flushed.changes;
      stale_files =
          flushed.stale_files ++ last_deleted flushed.current_src_file flushed.current_dst_file;
    }

abbrev pub nothing_read : DiffState
nothing_read = record {
  changes = [];
  stale_files = [];
  current_src_file = none;
  current_dst_file = none;
  ranges = [];
}

unfoldable pub parse_lines : List String → DiffData
unfolding read_lines finish
parse_lines lines = finish (read_lines lines nothing_read)

pub parse_git_diff : String → DiffData
unfolding splitlines parse_lines
parse_git_diff diff_output = parse_lines (splitlines diff_output)

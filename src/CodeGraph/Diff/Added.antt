-- ===== src/CodeGraph/Diff/Added.antt =====
-- The parser of diffs on files that were added or deleted.
use mathlib.Core.List.{append-nil}
use simple_claude_code_githu.Prelude.{
  String, ◌⊎◌, ◌≡◌, refl, sym, ap, ◌∙◌, true, false, Option, none, some, List, [], ◌∷◌, ◌++◌,
  str_eq, All, Bool, inl, inr, Bool-cases, not, is_empty, if◌then◌else◌, ◌&&◌,
}
use simple_claude_code_githu.RepoSetup.{starts_with}
use simple_claude_code_githu.CodeGraph.Diff.{
  Change, Range, DiffState, is_set, flush, stale_source, read_line, read_lines, finish,
  nothing_read, parse_lines,
}
use simple_claude_code_githu.CodeGraph.Diff.Blocks.{
  FileDiff, source_line, destination_line, lines_of, IsHeader, NamesNoFile, IsFileDiff, hunks,
  read-source_line, read-destination_line, read_lines-append, read_lines-header, read_lines-body,
}
use simple_claude_code_githu.CodeGraph.Diff.Files.{after_file, read_lines-file}

-- A file that was added: git names no source.
pub added_lines : List String → String → List String → List String
added_lines header new body = header ++ "--- /dev/null" ∷ destination_line new ∷ body

-- A file that was deleted: git names no destination.
pub deleted_lines : List String → String → List String → List String
deleted_lines header old body = header ++ source_line old ∷ "+++ /dev/null" ∷ body

-- the changes that a file with some ranges gives
pub change_with : String → List Range → List Change
change_with file ranges =
    if is_empty ranges then [] else record { file = file; ranges = ranges } ∷ []

dev_null-source : (s : DiffState) → read_line "--- /dev/null" s ≡ s
unfolding read_line starts_with
dev_null-source s = refl

dev_null-destination : (s : DiffState) → read_line "+++ /dev/null" s ≡ s
unfolding read_line starts_with
dev_null-destination s = refl

read_lines-added :
    (header : List String) (new : String) (body : List String) (s : DiffState)
    → All IsHeader header
    → All NamesNoFile body
    → is_set (some new) ≡ true
    → s.current_src_file ≡ none
    → read_lines (added_lines header new body) s
      ≡ record s { current_dst_file = some new; ranges = s.ranges ++ hunks body }
unfolding added_lines read_lines stale_source
read_lines-added header new body s plain quiet set e =
    let named = record s {
      current_dst_file = some new;
      stale_files = s.stale_files ++ stale_source s.current_src_file new;
      current_src_file = none;
    } in
    read_lines-append header _ s
    ∙ ap (read_lines ("--- /dev/null" ∷ destination_line new ∷ body))
        (read_lines-header header s plain)
    ∙ ap (λ t. read_lines body (read_line (destination_line new) t)) (dev_null-source s)
    ∙ ap (read_lines body) (read-destination_line new s)
    ∙ read_lines-body body named quiet set
    ∙ rw (e, append-nil s.stale_files) refl

if_same :
    {A : Type 0} (set same : Bool) (xs : List A)
    → same ≡ true
    → (if set && not same then xs else []) ≡ []
if_same true true xs e = refl
if_same true false xs e = cc
if_same false same xs e = refl

stale_same : (old new : String) → str_eq old new ≡ true → stale_source (some old) new ≡ []
unfolding stale_source
stale_same old new same = if_same (is_set (some old)) (str_eq old new) (old ∷ []) same

-- If a file that was added follows one that was changed in place and has hunks, the changed file is
-- not found, and its ranges are counted among those of the added one.
pub parse_lines-added :
    (d : FileDiff) (header : List String) (new : String) (body : List String)
    → IsFileDiff d
    → str_eq d.old d.new ≡ true
    → All IsHeader header
    → All NamesNoFile body
    → is_set (some new) ≡ true
    → parse_lines (lines_of d ++ added_lines header new body)
      ≡ record { changes = change_with new (hunks d.body ++ hunks body); stale_files = [] }
unfolding parse_lines finish flush after_file change_with is_set
parse_lines-added d header new body file same plain quiet set =
    ap finish (
      read_lines-append (lines_of d) (added_lines header new body) nothing_read
      ∙ ap (read_lines (added_lines header new body)) (read_lines-file d nothing_read file)
      ∙ read_lines-added header new body (after_file d nothing_read) plain quiet set refl)
    ∙ added_finish (Bool-cases (is_empty (hunks d.body ++ hunks body)))
  where
    added_finish :
        (is_empty (hunks d.body ++ hunks body) ≡ true)
          ⊎ (is_empty (hunks d.body ++ hunks body) ≡ false)
        → finish (record (after_file d nothing_read) {
          current_dst_file = some new;
          ranges = hunks d.body ++ hunks body;
        })
          ≡ record { changes = change_with new (hunks d.body ++ hunks body); stale_files = [] }
    added_finish (inl e) = rw (set, e, stale_same d.old d.new same) refl
    added_finish (inr e) = rw (set, e, stale_same d.old d.new same) refl

none_set : (file : Option String) → file ≡ none → is_set file ≡ false
unfolding is_set
none_set file e = ap is_set e

read-none :
    (line : String) (s : DiffState)
    → NamesNoFile line
    → s.current_dst_file ≡ none
    → read_line line s ≡ s
unfolding read_line NamesNoFile
read-none line s (source, destination) e = elim (Bool-cases (starts_with "@@" line)) [
  | inl h ↦ rw (source, destination, h, none_set s.current_dst_file e) refl
  | inr h ↦ rw (source, destination, h) refl
]

-- without a file to count them for, hunks are passed over
read_lines-none :
    (body : List String) (s : DiffState)
    → All NamesNoFile body
    → s.current_dst_file ≡ none
    → read_lines body s ≡ s
unfolding read_lines
read_lines-none [] s quiet e = refl
read_lines-none (line ∷ body) s (here, quiet) e =
    ap (read_lines body) (read-none line s here e) ∙ read_lines-none body s quiet e

read_lines-deleted :
    (header : List String) (old : String) (body : List String)
    → All IsHeader header
    → All NamesNoFile body
    → read_lines (deleted_lines header old body) nothing_read
      ≡ record nothing_read { current_src_file = some old }
unfolding read_lines deleted_lines flush is_set
read_lines-deleted header old body plain quiet =
    let after = record nothing_read { current_src_file = some old } in
    read_lines-append header (source_line old ∷ "+++ /dev/null" ∷ body) nothing_read
    ∙ ap (read_lines (source_line old ∷ "+++ /dev/null" ∷ body))
        (read_lines-header header nothing_read plain)
    ∙ ap (λ t. read_lines body (read_line "+++ /dev/null" t)) (read-source_line old nothing_read)
    ∙ ap (read_lines body) (dev_null-destination after)
    ∙ read_lines-none body after quiet refl

-- If a file that was changed or renamed follows one that was deleted, the diff is read as if the
-- deleted file were not in it: that file is not among the stale ones.
pub parse_lines-deleted :
    (header : List String) (old : String) (body : List String) (d : FileDiff)
    → All IsHeader header
    → All NamesNoFile body
    → IsFileDiff d
    → parse_lines (deleted_lines header old body ++ lines_of d) ≡ parse_lines (lines_of d)
unfolding parse_lines deleted_lines read_lines after_file
parse_lines-deleted header old body d plain quiet file =
    let after = record nothing_read { current_src_file = some old } in
    ap finish (
      read_lines-append (deleted_lines header old body) (lines_of d) nothing_read
      ∙ ap (read_lines (lines_of d)) (read_lines-deleted header old body plain quiet)
      ∙ read_lines-file d after file
      ∙ sym (read_lines-file d nothing_read file))

-- ===== src/CodeGraph/Diff/Files.antt =====
-- The diff of changed and renamed files, as the parser reads it.
use mathlib.Core.List.{append_assoc, append-nil}
use simple_claude_code_githu.Prelude.{
  String, ◌≡◌, refl, sym, ap, ◌∙◌, inl, inr, true, none, some, List, [], ◌∷◌, ◌++◌, if◌then◌else◌,
  is_empty, All, Bool-cases, map, str_eq,
}
use simple_claude_code_githu.CodeGraph.Diff.{
  Change, DiffState, is_set, flush, stale_source, read_line, read_lines, finish, nothing_read,
  parse_lines,
}
use simple_claude_code_githu.CodeGraph.Diff.Hunks.{
  Hunk, IsHunk, range_of, hunk_lines, hunks-hunk_lines, hunk_lines-NamesNoFile,
}
use simple_claude_code_githu.CodeGraph.Diff.Blocks.{
  IsHeader, FileDiff, source_line, destination_line, lines_of, diff_lines, IsFileDiff, hunks,
  read-source_line, read-destination_line, read_lines-append, read_lines-header, read_lines-body,
}

-- what the parser finds in a file: its change, if it has hunks
read_change : FileDiff → List Change
unfolding hunks
read_change d =
    if is_empty (hunks d.body) then [] else record { file = d.new; ranges = hunks d.body } ∷ []

read_changes : List FileDiff → List Change
unfolding read_change
read_changes [] = []
read_changes (d ∷ ds) = read_change d ++ read_changes ds

read_stale : List FileDiff → List String
unfolding stale_source
read_stale [] = []
read_stale (d ∷ ds) = stale_source (some d.old) d.new ++ read_stale ds

-- the state after the lines of a file
unfoldable pub after_file : FileDiff → DiffState → DiffState
unfolding flush hunks stale_source
after_file d s = record {
  changes = (flush s).changes;
  stale_files = s.stale_files ++ stale_source (some d.old) d.new;
  current_src_file = none;
  current_dst_file = some d.new;
  ranges = hunks d.body;
}

pub read_lines-file :
    (d : FileDiff) (s : DiffState) → IsFileDiff d → read_lines (lines_of d) s ≡ after_file d s
unfolding lines_of IsFileDiff read_lines after_file
read_lines-file d s (header, (body, set)) =
    let sourced = record (flush s) { current_src_file = some d.old } in
    let named = record (flush s) {
      current_dst_file = some d.new;
      stale_files = s.stale_files ++ stale_source (some d.old) d.new;
      current_src_file = none;
    } in
    read_lines-append d.header (source_line d.old ∷ destination_line d.new ∷ d.body) s
    ∙ ap (read_lines (source_line d.old ∷ destination_line d.new ∷ d.body))
        (read_lines-header d.header s header)
    ∙ ap (λ t. read_lines d.body (read_line (destination_line d.new) t)) (read-source_line d.old s)
    ∙ ap (read_lines d.body) (read-destination_line d.new sourced)
    ∙ read_lines-body d.body named body set

after_file-changes :
    (d : FileDiff) (s : DiffState)
    → is_set (some d.new) ≡ true
    → (flush (after_file d s)).changes ≡ (flush s).changes ++ read_change d
unfolding flush after_file read_change
after_file-changes d s set = elim (Bool-cases (is_empty (hunks d.body))) [
  | inl e ↦ rw (set, e) (sym (append-nil _))
  | inr e ↦ rw (set, e) refl
]

finish-diff_lines :
    (ds : List FileDiff) (s : DiffState)
    → All IsFileDiff ds
    → s.current_src_file ≡ none
    → finish (read_lines (diff_lines ds) s) ≡ record {
      changes = (flush s).changes ++ read_changes ds;
      stale_files = s.stale_files ++ read_stale ds;
    }
unfolding finish read_lines diff_lines read_changes read_stale after_file IsFileDiff is_set
finish-diff_lines [] s all e = rw (e, append-nil (flush s).changes, append-nil s.stale_files) refl
finish-diff_lines (d ∷ ds) s (here, all) e =
    ap finish (
      read_lines-append (lines_of d) (diff_lines ds) s
      ∙ ap (read_lines (diff_lines ds)) (read_lines-file d s here))
    ∙ finish-diff_lines ds (after_file d s) all refl
    ∙ ap
        (λ changes. record {
          changes = changes ++ read_changes ds;
          stale_files = (s.stale_files ++ stale_source (some d.old) d.new) ++ read_stale ds;
        })
        (after_file-changes d s here.1.1)
    ∙ ap
        (λ changes. record {
          changes = changes;
          stale_files = (s.stale_files ++ stale_source (some d.old) d.new) ++ read_stale ds;
        })
        (append_assoc (flush s).changes (read_change d) (read_changes ds))
    ∙ ap
        (λ files. record {
          changes = (flush s).changes ++ (read_change d ++ read_changes ds);
          stale_files = files;
        })
        (append_assoc s.stale_files (stale_source (some d.old) d.new) (read_stale ds))

-- A file as git writes it, with the two lines of its names: it was changed, and renamed if the two
-- names differ.
pub record GitFile : Type 0 where
  pub header : List String
  pub old : String
  pub new : String
  pub hunks : List Hunk

unfoldable pub as_lines : GitFile → FileDiff
as_lines f = record { header = f.header; old = f.old; new = f.new; body = hunk_lines f.hunks }

-- Both names are there, and no line but theirs looks like the name of a file.
unfoldable pub IsGitFile : GitFile → Type 0
IsGitFile f =
    All IsHeader f.header
    × All IsHunk f.hunks
    × (is_set (some f.old) ≡ true)
    × (is_set (some f.new) ≡ true)

-- A file with hunks has changed at their ranges.
unfoldable pub change_of : String → List Hunk → List Change
change_of file [] = []
change_of file (h ∷ hs) = record { file = file; ranges = map range_of (h ∷ hs) } ∷ []

unfoldable pub changes_of : List GitFile → List Change
changes_of [] = []
changes_of (f ∷ fs) = change_of f.new f.hunks ++ changes_of fs

-- the old names of the renamed files
unfoldable pub renamed : List GitFile → List String
renamed [] = []
renamed (f ∷ fs) = let rest = renamed fs in if str_eq f.old f.new then rest else f.old ∷ rest

as_lines-IsFileDiff : (f : GitFile) → IsGitFile f → IsFileDiff (as_lines f)
unfolding IsGitFile IsFileDiff as_lines
as_lines-IsFileDiff f (header, hunks, old, new) =
    (header, (hunk_lines-NamesNoFile f.hunks hunks, new))

all_IsFileDiff : (fs : List GitFile) → All IsGitFile fs → All IsFileDiff (map as_lines fs)
all_IsFileDiff [] all = tt
all_IsFileDiff (f ∷ fs) (here, all) = (as_lines-IsFileDiff f here, all_IsFileDiff fs all)

change_of-ranges :
    (file : String) (hs : List Hunk)
    → (if is_empty (map range_of hs)
        then []
        else record { file = file; ranges = map range_of hs } ∷ [])
      ≡ change_of file hs
unfolding change_of
change_of-ranges file [] = refl
change_of-ranges file (h ∷ hs) = refl

read_change-as_lines :
    (f : GitFile) → IsGitFile f → read_change (as_lines f) ≡ change_of f.new f.hunks
unfolding read_change as_lines IsGitFile
read_change-as_lines f (header, all, old, new) =
    rw (hunks-hunk_lines f.hunks all) (change_of-ranges f.new f.hunks)

read_changes-as_lines :
    (fs : List GitFile) → All IsGitFile fs → read_changes (map as_lines fs) ≡ changes_of fs
unfolding read_changes changes_of
read_changes-as_lines [] all = refl
read_changes-as_lines (f ∷ fs) (here, all) =
    rw (read_change-as_lines f here, read_changes-as_lines fs all) refl

read_stale-as_lines :
    (fs : List GitFile) → All IsGitFile fs → read_stale (map as_lines fs) ≡ renamed fs
unfolding read_stale renamed stale_source as_lines IsGitFile
read_stale-as_lines [] all = refl
read_stale-as_lines (f ∷ fs) ((header, hunks, old, new), all) =
    elim (Bool-cases (str_eq f.old f.new)) [
      | inl e ↦ rw (e, old) (read_stale-as_lines fs all)
      | inr e ↦ rw (e, old) (ap (λ ns. f.old ∷ ns) (read_stale-as_lines fs all))
    ]

-- In the diff of files that were changed or renamed, each with the two lines of its names, which are
-- not empty, and with hunks as git writes them, where no other line looks like the name of a file
-- and no line below the header of a hunk like such a header: the parser finds each file that has
-- hunks, under its new name, with the start and the count of its hunks in the new file as ranges, in
-- order, and the old names of the renamed files.
pub parse_lines-files :
    (fs : List GitFile)
    → All IsGitFile fs
    → parse_lines (diff_lines (map as_lines fs))
      ≡ record { changes = changes_of fs; stale_files = renamed fs }
unfolding parse_lines flush is_set
parse_lines-files fs all =
    finish-diff_lines (map as_lines fs) nothing_read (all_IsFileDiff fs all) refl
    ∙ rw (read_changes-as_lines fs all, read_stale-as_lines fs all) refl

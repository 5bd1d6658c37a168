-- ===== src/CodeGraph/Tests.antt =====
-- A graph with a cycle, and diffs with changed, added and deleted files.
use simple_claude_code_githu.Prelude.{
  ℕ, String, true, ◌≡◌, ◌≢◌, refl, none, some, List, [], ◌∷◌, ◌++◌, All, map,
}
use simple_claude_code_githu.Prelude.Text.{str_elem}
use simple_claude_code_githu.Workflows.{Dict, find}
use simple_claude_code_githu.RepoSetup.{starts_with}
use simple_claude_code_githu.CodeGraph.{
  Tag, Edges, get_list, table, items_of, visit, visit_all, visit_level, put_level, levels_from, bfs,
  bfs_upstream, bfs_downstream, level_at,
}
use simple_claude_code_githu.CodeGraph.Levels.Depths.{Shown, bfs-Shortest}
use simple_claude_code_githu.CodeGraph.Diff.{is_set, parse_lines, hunk_range}
use simple_claude_code_githu.CodeGraph.Diff.Blocks.{
  FileDiff, IsFileDiff, IsHeader, NamesNoFile, diff_lines, lines_of, hunks,
}
use simple_claude_code_githu.CodeGraph.Diff.Hunks.{IsHunk}
use simple_claude_code_githu.CodeGraph.Diff.Files.{
  GitFile, IsGitFile, as_lines, changes_of, renamed, parse_lines-files,
}
use simple_claude_code_githu.CodeGraph.Diff.Added.{added_lines, change_with, parse_lines-added}
use simple_claude_code_githu.CodeGraph.Flow.{trace_flow, unfinished, in_file}
use simple_claude_code_githu.CodeGraph.Flow.Ending.{trace_flow-Ends}
use simple_claude_code_githu.CodeGraph.Enclosing.{Span, DefEntry, Tightest, find_enclosing_def}
use simple_claude_code_githu.CodeGraph.DefinitionMap.{definition_map, find_enclosing_def-smallest}

abbrev tag : String → String → ℕ → Tag
tag n file first = record {
  name = n;
  kind = "definition";
  category = "function";
  filepath = file;
  line = first;
  end_line = first;
}

-- `main` calls `load` and `save`, both of which call `main` and `log`.
abbrev calls : Edges
calls =
    ("main", "load" ∷ "save" ∷ [])
    ∷ ("load", "main" ∷ "log" ∷ [])
    ∷ ("save", "main" ∷ "log" ∷ [])
    ∷ []

abbrev definitions : Dict (List Tag)
definitions =
    ("main", tag "main" "main.py" 1 ∷ [])
    ∷ ("load", tag "load" "io.py" 1 ∷ [])
    ∷ ("log", tag "log" "log.py" 7 ∷ [])
    ∷ []

second_level :
    level_at 2 (bfs_downstream definitions ("main" ∷ []) 5 (("calls", calls) ∷ []))
    ≡ record { name = "log"; file = "log.py"; line = 7; kind = "function" } ∷ []
unfolding bfs_downstream bfs levels_from visit_level visit_all visit put_level level_at table
    get_list items_of find str_elem
second_level = refl

bfs-Shortest_example :
    Shown definitions
      (table "calls" [])
      ("main" ∷ [])
      1
      5
      2
      (bfs_upstream definitions ("main" ∷ []) 5 [])
    × Shown definitions
        (table "calls" (("calls", calls) ∷ []))
        ("main" ∷ [])
        1
        5
        2
        (bfs_downstream definitions ("main" ∷ []) 5 (("calls", calls) ∷ []))
bfs-Shortest_example = bfs-Shortest definitions (("calls", calls) ∷ []) [] ("main" ∷ []) 5 2

abbrev changed : FileDiff
changed = record {
  header = "diff --git a/a.py b/a.py" ∷ [];
  old = "a.py";
  new = "a.py";
  body = "@@ -3 +3,2 @@ def f():" ∷ "-x" ∷ "+y" ∷ "+z" ∷ [];
}

changed-IsFileDiff : IsFileDiff changed
unfolding IsFileDiff IsHeader NamesNoFile starts_with is_set
changed-IsFileDiff = (
  (((refl, refl), refl), tt),
  (((refl, refl), ((refl, refl), ((refl, refl), ((refl, refl), tt)))), refl),
)

a_range : hunk_range "@@ -3 +3,2 @@ def f():" ≡ some (record { first = 3; after = 5 })
unfolding hunk_range
a_range = refl

-- A file that was changed in two places, and one that was renamed and changed.
abbrev two_files : List GitFile
two_files =
    record {
      header = "diff --git a/a.py b/a.py" ∷ [];
      old = "a.py";
      new = "a.py";
      hunks =
          record {
            old_start = 3;
            old_count = 1;
            new_start = 3;
            new_count = 2;
            section = " def f():";
            lines = "-x" ∷ "+y" ∷ "+z" ∷ [];
          }
          ∷ record {
            old_start = 10;
            old_count = 2;
            new_start = 12;
            new_count = 1;
            section = "";
            lines = "-x" ∷ "-y" ∷ "+z" ∷ [];
          }
          ∷ [];
    }
    ∷ record {
      header = "diff --git a/b.py b/c.py" ∷ [];
      old = "b.py";
      new = "c.py";
      hunks =
          record {
            old_start = 7;
            old_count = 1;
            new_start = 7;
            new_count = 1;
            section = "";
            lines = "-x" ∷ "+y" ∷ [];
          }
          ∷ [];
    }
    ∷ []

two_files-IsGitFile : All IsGitFile two_files
unfolding IsGitFile IsHunk IsHeader NamesNoFile starts_with is_set
two_files-IsGitFile = (
  (
    (((refl, refl), refl), tt),
    (
      (((refl, refl), refl), (((refl, refl), refl), (((refl, refl), refl), tt))),
      ((((refl, refl), refl), (((refl, refl), refl), (((refl, refl), refl), tt))), tt),
    ),
    refl,
    refl,
  ),
  (
    (
      (((refl, refl), refl), tt),
      ((((refl, refl), refl), (((refl, refl), refl), tt)), tt),
      refl,
      refl,
    ),
    tt,
  ),
)

parse_lines-files_example :
    parse_lines (diff_lines (map as_lines two_files))
    ≡ record { changes = changes_of two_files; stale_files = renamed two_files }
parse_lines-files_example = parse_lines-files two_files two_files-IsGitFile

abbrev new_header : List String
new_header = "diff --git a/n.py b/n.py" ∷ "new file mode 100644" ∷ []

abbrev new_body : List String
new_body = "@@ -0,0 +1 @@" ∷ "+print()" ∷ []

new_header_plain : All IsHeader new_header
unfolding IsHeader NamesNoFile starts_with
new_header_plain = (((refl, refl), refl), (((refl, refl), refl), tt))

new_body_quiet : All NamesNoFile new_body
unfolding NamesNoFile starts_with
new_body_quiet = ((refl, refl), ((refl, refl), tt))

name_is_set : is_set (some "n.py") ≡ true
unfolding is_set
name_is_set = refl

parse_lines-added_example :
    parse_lines (lines_of changed ++ added_lines new_header "n.py" new_body) ≡ record {
      changes = change_with "n.py" (hunks changed.body ++ hunks new_body);
      stale_files = [];
    }
parse_lines-added_example =
    parse_lines-added changed new_header "n.py" new_body changed-IsFileDiff refl new_header_plain
      new_body_quiet name_is_set

trace_flow-Ends_example :
    trace_flow definitions (("calls", calls) ∷ []) (tag "main" "main.py" 1 ∷ []) "main" none 20
    ≢ unfinished
trace_flow-Ends_example =
    trace_flow-Ends definitions (("calls", calls) ∷ []) (tag "main" "main.py" 1 ∷ []) "main" none 20

none_there : in_file "other.py" (tag "main" "main.py" 1 ∷ []) ≡ []
unfolding in_file
none_there = refl

abbrev entry : String → ℕ → ℕ → DefEntry
entry n first after = record { span = record { start_byte = first; end_byte = after }; name = n }

abbrev node : Span
node = record { start_byte = 25; end_byte = 28 }

find_enclosing_def-smallest_example :
    Tightest node
      (definition_map (entry "method" 20 40 ∷ entry "Class" 0 90 ∷ entry "method" 20 40 ∷ []))
      (find_enclosing_def
        (definition_map (entry "method" 20 40 ∷ entry "Class" 0 90 ∷ entry "method" 20 40 ∷ []))
        node)
find_enclosing_def-smallest_example =
    find_enclosing_def-smallest
      (entry "method" 20 40 ∷ entry "Class" 0 90 ∷ entry "method" 20 40 ∷ []) node

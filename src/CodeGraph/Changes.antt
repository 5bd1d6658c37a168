-- ===== src/CodeGraph/Changes.antt =====
-- `detect_changes_from_diff` and `get_file_overview` of shared/code_graph.py, and the summary of the
-- detected changes. The run of git and the queries are parameters.
use Prim.Native.String.{◌++◌ as str_append}
use simple_claude_code_githu.Prelude.{
  ℕ, ◌+◌, String, Bool, true, false, Option, none, some, List, [], ◌∷◌, ◌++◌, length, take, map,
  str_eq, is_empty, if◌then◌else◌, ◌==◌,
}
use simple_claude_code_githu.Prelude.Lines.{join}
use simple_claude_code_githu.Webhook.{decimal}
use simple_claude_code_githu.Workflows.{Dict, find, put}
use simple_claude_code_githu.CodeGraph.{
  Tag, Edges, get_list, table, Impact, bfs_upstream, bfs_downstream,
}
use simple_claude_code_githu.CodeGraph.Diff.{Range, Change, DiffData, parse_git_diff}
use simple_claude_code_githu.CodeGraph.Impact.{
  add_names, sorted_names, Risk, low, medium, high, assess_risk, SymbolEntry, Index, tag_entry,
}

pub record ChangedFile : Type 0 where
  pub file : String
  pub line_ranges : List Range
  pub affected_symbols : List SymbolEntry
  pub upstream_impact : Impact
  pub downstream_impact : Impact
  pub risk_level : Risk
  pub risk_summary : String

-- a query that fails gives no symbols
abbrev rows_or_none : Option (List SymbolEntry) → List SymbolEntry
rows_or_none none = []
rows_or_none (some rows) = rows

pub get_symbols_in_range : Index → String → Range → List SymbolEntry
get_symbols_in_range index filepath range = rows_or_none (index.overlapping filepath range)

unfoldable pub symbols_of_ranges : Index → String → List Range → List SymbolEntry
unfolding get_symbols_in_range
symbols_of_ranges index filepath [] = []
symbols_of_ranges index filepath (r ∷ rs) =
    get_symbols_in_range index filepath r ++ symbols_of_ranges index filepath rs

pub changed_file : (String → String) → Index → Change → List SymbolEntry → ChangedFile
changed_file lower index change symbols =
    let affected_names = add_names (map (λ s. s.name) symbols) [] in
    let imported_by = sorted_names (get_list change.file (table "imports" index.edge_rev)) in
    let up = bfs_upstream index.def_cache affected_names 3 index.edge_rev in
    let down = bfs_downstream index.def_cache affected_names 3 index.edge_fwd in
    let risk = assess_risk lower up down imported_by in
    record {
      file = change.file;
      line_ranges = change.ranges;
      affected_symbols = symbols;
      upstream_impact = up;
      downstream_impact = down;
      risk_level = risk.0;
      risk_summary = risk.1;
    }

-- The loop over the changed files, which passes over those without symbols.
unfoldable pub changed_files : (String → String) → Index → List Change → List ChangedFile
unfolding changed_file symbols_of_ranges
changed_files lower index [] = []
changed_files lower index (c ∷ cs) =
    let symbols = symbols_of_ranges index c.file c.ranges in
    let rest = changed_files lower index cs in
    if is_empty symbols then rest else changed_file lower index c symbols ∷ rest

abbrev is_high : Risk → Bool
is_high high = true
is_high _ = false

abbrev is_medium : Risk → Bool
is_medium medium = true
is_medium _ = false

unfoldable pub any_risk : (Risk → Bool) → List ChangedFile → Bool
any_risk test [] = false
any_risk test (f ∷ fs) = let rest = any_risk test fs in if test f.risk_level then true else rest

unfoldable pub overall_risk : List ChangedFile → Risk
unfolding any_risk
overall_risk files =
    if any_risk is_high files then high else if any_risk is_medium files then medium else low

unfoldable pub high_risk_files : List ChangedFile → List String
high_risk_files [] = []
high_risk_files (f ∷ fs) =
    let rest = high_risk_files fs in if is_high f.risk_level then f.file ∷ rest else rest

unfoldable pub total_affected : List ChangedFile → ℕ
total_affected [] = 0
total_affected (f ∷ fs) = length f.affected_symbols + total_affected fs

pub summarize_changes : List ChangedFile → String
unfolding high_risk_files total_affected
summarize_changes [] = "No symbol-affecting changes detected."
summarize_changes (f ∷ fs) =
    let files = f ∷ fs in
    let at_risk = high_risk_files files in
    let summary = str_append (decimal (length files)) (
      str_append " file(s) changed, "
        (str_append (decimal (total_affected files)) " symbol(s) affected.")) in
    let warning = str_append " " (
      str_append (decimal (length at_risk))
        (str_append " file(s) at high risk: " (join ", " (take 3 at_risk)))) in
    if is_empty at_risk then summary else str_append summary warning

-- What the run of git comes to: its exit code with its two outputs, or an exception.
pub data GitRun : Type 0 where
  ended : ℕ → String → String → GitRun
  raised : String → GitRun

pub record Detection : Type 0 where
  pub detected_files : List ChangedFile
  pub error : Option String
  pub summary : Option String
  pub risk_level : Option Risk
  -- the files whose data is cleared from the database
  pub cleared : List String

abbrev failed_detection : String → Detection
failed_detection message = record {
  detected_files = [];
  error = some message;
  summary = none;
  risk_level = none;
  cleared = [];
}

-- The impact of a parsed diff. The caches are read after the stale files were cleared.
unfoldable pub detect_in : (String → String) → (List String → Index) → DiffData → Detection
unfolding changed_files overall_risk
detect_in lower index_without diff_data =
    let files = changed_files lower (index_without diff_data.stale_files) diff_data.changes in
    record {
      detected_files = files;
      error = none;
      summary = some (summarize_changes files);
      risk_level = some (overall_risk files);
      cleared = diff_data.stale_files;
    }

pub detect_changes_from_diff :
    (String → String) → (List String → Index) → (List String → GitRun) → String → Detection
unfolding detect_in
detect_changes_from_diff lower index_without run_git scope = elim (run_git (git_command scope)) [
  | raised message ↦ failed_detection (str_append "Failed to parse diff: " message)
  | ended code stdout stderr ↦
      let failed = failed_detection (str_append "git diff failed: " stderr) in
      let detected = detect_in lower index_without (parse_git_diff stdout) in
      if code == 0 then detected else failed
]
  where
    git_command : String → List String
    git_command scope =
        if str_eq scope "staged"
        then "git" ∷ "diff" ∷ "--unified=0" ∷ "--staged" ∷ []
        else "git" ∷ "diff" ∷ "--unified=0" ∷ []

pub record ClassEntry : Type 0 where
  pub inherits_from : List String
  pub methods : List String

pub record Overview : Type 0 where
  pub file : String
  pub definitions : List SymbolEntry
  pub imports : List String
  pub imported_by : List String
  pub classes : Dict ClassEntry

unfoldable pub class_entries : Edges → List Tag → Dict ClassEntry → Dict ClassEntry
class_entries inherits_fwd [] classes = classes
class_entries inherits_fwd (d ∷ ds) classes = class_entries inherits_fwd ds (
    if str_eq d.category "class"
    then put d.name
        (record { inherits_from = sorted_names (get_list d.name inherits_fwd); methods = [] })
        classes
    else classes)

-- `classes[parent]["methods"].append(name)`
abbrev append_method : String → String → Option ClassEntry → Dict ClassEntry → Dict ClassEntry
append_method parent name none classes = classes
append_method parent name (some c) classes =
    put parent (record c { methods = c.methods ++ name ∷ [] }) classes

-- `if parent and parent in classes`
unfoldable pub add_method : Option String → String → Dict ClassEntry → Dict ClassEntry
unfolding find
add_method none name classes = classes
add_method (some parent) name classes =
    if str_eq parent "" then classes else append_method parent name (find parent classes) classes

unfoldable pub add_methods : (Tag → Option String) → List Tag → Dict ClassEntry → Dict ClassEntry
unfolding add_method
add_methods scope_of [] classes = classes
add_methods scope_of (d ∷ ds) classes =
    add_methods scope_of ds (add_method (scope_of d) d.name classes)

pub get_file_overview : Index → String → Overview
unfolding class_entries add_methods
get_file_overview index file_path =
    let file_defs = index.file_definitions file_path none none in
    let classes = class_entries (table "inherits" index.edge_fwd) file_defs [] in
    record {
      file = file_path;
      definitions = map tag_entry file_defs;
      imports = sorted_names (get_list file_path (table "imports" index.edge_fwd));
      imported_by = sorted_names (get_list file_path (table "imports" index.edge_rev));
      classes = add_methods index.scope_of file_defs classes;
    }

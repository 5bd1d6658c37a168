-- ===== src/CodeGraph/Impact.antt =====
-- The methods of `SymbolIndex` in shared/code_graph.py that assess a change: `get_impact`,
-- `detect_changes_from_diff`, `get_file_overview`, and the assessment of the risk. The queries, the
-- run of git, and `str.lower` are parameters.
use Prim.Native.String.{◌++◌ as str_append}
use simple_claude_code_githu.Prelude.{
  ℕ, ◌+◌, min, max, String, Bool, false, ◌||◌, Option, none, some, List, [], ◌∷◌, ◌++◌, length, map,
  ltb, str_eq, if◌then◌else◌,
}
use simple_claude_code_githu.Prelude.Text.{str_elem}
use simple_claude_code_githu.Webhook.{decimal}
use simple_claude_code_githu.Workflows.{Dict}
use simple_claude_code_githu.RepoSetup.{contains}
use simple_claude_code_githu.FileTree.Sources.{insert_name}
use simple_claude_code_githu.CodeGraph.{
  Tag, Edges, get_list, table, Impact, bfs_upstream, bfs_downstream,
}
use simple_claude_code_githu.CodeGraph.Diff.{Range}

-- `s.add(x)`
unfoldable pub add_name : String → List String → List String
add_name x xs = if str_elem x xs then xs else xs ++ x ∷ []

unfoldable pub add_names : List String → List String → List String
unfolding add_name
add_names [] set = set
add_names (x ∷ xs) set = add_names xs (add_name x set)

-- `sorted(set)`
unfoldable pub sorted_names : List String → List String
unfolding insert_name
sorted_names [] = []
sorted_names (x ∷ xs) = insert_name x (sorted_names xs)

-- the files of an impact, added to a set
unfoldable pub impact_files : Impact → List String → List String
unfolding add_names
impact_files [] files = files
impact_files ((depth, items) ∷ rest) files =
    impact_files rest (add_names (map (λ i. i.file) items) files)

unfoldable pub count_items : Impact → ℕ
count_items [] = 0
count_items ((depth, items) ∷ rest) = length items + count_items rest

pub data Risk : Type 0 where
  low medium high : Risk

unfoldable pub risk_of : ℕ → ℕ → Risk
risk_of total_files total_symbols =
    if ltb 10 total_files || ltb 20 total_symbols
    then high
    else if ltb 3 total_files || ltb 5 total_symbols
    then medium
    else low

abbrev risk_name : Risk → String
risk_name low = "Low"
risk_name medium = "Medium"
risk_name high = "High"

abbrev any_test : (String → String) → List String → Bool
unfolding contains
any_test lower [] = false
any_test lower (f ∷ fs) = contains "test" (lower f) || any_test lower fs

unfoldable pub total_files : Impact → Impact → List String → ℕ
unfolding impact_files
total_files upstream downstream imported_by =
    length (add_names imported_by (impact_files downstream (impact_files upstream [])))

pub assess_risk : (String → String) → Impact → Impact → List String → Risk × String
unfolding total_files count_items risk_of impact_files
assess_risk lower upstream downstream imported_by =
    let files = total_files upstream downstream imported_by in
    let symbols = count_items upstream + count_items downstream in
    let level = risk_of files symbols in
    let numbers =
      str_append (decimal files)
        (str_append " files and " (str_append (decimal symbols) " symbols")) in
    let summary = str_append (risk_name level) (str_append " risk: affects " numbers) in
    let has_tests = any_test lower (impact_files downstream (impact_files upstream [])) in
    (level, if has_tests then str_append summary " (includes test files)" else summary)

pub record SymbolEntry : Type 0 where
  pub name : String
  pub line : ℕ
  pub end_line : ℕ
  pub kind : String

abbrev wants : String → String → Bool
wants which direction = str_eq direction which || str_eq direction "both"

-- What the database and its caches hold of a repository. The queries for the definitions of a file
-- take the bounds on the lines that they are given; the one for those that overlap a range fails if
-- there is no answer.
pub record Index : Type 0 where
  pub file_definitions : String → Option ℕ → Option ℕ → List Tag
  pub overlapping : String → Range → Option (List SymbolEntry)
  pub edge_fwd : Dict Edges
  pub edge_rev : Dict Edges
  pub def_cache : Dict (List Tag)
  pub scope_of : Tag → Option String

abbrev pub tag_entry : Tag → SymbolEntry
tag_entry d = record { name = d.name; line = d.line; end_line = d.end_line; kind = d.category }

pub record ImpactReport : Type 0 where
  pub file : String
  pub symbols_in_range : List SymbolEntry
  pub upstream_impact : Impact
  pub downstream_impact : Impact
  pub imported_by : List String
  pub risk_level : Risk
  pub risk_summary : String

-- An end of the range without a start is not used.
abbrev bounds_used : Option ℕ → Option ℕ → Option ℕ × Option ℕ
bounds_used none end_line = (none, none)
bounds_used (some s) end_line = (some s, end_line)

unfoldable pub clamp_depth : ℕ → ℕ
clamp_depth max_depth = min (max 1 max_depth) 10

pub get_impact :
    (String → String) → Index → String → Option ℕ → Option ℕ → ℕ → String → ImpactReport
unfolding clamp_depth sorted_names get_list table bfs_upstream bfs_downstream add_names
get_impact lower index file_path start_line end_line max_depth direction =
    let depth = clamp_depth max_depth in
    let used = bounds_used start_line end_line in
    let file_defs = index.file_definitions file_path used.0 used.1 in
    let affected_names = add_names (map (λ d. d.name) file_defs) [] in
    let imported_by = sorted_names (get_list file_path (table "imports" index.edge_rev)) in
    let up =
      if wants "upstream" direction
      then bfs_upstream index.def_cache affected_names depth index.edge_rev
      else [] in
    let down =
      if wants "downstream" direction
      then bfs_downstream index.def_cache affected_names depth index.edge_fwd
      else [] in
    let risk = assess_risk lower up down imported_by in
    record {
      file = file_path;
      symbols_in_range = map tag_entry file_defs;
      upstream_impact = up;
      downstream_impact = down;
      imported_by = imported_by;
      risk_level = risk.0;
      risk_summary = risk.1;
    }

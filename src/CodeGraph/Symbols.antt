-- ===== src/CodeGraph/Symbols.antt =====
-- `find_definitions` and `get_context` of `SymbolIndex` in shared/code_graph.py. The queries are
-- parameters.
use simple_claude_code_githu.Prelude.{
  String, Bool, false, not, ◌&&◌, ◌||◌, Option, none, some, List, [], ◌∷◌, ltb, length, str_eq,
  is_empty, ◌==◌, if◌then◌else◌,
}
use simple_claude_code_githu.Prelude.Text.{str_elem}
use simple_claude_code_githu.CodeGraph.{Tag}
use simple_claude_code_githu.CodeGraph.Impact.{sorted_names}

-- What the database answers: the definitions of a name, all its symbols, the scope of a definition,
-- and the names at the other ends of the edges of a table.
pub record Queries : Type 0 where
  pub definitions : String → List Tag
  pub symbols : String → List Tag
  pub resolve_scope : Tag → Option String
  pub edge_targets : String → String → List String
  pub edge_sources : String → String → List String

abbrev def_categories : List String
def_categories = "class" ∷ "function" ∷ "method" ∷ "variable" ∷ "decorator" ∷ []

abbrev of_definition : List Tag → List Tag
of_definition [] = []
of_definition (t ∷ ts) =
    if str_elem t.category def_categories then t ∷ of_definition ts else of_definition ts

-- the equality of the keys of `seen`
same_place : Tag → Tag → Bool
same_place a b = str_eq a.filepath b.filepath && (a.line == b.line) && str_eq a.category b.category

unfoldable pub seen_before : Tag → List Tag → Bool
unfolding same_place
seen_before t [] = false
seen_before t (s ∷ seen) = same_place s t || seen_before t seen

unfoldable pub each_once : List Tag → List Tag → List Tag
unfolding seen_before
each_once seen [] = []
each_once seen (t ∷ ts) =
    let skipped = each_once seen ts in
    let kept = each_once (t ∷ seen) ts in if seen_before t seen then skipped else t ∷ kept

pub find_definitions : Queries → String → List Tag
unfolding each_once
find_definitions q name =
    let tags = q.definitions name in
    each_once [] (if is_empty tags then of_definition (q.symbols name) else tags)

unfoldable pub with_path : String → List Tag → List Tag
with_path file [] = []
with_path file (d ∷ ds) =
    let rest = with_path file ds in if str_eq d.filepath file then d ∷ rest else rest

abbrev only_match : List Tag → List Tag → List Tag
only_match (m ∷ []) definitions = m ∷ []
only_match matches definitions = definitions

-- `if file_hint and len(definitions) > 1`, where a hint counts if it fits one definition
unfoldable pub narrowed : Option String → List Tag → List Tag
unfolding with_path
narrowed none ds = ds
narrowed (some file) ds =
    if not (str_eq file "") && ltb 1 (length ds) then only_match (with_path file ds) ds else ds

pub record Context : Type 0 where
  pub symbol : String
  pub definitions : List Tag
  pub is_ambiguous : Bool
  -- of the one definition, if they are not ambiguous
  pub scope : Option String
  pub calls : List String
  pub called_by : List String
  pub inherits_from : List String
  pub inherited_by : List String

abbrev scope_of_one : Queries → List Tag → Option String
scope_of_one q (d ∷ []) = q.resolve_scope d
scope_of_one q ds = none

-- `None` stands for the error of a symbol that is not found.
pub get_context : Queries → String → Option String → Option Context
unfolding narrowed sorted_names
get_context q symbol_name file_hint =
    let found = find_definitions q symbol_name in
    let definitions = narrowed file_hint found in
    if is_empty found
    then none
    else some (record {
      symbol = symbol_name;
      definitions = definitions;
      is_ambiguous = ltb 1 (length definitions);
      scope = scope_of_one q definitions;
      calls = sorted_names (q.edge_targets symbol_name "calls");
      called_by = sorted_names (q.edge_sources symbol_name "calls");
      inherits_from = sorted_names (q.edge_targets symbol_name "inherits");
      inherited_by = sorted_names (q.edge_sources symbol_name "inherits");
    })

-- ===== src/CodeGraph.antt =====
-- shared/code_graph.py: the call graph of a repository and what a change of some of its symbols
-- affects. The tables of the database are outside: the edges and the definitions that the caches hold
-- are arguments. A set is a list without repetitions; the order in which Python runs over a set is
-- unspecified, and here it is that of the list.
pub mod Symbols
mod Tests
pub mod Levels
pub mod Diff
pub mod Enclosing
pub mod DefinitionMap
pub mod Impact
pub mod Flow
pub mod Changes
use simple_claude_code_githu.Prelude.{
  ℕ, zero, suc, String, Bool, Option, none, some, List, [], ◌∷◌, ◌++◌, if◌then◌else◌, is_empty,
  ◌==◌,
}
use simple_claude_code_githu.Prelude.Text.{str_elem}
use simple_claude_code_githu.Workflows.{Dict, find}

pub record Tag : Type 0 where
  pub name : String
  pub kind : String
  pub category : String
  pub filepath : String
  pub line : ℕ
  pub end_line : ℕ

-- What an edge cache holds for one table: the neighbours of each name.
abbrev pub Edges : Type 0
Edges = Dict (List String)

-- `dict.get(key, [])` and `dict.get(key, set())`
abbrev or_nothing {ℓ} : {A : Type ℓ} → Option (List A) → List A
or_nothing none = []
or_nothing (some xs) = xs

unfoldable pub get_list {ℓ} : {A : Type ℓ} → String → Dict (List A) → List A
unfolding find
get_list key d = or_nothing (find key d)

abbrev or_no_edges : Option Edges → Edges
or_no_edges none = []
or_no_edges (some e) = e

-- `edge_fwd.get("calls", {})`
unfoldable pub table : String → Dict Edges → Edges
unfolding find
table name cache = or_no_edges (find name cache)

-- An entry of an impact.
pub record Item : Type 0 where
  pub name : String
  pub file : String
  pub line : ℕ
  pub kind : String

-- the entries of one name
unfoldable pub items_of : String → List Tag → List Item
items_of n [] = []
items_of n (d ∷ ds) =
    record { name = n; file = d.filepath; line = d.line; kind = d.category } ∷ items_of n ds

-- The local variables of the traversal while it runs over one level.
pub record Level : Type 0 where
  pub visited : List String
  pub next_level : List String
  pub level_items : List Item

-- the body of the innermost loop
unfoldable pub visit : Dict (List Tag) → String → Level → Level
unfolding get_list items_of
visit def_cache source l = if str_elem source l.visited then l else record {
  visited = source ∷ l.visited;
  next_level = l.next_level ++ source ∷ [];
  level_items = l.level_items ++ items_of source (get_list source def_cache);
}

unfoldable pub visit_all : Dict (List Tag) → List String → Level → Level
unfolding visit
visit_all def_cache [] l = l
visit_all def_cache (source ∷ sources) l = visit_all def_cache sources (visit def_cache source l)

-- `for name in current`
unfoldable pub visit_level : Dict (List Tag) → Edges → List String → Level → Level
unfolding visit_all get_list
visit_level def_cache edges [] l = l
visit_level def_cache edges (name ∷ current) l =
    visit_level def_cache edges current (visit_all def_cache (get_list name edges) l)

-- Which entries there are at which depth.
abbrev pub Impact : Type 0
Impact = List (ℕ × List Item)

-- `if level_items: impact[depth] = level_items`
unfoldable pub put_level : ℕ → List Item → Impact → Impact
put_level depth items rest = if is_empty items then rest else (depth, items) ∷ rest

-- The loop over the depths, of which a number is left; it ends when a level has no names.
unfoldable pub levels_from : Dict (List Tag) → Edges → ℕ → ℕ → List String → List String → Impact
unfolding visit_level put_level
levels_from def_cache edges zero depth visited current = []
levels_from def_cache edges (suc left) depth visited current =
    let l =
      visit_level def_cache edges current
        (record { visited = visited; next_level = []; level_items = [] }) in
    let rest = levels_from def_cache edges left (suc depth) l.visited l.next_level in
    put_level depth l.level_items (if is_empty l.next_level then [] else rest)

unfoldable pub bfs : Dict (List Tag) → Edges → List String → ℕ → Impact
unfolding levels_from
bfs def_cache edges seed_names max_depth =
    levels_from def_cache edges max_depth 1 seed_names seed_names

unfoldable pub bfs_upstream : Dict (List Tag) → List String → ℕ → Dict Edges → Impact
unfolding bfs table
bfs_upstream def_cache seed_names max_depth edge_rev =
    bfs def_cache (table "calls" edge_rev) seed_names max_depth

unfoldable pub bfs_downstream : Dict (List Tag) → List String → ℕ → Dict Edges → Impact
unfolding bfs table
bfs_downstream def_cache seed_names max_depth edge_fwd =
    bfs def_cache (table "calls" edge_fwd) seed_names max_depth

-- `impact.get(depth, [])`
unfoldable pub level_at : ℕ → Impact → List Item
level_at depth [] = []
level_at depth ((d, items) ∷ rest) = if d == depth then items else level_at depth rest

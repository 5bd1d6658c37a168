-- ===== src/CodeGraph/Flow.antt =====
-- `trace_flow` and `_build_call_chain` of shared/code_graph.py: the calls that an entry point leads
-- to. The loop over the frontier runs on fuel. The definitions that the database has of the entry
-- point are a parameter.
pub mod Measure
pub mod Ending
use simple_claude_code_githu.Prelude.{
  ℕ, zero, suc, ◌+◌, min, max, String, Bool, true, false, Option, none, some, List, [], ◌∷◌, ◌++◌,
  length, leb, ltb, ◌==◌, ◌||◌, str_eq, is_empty, if◌then◌else◌,
}
use simple_claude_code_githu.Prelude.Text.{str_elem}
use simple_claude_code_githu.Workflows.{Dict}
use simple_claude_code_githu.CodeGraph.{Tag, Edges, get_list, table}
use simple_claude_code_githu.CodeGraph.Impact.{sorted_names}

pub record Step : Type 0 where
  pub name : String
  pub caller : String
  pub file : Option String
  pub line : Option ℕ
  pub kind : String
  pub depth : ℕ

-- The local variables of the traversal.
pub record Trace : Type 0 where
  pub visited : List String
  pub steps : List Step
  pub frontier : List (String × ℕ)

abbrev step_to : String → String → ℕ → List Tag → Step
step_to callee caller depth [] = record {
  name = callee;
  caller = caller;
  file = none;
  line = none;
  kind = "unknown";
  depth = depth;
}
step_to callee caller depth (cd ∷ cds) = record {
  name = callee;
  caller = caller;
  file = some cd.filepath;
  line = some cd.line;
  kind = cd.category;
  depth = depth;
}

-- the body of the loop over the callees
unfoldable pub see_callee : Dict (List Tag) → String → ℕ → String → Trace → Trace
unfolding get_list
see_callee def_cache caller depth callee t = if str_elem callee t.visited then t else record {
  visited = callee ∷ t.visited;
  steps = t.steps ++ step_to callee caller (suc depth) (get_list callee def_cache) ∷ [];
  frontier = t.frontier ++ (callee, suc depth) ∷ [];
}

unfoldable pub see_callees : Dict (List Tag) → String → ℕ → List String → Trace → Trace
unfolding see_callee
see_callees def_cache caller depth [] t = t
see_callees def_cache caller depth (callee ∷ callees) t =
    see_callees def_cache caller depth callees (see_callee def_cache caller depth callee t)

-- what a pass of the loop does with the entry that it took off the frontier
unfoldable pub follow : Dict (List Tag) → Edges → ℕ → String → ℕ → Trace → Trace
unfolding see_callees sorted_names get_list
follow def_cache calls_fwd max_depth name depth t =
    if leb max_depth depth
    then t
    else see_callees def_cache name depth (sorted_names (get_list name calls_fwd)) t

-- `while frontier`
unfoldable pub run_trace : Dict (List Tag) → Edges → ℕ → ℕ → Trace → Option Trace
unfolding follow
run_trace def_cache calls_fwd max_depth zero t = if is_empty t.frontier then some t else none
run_trace def_cache calls_fwd max_depth (suc fuel) t = elim t.frontier [
  | [] ↦ some t
  | (name, depth) ∷ rest ↦
      run_trace def_cache calls_fwd max_depth fuel
        (follow def_cache calls_fwd max_depth name depth (record t { frontier = rest }))
]

-- The names that are called, one for each edge.
unfoldable pub all_callees : Edges → List String
all_callees [] = []
all_callees ((caller, callees) ∷ edges) = callees ++ all_callees edges

-- one pass for the entry point and at most one for each edge
unfoldable pub enough_fuel : Edges → ℕ
unfolding all_callees
enough_fuel calls_fwd = suc (length (all_callees calls_fwd))

mutual
  -- The dict that describes a call chain.
  pub data Chain : Type 0 where
    chain : String → Chains → Bool → Chain

  pub data Chains : Type 0 where
    no_chains : Chains
    also : Chain → Chains → Chains

abbrev chains_of : (String → Chain) → List String → List String → Chains
chains_of build visited [] = no_chains
chains_of build visited (c ∷ cs) =
    if str_elem c visited
    then also (build c) (chains_of build visited cs)
    else chains_of build visited cs

-- The depth that is left, and the names on the path to here: the source adds a name to the set
-- before it goes on to the callees, and takes it out again afterwards.
pub build_call_chain : List String → Edges → ℕ → List String → String → Chain
unfolding sorted_names get_list
build_call_chain visited calls_fwd zero path name = chain name no_chains true
build_call_chain visited calls_fwd (suc left) path name =
    let callees =
      chains_of (build_call_chain visited calls_fwd left (name ∷ path)) visited
        (sorted_names (get_list name calls_fwd)) in
    if str_elem name path then chain name no_chains true else chain name callees false

abbrev any_at : ℕ → List Step → Bool
any_at depth [] = false
any_at depth (s ∷ ss) = (s.depth == depth) || any_at depth ss

pub record Flow : Type 0 where
  pub entry_definition : Tag
  pub steps : List Step
  pub total_steps : ℕ
  pub max_depth_reached : Bool
  pub call_chain : Chain

pub data FlowResult : Type 0 where
  not_found : FlowResult
  ambiguous : List Tag → FlowResult
  -- `definitions[0]` of an empty list
  index_error : FlowResult
  traced : Flow → FlowResult
  -- the fuel did not suffice
  unfinished : FlowResult

unfoldable pub in_file : String → List Tag → List Tag
in_file file [] = []
in_file file (d ∷ ds) =
    let rest = in_file file ds in if str_eq d.filepath file then d ∷ rest else rest

-- `if file_hint:`
unfoldable pub hinted : Option String → List Tag → List Tag
unfolding in_file
hinted none ds = ds
hinted (some file) ds = if str_eq file "" then ds else in_file file ds

unfoldable pub traced_flow : Tag → String → Edges → ℕ → Option Trace → FlowResult
traced_flow d entry_point calls_fwd max_depth none = unfinished
traced_flow d entry_point calls_fwd max_depth (some t) = traced (record {
  entry_definition = d;
  steps = t.steps;
  total_steps = length t.steps;
  max_depth_reached = any_at max_depth t.steps;
  call_chain = build_call_chain t.visited calls_fwd max_depth [] entry_point;
})

-- the traversal from a definition
unfoldable pub trace_definition : Dict (List Tag) → Dict Edges → String → ℕ → Tag → FlowResult
unfolding run_trace traced_flow enough_fuel table
trace_definition def_cache edge_fwd entry_point max_depth d =
    let calls_fwd = table "calls" edge_fwd in
    traced_flow d entry_point calls_fwd max_depth (
      run_trace def_cache calls_fwd max_depth (enough_fuel calls_fwd)
        (record { visited = entry_point ∷ []; steps = []; frontier = (entry_point, 0) ∷ [] }))

unfoldable pub trace_one : Dict (List Tag) → Dict Edges → String → ℕ → List Tag → FlowResult
unfolding trace_definition
trace_one def_cache edge_fwd entry_point max_depth [] = index_error
trace_one def_cache edge_fwd entry_point max_depth (d ∷ []) =
    trace_definition def_cache edge_fwd entry_point max_depth d
trace_one def_cache edge_fwd entry_point max_depth (d ∷ e ∷ ds) = ambiguous (d ∷ e ∷ ds)

pub trace_flow : Dict (List Tag) → Dict Edges → List Tag → String → Option String → ℕ → FlowResult
unfolding trace_one hinted
trace_flow def_cache edge_fwd definitions entry_point file_hint max_depth =
    let result =
      trace_one def_cache edge_fwd entry_point (max 1 (min max_depth 50))
        (hinted file_hint definitions) in
    if is_empty definitions then not_found else result

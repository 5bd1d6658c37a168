-- ===== src/CodeGraph/Flow/Ending.antt =====
-- The traversal of `trace_flow` comes to its end.
use simple_claude_code_githu.Prelude.{
  ℕ, zero, suc, ◌+◌, ◌≤◌, String, ◌≡◌, ◌≢◌, refl, sym, ap, ◌∙◌, false, Option, some, List, [], ◌∷◌,
  length, min, max, str_eq, is_empty, arith,
}
use simple_claude_code_githu.Workflows.{Dict}
use simple_claude_code_githu.CodeGraph.{Tag, Edges, table}
use simple_claude_code_githu.CodeGraph.Flow.{
  Step, Trace, follow, run_trace, all_callees, enough_fuel, traced_flow, unfinished, traced,
  index_error, trace_definition, trace_one, trace_flow, hinted, in_file, Flow,
}
use simple_claude_code_githu.CodeGraph.Flow.Measure.{
  unvisited, measure, follow-measure, unvisited-length,
}

module _ (def_cache : Dict (List Tag)) (calls_fwd : Edges) where
  run_trace-Ends :
      (max_depth fuel : ℕ) (t : Trace)
      → measure calls_fwd t ≤ fuel
      → (final : Trace) × (run_trace def_cache calls_fwd max_depth fuel t ≡ some final)
  unfolding run_trace measure
  run_trace-Ends max_depth fuel t le = go max_depth fuel t.visited t.steps t.frontier le
    where
      go :
          (max_depth fuel : ℕ) (v : List String) (s : List Step) (f : List (String × ℕ))
          → length f + unvisited (all_callees calls_fwd) v ≤ fuel
          → (final : Trace) × (run_trace def_cache calls_fwd max_depth fuel
                (record { visited = v; steps = s; frontier = f })
              ≡ some final)
      go max_depth zero v s [] le = (record { visited = v; steps = s; frontier = [] }, refl)
      go max_depth zero v s (x ∷ f) le = absurd (omega (arith, le))
      go max_depth (suc fuel) v s [] le = (record { visited = v; steps = s; frontier = [] }, refl)
      go max_depth (suc fuel) v s ((name, depth) ∷ f) le =
          let t : Trace = record { visited = v; steps = s; frontier = f } in
          let next = follow def_cache calls_fwd max_depth name depth t in
          go max_depth fuel next.visited next.steps next.frontier
            (omega (arith, le, follow-measure def_cache calls_fwd max_depth name depth t))

enough-measure :
    (calls_fwd : Edges) (entry_point : String)
    → measure calls_fwd
        (record { visited = entry_point ∷ []; steps = []; frontier = (entry_point, 0) ∷ [] })
      ≤ enough_fuel calls_fwd
unfolding measure enough_fuel
enough-measure calls_fwd entry_point =
    omega (arith, unvisited-length (all_callees calls_fwd) (entry_point ∷ []))

trace_definition-Ends :
    (def_cache : Dict (List Tag)) (edge_fwd : Dict Edges) (entry_point : String) (max_depth : ℕ)
    (d : Tag)
    → trace_definition def_cache edge_fwd entry_point max_depth d ≢ unfinished
unfolding trace_definition traced_flow
trace_definition-Ends def_cache edge_fwd entry_point max_depth d e =
    let calls_fwd = table "calls" edge_fwd in
    let (final, ends) =
      run_trace-Ends def_cache calls_fwd max_depth (enough_fuel calls_fwd) _
        (enough-measure calls_fwd entry_point) in
    traced_ends (sym (ap (traced_flow d entry_point calls_fwd max_depth) ends) ∙ e)
  where
    traced_ends : {f : Flow} → traced f ≢ unfinished
    traced_ends h = cc

trace_one-Ends :
    (def_cache : Dict (List Tag)) (edge_fwd : Dict Edges) (entry_point : String) (max_depth : ℕ)
    (ds : List Tag)
    → trace_one def_cache edge_fwd entry_point max_depth ds ≢ unfinished
unfolding trace_one
trace_one-Ends def_cache edge_fwd entry_point max_depth [] e = cc
trace_one-Ends def_cache edge_fwd entry_point max_depth (d ∷ []) e =
    trace_definition-Ends def_cache edge_fwd entry_point max_depth d e
trace_one-Ends def_cache edge_fwd entry_point max_depth (d ∷ c ∷ ds) e = cc

-- The traversal ends whatever the graph is, cycles included: one pass for each call in the graph, and
-- one for the entry point, are enough.
pub trace_flow-Ends :
    (def_cache : Dict (List Tag)) (edge_fwd : Dict Edges) (definitions : List Tag)
    (entry_point : String) (file_hint : Option String) (max_depth : ℕ)
    → trace_flow def_cache edge_fwd definitions entry_point file_hint max_depth ≢ unfinished
unfolding trace_flow
trace_flow-Ends def_cache edge_fwd [] entry_point file_hint max_depth e = cc
trace_flow-Ends def_cache edge_fwd (d ∷ ds) entry_point file_hint max_depth e =
    trace_one-Ends def_cache edge_fwd entry_point (max 1 (min max_depth 50))
      (hinted file_hint (d ∷ ds)) e

-- If the symbol has definitions, but none in the file that is given as a hint, `trace_flow` takes the
-- first entry of an empty list.
pub trace_flow-index_error :
    (def_cache : Dict (List Tag)) (edge_fwd : Dict Edges) (definitions : List Tag)
    (entry_point file : String) (max_depth : ℕ)
    → is_empty definitions ≡ false
    → str_eq file "" ≡ false
    → in_file file definitions ≡ []
    → trace_flow def_cache edge_fwd definitions entry_point (some file) max_depth ≡ index_error
unfolding trace_flow hinted trace_one
trace_flow-index_error def_cache edge_fwd definitions entry_point file max_depth some_defs set
      none_in =
    rw (some_defs, set, none_in) refl

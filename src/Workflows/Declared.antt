-- ===== src/Workflows/Declared.antt =====
-- The filters and the workflows in the lookup tables, against the configuration.
use simple_claude_code_githu.Prelude.{
  String, ◌≡◌, refl, ◌∙◌, ◌&&◌, Option, none, some, List, [], ◌∷◌, str_eq, eq_iff, arith,
  if◌then◌else◌,
}
use simple_claude_code_githu.Json.{Fields, end, field}
use simple_claude_code_githu.Workflows.{
  Dict, Entry, WorkflowConfig, WorkflowEngine, trigger_of, put_filters, find_filters, note_filters,
  register_entries, register_commands, register_workflows, build_engine,
}

abbrev non_empty : Fields → Option Fields
non_empty end = none
non_empty (field k v rest) = some (field k v rest)

-- The last non-empty filters among the entries of a workflow for an event.
entry_filters : String → List Entry → Option Fields
entry_filters event [] = none
entry_filters event (entry ∷ entries) = elim (entry_filters event entries) [
  | some later ↦ some later
  | none ↦
      if str_eq (trigger_of entry).event event then non_empty (trigger_of entry).filters else none
]

-- Those of the workflow with the given name, the last one if several had it.
pub declared_filters : String → String → Dict WorkflowConfig → Option Fields
declared_filters name event [] = none
declared_filters name event ((n, w) ∷ ws) = elim (declared_filters name event ws) [
  | some later ↦ some later
  | none ↦ if str_eq n name then entry_filters event w.triggers.events else none
]

find-put_filters :
    (n e n' e' : String) (fs : Fields) (d : List (String × String × Fields))
    → find_filters n' e' (put_filters n e fs d)
      ≡ (if str_eq n n' && str_eq e e' then some fs else find_filters n' e' d)
unfolding find_filters put_filters
find-put_filters n e n' e' fs [] = refl
find-put_filters n e n' e' fs ((m, g, gs) ∷ d) = ground (
  arith,
  eq_iff m n,
  eq_iff g e,
  eq_iff m n',
  eq_iff g e',
  eq_iff n n',
  eq_iff e e',
  find-put_filters n e n' e' fs d,
)

abbrev or_else : Option Fields → Option Fields → Option Fields
or_else (some n) other = some n
or_else none other = other

find-note_filters :
    (n e n' e' : String) (fs : Fields) (d : List (String × String × Fields))
    → find_filters n' e' (note_filters n e fs d)
      ≡ or_else (if str_eq n n' && str_eq e e' then non_empty fs else none) (find_filters n' e' d)
unfolding note_filters
find-note_filters n e n' e' end d = ground arith
find-note_filters n e n' e' (field k v fs) d =
    find-put_filters n e n' e' (field k v fs) d ∙ ground arith

register_entries-filters :
    (n event name : String) (entries : List Entry) (e : WorkflowEngine)
    → find_filters n event (register_entries name entries e).event_filters
      ≡ or_else
          (if str_eq name n then entry_filters event entries else none)
          (find_filters n event e.event_filters)
unfolding register_entries entry_filters
register_entries-filters n event name [] e = ground arith
register_entries-filters n event name (entry ∷ entries) e =
    register_entries-filters n event name entries _
    ∙ rw
        (find-note_filters name (trigger_of entry).event n event (trigger_of entry).filters
          e.event_filters)
        (ground arith)

register_commands-filters :
    (name : String) (commands : List String) (e : WorkflowEngine)
    → (register_commands name commands e).event_filters ≡ e.event_filters
unfolding register_commands
register_commands-filters name [] e = refl
register_commands-filters name (c ∷ cs) e = register_commands-filters name cs _

register_workflows-filters :
    (n event : String) (ws : Dict WorkflowConfig) (e : WorkflowEngine)
    → find_filters n event (register_workflows ws e).event_filters
      ≡ or_else (declared_filters n event ws) (find_filters n event e.event_filters)
unfolding register_workflows declared_filters
register_workflows-filters n event [] e = refl
register_workflows-filters n event ((name, w) ∷ ws) e =
    register_workflows-filters n event ws _
    ∙ rw (register_commands-filters, register_entries-filters n event name w.triggers.events e)
        (ground arith)

register_entries-workflows :
    (name : String) (entries : List Entry) (e : WorkflowEngine)
    → (register_entries name entries e).workflows ≡ e.workflows
unfolding register_entries
register_entries-workflows name [] e = refl
register_entries-workflows name (entry ∷ entries) e = register_entries-workflows name entries _

register_commands-workflows :
    (name : String) (commands : List String) (e : WorkflowEngine)
    → (register_commands name commands e).workflows ≡ e.workflows
unfolding register_commands
register_commands-workflows name [] e = refl
register_commands-workflows name (c ∷ cs) e = register_commands-workflows name cs _

register_workflows-workflows :
    (ws : Dict WorkflowConfig) (e : WorkflowEngine)
    → (register_workflows ws e).workflows ≡ e.workflows
unfolding register_workflows
register_workflows-workflows [] e = refl
register_workflows-workflows ((name, w) ∷ ws) e =
    register_workflows-workflows ws _
    ∙ register_commands-workflows name w.triggers.commands _
    ∙ register_entries-workflows name w.triggers.events e

pub build_engine-workflows : (ws : Dict WorkflowConfig) → (build_engine ws).workflows ≡ ws
unfolding build_engine
build_engine-workflows ws = register_workflows-workflows ws _

pub build_engine-filters :
    (n event : String) (ws : Dict WorkflowConfig)
    → find_filters n event (build_engine ws).event_filters ≡ declared_filters n event ws
unfolding build_engine find_filters
build_engine-filters n event ws = register_workflows-filters n event ws _ ∙ ground arith

-- ===== src/Workflows.antt =====
-- workflows/engine.py: the workflow configuration, its lookup tables and the routing of events and
-- commands. The YAML text and Pydantic's reading of it are outside: the model begins with the
-- validated `WorkflowsConfig`, less the context, conversation and streaming settings, which no routing
-- reads.
mod Tests
pub mod Names
pub mod Routing
pub mod Declared
pub mod Filters
use Prim.Native.String.{◌++◌ as str_append}
use simple_claude_code_githu.Prelude.{
  ℕ, String, Bool, true, false, not, ◌&&◌, Option, none, some, List, [], ◌∷◌, ◌++◌, str_eq,
  if◌then◌else◌,
}
use simple_claude_code_githu.Prelude.Text.{str_elem}
use simple_claude_code_githu.Json.{Json, null, arr, Items, nil, cons, Fields, end, field}
use simple_claude_code_githu.Json.Equality.{py_in}
use simple_claude_code_githu.Payload.{resolve_path}

-- A dict with string keys, in insertion order.
abbrev pub Dict {ℓ} : Type ℓ → Type ℓ
Dict V = List (String × V)

module _ {ℓ} {V : Type ℓ} where
  unfoldable pub find : String → Dict V → Option V
  find k [] = none
  find k ((j, v) ∷ d) = if str_eq j k then some v else find k d

  unfoldable pub put : String → V → Dict V → Dict V
  put k v [] = (k, v) ∷ []
  put k v ((j, w) ∷ d) = if str_eq j k then (j, v) ∷ d else (j, w) ∷ put k v d

pub record EventTrigger : Type 0 where
  pub event : String
  pub filters : Fields

-- `str | EventTrigger`
pub data Entry : Type 0 where
  event_name : String → Entry
  event_trigger : EventTrigger → Entry

pub record TriggersConfig : Type 0 where
  pub events : List Entry
  pub commands : List String
  pub filters : Fields

pub record PromptConfig : Type 0 where
  pub template : String
  pub system_context : Option String

pub record WorkflowConfig : Type 0 where
  pub triggers : TriggersConfig
  pub prompt : PromptConfig
  pub description : String
  pub skip_self : Bool

-- normalising an entry: `EventTrigger(event=entry)` for a bare name
pub trigger_of : Entry → EventTrigger
trigger_of (event_name name) = record { event = name; filters = end }
trigger_of (event_trigger t) = t

-- `self.workflows`, `_event_map`, `_command_map` and `_event_filters`, whose keys are pairs
pub record WorkflowEngine : Type 0 where
  pub workflows : Dict WorkflowConfig
  pub event_map : Dict (List String)
  pub command_map : Dict String
  pub event_filters : List (String × String × Fields)

-- `self._event_map.setdefault(event, []).append(workflow_name)`
pub subscribe : String → String → Dict (List String) → Dict (List String)
subscribe event name [] = (event, name ∷ []) ∷ []
subscribe event name ((e, names) ∷ d) =
    if str_eq e event then (e, names ++ name ∷ []) ∷ d else (e, names) ∷ subscribe event name d

-- `self._event_filters[(workflow_name, event)] = filters`
pub put_filters :
    String → String → Fields → List (String × String × Fields) → List (String × String × Fields)
put_filters name event filters [] = (name, event, filters) ∷ []
put_filters name event filters ((n, e, fs) ∷ d) =
    if str_eq n name && str_eq e event
    then (n, e, filters) ∷ d
    else (n, e, fs) ∷ put_filters name event filters d

pub find_filters : String → String → List (String × String × Fields) → Option Fields
find_filters name event [] = none
find_filters name event ((n, e, fs) ∷ d) =
    if str_eq n name && str_eq e event then some fs else find_filters name event d

-- `if trigger.filters:`
pub note_filters :
    String → String → Fields → List (String × String × Fields) → List (String × String × Fields)
note_filters name event end d = d
note_filters name event (field k v fs) d = put_filters name event (field k v fs) d

-- The loops of `__init__`.
pub register_entries : String → List Entry → WorkflowEngine → WorkflowEngine
register_entries name [] e = e
register_entries name (entry ∷ entries) e = register_entries name entries (record e {
  event_map = subscribe (trigger_of entry).event name e.event_map;
  event_filters =
      note_filters name (trigger_of entry).event (trigger_of entry).filters e.event_filters;
})

pub register_commands : String → List String → WorkflowEngine → WorkflowEngine
register_commands name [] e = e
register_commands name (command ∷ commands) e =
    register_commands name commands (record e { command_map = put command name e.command_map })

pub register_workflows : Dict WorkflowConfig → WorkflowEngine → WorkflowEngine
register_workflows [] e = e
register_workflows ((name, w) ∷ ws) e =
    register_workflows ws
      (register_commands name w.triggers.commands (register_entries name w.triggers.events e))

pub build_engine : Dict WorkflowConfig → WorkflowEngine
unfolding register_workflows
build_engine workflows =
    register_workflows workflows
      (record { workflows = workflows; event_map = []; command_map = []; event_filters = [] })

-- `if event_type in self._event_map: return list(self._event_map[event_type])`, else `[]`
abbrev pub names_or_nil : Option (List String) → List String
names_or_nil none = []
names_or_nil (some names) = names

-- `event_type` with its action, if that is neither `None` nor empty
unfoldable pub qualified : String → Option String → Option String
qualified event_type none = none
qualified event_type (some action) =
    if str_eq action "" then none else some (str_append event_type (str_append "." action))

abbrev pub first_found : Option (List String) → Option (List String) → List String
first_found (some names) other = names
first_found none other = names_or_nil other

abbrev pub find_qualified : Option String → WorkflowEngine → Option (List String)
find_qualified none e = none
find_qualified (some key) e = find key e.event_map

pub get_workflow_for_event : WorkflowEngine → String → Option String → List String
unfolding qualified
get_workflow_for_event e event_type action =
    first_found (find_qualified (qualified event_type action) e) (find event_type e.event_map)

pub get_workflow_for_command : WorkflowEngine → String → Option String
get_workflow_for_command e command = find command e.command_map

pub should_skip_self : WorkflowEngine → String → String → String → Bool
should_skip_self e workflow_name event_actor bot_username = elim (find workflow_name e.workflows) [
  | none ↦ true
  | some w ↦ w.skip_self && str_eq event_actor bot_username
]

-- `expected if isinstance(expected, list) else [expected]`
pub expected_list : Json → Items
expected_list (arr xs) = xs
expected_list expected = cons expected nil

-- The loop over `filters.items()`; no filters, no objection.
pub all_match : Json → Fields → Bool
all_match payload end = true
all_match payload (field dot_path expected rest) =
    py_in (resolve_path payload dot_path null) (expected_list expected) && all_match payload rest

-- The filters of the event if its key is given and has some, else those of the workflow.
abbrev own_or : Fields → Option Fields → Fields
own_or fallback none = fallback
own_or fallback (some fs) = fs

pub effective_filters : WorkflowEngine → String → WorkflowConfig → Option String → Fields
effective_filters e workflow_name w none = w.triggers.filters
effective_filters e workflow_name w (some key) =
    if str_eq key ""
    then w.triggers.filters
    else own_or w.triggers.filters (find_filters workflow_name key e.event_filters)

pub check_filters : WorkflowEngine → String → Json → Option String → Bool
unfolding all_match effective_filters
check_filters e workflow_name payload event_key = elim (find workflow_name e.workflows) [
  | none ↦ false
  | some w ↦ all_match payload (effective_filters e workflow_name w event_key)
]

-- `list_workflows`
pub list_workflows : Dict WorkflowConfig → Dict String
list_workflows [] = []
list_workflows ((name, w) ∷ ws) =
    (name, if str_eq w.description "" then "No description" else w.description) ∷ list_workflows ws

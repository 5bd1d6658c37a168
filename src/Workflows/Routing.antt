-- ===== src/Workflows/Routing.antt =====
-- The lookup tables against the configuration: who is routed to for an event and for a command.
use simple_claude_code_githu.Prelude.{
  String, ◌≡◌, refl, ◌∙◌, inl, inr, Option, none, some, List, [], ◌∷◌, ◌++◌, str_eq, eq_iff, arith,
  if◌then◌else◌, Bool-cases,
}
use mathlib.Core.List.{append-nil, append_assoc}
use simple_claude_code_githu.Prelude.Text.{str_elem}
use simple_claude_code_githu.Workflows.{
  Dict, find, put, Entry, WorkflowConfig, WorkflowEngine, trigger_of, subscribe, register_entries,
  register_commands, register_workflows, build_engine, names_or_nil, get_workflow_for_command,
  get_workflow_for_event, qualified, first_found, find_qualified,
}

-- The workflow `name`, once for each of its entries for the event.
named_in : String → String → List Entry → List String
named_in event name [] = []
named_in event name (entry ∷ entries) =
    (if str_eq (trigger_of entry).event event then name ∷ [] else []) ++ named_in event name entries

-- All workflows with an entry for the event, in the order of the configuration.
pub subscribers : String → Dict WorkflowConfig → List String
subscribers event [] = []
subscribers event ((name, w) ∷ ws) = named_in event name w.triggers.events ++ subscribers event ws

-- The last workflow that declares the command.
pub last_declaring : String → Dict WorkflowConfig → Option String
last_declaring command [] = none
last_declaring command ((name, w) ∷ ws) = elim (last_declaring command ws) [
  | some later ↦ some later
  | none ↦ if str_elem command w.triggers.commands then some name else none
]

-- A dict entry for a list of names: there is none for the empty list.
abbrev entry_of : List String → Option (List String)
entry_of [] = none
entry_of (n ∷ ns) = some (n ∷ ns)

pub find-put {ℓ} :
    {V : Type ℓ} (k j : String) (v : V) (d : Dict V)
    → find j (put k v d) ≡ (if str_eq k j then some v else find j d)
unfolding find put
find-put k j v [] = refl
find-put k j v ((i, w) ∷ d) = ground (arith, eq_iff i k, eq_iff i j, eq_iff k j, find-put k j v d)

find-subscribe :
    (k e n : String) (d : Dict (List String))
    → find k (subscribe e n d)
      ≡ (if str_eq e k then some (names_or_nil (find k d) ++ n ∷ []) else find k d)
unfolding find subscribe
find-subscribe k e n [] = ground arith
find-subscribe k e n ((j, names) ∷ d) =
    ground (arith, eq_iff e k, eq_iff j e, eq_iff j k, find-subscribe k e n d)

names-entry_of : (l : List String) → names_or_nil (entry_of l) ≡ l
names-entry_of [] = refl
names-entry_of (n ∷ ns) = refl

entry_of-snoc : (l : List String) (n : String) → some (l ++ n ∷ []) ≡ entry_of (l ++ n ∷ [])
entry_of-snoc [] n = refl
entry_of-snoc (x ∷ l) n = refl

subscribe-entry_of :
    (k e n : String) (d : Dict (List String)) (l : List String)
    → find k d ≡ entry_of l
    → find k (subscribe e n d) ≡ entry_of (l ++ (if str_eq e k then n ∷ [] else []))
subscribe-entry_of k e n d l h = elim (Bool-cases (str_eq e k)) [
  | inl same ↦ rw (find-subscribe k e n d, same, h, names-entry_of l) (entry_of-snoc l n)
  | inr other ↦ rw (find-subscribe k e n d, other, append-nil l) h
]

register_entries-event :
    (k name : String) (entries : List Entry) (e : WorkflowEngine) (l : List String)
    → find k e.event_map ≡ entry_of l
    → find k (register_entries name entries e).event_map ≡ entry_of (l ++ named_in k name entries)
unfolding register_entries named_in
register_entries-event k name [] e l h = rw (append-nil l) h
register_entries-event k name (entry ∷ entries) e l h =
    rw
      (← append_assoc l (if str_eq (trigger_of entry).event k then name ∷ [] else [])
        (named_in k name entries))
      (register_entries-event k name entries _ _
        (subscribe-entry_of k (trigger_of entry).event name e.event_map l h))

register_commands-event :
    (name : String) (commands : List String) (e : WorkflowEngine)
    → (register_commands name commands e).event_map ≡ e.event_map
unfolding register_commands
register_commands-event name [] e = refl
register_commands-event name (c ∷ cs) e = register_commands-event name cs _

register_workflows-event :
    (k : String) (ws : Dict WorkflowConfig) (e : WorkflowEngine) (l : List String)
    → find k e.event_map ≡ entry_of l
    → find k (register_workflows ws e).event_map ≡ entry_of (l ++ subscribers k ws)
unfolding register_workflows subscribers
register_workflows-event k [] e l h = rw (append-nil l) h
register_workflows-event k ((name, w) ∷ ws) e l h =
    rw (← append_assoc l (named_in k name w.triggers.events) (subscribers k ws)) (
      register_workflows-event k ws _ _
        (rw register_commands-event (register_entries-event k name w.triggers.events e l h)))

-- The event map holds, for every event, the workflows that the configuration subscribes to it.
event_map-subscribers :
    (k : String) (ws : Dict WorkflowConfig)
    → find k (build_engine ws).event_map ≡ entry_of (subscribers k ws)
unfolding build_engine
event_map-subscribers k ws = register_workflows-event k ws _ [] (unfold find in refl)

-- the workflows for a key, if there are any, and else those for another
abbrev pub prefer : List String → List String → List String
prefer [] other = other
prefer (n ∷ ns) other = n ∷ ns

-- the key with the action, or no subscribers where there is no action
abbrev pub qualified_subscribers : Option String → Dict WorkflowConfig → List String
qualified_subscribers none ws = []
qualified_subscribers (some key) ws = subscribers key ws

preferred : (a b : List String) → first_found (entry_of a) (entry_of b) ≡ prefer a b
preferred [] b = names-entry_of b
preferred (n ∷ ns) b = refl

-- An event with an action goes to the workflows subscribed to `type.action`, in the order of the
-- configuration and once for each of their entries; if there are none, or no action, it goes to
-- those subscribed to the bare `type`.
pub get_workflow_for_event-subscribers :
    (ws : Dict WorkflowConfig) (event_type : String) (action : Option String)
    → get_workflow_for_event (build_engine ws) event_type action
      ≡ prefer (qualified_subscribers (qualified event_type action) ws) (subscribers event_type ws)
unfolding get_workflow_for_event
get_workflow_for_event-subscribers ws event_type action = by_key (qualified event_type action)
  where
    by_key :
        (key : Option String)
        → first_found
            (find_qualified key (build_engine ws))
            (find event_type (build_engine ws).event_map)
          ≡ prefer (qualified_subscribers key ws) (subscribers event_type ws)
    by_key none = rw (event_map-subscribers event_type ws) (names-entry_of _)
    by_key (some key) =
        rw (event_map-subscribers event_type ws, event_map-subscribers key ws)
          (preferred (subscribers key ws) (subscribers event_type ws))

register_entries-command :
    (name : String) (entries : List Entry) (e : WorkflowEngine)
    → (register_entries name entries e).command_map ≡ e.command_map
unfolding register_entries
register_entries-command name [] e = refl
register_entries-command name (entry ∷ entries) e = register_entries-command name entries _

register_commands-command :
    (c name : String) (commands : List String) (e : WorkflowEngine)
    → find c (register_commands name commands e).command_map
      ≡ (if str_elem c commands then some name else find c e.command_map)
unfolding register_commands str_elem
register_commands-command c name [] e = refl
register_commands-command c name (d ∷ ds) e =
    register_commands-command c name ds (record e { command_map = put d name e.command_map })
    ∙ ground (arith, find-put d c name e.command_map)

abbrev or_else : Option String → Option String → Option String
or_else (some n) other = some n
or_else none other = other

register_workflows-command :
    (c : String) (ws : Dict WorkflowConfig) (e : WorkflowEngine)
    → find c (register_workflows ws e).command_map
      ≡ or_else (last_declaring c ws) (find c e.command_map)
unfolding register_workflows last_declaring
register_workflows-command c [] e = refl
register_workflows-command c ((name, w) ∷ ws) e =
    register_workflows-command c ws _
    ∙ rw
        (
          register_commands-command c name w.triggers.commands
              (register_entries name w.triggers.events e),
          register_entries-command,
        )
        (ground arith)

-- A command goes to the last workflow of the configuration that declares it, and to none if no
-- workflow does.
pub get_workflow_for_command-last :
    (ws : Dict WorkflowConfig) (command : String)
    → get_workflow_for_command (build_engine ws) command ≡ last_declaring command ws
unfolding get_workflow_for_command build_engine find
get_workflow_for_command-last ws command = register_workflows-command command ws _ ∙ ground arith

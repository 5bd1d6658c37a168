-- ===== src/Workflows/Filters.antt =====
-- Which payloads pass the filters, stated over the configuration, and what becomes of a name that
-- it does not have.
use simple_claude_code_githu.Prelude.{
  String, ◌≡◌, ◌↔◌, refl, ap, ◌∙◌, Bool, true, false, ◌&&◌, Option, none, some, str_eq, eq_iff,
  arith, if◌then◌else◌,
}
use simple_claude_code_githu.Json.{Json, null, Fields, end, field}
use simple_claude_code_githu.Json.Equality.{py_in}
use simple_claude_code_githu.Payload.{resolve_path}
use simple_claude_code_githu.Workflows.Declared.{
  declared_filters, build_engine-workflows, build_engine-filters,
}
use simple_claude_code_githu.Workflows.{
  Dict, find, WorkflowConfig, build_engine, expected_list, all_match, own_or, effective_filters,
  check_filters, should_skip_self,
}

-- The filter stands in the dict.
pub data Listed (path : String) (expected : Json) : Fields → Type 0 where
  here : {rest : Fields} → Listed path expected (field path expected rest)
  there :
      {k : String} {v : Json} {rest : Fields}
      → Listed path expected rest
      → Listed path expected (field k v rest)

-- The value at the path is one of the expected ones.
abbrev pub Passes : Json → String → Json → Type 0
Passes payload path expected =
    py_in (resolve_path payload path null) (expected_list expected) ≡ true

and_parts : (a b : Bool) → (a && b) ≡ true → (a ≡ true) × (b ≡ true)
and_parts a b h = ground arith

and_true : (a b : Bool) → a ≡ true → b ≡ true → (a && b) ≡ true
and_true a b h k = ground arith

all_match-Listed :
    (payload : Json) (fs : Fields) {path : String} {expected : Json}
    → all_match payload fs ≡ true
    → Listed path expected fs
    → Passes payload path expected
unfolding all_match
all_match-Listed payload end h l = elim l [ ]
all_match-Listed payload (field k v rest) h here = (and_parts _ _ h).0
all_match-Listed payload (field k v rest) h (there l) =
    all_match-Listed payload rest ((and_parts _ _ h).1) l

all_match_intro :
    (payload : Json) (fs : Fields)
    → ((path : String) (expected : Json) → Listed path expected fs → Passes payload path expected)
    → all_match payload fs ≡ true
unfolding all_match
all_match_intro payload end h = refl
all_match_intro payload (field k v rest) h =
    and_true _ _ (h k v here)
      (all_match_intro payload rest (λ path expected l. h path expected (there l)))

-- The filters that count for an event key: those that the configuration gives the event, if it
-- gives it some, and else those of the workflow.
abbrev pub filters_in_force : Dict WorkflowConfig → String → WorkflowConfig → Option String → Fields
filters_in_force ws name w none = w.triggers.filters
filters_in_force ws name w (some key) =
    if str_eq key ""
    then w.triggers.filters
    else own_or w.triggers.filters (declared_filters name key ws)

in_force :
    (ws : Dict WorkflowConfig) (name : String) (w : WorkflowConfig) (key : Option String)
    → effective_filters (build_engine ws) name w key ≡ filters_in_force ws name w key
unfolding effective_filters
in_force ws name w none = refl
in_force ws name w (some key) = rw (build_engine-filters name key ws) refl

found_in :
    (ws : Dict WorkflowConfig) (name : String)
    → find name (build_engine ws).workflows ≡ find name ws
found_in ws name = ap (find name) (build_engine-workflows ws)

check_filters_run :
    (ws : Dict WorkflowConfig) (name : String) (w : WorkflowConfig) (payload : Json)
    (key : Option String)
    → find name ws ≡ some w
    → check_filters (build_engine ws) name payload key
      ≡ all_match payload (filters_in_force ws name w key)
unfolding check_filters
check_filters_run ws name w payload key h =
    rw (found_in ws name ∙ h, check_filters) (ap (all_match payload) (in_force ws name w key))

-- A payload passes the filters of a configured workflow exactly when each filter in force finds,
-- at its path, one of its expected values.
pub check_filters_iff :
    (ws : Dict WorkflowConfig) (name : String) (w : WorkflowConfig) (payload : Json)
    (key : Option String)
    → find name ws ≡ some w
    → (check_filters (build_engine ws) name payload key ≡ true) ↔ (
        (path : String) (expected : Json)
        → Listed path expected (filters_in_force ws name w key)
        → Passes payload path expected)
check_filters_iff ws name w payload key h =
    rw (check_filters_run ws name w payload key h)
      (λ ok path expected l. all_match-Listed payload _ ok l, λ all. all_match_intro payload _ all)

-- A name that the configuration does not have never runs: its filters fail, and its events are
-- skipped, whoever causes them.
pub unknown_workflow :
    (ws : Dict WorkflowConfig) (name actor bot : String) (payload : Json) (key : Option String)
    → find name ws ≡ none
    → (check_filters (build_engine ws) name payload key ≡ false)
      × (should_skip_self (build_engine ws) name actor bot ≡ true)
unfolding check_filters should_skip_self
unknown_workflow ws name actor bot payload key h = (
  rw (found_in ws name ∙ h, check_filters) refl,
  rw (found_in ws name ∙ h, should_skip_self) refl,
)

-- An event of a configured workflow is skipped exactly when the workflow skips the bot's own events
-- and the actor is the bot.
pub should_skip_self_iff :
    (ws : Dict WorkflowConfig) (name actor bot : String) (w : WorkflowConfig)
    → find name ws ≡ some w
    → (should_skip_self (build_engine ws) name actor bot ≡ true)
      ↔ ((w.skip_self ≡ true) × (actor ≡ bot))
unfolding should_skip_self
should_skip_self_iff ws name actor bot w h =
    rw (found_in ws name ∙ h, should_skip_self)
      (λ e. ground (arith, eq_iff actor bot), λ e. ground (arith, eq_iff actor bot))

-- ===== src/Workflows/Tests.antt =====
-- The workflow engine on a small configuration.
use simple_claude_code_githu.Prelude.{String, ◌≡◌, ◌↔◌, refl, true, false, none, some, [], ◌∷◌, All}
use simple_claude_code_githu.Json.{Json, str, arr, obj, end, field, nil, cons}
use simple_claude_code_githu.Workflows.{
  Dict, find, event_name, event_trigger, WorkflowConfig, build_engine, qualified,
  get_workflow_for_event, check_filters,
}
use simple_claude_code_githu.Workflows.Routing.{
  subscribers, prefer, qualified_subscribers, get_workflow_for_event-subscribers,
}
use simple_claude_code_githu.Workflows.Filters.{Listed, Passes, filters_in_force, check_filters_iff}
use simple_claude_code_githu.Workflows.Names.{
  IsValid, validate_workflow_names, validate_workflow_names_iff, check_name, invalid, reserved,
}

abbrev review : WorkflowConfig
review = record {
  triggers = record {
    events =
        event_name "pull_request.opened"
        ∷ event_trigger (record {
          event = "check_run";
          filters = field "check_run.conclusion" (arr (cons (str "failure") nil)) end;
        })
        ∷ [];
    commands = "/review" ∷ [];
    filters = end;
  };
  prompt = record { template = "Review {repo}"; system_context = none };
  description = "";
  skip_self = true;
}

abbrev triage : WorkflowConfig
triage = record {
  triggers = record {
    events = event_name "issues" ∷ event_name "pull_request.opened" ∷ [];
    commands = "/triage" ∷ "/review" ∷ [];
    filters = end;
  };
  prompt = record { template = "Triage {repo}"; system_context = none };
  description = "Triage";
  skip_self = false;
}

abbrev workflows : Dict WorkflowConfig
workflows = ("review-pr", review) ∷ ("triage-issue", triage) ∷ []

get_workflow_for_event-subscribers_example :
    get_workflow_for_event (build_engine workflows) "issues" (some "opened")
    ≡ prefer
        (qualified_subscribers (qualified "issues" (some "opened")) workflows)
        (subscribers "issues" workflows)
get_workflow_for_event-subscribers_example =
    get_workflow_for_event-subscribers workflows "issues" (some "opened")

abbrev failure : Json
failure = obj (field "check_run" (obj (field "conclusion" (str "failure") end)) end)

check_filters_iff_example :
    (check_filters (build_engine workflows) "review-pr" failure (some "check_run") ≡ true) ↔ (
      (path : String) (expected : Json)
      → Listed path expected (filters_in_force workflows "review-pr" review (some "check_run"))
      → Passes failure path expected)
unfolding find
check_filters_iff_example =
    check_filters_iff workflows "review-pr" review failure (some "check_run") refl

validate_workflow_names_iff_example :
    (validate_workflow_names ("review-pr" ∷ "fix-ci" ∷ []) ≡ none)
    ↔ All IsValid ("review-pr" ∷ "fix-ci" ∷ [])
validate_workflow_names_iff_example = validate_workflow_names_iff ("review-pr" ∷ "fix-ci" ∷ [])

-- A newline at the end passes, and turns a reserved name into a free one.
names_checked :
    (check_name "review-pr" ≡ none)
    × (check_name "-review" ≡ some invalid)
    × (check_name "test" ≡ some reserved)
    × (check_name "test\n" ≡ none)
unfolding check_name
names_checked = (refl, refl, refl, refl)

-- ===== src/Webhook/Rules.antt =====
-- The rules of services/webhook/extraction_rules.py, with the types of their entries from
-- services/webhook/payload_extractor.py.
use simple_claude_code_githu.Prelude.{String, Bool, true, false, Option, none, some, [], ◌∷◌, ◌++◌}
use simple_claude_code_githu.Json.{Json, null}
use simple_claude_code_githu.Workflows.{Dict}

pub record ExtractionRule : Type 0 where
  pub path : String
  pub required : Bool
  pub default : Json

pub record EventExtractionConfig : Type 0 where
  pub issue_number : Option ExtractionRule
  pub ref : Option ExtractionRule
  pub user : ExtractionRule
  pub extra : Dict ExtractionRule

-- `ExtractionRule(path=path)`, and with `required=True`
abbrev pub rule : String → ExtractionRule
rule path = record { path = path; required = false; default = null }

abbrev pub required : String → ExtractionRule
required path = record { path = path; required = true; default = null }

-- the default of `EventExtractionConfig.user`
abbrev sender_login : ExtractionRule
sender_login = rule "sender.login"

abbrev pub config :
    Option ExtractionRule
    → Option ExtractionRule
    → ExtractionRule
    → Dict ExtractionRule
    → EventExtractionConfig
config issue_number ref user extra = record {
  issue_number = issue_number;
  ref = ref;
  user = user;
  extra = extra;
}

-- Pull request events
pull_request_rules : Dict EventExtractionConfig
pull_request_rules =
    (
      "pull_request",
      config (some (required "pull_request.number")) (some (rule "pull_request.number"))
          (rule "pull_request.user.login") ([]),
    )
    ∷ (
      "pull_request_review",
      config (some (required "pull_request.number")) (some (rule "pull_request.number"))
          (rule "review.user.login") ([]),
    )
    ∷ (
      "pull_request_review_comment",
      config (some (required "pull_request.number")) (some (rule "pull_request.number"))
          (rule "comment.user.login") ([]),
    )
    ∷ (
      "pull_request_review_thread",
      config (some (required "pull_request.number")) (some (rule "pull_request.number"))
          (sender_login) ([]),
    )
    ∷ []

-- Issue events
issue_rules : Dict EventExtractionConfig
issue_rules =
    ("issues", config (some (required "issue.number")) (none) (rule "issue.user.login") ([]))
    ∷ (
      "issue_comment",
      config (some (required "issue.number")) (none) (rule "comment.user.login") ([]),
    )
    ∷ (
      "sub_issues",
      config (some (rule "sub_issue.number")) (none) (sender_login)
          (("parent_issue_number", rule "parent_issue.number") ∷ []),
    )
    ∷ []

-- Discussion events
discussion_rules : Dict EventExtractionConfig
discussion_rules =
    (
      "discussion",
      config (some (rule "discussion.number")) (none) (rule "discussion.user.login") ([]),
    )
    ∷ (
      "discussion_comment",
      config (some (rule "discussion.number")) (none) (rule "comment.user.login") ([]),
    )
    ∷ []

-- CI/CD events
ci_rules : Dict EventExtractionConfig
ci_rules =
    (
      "workflow_job",
      config (some (rule "workflow_job.run_id")) (some (rule "workflow_job.head_branch"))
          (sender_login)
          (("run_id", rule "workflow_job.run_id")
            ∷ ("workflow_name_gh", rule "workflow_job.workflow_name")
            ∷ ("job_name", rule "workflow_job.name")
            ∷ ("conclusion", rule "workflow_job.conclusion")
            ∷ ("head_branch", rule "workflow_job.head_branch")
            ∷ []),
    )
    ∷ (
      "workflow_run",
      config (some (rule "workflow_run.id")) (some (rule "workflow_run.head_branch")) (sender_login)
          (("run_id", rule "workflow_run.id")
            ∷ ("workflow_name_gh", rule "workflow_run.name")
            ∷ ("conclusion", rule "workflow_run.conclusion")
            ∷ ("head_branch", rule "workflow_run.head_branch")
            ∷ []),
    )
    ∷ (
      "workflow_dispatch",
      config (none) (some (rule "ref")) (sender_login)
          (("workflow", rule "workflow") ∷ ("inputs", rule "inputs") ∷ []),
    )
    ∷ (
      "check_run",
      config (some (rule "check_run.check_suite.id"))
          (some (rule "check_run.check_suite.head_branch")) (sender_login)
          (("run_id", rule "check_run.id")
            ∷ ("conclusion", rule "check_run.conclusion")
            ∷ ("head_branch", rule "check_run.check_suite.head_branch")
            ∷ []),
    )
    ∷ (
      "check_suite",
      config (none) (some (rule "check_suite.head_branch")) (sender_login) (
          ("head_branch", rule "check_suite.head_branch")
          ∷ ("conclusion", rule "check_suite.conclusion")
          ∷ []),
    )
    ∷ (
      "status",
      config (none) (none) (sender_login) (
          ("state", rule "state")
          ∷ ("sha", rule "sha")
          ∷ ("context", rule "context")
          ∷ ("description", rule "description")
          ∷ []),
    )
    ∷ []

-- Repository events
repository_rules : Dict EventExtractionConfig
repository_rules =
    (
      "release",
      config (none) (some (rule "release.tag_name")) (sender_login) (
          ("tag_name", rule "release.tag_name")
          ∷ ("release_name", rule "release.name")
          ∷ ("release_body", rule "release.body")
          ∷ []),
    )
    ∷ ("push", config (none) (some (rule "ref")) (sender_login) ([]))
    ∷ (
      "create",
      config (none) (some (rule "ref")) (sender_login) (("ref_type", rule "ref_type") ∷ []),
    )
    ∷ (
      "delete",
      config (none) (some (rule "ref")) (sender_login) (("ref_type", rule "ref_type") ∷ []),
    )
    ∷ (
      "commit_comment",
      config (none) (none) (rule "comment.user.login")
          (("commit_id", rule "comment.commit_id") ∷ []),
    )
    ∷ (
      "repository_dispatch",
      config (none) (some (rule "branch")) (sender_login)
          (("client_payload", rule "client_payload") ∷ []),
    )
    ∷ (
      "deployment",
      config (none) (some (rule "deployment.ref")) (sender_login)
          (("environment", rule "deployment.environment") ∷ []),
    )
    ∷ (
      "deployment_status",
      config (none) (some (rule "deployment.ref")) (sender_login) (
          ("environment", rule "deployment.environment")
          ∷ ("state", rule "deployment_status.state")
          ∷ []),
    )
    ∷ []

-- Repo management events
repo_management_rules : Dict EventExtractionConfig
repo_management_rules =
    (
      "label",
      config (none) (none) (sender_login)
          (("label_name", rule "label.name") ∷ ("label_color", rule "label.color") ∷ []),
    )
    ∷ (
      "milestone",
      config (none) (none) (sender_login) (("milestone_title", rule "milestone.title") ∷ []),
    )
    ∷ ("star", config (none) (none) (sender_login) ([]))
    ∷ ("watch", config (none) (none) (sender_login) ([]))
    ∷ (
      "fork",
      config (none) (none) (sender_login) (("fork_full_name", rule "forkee.full_name") ∷ []),
    )
    ∷ ("gollum", config (none) (none) (sender_login) (("pages", rule "pages") ∷ []))
    ∷ ("repository", config (none) (none) (sender_login) ([]))
    ∷ ("branch_protection_configuration", config (none) (none) (sender_login) ([]))
    ∷ (
      "branch_protection_rule",
      config (none) (none) (sender_login) (("rule_name", rule "rule.name") ∷ []),
    )
    ∷ ("member", config (none) (none) (sender_login) (("member_login", rule "member.login") ∷ []))
    ∷ ("team", config (none) (none) (sender_login) ([]))
    ∷ ("organization", config (none) (none) (sender_login) ([]))
    ∷ ("installation", config (none) (none) (sender_login) ([]))
    ∷ ("installation_repositories", config (none) (none) (sender_login) ([]))
    ∷ ("ping", config (none) (none) (sender_login) ([]))
    ∷ ("package", config (none) (none) (sender_login) ([]))
    ∷ (
      "merge_group",
      config (none) (some (rule "merge_group.head_ref")) (sender_login) (
          ("head_sha", rule "merge_group.head_sha")
          ∷ ("base_ref", rule "merge_group.base_ref")
          ∷ []),
    )
    ∷ []

-- Security events
security_rules : Dict EventExtractionConfig
security_rules =
    (
      "secret_scanning_alert",
      config (none) (none) (sender_login) (("alert_number", rule "alert.number") ∷ []),
    )
    ∷ (
      "dependabot_alert",
      config (none) (none) (sender_login) (("alert_number", rule "alert.number") ∷ []),
    )
    ∷ (
      "code_scanning_alert",
      config (none) (none) (sender_login) (("alert_number", rule "alert.number") ∷ []),
    )
    ∷ []

-- `EXTRACTION_RULES`
unfoldable pub extraction_rules : Dict EventExtractionConfig
unfolding pull_request_rules issue_rules discussion_rules ci_rules repository_rules
    repo_management_rules security_rules
extraction_rules =
    pull_request_rules
    ++ (issue_rules
        ++ (discussion_rules
            ++ (ci_rules ++ (repository_rules ++ (repo_management_rules ++ security_rules)))))

-- ===== src/RepoSetup/Tests.antt =====
-- A set-up of three commands, the second of which fails.
use simple_claude_code_githu.Prelude.{
  ℕ, zero, suc, String, ◌≡◌, ◌↔◌, refl, true, none, some, [], ◌∷◌,
}
use simple_claude_code_githu.Workflows.{Dict}
use simple_claude_code_githu.RepoSetup.{
  RepoConfig, SetupResult, Execution, exited, code_of, run_setup, command_env,
}
use simple_claude_code_githu.RepoSetup.Running.{AllSucceeded, run_setup-AllSucceeded}

abbrev config : RepoConfig
config = record {
  setup_commands = "npm ci" ∷ "npm test" ∷ "npm run build" ∷ [];
  timeout = 300;
  env = some (("PATH", "bin:$PATH") ∷ []);
  stop_on_failure = true;
}

abbrev environ : Dict String
environ = ("PATH", "/usr/bin") ∷ []

abbrev clock : ℕ → ℕ
clock i = 10

abbrev execute : Dict String → ℕ → String → ℕ → Execution
execute env zero cmd seconds = exited (code_of 0) "" ""
execute env (suc i) cmd seconds = exited (code_of 1) "" "no tests"

abbrev run : SetupResult
run = run_setup config 0 clock execute environ none

path_extended : command_env environ config none ≡ ("PATH", "bin:/usr/bin") ∷ []
unfolding command_env
path_extended = refl

run_setup-AllSucceeded_example :
    (run.all_successful ≡ true) ↔ AllSucceeded config.setup_commands run.results
run_setup-AllSucceeded_example = run_setup-AllSucceeded config 0 clock execute environ none

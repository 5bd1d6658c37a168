-- ===== src/RepoSetup.antt =====
-- repo_setup/engine.py: the choice of the set-up for a repository and the run of its commands. The
-- YAML text and Pydantic's reading of it are outside, as are the processes: what a command does and
-- the readings of the clock are parameters. Exit codes below zero are those of a process that a signal
-- killed.
mod Tests
pub mod Running
use Prim.Native.Char.{Char, code}
use Prim.Native.String.{◌++◌}
use simple_claude_code_githu.Prelude.{
  ℕ, zero, suc, ◌+◌, ◌-◌, String, Bool, true, false, not, ◌&&◌, ◌||◌, Option, none, some, List, [],
  ◌∷◌, leb, str_eq, is_empty, length, if◌then◌else◌, ◌==◌,
}
use simple_claude_code_githu.Workflows.{Dict, find, put}

pub record RepoConfig : Type 0 where
  pub setup_commands : List String
  pub timeout : ℕ
  pub env : Option (Dict String)
  pub stop_on_failure : Bool

pub record DefaultConfig : Type 0 where
  pub enabled : Bool
  pub setup_commands : List String
  pub timeout : ℕ
  pub env : Option (Dict String)
  pub stop_on_failure : Bool

pub record RepoSetupConfig : Type 0 where
  pub repositories : Dict RepoConfig
  pub default : DefaultConfig

-- the part of `get_setup_config` for a repository that is not listed
pub default_config : DefaultConfig → Option RepoConfig
default_config d =
    if d.enabled && not (is_empty d.setup_commands)
    then some (record {
      setup_commands = d.setup_commands;
      timeout = d.timeout;
      env = d.env;
      stop_on_failure = d.stop_on_failure;
    })
    else none

abbrev listed_or : Option RepoConfig → DefaultConfig → Option RepoConfig
unfolding default_config
listed_or (some c) d = some c
listed_or none d = default_config d

pub get_setup_config : RepoSetupConfig → String → Option RepoConfig
unfolding find default_config
get_setup_config c repo = listed_or (find repo c.repositories) c.default

pub list_configured_repos : Dict RepoConfig → List String
list_configured_repos [] = []
list_configured_repos ((name, c) ∷ rest) = name ∷ list_configured_repos rest

-- What became of a process within its time, and how it ended.
pub data ExitCode : Type 0 where
  code_of signal : ℕ → ExitCode

pub data Execution : Type 0 where
  exited : ExitCode → String → String → Execution
  timed_out : Execution
  os_error memory_error : String → Execution
  other_error : String → String → Execution

-- The dict that describes the result of a command, with `none` for the keys that are absent.
pub record CommandResult : Type 0 where
  pub command : String
  pub success : Bool
  pub exit_code : Option ExitCode
  pub output : Option (String × String)
  pub error : Option String
  pub error_category : Option String
  pub error_type : Option String
  pub timeout : Option ℕ

abbrev is_zero : ExitCode → Bool
is_zero (code_of n) = n == 0
is_zero (signal n) = false

abbrev ran : String → ExitCode → String → String → CommandResult
ran cmd returncode stdout stderr = record {
  command = cmd;
  success = is_zero returncode;
  exit_code = some returncode;
  output = some (stdout, stderr);
  error = none;
  error_category = none;
  error_type = none;
  timeout = none;
}

abbrev broken : String → String → String → Option String → Option ℕ → CommandResult
broken cmd error category error_type seconds = record {
  command = cmd;
  success = false;
  exit_code = none;
  output = none;
  error = some error;
  error_category = some category;
  error_type = error_type;
  timeout = seconds;
}

-- `_run_command`, from what the process did in the seconds that it had
pub run_command : String → ℕ → Execution → CommandResult
run_command cmd seconds (exited returncode stdout stderr) = ran cmd returncode stdout stderr
run_command cmd seconds timed_out = broken cmd "timeout" "timeout" none (some seconds)
run_command cmd seconds (os_error text) = broken cmd text "os_error" (some "OSError") none
run_command cmd seconds (memory_error text) =
    broken cmd text "resource_exhaustion" (some "MemoryError") none
run_command cmd seconds (other_error kind text) = broken cmd text "unknown" (some kind) none

-- the result of a command for which no time is left
pub out_of_time : String → CommandResult
out_of_time cmd = record {
  command = cmd;
  success = false;
  exit_code = none;
  output = none;
  error = some "timeout";
  error_category = none;
  error_type = none;
  timeout = none;
}

-- `pattern in s`
unfoldable pub starts_with : String → String → Bool
starts_with String.[] s = true
starts_with (String.◌∷◌ p ps) String.[] = false
starts_with (String.◌∷◌ p ps) (String.◌∷◌ c s) = (code p == code c) && starts_with ps s

unfoldable pub contains : String → String → Bool
unfolding starts_with
contains pattern String.[] = starts_with pattern ""
contains pattern (String.◌∷◌ c s) = starts_with pattern (String.◌∷◌ c s) || contains pattern s

-- `s.replace("$PATH", by)`, where `skip` characters of a match are still to be passed over: four
-- after its first one
replace_path : String → ℕ → String → String
unfolding starts_with
replace_path by skip String.[] = ""
replace_path by zero (String.◌∷◌ c s) =
    let found = by ++ replace_path by 4 s in
    let kept = String.◌∷◌ c (replace_path by 0 s) in
    if starts_with "$PATH" (String.◌∷◌ c s) then found else kept
replace_path by (suc skip) (String.◌∷◌ c s) = replace_path by skip s

abbrev or_empty_text : Option String → String
or_empty_text none = ""
or_empty_text (some s) = s

-- One entry of `config.env`, and all of them; `$PATH` stands for the path so far.
add_variable : String → String → Dict String → Dict String
unfolding contains replace_path find put
add_variable key value env =
    if str_eq key "PATH" && contains "$PATH" value
    then put key (replace_path (or_empty_text (find "PATH" env)) 0 value) env
    else put key value env

add_variables : Dict String → Dict String → Dict String
unfolding add_variable
add_variables [] env = env
add_variables ((key, value) ∷ rest) env = add_variables rest (add_variable key value env)

abbrev with_custom : Option (Dict String) → Dict String → Dict String
unfolding add_variables
with_custom none env = env
with_custom (some vars) env = add_variables vars env

abbrev with_cache : Option String → Dict String → Dict String
with_cache none env = env
with_cache (some directory) env = put "FAST_CACHE" directory env

-- The environment of the commands: `fast_cache` is the directory on the fast volume, where there is one.
pub command_env : Dict String → RepoConfig → Option String → Dict String
unfolding add_variables put
command_env environ c fast_cache = with_cache fast_cache (with_custom c.env environ)

-- What `run_setup` returns.
pub record SetupResult : Type 0 where
  pub results : List CommandResult
  pub all_successful : Bool
  pub elapsed_seconds : Option ℕ
  pub skipped : Bool

-- After a command: with its success, and with `stop_on_failure`. What follows counts unless the loop
-- is left.
abbrev pub settle :
    Bool → Bool → CommandResult → List CommandResult × Bool → List CommandResult × Bool
settle true stop r rest = (r ∷ rest.0, rest.1)
settle false true r rest = (r ∷ [], false)
settle false false r rest = (r ∷ rest.0, false)

-- The `i`-th reading of the clock comes before the `i`-th command, and the one after the last result
-- comes when the loop is left. What a command does may depend on the seconds that it is given.
module _ (c : RepoConfig) (start : ℕ) (clock : ℕ → ℕ) (execute : ℕ → String → ℕ → Execution) where
  -- The loop from the `i`-th command on: the results and `all_successful`.
  pub run_commands : ℕ → List String → List CommandResult × Bool
  unfolding run_command out_of_time
  run_commands i [] = ([], true)
  run_commands i (cmd ∷ cmds) =
      let rest = run_commands (suc i) cmds in
      let elapsed = clock i - start in
      if leb c.timeout elapsed
      then (out_of_time cmd ∷ [], false)
      else (let seconds = c.timeout - elapsed in
          let r = run_command cmd seconds (execute i cmd seconds) in
          settle r.success c.stop_on_failure r rest)

-- `execute` gets the environment, the number of the command, its text and the seconds for it.
pub run_setup :
    RepoConfig
    → ℕ
    → (ℕ → ℕ)
    → (Dict String → ℕ → String → ℕ → Execution)
    → Dict String
    → Option String
    → SetupResult
unfolding run_commands command_env
run_setup c start clock execute environ fast_cache =
    if is_empty c.setup_commands
    then record { results = []; all_successful = true; elapsed_seconds = none; skipped = true }
    else (let run =
          run_commands c start clock (execute (command_env environ c fast_cache)) 0
            c.setup_commands in
        record {
          results = run.0;
          all_successful = run.1;
          elapsed_seconds = some (clock (length run.0) - start);
          skipped = false;
        })

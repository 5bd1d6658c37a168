-- ===== src/RepoSetup/Running.antt =====
-- The run of the set-up commands of repo_setup/engine.py.
use simple_claude_code_githu.Prelude.{
  ℕ, suc, String, ◌≡◌, ◌↔◌, refl, Bool, true, false, List, [], ◌∷◌, map, All, arith, leb,
  Bool-cases, inl, inr, Option, ◌-◌, is_empty,
}
use simple_claude_code_githu.Workflows.{Dict}
use simple_claude_code_githu.RepoSetup.{
  RepoConfig, CommandResult, Execution, run_command, out_of_time, settle, run_commands, run_setup,
  command_env,
}

-- Every result of the list is a success, and there is one for each of the commands, in order.
pub record AllSucceeded (commands : List String) (results : List CommandResult) : Type 0 where
  pub each : map (λ (r : CommandResult). r.command) results ≡ commands
  pub good : All (λ (r : CommandResult). r.success ≡ true) results

-- Every result but the last one is a success.
abbrev pub AllButLast : List CommandResult → Type 0
AllButLast [] = Unit
AllButLast (r ∷ []) = Unit
AllButLast (r ∷ q ∷ rs) = (r.success ≡ true) × AllButLast (q ∷ rs)

run_command-command :
    (cmd : String) (seconds : ℕ) (e : Execution) → (run_command cmd seconds e).command ≡ cmd
unfolding run_command
run_command-command cmd seconds (Execution.exited c o e) = refl
run_command-command cmd seconds Execution.timed_out = refl
run_command-command cmd seconds (Execution.os_error t) = refl
run_command-command cmd seconds (Execution.memory_error t) = refl
run_command-command cmd seconds (Execution.other_error k t) = refl

-- one command in front of a run
abbrev Succeeds : List String → List CommandResult × Bool → Type 0
Succeeds commands run = (run.1 ≡ true) ↔ AllSucceeded commands run.0

settle-Succeeds :
    (b stop : Bool) (cmd : String) (cmds : List String) (r : CommandResult)
    (rest : List CommandResult × Bool)
    → r.command ≡ cmd
    → r.success ≡ b
    → Succeeds cmds rest
    → Succeeds (cmd ∷ cmds) (settle b stop r rest)
settle-Succeeds true stop cmd cmds r rest same good ih = (
  λ e. let a = ih.0 e in record { each = ground (arith, same, a.each); good = (good, a.good) },
  λ a. ih.1 (record { each = cc (a.each); good = a.good.1 }),
)
settle-Succeeds false true cmd cmds r rest same bad ih = (λ e. cc, λ a. cc (bad, a.good.0))
settle-Succeeds false false cmd cmds r rest same bad ih = (λ e. cc, λ a. cc (bad, a.good.0))

settle-AllButLast :
    (b : Bool) (r : CommandResult) (rest : List CommandResult × Bool)
    → r.success ≡ b
    → AllButLast rest.0
    → AllButLast (settle b true r rest).0
settle-AllButLast true r ([], ok) good ih = tt
settle-AllButLast true r (q ∷ rs, ok) good ih = (good, ih)
settle-AllButLast false r rest bad ih = tt

module _ (c : RepoConfig) (start : ℕ) (clock : ℕ → ℕ) (execute : ℕ → String → ℕ → Execution) where
  run_commands-Succeeds :
      (i : ℕ) (cmds : List String) → Succeeds cmds (run_commands c start clock execute i cmds)
  unfolding run_commands out_of_time
  run_commands-Succeeds i [] = (λ e. record { each = refl; good = tt }, λ a. refl)
  run_commands-Succeeds i (cmd ∷ cmds) = elim (Bool-cases (leb c.timeout (clock i - start))) [
    | inl late ↦ rw late (λ e. cc, λ a. cc (a.good.0))
    | inr time ↦ rw time (
        settle-Succeeds _ c.stop_on_failure cmd cmds _ _
          (run_command-command cmd _ (execute i cmd (c.timeout - (clock i - start)))) refl
          (run_commands-Succeeds (suc i) cmds))
  ]

  run_commands-AllButLast :
      (i : ℕ) (cmds : List String)
      → c.stop_on_failure ≡ true
      → AllButLast (run_commands c start clock execute i cmds).0
  unfolding run_commands out_of_time
  run_commands-AllButLast i [] stop = tt
  run_commands-AllButLast i (cmd ∷ cmds) stop =
      elim (Bool-cases (leb c.timeout (clock i - start))) [
        | inl late ↦ rw late tt
        | inr time ↦
            simp (time, stop)
              (settle-AllButLast _ _ _ refl (run_commands-AllButLast (suc i) cmds stop))
      ]

module _ (c : RepoConfig) (start : ℕ) (clock : ℕ → ℕ)
    (execute : Dict String → ℕ → String → ℕ → Execution) (environ : Dict String)
    (fast_cache : Option String) where
  -- The set-up reports success exactly when every one of its commands has a result, in the order of
  -- the configuration, and every result is a success.
  pub run_setup-AllSucceeded :
      ((run_setup c start clock execute environ fast_cache).all_successful ≡ true)
      ↔ AllSucceeded c.setup_commands (run_setup c start clock execute environ fast_cache).results
  unfolding run_setup
  run_setup-AllSucceeded = by_commands c.setup_commands refl
    where
      by_commands :
          (cmds : List String)
          → c.setup_commands ≡ cmds
          → ((run_setup c start clock execute environ fast_cache).all_successful ≡ true)
            ↔ AllSucceeded c.setup_commands
                (run_setup c start clock execute environ fast_cache).results
      by_commands [] e = simp e (λ t. record { each = refl; good = tt }, λ a. refl)
      by_commands (cmd ∷ cmds) e = simp e (
          run_commands-Succeeds c start clock (execute (command_env environ c fast_cache)) 0
            (cmd ∷ cmds))

  -- With `stop_on_failure`, no command runs after one that failed: every result but the last one is a
  -- success.
  pub run_setup-AllButLast :
      c.stop_on_failure ≡ true
      → AllButLast (run_setup c start clock execute environ fast_cache).results
  unfolding run_setup
  run_setup-AllButLast stop = elim (Bool-cases (is_empty c.setup_commands)) [
    | inl empty ↦ simp empty tt
    | inr more ↦ simp more (
        run_commands-AllButLast c start clock (execute (command_env environ c fast_cache)) 0
          c.setup_commands stop)
  ]

-- ===== src/Indexing/Phases.antt =====
-- The order of what the processing of an indexing job does.
use simple_claude_code_githu.Prelude.{ℕ, ◌<◌, String, List, [], ◌∷◌, ◌++◌}
use simple_claude_code_githu.Indexing.{
  Effect, built_graph, built_routes, upserted, stored_metadata, refused_metadata, migrated_metadata,
  published, cleaned, Environment, Job, report,
}

module _ {ℓ} {V : Type ℓ} where
  -- when an effect has its turn
  unfoldable pub phase : Effect V → ℕ
  phase (built_graph files) = 1
  phase built_routes = 2
  phase (upserted removed chunks vs) = 3
  phase migrated_metadata = 4
  phase (stored_metadata commit count) = 5
  phase (refused_metadata message) = 5
  phase (published status) = 6
  phase (cleaned worktree) = 7

  -- The phases of the effects rise, from above `n`.
  unfoldable pub Rising : ℕ → List (Effect V) → Type 0
  unfolding phase
  Rising n [] = Unit
  Rising n (e ∷ es) = (n < phase e) × Rising (phase e) es

  module _ (worktree : String) (env : Environment V) where
    -- The rest of a job, its report and the removal of the worktree.
    Rises : ℕ → Job V → Type 0
    unfolding Rising report
    Rises n j = Rising n (report j ++ cleaned worktree ∷ [])

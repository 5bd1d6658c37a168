-- ===== src/Indexing.antt =====
-- services/indexing_worker/indexing_worker.py: the processing of a job that indexes a repository. Git,
-- the worktrees, the databases, the chunking and the embeddings are parameters; what the job does to
-- them is a list of effects. The job has a Redis client, as the worker's loop gives it one, and the
-- schema of the database has been applied (`ensure_surrealdb`).
pub mod Outcomes
pub mod Phases
pub mod Embedding
pub mod Upserting
mod Tests
use Prim.Native.Char.{code}
use simple_claude_code_githu.Prelude.{
  ℕ, String, Bool, true, false, not, ◌&&◌, Option, none, some, List, [], ◌∷◌, ◌++◌, str_eq,
  is_empty, ◌==◌, ◌||◌, if◌then◌else◌,
}
use simple_claude_code_githu.Prelude.Lines.{splitlines, strip}
use simple_claude_code_githu.RepoSetup.{contains}
use simple_claude_code_githu.Payload.{split}
use simple_claude_code_githu.Chunker.{Chunk}

-- A step of the job: its value, or the exception that it raises.
pub data Attempt {ℓ} (A : Type ℓ) : Type ℓ where
  done : A → Attempt A
  raised : String → Attempt A

pub data Status : Type 0 where
  complete : Status
  error_of : String → Status

-- What a job does. The graph, the routes, the events and the removal of the worktree are tried: their
-- failures are logged only.
pub data Effect {ℓ} (V : Type ℓ) : Type ℓ where
  -- the code graph of some files or, with `none`, of all of them
  built_graph : Option (List String) → Effect V
  built_routes : Effect V
  -- the removal of the records of files, and then the records of chunks with their embeddings, each
  -- of which is tried
  upserted : List String → List Chunk → List V → Effect V
  -- the HSET of the metadata: carried out, or refused with an exception that is logged only
  stored_metadata : String → ℕ → Effect V
  refused_metadata : String → Effect V
  -- the removal of metadata of the wrong type, which is tried
  migrated_metadata : Effect V
  -- the event for those who wait
  published : Status → Effect V
  cleaned : String → Effect V

-- How a run of git ends: its exit code and its output, or an exception, of which a timeout is one.
pub data GitRun : Type 0 where
  ended : ℕ → String → GitRun
  failed : GitRun

abbrev non_blank : List String → List String
non_blank [] = []
non_blank (l ∷ ls) = if str_eq (strip l) "" then non_blank ls else strip l ∷ non_blank ls

-- `_git_diff_files` for the changed files
unfoldable pub changed_names : GitRun → List String
changed_names failed = []
changed_names (ended code stdout) =
    if (code == 0) && not (str_eq stdout "") then non_blank (splitlines stdout) else []

-- The names on the lines of deleted and renamed files. `none` is the exception of a line that has no
-- status or no name.
abbrev has_status : String → Bool
has_status String.[] = false
has_status (String.◌∷◌ c s) = (code c == b'D') || (code c == b'R')

abbrev add_name : String → Option (List String) → Option (List String)
add_name name none = none
add_name name (some names) = some (if str_eq (strip name) "" then names else strip name ∷ names)

abbrev names_on : List String → Option (List String) → Option (List String)
names_on [] rest = none
names_on (String.[] ∷ fields) rest = none
names_on (status ∷ []) rest = if has_status status then none else rest
names_on (status ∷ name ∷ fields) rest = if has_status status then add_name name rest else rest

unfoldable pub status_names : List String → Option (List String)
unfolding split
status_names [] = some []
status_names (l ∷ ls) = names_on (split b'\t' l) (status_names ls)

abbrev or_none : Option (List String) → List String
or_none none = []
or_none (some names) = names

-- `_git_diff_files` with `deleted_only`
unfoldable pub removed_names : GitRun → List String
unfolding status_names
removed_names failed = []
removed_names (ended code stdout) =
    if (code == 0) && not (str_eq stdout "") then or_none (status_names (splitlines stdout)) else []

-- What the job meets. A commit hash that cannot be found raises a `RuntimeError`, which is `none`
-- here; the reads of the previous commit and of the diffs raise nothing.
pub record Environment {ℓ} (V : Type ℓ) : Type ℓ where
  pub create_worktree : Attempt (Option String)
  pub commit_hash : Option String
  pub previous_commit : Option String
  -- the runs of git for the changed and for the deleted files between two commits
  pub diff_changed : String → String → GitRun
  pub diff_removed : String → String → GitRun
  pub chunk_repo : Option (List String) → Attempt (List Chunk)
  pub embed : List Chunk → Attempt (List V)
  pub upsert : List String → List Chunk → List V → Attempt ℕ
  -- the exceptions of the HSET of the metadata, and of the one after the removal of the old key
  pub write_metadata : Option String
  pub rewrite_metadata : Option String

-- Effects, and the exception that ends them, if there is one.
abbrev pub Job {ℓ} : Type ℓ → Type ℓ
Job V = List (Effect V) × Option String

-- `if previous_commit and previous_commit != commit_hash`
unfoldable pub is_incremental : Option String → String → Bool
is_incremental none commit = false
is_incremental (some previous) commit = not (str_eq previous "") && not (str_eq previous commit)

abbrev pub or_empty : Option String → String
or_empty none = ""
or_empty (some s) = s

-- `if changed_files` of `_build_code_graph`: no files are as good as all files
abbrev pub files_to_build : Option (List String) → Option (List String)
files_to_build none = none
files_to_build (some []) = none
files_to_build (some (file ∷ files)) = some (file ∷ files)

module _ {ℓ} {V : Type ℓ} where
  -- `e; j`
  abbrev pub after : Effect V → Job V → Job V
  after e j = (e ∷ j.0, j.1)

  abbrev pub raise : String → Job V
  raise message = ([], some message)

  abbrev pub return : Job V
  return = ([], none)

  -- goes on with the value of a step, or raises its exception
  abbrev pub or_raise {κ} : {A : Type κ} → Attempt A → (A → Job V) → Job V
  or_raise (raised message) next = raise message
  or_raise (done value) next = next value

  -- the second HSET, whose exception is not caught here
  abbrev pub rewriting : Option String → String → ℕ → Job V → Job V
  rewriting none commit count rest = after (stored_metadata commit count) rest
  rewriting (some message) commit count rest = raise message

  -- `_update_indexing_metadata`, by the exception of the first HSET
  abbrev pub updating : Option String → Option String → String → ℕ → Job V → Job V
  updating none again commit count rest = after (stored_metadata commit count) rest
  updating (some message) again commit count rest =
      if contains "WRONGTYPE" message
      then after migrated_metadata (rewriting again commit count rest)
      else after (refused_metadata message) rest

  -- the update of the metadata, and the event
  unfoldable pub announce : Environment V → String → ℕ → Job V
  announce env commit count =
      updating env.write_metadata env.rewrite_metadata commit count
        (after (published complete) return)

  -- From the embeddings on.
  unfoldable pub store_chunks : Environment V → String → List String → List Chunk → List V → Job V
  unfolding announce
  store_chunks env commit removed chunks embeddings =
      or_raise (env.upsert removed chunks embeddings)
        (λ count. after (upserted removed chunks embeddings) (announce env commit count))

  unfoldable pub embed_chunks : Environment V → String → List String → List Chunk → Job V
  unfolding store_chunks
  embed_chunks env commit removed [] = return
  embed_chunks env commit removed (c ∷ cs) =
      or_raise (env.embed (c ∷ cs)) (store_chunks env commit removed (c ∷ cs))

  -- From the code graph on, for all files or for the changed ones.
  unfoldable pub index_files : Environment V → String → Option (List String) → List String → Job V
  unfolding embed_chunks
  index_files env commit changed removed =
      after (built_graph (files_to_build changed))
        (after built_routes (or_raise (env.chunk_repo changed) (embed_chunks env commit removed)))

  -- An incremental run, which ends here if nothing has changed.
  unfoldable pub index_changes : Environment V → String → List String → List String → Job V
  unfolding index_files announce
  index_changes env commit changed removed =
      let skipped = announce env commit 0 in
      let indexed = index_files env commit (some changed) removed in
      if is_empty changed && is_empty removed then skipped else indexed

  unfoldable pub index_commit : Environment V → String → Job V
  unfolding is_incremental index_changes index_files
  index_commit env commit =
      let previous = or_empty env.previous_commit in
      let incremental =
        index_changes env commit (changed_names (env.diff_changed previous commit))
          (removed_names (env.diff_removed previous commit)) in
      let full = index_files env commit none [] in
      if is_incremental env.previous_commit commit then incremental else full

  -- `except Exception`: the event of an error
  unfoldable pub report : Job V → List (Effect V)
  report (effects, none) = effects
  report (effects, some message) = effects ++ published (error_of message) ∷ []

  unfoldable pub index_worktree : Environment V → String → Option String → List (Effect V)
  unfolding index_commit report
  index_worktree env worktree none = cleaned worktree ∷ []
  index_worktree env worktree (some commit) =
      report (index_commit env commit) ++ cleaned worktree ∷ []

  -- The body of the `try` statement, with its `except` and `finally` parts.
  unfoldable pub run_in : Environment V → Attempt (Option String) → List (Effect V)
  unfolding index_worktree
  run_in env (raised message) = published (error_of message) ∷ []
  run_in env (done none) = []
  run_in env (done (some worktree)) =
      if str_eq worktree "" then [] else index_worktree env worktree env.commit_hash

  -- `if not repo` and `if not GEMINI_API_KEY`
  pub process_indexing_job : Environment V → Option String → Bool → List (Effect V)
  unfolding run_in
  process_indexing_job env repo has_key =
      let run = run_in env env.create_worktree in
      if not (str_eq (or_empty repo) "") && has_key then run else []

-- ===== src/MessageQueue/Readiness.antt =====
-- The waits of shared/queue.py for a synchronised repository and for its index. What the
-- subscription delivers is a list of messages with the clock at which each one arrives, and whether
-- the stream ends after the last one; `get_queue` is the queue in Redis.
mod Tests
pub mod Waiting
use Prim.Native.Char.{Char, code}
use Prim.Native.String.{◌++◌}
use simple_claude_code_githu.Prelude.{
  ℕ, ◌+◌, ◌-◌, String, Bool, true, false, not, ◌&&◌, ◌||◌, Option, none, some, List, [], ◌∷◌, ltb,
  ◌==◌, if◌then◌else◌, str_eq,
}
use simple_claude_code_githu.Json.{Json, str, obj, arr, null, bool, num, Fields, end, field, lookup}
use simple_claude_code_githu.Json.Equality.{py_eq}
use simple_claude_code_githu.Redis.{Redis, Stored, loads}
use simple_claude_code_githu.Redis.Io.{Error, Outcome, ok, raised, Io, pure, command, ◌>>=◌, ◌>>◌}
use simple_claude_code_githu.Redis.Commands.{get, exists, present}
use simple_claude_code_githu.MessageQueue.{publish}

-- A message of `pubsub.listen()`: one of a type other than "message", or a published text.
pub data Message : Type 0 where
  control : Message
  published : Stored → Message

pub record Arrival : Type 0 where
  pub time : ℕ
  pub message : Message

-- What a message says of a repository at a ref: nothing, that it is ready, that it failed; or it is
-- JSON but no dict, whose `get` raises an AttributeError.
pub data Verdict : Type 0 where
  ignored completed failed no_dict : Verdict

-- `event.get(key) == text`
abbrev pub says : Option Json → String → Bool
unfolding py_eq
says none text = false
says (some j) text = py_eq j (str text)

module _ (repo ref : String) where
  abbrev pub event_verdict : Fields → Verdict
  unfolding lookup
  event_verdict event =
      if says (lookup "repo" event) repo && says (lookup "ref" event) ref
      then if says (lookup "status" event) "complete"
        then completed
        else if says (lookup "status" event) "error"
        then failed
        else ignored
      else ignored

  abbrev pub value_verdict : Option Json → Verdict
  value_verdict none = ignored
  value_verdict (some (obj event)) = event_verdict event
  value_verdict (some j) = no_dict

  pub verdict : Message → Verdict
  unfolding loads
  verdict control = ignored
  verdict (published d) = value_verdict (loads d)

-- How `wait_for_repo_sync` ends: with the path; with a `RepositorySyncError` for the timeout, a failed
-- synchronisation or the end of the stream; with an AttributeError; or not, while no message comes.
pub data SyncOutcome : Type 0 where
  returned : String → SyncOutcome
  timed_out sync_failed stream_ended bad_event listening : SyncOutcome

abbrev pub on_verdict : Verdict → String → SyncOutcome → SyncOutcome
on_verdict ignored repo_dir rest = rest
on_verdict completed repo_dir rest = returned repo_dir
on_verdict failed repo_dir rest = sync_failed
on_verdict no_dict repo_dir rest = bad_event

abbrev pub at_end : Bool → SyncOutcome
at_end true = stream_ended
at_end false = listening

module _ (repo ref repo_dir : String) (start_time timeout : ℕ) (closed : Bool) where
  -- the loop over `pubsub.listen()`
  pub listen_for_sync : List Arrival → SyncOutcome
  unfolding verdict
  listen_for_sync [] = at_end closed
  listen_for_sync (a ∷ later) =
      let rest = listen_for_sync later in
      if ltb timeout (a.time - start_time)
      then timed_out
      else on_verdict (verdict repo ref a.message) repo_dir rest

abbrev pub repo_dir_of : String → String
repo_dir_of repo = "/var/cache/repos/" ++ (repo ++ ".git")

abbrev pub complete_key : String → String → String
complete_key repo ref = "agent:sync:complete:" ++ (repo ++ (":" ++ ref))

abbrev pub sync_lock_key : String → String
sync_lock_key repo = "agent:sync:lock:" ++ repo

abbrev pub sync_requests : String
sync_requests = "agent:sync:requests"

abbrev pub sync_request : String → String → Json
sync_request repo ref = obj (field "repo" (str repo) (field "ref" (str ref) end))

abbrev pub is_cached : Option Stored → Bool → Bool
is_cached none there = false
is_cached (some v) there = there

module _ {r : Redis} where
  -- (UN)SUBSCRIBE: the server's store does not change.
  pub subscription : Io r (Unit {0})
  unfolding command
  subscription = command (λ _. tt) (λ s. s)

  pub request_repo_sync : String → String → Io r (Unit {0})
  unfolding publish
  request_repo_sync repo ref = publish sync_requests (sync_request repo ref)

  abbrev pub unless : Bool → Io r (Unit {0}) → Io r (Unit {0})
  unless true m = pure tt
  unless false m = m

  -- the `finally` of the wait, which a wait that goes on has not reached
  abbrev pub closing : SyncOutcome → Io r SyncOutcome
  closing listening = pure listening
  closing o = do subscription; pure o

  -- `path_exists` is the file system's, `start_time` the clock after the subscription.
  module _ (repo ref : String) (path_exists : String → Bool) (start_time timeout : ℕ) where
    pub wait_for_event : Bool → List Arrival → Io r SyncOutcome
    unfolding request_repo_sync subscription listen_for_sync
    wait_for_event closed arrivals = do
      lock_held ← exists (sync_lock_key repo)
      unless lock_held (request_repo_sync repo ref)
      subscription
      closing (listen_for_sync repo ref (repo_dir_of repo) start_time timeout closed arrivals)

    pub wait_for_repo_sync : Bool → List Arrival → Io r SyncOutcome
    unfolding wait_for_event present
    wait_for_repo_sync closed arrivals = do
      is_complete ← get (complete_key repo ref)
      if is_cached (present is_complete) (path_exists (repo_dir_of repo))
          then pure (returned (repo_dir_of repo))
          else wait_for_event closed arrivals

-- `s.lower() == "true"`: only the ASCII letters become letters of that word
abbrev letter_is : ℕ → ℕ → Bool
letter_is lower c = (c == lower) || (c + 32 == lower)

pub lowers_to : List ℕ → String → Bool
lowers_to [] String.[] = true
lowers_to [] (String.◌∷◌ c s) = false
lowers_to (l ∷ ls) String.[] = false
lowers_to (l ∷ ls) (String.◌∷◌ c s) = letter_is l (code c) && lowers_to ls s

abbrev indexing_enabled : Option String → Bool
unfolding lowers_to
indexing_enabled none = true
indexing_enabled (some s) = lowers_to (116 ∷ 114 ∷ 117 ∷ 101 ∷ []) s

abbrev pub non_empty : Option String → Bool
non_empty none = false
non_empty (some s) = not (str_eq s "")

-- from the environment variables INDEXING_ENABLED and GEMINI_API_KEY
pub indexing_configured : Option String → Option String → Bool
unfolding lowers_to
indexing_configured enabled gemini_key = indexing_enabled enabled && non_empty gemini_key

-- How `wait_for_indexing` ends: it returns, or raises an `IndexingTimeoutError` or an AttributeError.
pub data IndexOutcome : Type 0 where
  proceed index_timeout bad_index_event : IndexOutcome

abbrev pub on_index_verdict : Verdict → IndexOutcome → IndexOutcome
on_index_verdict ignored rest = rest
on_index_verdict completed rest = proceed
on_index_verdict failed rest = proceed
on_index_verdict no_dict rest = bad_index_event

abbrev pub at_index_end : Bool → IndexOutcome
at_index_end true = proceed
at_index_end false = index_timeout

module _ (repo ref : String) (start_time timeout : ℕ) (closed : Bool) where
  -- `_listen_for_completion` under `asyncio.wait_for`, which cancels it after `timeout`
  pub listen_for_index : List Arrival → IndexOutcome
  unfolding verdict
  listen_for_index [] = at_index_end closed
  listen_for_index (a ∷ later) =
      let rest = listen_for_index later in
      if ltb (a.time - start_time) timeout
      then on_index_verdict (verdict repo ref a.message) rest
      else index_timeout

  -- the reply of the HGET for the ref, whose exceptions are dropped
  abbrev pub known : Outcome (Option String) → Bool
  known (raised e) = false
  known (ok existing) = non_empty existing

  pub wait_for_indexing : Bool → Outcome (Option String) → List Arrival → IndexOutcome
  unfolding listen_for_index
  wait_for_indexing configured existing arrivals =
      if not configured || known existing then proceed else listen_for_index arrivals

-- ===== src/Jobs/Tests.antt =====
-- The job queue on a server in memory: runs of shared/job_queue.py on concrete stores.
use Prim.Native.Char.{code}
use Prim.Native.String.{◌++◌}
use text.Mathlib.TextLemmas.{nil-append, cons-append}
use simple_claude_code_githu.Prelude.{
  ℕ, String, ◌≡◌, refl, ap, Bool, true, false, ◌||◌, none, some, List, [], ◌∷◌, arith, str_eq,
  eq_iff, subst, ◌==◌,
}
use simple_claude_code_githu.Json.{Json, str, obj, end, field}
use simple_claude_code_githu.Redis.{json, plain}
use simple_claude_code_githu.Redis.Memory.{memory, empty}
use simple_claude_code_githu.Redis.Io.{World, Fault, fine, refused, network, ok}
use simple_claude_code_githu.Redis.{loads}
use simple_claude_code_githu.Redis.Io.{clock, try_except, pure, ◌>>=◌}
use simple_claude_code_githu.Redis.Commands.{
  setex, sadd, srem, rpush, delete, get, exists, blpop, present,
}
use simple_claude_code_githu.Jobs.Keys.{
  IsJobId, data_key, status_key, backup_key, started_key, pending_queue,
}
use simple_claude_code_githu.Jobs.{
  Config, get_next_job, take_job, load_job, mark_processing, complete_job, reclaim_job, reclaim_all,
  restore_unless, restore_job, requeue_job, without_token,
}
use simple_claude_code_githu.Jobs.Taking.{Taken, marked, get_next_job-Taken}
use simple_claude_code_githu.Jobs.Loss.{Lost, get_next_job-Lost}
use simple_claude_code_githu.Jobs.Completing.{Completed, finished, complete_job-Completed}
use simple_claude_code_githu.Jobs.Reclaiming.{Round, reclaim_job-Round, reclaim_job-active}
use simple_claude_code_githu.Jobs.Lifecycle.{Served, lifecycle}

has_code : ℕ → String → Bool
has_code n String.[] = false
has_code n (String.◌∷◌ c s) = (code c == n) || has_code n s

has_code-append : (n : ℕ) (s t : String) → has_code n t ≡ true → has_code n (s ++ t) ≡ true
unfolding has_code
has_code-append n String.[] t h = rw (nil-append t) h
has_code-append n (String.◌∷◌ c s) t h =
    rw (cons-append c s t) (ground (arith, has_code-append n s t h))

-- An identifier with no colon is no derived key.
colon_free-IsJobId : (i : String) → has_code b':' i ≡ false → IsJobId i
unfolding has_code
colon_free-IsJobId i h = record {
  no_backup = λ s e. cc (h, ap (has_code b':') e, has_code-append b':' s ":backup" refl);
  no_started = λ s e. cc (h, ap (has_code b':') e, has_code-append b':' s ":ts" refl);
}

abbrev job : String
job = "7c9e6679-7425-40de-944b-e07fc1f90ae7"

job-IsJobId : IsJobId job
unfolding has_code
job-IsJobId = colon_free-IsJobId job refl

abbrev config : Config
config = record { job_ttl = 3600; is_uuid = str_eq job; decode_message = λ _. "bad" }

abbrev start : World memory
start = record { store = empty; time = 5; faults = [] }

abbrev job_data : Json
job_data = obj (field "repo" (str "o/r") (field "github_token" (str "t") end))

lifecycle_example : Served memory config start job job_data (obj end) "success"
lifecycle_example =
    lifecycle memory config start job job_data (obj end) "success" (omega arith) refl refl refl
      job-IsJobId

-- The store after `create_job`, with any faults to come.
abbrev queued : List Fault → World memory
queued fs = record {
  store = memory.rpush pending_queue (plain job) (
      memory.setex (status_key job) 3600 (plain "pending")
        (memory.setex (data_key job) 3600 (json job_data) empty));
  time = 5;
  faults = fs;
}

abbrev in_hand : List Fault → World memory
in_hand fs = record {
  store = marked memory config job (json job_data) 5 (memory.lpop pending_queue (queued []).store);
  time = 5;
  faults = fs;
}

handed_out : get_next_job memory config (queued []) ≡ (ok (some (job, job_data)), in_hand [])
unfolding get_next_job take_job load_job mark_processing blpop get sadd setex clock try_except ◌>>=◌
    pure marked present loads data_key status_key backup_key started_key
handed_out = refl

is_id : (i : String) → config.is_uuid i ≡ true → IsJobId i
is_id i e = subst IsJobId ((eq_iff job i).0 e) job-IsJobId

get_next_job-Taken_example : Taken memory config job job_data (queued []).store (in_hand []).store
get_next_job-Taken_example =
    get_next_job-Taken memory config (omega arith) is_id (queued []) job job_data (in_hand [])
      handed_out

get_next_job-Lost_example :
    ((get_next_job memory config (queued (fine ∷ refused network ∷ []))).0 ≡ ok none)
    × Lost memory config job []
        (queued (fine ∷ refused network ∷ [])).store
        (get_next_job memory config (queued (fine ∷ refused network ∷ []))).1.store
get_next_job-Lost_example =
    get_next_job-Lost memory config (queued (fine ∷ refused network ∷ [])) job [] [] refl refl refl

abbrev finished_world : World memory
finished_world = record {
  store = finished memory config job (obj end) "success" (in_hand []).store;
  time = 5;
  faults = [];
}

completed :
    complete_job memory config job (obj end) "success" (in_hand []) ≡ (ok tt, finished_world)
unfolding complete_job finished setex srem delete try_except ◌>>=◌
completed = refl

complete_job-Completed_example :
    Completed memory job (obj end) "success" (in_hand []).store finished_world.store
complete_job-Completed_example =
    complete_job-Completed memory config (omega arith) job (obj end) "success" (in_hand [])
      finished_world job-IsJobId completed

-- The data of the job in hand have expired.
abbrev stale : World memory
stale = record { store = memory.delete (data_key job) (in_hand []).store; time = 3700; faults = [] }

reclaimed : (reclaim_job memory config job 0 stale).0 ≡ ok 1
unfolding reclaim_job restore_unless restore_job requeue_job without_token exists get setex rpush
    srem delete present try_except ◌>>=◌ pure marked data_key status_key backup_key started_key
reclaimed = refl

abbrev restored : World memory
restored = (reclaim_job memory config job 0 stale).1

reclaimed_world : reclaim_job memory config job 0 stale ≡ (ok 1, restored)
reclaimed_world = λ i. (reclaimed i, restored)

reclaim_job-Round_example : Round memory job 0 1 stale.store restored.store
reclaim_job-Round_example =
    reclaim_job-Round memory config (omega arith) job 0 1 stale restored job-IsJobId reclaimed_world

reclaim_job-active_example :
    (reclaim_job memory config job 0 (in_hand (refused network ∷ []))).1.store
    ≡ (in_hand (refused network ∷ [])).store
unfolding marked data_key status_key backup_key started_key
reclaim_job-active_example =
    reclaim_job-active memory config job 0 (in_hand (refused network ∷ [])) (json job_data) refl

reclaimed_all : reclaim_all memory config (job ∷ []) 0 stale ≡ (ok 1, restored)
unfolding reclaim_all ◌>>=◌ pure
reclaimed_all = rw reclaimed_world refl

-- ===== src/PostProcessing.antt =====
-- shared/post_processing.py: the jobs that follow a session, enqueued when it has ended. A buffered
-- dict is a record: its type, repository and event are there, the other keys may be absent. `lower` is
-- `str.lower`, and `sleep` what others do in the second before the second attempt.
mod Tests
pub mod Deduplication
pub mod Flushing
use Prim.Native.String.{◌++◌ as str_append}
use simple_claude_code_githu.Prelude.{
  String, Bool, true, false, ◌&&◌, Option, none, some, List, [], ◌∷◌, str_eq, if◌then◌else◌,
}
use simple_claude_code_githu.Json.{Json, null, str, obj, Fields, end, field}
use simple_claude_code_githu.Redis.{Redis, json}
use simple_claude_code_githu.Redis.Io.{Io, pure, try_except, ◌>>=◌, ◌>>◌}
use simple_claude_code_githu.Redis.Commands.{rpush}

pub record PostJob : Type 0 where
  pub job_type : String
  pub repo : String
  pub event : String
  pub transcript_path : Option String
  pub claude_md : Option String
  pub memory_index : Option String
  pub workflow_name : Option String
  pub session_meta : Option Json
  pub ref : Option String

abbrev pub or_text : String → Option String → String
or_text default none = default
or_text default (some s) = s

abbrev or_null : Option String → Json
or_null none = null
or_null (some s) = str s

abbrev or_dict : Option Json → Json
or_dict none = obj end
or_dict (some j) = j

-- `ref or "main"`
abbrev or_main : Option String → String
or_main none = "main"
or_main (some s) = if str_eq s "" then "main" else s

-- Have two jobs the same `(transcript_path, event, type)`?
pub same_key : PostJob → PostJob → Bool
same_key a b =
    str_eq (or_text "" a.transcript_path) (or_text "" b.transcript_path)
    && str_eq a.event b.event
    && str_eq a.job_type b.job_type

-- `seen[key] = job`
pub remember : PostJob → List PostJob → List PostJob
unfolding same_key
remember job [] = job ∷ []
remember job (j ∷ js) = let rest = remember job js in if same_key j job then job ∷ js else j ∷ rest

abbrev pub remember_all : List PostJob → List PostJob → List PostJob
unfolding remember
remember_all seen [] = seen
remember_all seen (job ∷ jobs) = remember_all (remember job seen) jobs

pub deduplicate : List PostJob → List PostJob
unfolding remember
deduplicate jobs = remember_all [] jobs

abbrev pub memory_requests : String
memory_requests = "agent:memory:requests"

abbrev pub retrospector_requests : String
retrospector_requests = "agent:retrospector:requests"

abbrev pub indexing_requests : String
indexing_requests = "agent:indexing:requests"

pub memory_payload : PostJob → String → Json
memory_payload job transcript_path = obj (
    field "repo" (str job.repo) (
      field "transcript_path" (str transcript_path) (
        field "hook_event" (str job.event) (
          field "claude_md" (or_null job.claude_md)
            (field "memory_index" (or_null job.memory_index) end)))))

pub retrospector_payload : PostJob → String → Json
retrospector_payload job transcript_path = obj (
    field "repo" (str job.repo) (
      field "transcript_path" (str transcript_path) (
        field "hook_event" (str job.event) (
          field "workflow_name" (or_null job.workflow_name)
            (field "session_meta" (or_dict job.session_meta) end)))))

pub indexing_payload : (String → String) → PostJob → Json
indexing_payload lower job = obj (
    field "repo" (str job.repo) (
      field "ref" (str (or_main job.ref))
        (field "trigger" (str (str_append "job_" (lower job.event))) end)))

module _ {r : Redis} (lower : String → String) (sleep : Io r (Unit {0})) where
  -- the two attempts of each of the functions below, whose exceptions are logged
  pub enqueue : String → Json → Io r (Unit {0})
  enqueue queue payload =
      try_except (rpush queue (json payload))
        (λ e. do sleep; try_except (rpush queue (json payload)) (λ e. pure tt))

  pub enqueue_memory_job : PostJob → String → Io r (Unit {0})
  unfolding enqueue memory_payload
  enqueue_memory_job job transcript_path =
      enqueue memory_requests (memory_payload job transcript_path)

  pub enqueue_retrospector_job : PostJob → String → Io r (Unit {0})
  unfolding enqueue retrospector_payload
  enqueue_retrospector_job job transcript_path =
      enqueue retrospector_requests (retrospector_payload job transcript_path)

  pub enqueue_indexing_job : PostJob → Io r (Unit {0})
  unfolding enqueue indexing_payload
  enqueue_indexing_job job = enqueue indexing_requests (indexing_payload lower job)

  -- `job["transcript_path"]`, whose KeyError is logged
  abbrev pub with_transcript : (String → Io r (Unit {0})) → Option String → Io r (Unit {0})
  with_transcript f none = pure tt
  with_transcript f (some path) = f path

  -- one round of the loop over the jobs
  pub flush_job : PostJob → Io r (Unit {0})
  unfolding enqueue_memory_job enqueue_retrospector_job enqueue_indexing_job
  flush_job job =
      if str_eq job.job_type "memory"
      then with_transcript (enqueue_memory_job job) job.transcript_path
      else if str_eq job.job_type "retrospector"
      then with_transcript (enqueue_retrospector_job job) job.transcript_path
      else if str_eq job.job_type "indexing"
      then enqueue_indexing_job job
      else pure tt

  pub flush_jobs : List PostJob → Io r (Unit {0})
  unfolding flush_job
  flush_jobs [] = pure tt
  flush_jobs (job ∷ jobs) = do flush_job job; flush_jobs jobs

  pub flush_pending_post_jobs : List PostJob → Io r (Unit {0})
  unfolding flush_jobs deduplicate
  flush_pending_post_jobs pending_jobs = flush_jobs (deduplicate pending_jobs)

-- ===== src/PostProcessing/Flushing.antt =====
-- What a flush of the buffered jobs puts into the queues.
use mathlib.Core.List.{append_assoc, append-nil}
use simple_claude_code_githu.Prelude.{
  ℕ, String, ◌≡◌, refl, sym, ap, ◌∙◌, inl, inr, Option, none, some, List, [], ◌∷◌, ◌++◌, str_eq,
  eq_refl, Bool-cases, if◌then◌else◌,
}
use simple_claude_code_githu.Json.{Json}
use simple_claude_code_githu.Redis.{Redis, Stored, json}
use simple_claude_code_githu.Redis.Laws.{redis_laws}
use simple_claude_code_githu.Redis.Io.{
  World, Failure, reply_lost, ok, Io, pure, command, try_except, resume, ◌>>=◌,
}
use simple_claude_code_githu.Redis.Commands.{rpush}
use simple_claude_code_githu.PostProcessing.{
  PostJob, deduplicate, memory_requests, retrospector_requests, indexing_requests, memory_payload,
  retrospector_payload, indexing_payload, enqueue, with_transcript, enqueue_memory_job,
  enqueue_retrospector_job, enqueue_indexing_job, flush_job, flush_jobs, flush_pending_post_jobs,
}

-- What a job asks to be put into which queue. Without its transcript a memory or retrospector job
-- raises a KeyError, which is logged; a job of another type is passed over.
abbrev for_transcript : String → (String → Json) → Option String → Option (String × Json)
for_transcript queue payload none = none
for_transcript queue payload (some path) = some (queue, payload path)

pub request_of : (String → String) → PostJob → Option (String × Json)
request_of lower job =
    if str_eq job.job_type "memory"
    then for_transcript memory_requests (memory_payload job) job.transcript_path
    else if str_eq job.job_type "retrospector"
    then for_transcript retrospector_requests (retrospector_payload job) job.transcript_path
    else if str_eq job.job_type "indexing"
    then some (indexing_requests, indexing_payload lower job)
    else none

-- what a request puts into one queue
abbrev pub part_of : String → Option (String × Json) → List Stored
part_of queue none = []
part_of queue (some (q, payload)) = if str_eq q queue then json payload ∷ [] else []

-- What jobs ask to be put into one queue.
abbrev pub requests_for : (String → String) → String → List PostJob → List Stored
requests_for lower queue [] = []
requests_for lower queue (job ∷ jobs) =
    part_of queue (request_of lower job) ++ requests_for lower queue jobs

module _ (r : Redis) (lower : String → String) (sleep : Io r (Unit {0})) where
  -- a server none of whose commands fails
  abbrev pub calm : r.Store → ℕ → World r
  calm store time = record { store = store; time = time; faults = [] }

  abbrev pub enqueue_request : Option (String × Json) → Io r (Unit {0})
  enqueue_request none = pure tt
  enqueue_request (some (queue, payload)) = enqueue lower sleep queue payload

  transcript-request :
      (queue : String) (payload : String → Json) (path : Option String)
      → with_transcript lower sleep (λ p. enqueue lower sleep queue (payload p)) path
        ≡ enqueue_request (for_transcript queue payload path)
  transcript-request queue payload none = refl
  transcript-request queue payload (some path) = refl

  flush_job-request :
      (job : PostJob) → flush_job lower sleep job ≡ enqueue_request (request_of lower job)
  unfolding flush_job request_of enqueue_memory_job enqueue_retrospector_job enqueue_indexing_job
  flush_job-request job = elim (Bool-cases (str_eq job.job_type "memory")) [
    | inl memory ↦
        rw memory (transcript-request memory_requests (memory_payload job) job.transcript_path)
    | inr m ↦ elim (Bool-cases (str_eq job.job_type "retrospector")) [
      | inl retrospector ↦
          rw (m, retrospector)
            (transcript-request retrospector_requests (retrospector_payload job)
              job.transcript_path)
      | inr s ↦ elim (Bool-cases (str_eq job.job_type "indexing")) [
        | inl indexing ↦ rw (m, s, indexing) refl
        | inr i ↦ rw (m, s, i) refl
      ]
    ]
  ]

  abbrev effect : Option (String × Json) → r.Store → r.Store
  effect none s = s
  effect (some (queue, payload)) s = r.rpush queue (json payload) s

  request-ok :
      (request : Option (String × Json)) (s : r.Store) (t : ℕ)
      → enqueue_request request (calm s t) ≡ (ok tt, calm (effect request s) t)
  unfolding enqueue try_except rpush command pure
  request-ok none s t = refl
  request-ok (some (queue, payload)) s t = refl

  effect-part :
      (queue : String) (request : Option (String × Json)) (s : r.Store)
      → r.lrange queue (effect request s) ≡ r.lrange queue s ++ part_of queue request
  effect-part queue none s = sym (append-nil (r.lrange queue s))
  effect-part queue (some (q, payload)) s = elim (Bool-cases (str_eq q queue)) [
    | inl same ↦ simp (redis_laws, same) refl
    | inr other ↦ simp (redis_laws, other) (sym (append-nil (r.lrange queue s)))
  ]

  flush_jobs-requests :
      (queue : String) (jobs : List PostJob) (s : r.Store) (t : ℕ)
      → r.lrange queue (flush_jobs lower sleep jobs (calm s t)).1.store
        ≡ r.lrange queue s ++ requests_for lower queue jobs
  unfolding flush_jobs pure ◌>>=◌
  flush_jobs-requests queue [] s t = sym (append-nil (r.lrange queue s))
  flush_jobs-requests queue (job ∷ jobs) s t =
      let request = request_of lower job in
      ap (λ o. r.lrange queue (resume (λ _. flush_jobs lower sleep jobs) o).1.store)
        (ap (λ m. m (calm s t)) (flush_job-request job) ∙ request-ok request s t)
      ∙ flush_jobs-requests queue jobs (effect request s) t
      ∙ ap (λ l. l ++ requests_for lower queue jobs) (effect-part queue request s)
      ∙ append_assoc (r.lrange queue s) (part_of queue request) (requests_for lower queue jobs)

  -- With no failing command, a flush appends to each queue exactly the requests of the jobs that are
  -- left after the removal of duplicates, each once and in their order.
  pub flush-requests :
      (queue : String) (pending_jobs : List PostJob) (store : r.Store) (time : ℕ)
      → r.lrange queue (flush_pending_post_jobs lower sleep pending_jobs (calm store time)).1.store
        ≡ r.lrange queue store ++ requests_for lower queue (deduplicate pending_jobs)
  unfolding flush_pending_post_jobs
  flush-requests queue pending_jobs store time =
      flush_jobs-requests queue (deduplicate pending_jobs) store time

  -- If the server carries out the first RPUSH of a request and its reply is lost, and nothing happens
  -- before the second attempt, then the request is in its queue twice.
  pub enqueue-twice :
      (queue : String) (payload : Json) (failure : Failure) (store : r.Store) (time : ℕ)
      → ((w : World r) → sleep w ≡ (ok tt, w))
      → r.lrange queue
          (enqueue lower sleep queue payload
            (record { store = store; time = time; faults = reply_lost failure ∷ [] })).1.store
        ≡ (r.lrange queue store ++ json payload ∷ []) ++ json payload ∷ []
  unfolding enqueue try_except rpush command pure ◌>>=◌
  enqueue-twice queue payload failure store time quiet =
      rw (quiet _) (simp (redis_laws, eq_refl queue) refl)

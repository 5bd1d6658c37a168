-- ===== src/Jobs/Completing.antt =====
-- `complete_job` of shared/job_queue.py under any faults.
use simple_claude_code_githu.Prelude.{◌<◌, String, ◌≡◌, inl, inr, false, none, some}
use simple_claude_code_githu.Json.{Json}
use simple_claude_code_githu.Redis.{Redis, json, plain}
use simple_claude_code_githu.Redis.Laws.{redis_laws}
use simple_claude_code_githu.Redis.Runs.{step-ok, command-ok, raise-ok, try-cases}
use simple_claude_code_githu.Redis.Io.{
  World, ok, Error, os_error, json_decode_error, attribute_error, queue_error, redis_error,
  type_error,
}
use simple_claude_code_githu.Redis.Commands.{setex, srem, delete}
use simple_claude_code_githu.Jobs.Keys.{
  IsJobId, status_key, backup_key, started_key, result_key, pending_queue, processing_set, key_laws,
  started-status,
}
use simple_claude_code_githu.Jobs.{Config, complete_job, into_queue_error}

-- `job_id` was completed with `result`, from the store `s` to the store `t`.
pub record Completed (r : Redis) (job_id : String) (result : Json) (status : String) (s t : r.Store)
    : Type 0 where
  pub stored : r.get (result_key job_id) t ≡ some (json result)
  pub with_status : r.get (status_key job_id) t ≡ some (plain status)
  pub not_processing : r.sismember processing_set job_id t ≡ false
  pub no_backup : r.get (backup_key job_id) t ≡ none
  pub no_started : r.get (started_key job_id) t ≡ none
  pub same_queue : r.lrange pending_queue t ≡ r.lrange pending_queue s

not_into_ok :
    {r : Redis} (x : Error) (w : World r) {w' : World r}
    → into_queue_error {A = Unit {0}} x w ≡ (ok tt, w')
    → ⊥
not_into_ok os_error w e = raise-ok _ w e
not_into_ok json_decode_error w e = raise-ok _ w e
not_into_ok attribute_error w e = raise-ok _ w e
not_into_ok queue_error w e = raise-ok _ w e
not_into_ok redis_error w e = raise-ok _ w e
not_into_ok type_error w e = raise-ok _ w e

module _ (r : Redis) (config : Config) (i : String) (result : Json) (status : String) where
  -- what `complete_job` writes
  unfoldable pub finished : r.Store → r.Store
  finished s = r.delete (started_key i) (
      r.delete (backup_key i) (
        r.srem processing_set i (
          r.setex (status_key i) config.job_ttl (plain status)
            (r.setex (result_key i) config.job_ttl (json result) s))))

module _ (r : Redis) (config : Config) (positive : 0 < config.job_ttl) where
  module _ (i : String) (result : Json) (status : String) where
    complete_job-ok :
        (w w' : World r)
        → complete_job r config i result status w ≡ (ok tt, w')
        → w'.store ≡ finished r config i result status w.store
    unfolding complete_job setex srem delete finished
    complete_job-ok w w' e = elim (try-cases _ _ w e) [
      | inl h ↦
          let (w₁, s₁, _, e₁) = step-ok _ _ _ w h in
          let (w₂, s₂, _, e₂) = step-ok _ _ _ w₁ e₁ in
          let (w₃, s₃, _, e₃) = step-ok _ _ _ w₂ e₂ in
          let (w₄, s₄, _, e₄) = step-ok _ _ _ w₃ e₃ in
          let last = command-ok (λ _. tt) (r.delete (started_key i)) w₄ e₄ in
          cc (last.1, s₁, s₂, s₃, s₄)
      | inr (x, w₁, _, h) ↦ absurd (not_into_ok x w₁ h)
    ]

    pub finished-Completed :
        (s : r.Store)
        → IsJobId i
        → Completed r i result status s (finished r config i result status s)
    unfolding finished
    finished-Completed s id = record {
      stored = simp (redis_laws, key_laws, positive);
      with_status = simp (redis_laws, key_laws, positive, started-status i i id);
      not_processing = simp (redis_laws, key_laws);
      no_backup = simp (redis_laws, key_laws);
      no_started = simp (redis_laws, key_laws);
      same_queue = simp redis_laws;
    }

    -- With a positive `job_ttl` and an identifier that does not end like a derived key: if
    -- `complete_job` returns, whatever happened on the way, the result and the status are stored,
    -- the job has left the processing set, its backup and its start time are gone, and the queue is
    -- as it was.
    pub complete_job-Completed :
        (w w' : World r)
        → IsJobId i
        → complete_job r config i result status w ≡ (ok tt, w')
        → Completed r i result status w.store w'.store
    complete_job-Completed w w' id e = rw (complete_job-ok w w' e) (finished-Completed w.store id)

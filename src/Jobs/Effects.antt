-- ===== src/Jobs/Effects.antt =====
-- `create_job` of shared/job_queue.py when no command fails.
use simple_claude_code_githu.Prelude.{◌<◌, String, ◌≡◌, ◌≢◌, refl, some, [], ◌∷◌, ◌++◌}
use simple_claude_code_githu.Prelude.Text.{str_ne}
use simple_claude_code_githu.Json.{Json}
use simple_claude_code_githu.Redis.{Redis, json, plain}
use simple_claude_code_githu.Redis.Laws.{redis_laws}
use simple_claude_code_githu.Redis.Io.{World, ok, pure, try_except, ◌>>=◌}
use simple_claude_code_githu.Redis.Commands.{setex, rpush}
use simple_claude_code_githu.Jobs.Keys.{
  data_key, status_key, pending_queue, processing_set, key_laws,
}
use simple_claude_code_githu.Jobs.{Config, create_job}

-- What `create_job` makes of the store `s`.
pub record Created (r : Redis) (job_id : String) (job_data : Json) (s t : r.Store) : Type 0 where
  pub stored : r.get (data_key job_id) t ≡ some (json job_data)
  pub pending : r.get (status_key job_id) t ≡ some (plain "pending")
  pub queued : r.lrange pending_queue t ≡ r.lrange pending_queue s ++ plain job_id ∷ []
  pub unclaimed : (m : String) → r.sismember processing_set m t ≡ r.sismember processing_set m s
  pub other_data : (j : String) → job_id ≢ j → r.get (data_key j) t ≡ r.get (data_key j) s

module _ (r : Redis) (config : Config) where
  -- what `create_job` writes
  unfoldable pub enqueued : String → Json → r.Store → r.Store
  enqueued job_id job_data s = r.rpush pending_queue (plain job_id) (
      r.setex (status_key job_id) config.job_ttl (plain "pending")
        (r.setex (data_key job_id) config.job_ttl (json job_data) s))

  pub create_job-run :
      (w : World r) (job_id : String) (job_data : Json)
      → w.faults ≡ []
      → create_job r config job_id job_data w
        ≡ (ok job_id, record w { store = enqueued job_id job_data w.store })
  unfolding create_job setex rpush ◌>>=◌ try_except pure enqueued
  create_job-run w job_id job_data works = rw works refl

module _ (r : Redis) (config : Config) (positive : 0 < config.job_ttl) where
  pub enqueued-Created :
      (job_id : String) (job_data : Json) (s : r.Store)
      → Created r job_id job_data s (enqueued r config job_id job_data s)
  unfolding enqueued
  enqueued-Created job_id job_data s = record {
    stored = simp (redis_laws, key_laws, positive);
    pending = simp (redis_laws, key_laws, positive);
    queued = simp redis_laws;
    unclaimed = λ m. simp redis_laws;
    other_data = λ j ne. simp (redis_laws, key_laws, positive, str_ne job_id j ne);
  }

  -- With a positive `job_ttl` and no failing command `create_job` returns the identifier, and the
  -- job is stored as given, marked "pending" and put at the end of the queue; the processing set
  -- and the data of every other job stay as they were.
  pub create_job-Created :
      (w : World r) (job_id : String) (job_data : Json)
      → w.faults ≡ []
      → ((create_job r config job_id job_data w).0 ≡ ok job_id)
        × Created r job_id job_data w.store (create_job r config job_id job_data w).1.store
  create_job-Created w job_id job_data works =
      rw (create_job-run r config w job_id job_data works)
        (refl, enqueued-Created job_id job_data w.store)

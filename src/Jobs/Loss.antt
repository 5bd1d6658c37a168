-- ===== src/Jobs/Loss.antt =====
-- The window between BLPOP and SADD in `get_next_job` of shared/job_queue.py.
use simple_claude_code_githu.Prelude.{String, ◌≡◌, refl, true, none, List, ◌∷◌}
use simple_claude_code_githu.Redis.{Redis, Stored, plain}
use simple_claude_code_githu.Redis.Laws.{redis_laws}
use simple_claude_code_githu.Redis.Io.{
  World, Fault, fine, refused, network, ok, pure, try_except, ◌>>=◌,
}
use simple_claude_code_githu.Redis.Commands.{get, blpop}
use simple_claude_code_githu.Jobs.Keys.{pending_queue, processing_set, dead_letter_queue}
use simple_claude_code_githu.Jobs.{Config, get_next_job, take_job}

module _ (r : Redis) (config : Config) where
  -- The job has left the queue, and the other two collections are as they were.
  pub record Lost (job_id : String) (rest : List Stored) (s t : r.Store) : Type 0 where
    pub off_queue : r.lrange pending_queue t ≡ rest
    pub not_processing : r.sismember processing_set job_id t ≡ r.sismember processing_set job_id s
    pub no_dead_letter : r.lrange dead_letter_queue t ≡ r.lrange dead_letter_queue s

  popped_only :
      (w : World r) (job_id : String) (rest : List Stored) (fs : List Fault)
      → w.faults ≡ fine ∷ refused network ∷ fs
      → r.lrange pending_queue w.store ≡ plain job_id ∷ rest
      → config.is_uuid job_id ≡ true
      → get_next_job r config w
        ≡ (ok none, record w { store = r.lpop pending_queue w.store; faults = fs })
  unfolding get_next_job blpop get take_job try_except ◌>>=◌ pure
  popped_only w job_id rest fs f q u = rw (f, q, u, take_job) refl

  -- If the first command of `get_next_job` works and the second one, the read of the job's data, is
  -- refused with an `OSError`, then the job at the head of the queue is taken off it, is not put into the processing
  -- set or the dead letter queue, and the caller is told that there is no job.
  pub get_next_job-Lost :
      (w : World r) (job_id : String) (rest : List Stored) (fs : List Fault)
      → w.faults ≡ fine ∷ refused network ∷ fs
      → r.lrange pending_queue w.store ≡ plain job_id ∷ rest
      → config.is_uuid job_id ≡ true
      → ((get_next_job r config w).0 ≡ ok none)
        × Lost job_id rest w.store (get_next_job r config w).1.store
  get_next_job-Lost w job_id rest fs f q u = rw (popped_only w job_id rest fs f q u) (
    refl,
    record {
      off_queue = simp (redis_laws, q);
      not_processing = simp redis_laws;
      no_dead_letter = simp redis_laws;
    },
  )

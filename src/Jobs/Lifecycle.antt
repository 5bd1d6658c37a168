-- ===== src/Jobs/Lifecycle.antt =====
-- The life of a job when no command fails: created, handed out, completed, and its result read.
use simple_claude_code_githu.Prelude.{
  ◌<◌, String, ◌≡◌, refl, ap, ◌∙◌, false, true, some, List, [], ◌∷◌, ◌++◌,
}
use simple_claude_code_githu.Json.{Json}
use simple_claude_code_githu.Redis.{Redis, Stored, json, plain, loads}
use simple_claude_code_githu.Redis.Laws.{redis_laws}
use simple_claude_code_githu.Redis.Io.{World, ok, pure, clock, try_except, ◌>>=◌}
use simple_claude_code_githu.Redis.Commands.{setex, sadd, srem, delete, get, blpop, present}
use simple_claude_code_githu.Jobs.Keys.{
  IsJobId, data_key, status_key, result_key, pending_queue, processing_set,
}
use simple_claude_code_githu.Jobs.{
  Config, create_job, get_next_job, take_job, load_job, mark_processing, complete_job,
  get_job_status, get_job_result, decode_result,
}
use simple_claude_code_githu.Jobs.Effects.{Created, enqueued, enqueued-Created, create_job-run}
use simple_claude_code_githu.Jobs.Completing.{Completed, finished, finished-Completed}
use simple_claude_code_githu.Jobs.Taking.{marked, marked-queue}

module _ (r : Redis) (config : Config) where
  -- With no fault and a decodable job at the head of the queue, `get_next_job` hands it out.
  get_next_job-run :
      (w : World r) (i : String) (d : Json) (rest : List Stored)
      → w.faults ≡ []
      → r.lrange pending_queue w.store ≡ plain i ∷ rest
      → config.is_uuid i ≡ true
      → r.get (data_key i) w.store ≡ some (json d)
      → get_next_job r config w ≡ (
        ok (some (i, d)),
        record w { store = marked r config i (json d) w.time (r.lpop pending_queue w.store) },
      )
  unfolding get_next_job take_job load_job mark_processing blpop get sadd setex clock try_except
      ◌>>=◌ pure marked present loads
  get_next_job-run w i d rest f q u has = rw (f, q, u, take_job, popped_data) refl
    where
      popped_data : r.get (data_key i) (r.lpop pending_queue w.store) ≡ some (json d)
      popped_data = rw (r.get_lpop pending_queue (data_key i) w.store) has

  complete_job-run :
      (w : World r) (i : String) (result : Json) (status : String)
      → w.faults ≡ []
      → complete_job r config i result status w
        ≡ (ok tt, record w { store = finished r config i result status w.store })
  unfolding complete_job setex srem delete try_except ◌>>=◌ finished
  complete_job-run w i result status f = rw f refl

  get_job_status-run :
      (w : World r) (i : String)
      → w.faults ≡ []
      → (get_job_status r config i w).0 ≡ ok (r.get (status_key i) w.store)
  unfolding get_job_status get try_except
  get_job_status-run w i f = rw f refl

  get_job_result-run :
      (w : World r) (i : String) (result : Json)
      → w.faults ≡ []
      → r.get (result_key i) w.store ≡ some (json result)
      → (get_job_result r config i w).0 ≡ ok (some result)
  unfolding get_job_result get try_except decode_result present loads ◌>>=◌ pure
  get_job_result-run w i result f has = rw (f, has) refl

  module _ (w : World r) (i : String) (job_data result : Json) (status : String) where
    abbrev stored₁ : r.Store
    stored₁ = enqueued r config i job_data w.store

    abbrev stored₂ : r.Store
    stored₂ = marked r config i (json job_data) w.time (r.lpop pending_queue stored₁)

    abbrev stored₃ : r.Store
    stored₃ = finished r config i result status stored₂

    module _ (positive : 0 < config.job_ttl) (q : r.lrange pending_queue w.store ≡ []) where
      new : Created r i job_data w.store stored₁
      new = enqueued-Created r config positive i job_data w.store

      alone : r.lrange pending_queue stored₁ ≡ plain i ∷ []
      alone = new.queued ∙ ap (λ (l : List Stored). l ++ plain i ∷ []) q

      done : IsJobId i → Completed r i result status stored₂ stored₃
      done = finished-Completed r config positive i result status stored₂

      emptied : IsJobId i → r.lrange pending_queue stored₂ ≡ []
      emptied id =
          marked-queue r config positive i (json job_data) w.time (r.lpop pending_queue stored₁) id
          ∙ simp (redis_laws, alone)

      taken :
          w.faults ≡ []
          → config.is_uuid i ≡ true
          → get_next_job r config (record w { store = stored₁ })
            ≡ (ok (some (i, job_data)), record w { store = stored₂ })
      taken f u = get_next_job-run (record w { store = stored₁ }) i job_data [] f alone u new.stored

    -- the store after each of the three calls
    abbrev pub after_create : World r
    after_create = (create_job r config i job_data w).1

    abbrev pub after_take : World r
    after_take = (get_next_job r config after_create).1

    abbrev pub after_complete : World r
    after_complete = (complete_job r config i result status after_take).1

    -- What the callers of a job's three calls see.
    pub record Served : Type 0 where
      pub created : (create_job r config i job_data w).0 ≡ ok i
      pub handed_out : (get_next_job r config after_create).0 ≡ ok (some (i, job_data))
      pub completed : (complete_job r config i result status after_take).0 ≡ ok tt
      pub status_read : (get_job_status r config i after_complete).0 ≡ ok (some (plain status))
      pub result_read : (get_job_result r config i after_complete).0 ≡ ok (some result)
      pub queue_empty : r.lrange pending_queue after_complete.store ≡ []
      pub not_processing : r.sismember processing_set i after_complete.store ≡ false

    -- With a positive `job_ttl`, an empty queue, no failing command and an identifier that is a
    -- UUID and does not end like a derived key: a job that is created is the next one handed out,
    -- with its data as they were given; once completed, its status and result are read back, the
    -- queue is empty again and the job is not in the processing set.
    pub lifecycle :
        0 < config.job_ttl
        → w.faults ≡ []
        → r.lrange pending_queue w.store ≡ []
        → config.is_uuid i ≡ true
        → IsJobId i
        → Served
    lifecycle positive f q u id =
        let create = create_job-run r config w i job_data f in
        let take = taken positive q f u in
        let complete = complete_job-run (record w { store = stored₂ }) i result status f in
        let finish = done positive q id in
        let world₁ : after_create ≡ record w { store = stored₁ } = ap (λ p. p.1) create in
        let world₂ : after_take ≡ record w { store = stored₂ } =
          ap (λ v. (get_next_job r config v).1) world₁ ∙ ap (λ p. p.1) take in
        let world₃ : after_complete ≡ record w { store = stored₃ } =
          ap (λ v. (complete_job r config i result status v).1) world₂ ∙ ap (λ p. p.1) complete in
        record {
          created = rw create refl;
          handed_out = rw world₁ (rw take refl);
          completed = rw world₂ (rw complete refl);
          status_read = rw world₃ (get_job_status-run _ i f ∙ ap ok finish.with_status);
          result_read = rw world₃ (get_job_result-run _ i result f finish.stored);
          queue_empty = rw world₃ (finish.same_queue ∙ emptied positive q id);
          not_processing = rw world₃ finish.not_processing;
        }

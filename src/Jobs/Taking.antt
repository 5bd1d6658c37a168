-- ===== src/Jobs/Taking.antt =====
-- `get_next_job` of shared/job_queue.py under any faults.
use mathlib.Core.List.{head?}
use simple_claude_code_githu.Prelude.{
  ℕ, ◌<◌, ◌*◌, String, ◌≡◌, refl, inl, inr, true, Option, none, some, arith, Bool-cases,
  Option-cases,
}
use simple_claude_code_githu.Json.{Json}
use simple_claude_code_githu.Redis.{Redis, Stored, json, plain, loads}
use simple_claude_code_githu.Redis.Laws.{redis_laws}
use simple_claude_code_githu.Redis.Runs.{step-ok, clock-ok, pure-ok, raise-ok, try-cases}
use simple_claude_code_githu.Redis.Io.{
  World, ok, Error, os_error, json_decode_error, attribute_error, queue_error, redis_error,
  type_error, pure,
}
use simple_claude_code_githu.Redis.Commands.{setex, sadd, get, blpop, present, rpush}
use simple_claude_code_githu.Jobs.Keys.{
  IsJobId, data_key, status_key, backup_key, started_key, pending_queue, processing_set, key_laws,
  started-status,
}
use simple_claude_code_githu.Jobs.{
  Config, get_next_job, take_job, load_job, mark_processing, data_expired, decode_failed,
  on_os_error,
}

-- `job_id` was taken off the head of the queue of `s` for processing.
pub record Taken (r : Redis) (config : Config) (job_id : String) (job_data : Json) (s t : r.Store)
    : Type 0 where
  pub first : head? (r.lrange pending_queue s) ≡ some (plain job_id)
  pub is_uuid : config.is_uuid job_id ≡ true
  pub text : Stored
  pub decoded : loads text ≡ some job_data
  pub was_stored : r.get (data_key job_id) s ≡ some text
  pub rest_queued : r.lrange pending_queue t ≡ r.lrange pending_queue (r.lpop pending_queue s)
  pub processing : r.sismember processing_set job_id t ≡ true
  pub status : r.get (status_key job_id) t ≡ some (plain "processing")
  pub backed_up : r.get (backup_key job_id) t ≡ some text

module _ (r : Redis) (config : Config) where
  -- what `mark_processing` writes
  unfoldable pub marked : String → Stored → ℕ → r.Store → r.Store
  marked job_id text now s = r.setex (started_key job_id) config.job_ttl (json (Json.num now)) (
      r.setex (backup_key job_id) (config.job_ttl * 2) text (
        r.setex (status_key job_id) config.job_ttl (plain "processing")
          (r.sadd processing_set job_id s)))

module _ (r : Redis) (config : Config) (positive : 0 < config.job_ttl) where
  mark_processing-ok :
      (job_id : String) (text : Stored) (d : Json) (w : World r) {x : Option (String × Json)}
      {w' : World r}
      → mark_processing r config job_id text d w ≡ (ok x, w')
      → (x ≡ some (job_id, d)) × (w'.store ≡ marked r config job_id text w.time w.store)
  unfolding mark_processing setex sadd marked
  mark_processing-ok job_id text d w e =
      let (w₁, s₁, t₁, e₁) = step-ok _ _ _ w e in
      let (w₂, s₂, t₂, e₂) = step-ok _ _ _ w₁ e₁ in
      let (w₃, s₃, t₃, e₃) = step-ok _ _ _ w₂ e₂ in
      let (w₄, s₄, t₄, e₄) = step-ok _ _ _ w₃ (clock-ok _ w₃ e₃) in
      let done = pure-ok _ w₄ e₄ in (done.0, cc (done.1, s₁, t₁, s₂, t₂, s₃, t₃, s₄))

  -- A dead letter, or any other way out, hands out no job.
  data_expired-ok :
      (job_id : String) (w : World r) {p : String × Json} {w' : World r}
      → data_expired r config job_id w ≡ (ok (some p), w')
      → ⊥
  unfolding data_expired rpush
  data_expired-ok job_id w e =
      let (w₁, s₁, t₁, e₁) = step-ok _ _ _ w (clock-ok _ w e) in
      let done = pure-ok _ w₁ e₁ in cc (done.0)

  decode_failed-ok :
      (job_id : String) (text : Stored) (w : World r) {p : String × Json} {w' : World r}
      → decode_failed r config job_id text w ≡ (ok (some p), w')
      → ⊥
  unfolding decode_failed rpush
  decode_failed-ok job_id text w e = elim (try-cases _ _ w (clock-ok _ w e)) [
    | inl h ↦ let (w₁, s₁, t₁, e₁) = step-ok _ _ _ w h in cc ((pure-ok _ w₁ e₁).0)
    | inr (x, w₁, h, e₁) ↦ cc ((pure-ok _ w₁ e₁).0)
  ]

  load_job-ok :
      (job_id : String) (o : Option Stored) (w : World r) {i : String} {d : Json} {w' : World r}
      → load_job r config job_id o w ≡ (ok (some (i, d)), w')
      → (text : Stored) × (o ≡ some text)
        × (loads text ≡ some d)
        × (i ≡ job_id)
        × (w'.store ≡ marked r config job_id text w.time w.store)
  unfolding load_job
  load_job-ok job_id none w e = absurd (data_expired-ok job_id w e)
  load_job-ok job_id (some text) w {i} {d} {w'} e = elim (Option-cases (loads text)) [
    | inl bad ↦ absurd (decode_failed-ok job_id text w (rw (bad, load_job) at e))
    | inr (d', good) ↦ loaded d' good
  ]
    where
      loaded :
          (d' : Json)
          → loads text ≡ some d'
          → (t : Stored) × (some text ≡ some t)
            × (loads t ≡ some d)
            × (i ≡ job_id)
            × (w'.store ≡ marked r config job_id t w.time w.store)
      loaded d' good =
          let done = mark_processing-ok job_id text d' w (rw (good, load_job) at e) in
          (text, refl, cc (good, done.0), cc (done.0), done.1)

  -- `present` hands on what it tests.
  present-some : (o : Option Stored) {text : Stored} → present o ≡ some text → o ≡ some text
  unfolding present
  present-some o h = ground arith

  -- The entry `o` of the queue led to the job `i`, and its bookkeeping to the store `t`.
  record Handed (o : Option Stored) (i : String) (d : Json) (s t : r.Store) : Type 0 where
    entry : o ≡ some (plain i)
    is_uuid : config.is_uuid i ≡ true
    text : Stored
    decoded : loads text ≡ some d
    was_stored : r.get (data_key i) s ≡ some text
    now : ℕ
    after : t ≡ marked r config i text now s

  take_job-ok :
      (o : Option Stored) (w : World r) {i : String} {d : Json} {w' : World r}
      → take_job r config o w ≡ (ok (some (i, d)), w')
      → Handed o i d w.store w'.store
  unfolding take_job get
  take_job-ok none w e = cc ((pure-ok _ w e).0)
  take_job-ok (some (json j)) w e = cc ((pure-ok _ w e).0)
  take_job-ok (some (plain job_id)) w {i} {d} {w'} e = elim (Bool-cases (config.is_uuid job_id)) [
    | inl good ↦ found good (step-ok _ _ _ w (rw (good, take_job) at e))
    | inr bad ↦ cc ((pure-ok _ w (rw (bad, take_job) at e)).0)
  ]
    where
      found :
          config.is_uuid job_id ≡ true
          → (w₁ : World r) × (w₁.store ≡ w.store)
            × (w₁.time ≡ w.time)
            × (load_job r config job_id (present (r.get (data_key job_id) w.store)) w₁
                ≡ (ok (some (i, d)), w'))
          → Handed (some (plain job_id)) i d w.store w'.store
      found good (w₁, s₁, t₁, h) =
          let (text, has, decoded, same, after) = load_job-ok job_id _ w₁ h in
          record {
            entry = cc same;
            is_uuid = rw same good;
            text = text;
            decoded = decoded;
            was_stored = rw same (present-some _ has);
            now = w₁.time;
            after = rw (same, ← s₁) after;
          }

  -- What the handler of an `OSError` returns is no job.
  not_handed :
      (x : Error) (w : World r) {p : String × Json} {w' : World r}
      → on_os_error (pure none) x w ≡ (ok (some p), w')
      → ⊥
  not_handed os_error w e = cc ((pure-ok _ w e).0)
  not_handed json_decode_error w e = absurd (raise-ok _ w e)
  not_handed attribute_error w e = absurd (raise-ok _ w e)
  not_handed queue_error w e = absurd (raise-ok _ w e)
  not_handed redis_error w e = absurd (raise-ok _ w e)
  not_handed type_error w e = absurd (raise-ok _ w e)

  double_ttl : 0 < config.job_ttl * 2
  double_ttl = omega arith

  module _ (i : String) (text : Stored) (now : ℕ) (s : r.Store) (id : IsJobId i) where
    marked-processing : r.sismember processing_set i (marked r config i text now s) ≡ true
    unfolding marked
    marked-processing = simp (redis_laws, key_laws)

    marked-status : r.get (status_key i) (marked r config i text now s) ≡ some (plain "processing")
    unfolding marked
    marked-status = simp (redis_laws, key_laws, started-status i i id, positive, double_ttl)

    marked-backup : r.get (backup_key i) (marked r config i text now s) ≡ some text
    unfolding marked
    marked-backup = simp (redis_laws, key_laws, positive, double_ttl)

    pub marked-queue :
        r.lrange pending_queue (marked r config i text now s) ≡ r.lrange pending_queue s
    unfolding marked
    marked-queue = simp redis_laws

  module _ (is_id : (i : String) → config.is_uuid i ≡ true → IsJobId i) where
    Handed-Taken :
        (i : String) (d : Json) (s s₁ t : r.Store)
        → s₁ ≡ r.lpop pending_queue s
        → Handed (head? (r.lrange pending_queue s)) i d s₁ t
        → Taken r config i d s t
    Handed-Taken i d s s₁ t popped h =
        let id = is_id i h.is_uuid in
        record {
          first = h.entry;
          is_uuid = h.is_uuid;
          text = h.text;
          decoded = h.decoded;
          was_stored = simp redis_laws at (rw popped at h.was_stored);
          rest_queued = rw (h.after, marked-queue i h.text h.now s₁ id, popped) refl;
          processing = rw h.after (marked-processing i h.text h.now s₁ id);
          status = rw h.after (marked-status i h.text h.now s₁ id);
          backed_up = rw h.after (marked-backup i h.text h.now s₁ id);
        }

    -- Whatever commands fail, with a positive `job_ttl` and if no text that passes for a UUID ends
    -- like a derived key: a job that `get_next_job` hands out was the first of the queue, is off
    -- the queue, in the processing set and marked "processing", and its data is backed up; what is
    -- handed out is the decoded text that was stored for it.
    pub get_next_job-Taken :
        (w : World r) (i : String) (d : Json) (w' : World r)
        → get_next_job r config w ≡ (ok (some (i, d)), w')
        → Taken r config i d w.store w'.store
    unfolding get_next_job blpop
    get_next_job-Taken w i d w' e = elim (try-cases _ _ w e) [
      | inl h ↦
          let (w₁, s₁, t₁, h') = step-ok _ _ _ w h in
          Handed-Taken i d w.store w₁.store w'.store s₁ (take_job-ok _ w₁ h')
      | inr (x, w₁, _, h) ↦ absurd (not_handed x w₁ h)
    ]

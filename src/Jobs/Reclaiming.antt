-- ===== src/Jobs/Reclaiming.antt =====
-- `reclaim_stale_jobs` of shared/job_queue.py under any faults.
use simple_claude_code_githu.Prelude.{
  ℕ, suc, ◌+◌, ◌<◌, ◌≤◌, String, ◌≡◌, refl, inl, inr, ◌⊎◌, Bool, true, false, Option, none, some,
  List, [], ◌∷◌, ◌++◌, arith, length, All, sym, ◌∙◌, str_eq, if◌then◌else◌,
}
use simple_claude_code_githu.Json.{null, bool, num, str, arr, obj, Fields, lookup, pop, lookup-pop}
use simple_claude_code_githu.Redis.{Redis, Stored, json, plain}
use simple_claude_code_githu.Redis.Laws.{redis_laws}
use simple_claude_code_githu.Redis.Runs.{step-ok, raise-ok, pure-ok, bind-ok, try-cases}
use simple_claude_code_githu.Redis.Io.{
  World, ok, Error, os_error, json_decode_error, attribute_error, queue_error, redis_error,
  type_error, pure, try_except, ◌>>=◌, Fault, fine, refused, reply_lost, network, client, raise,
}
use simple_claude_code_githu.Redis.Commands.{
  setex, srem, delete, rpush, get, exists, is_some, present,
}
use simple_claude_code_githu.Jobs.Keys.{
  IsJobId, data_key, status_key, backup_key, started_key, pending_queue, processing_set, key_laws,
  started-status, backup-data,
}
use simple_claude_code_githu.Jobs.{
  Config, reclaim_job, reclaim_all, restore_unless, restore_job, requeue_job, without_token,
  on_os_error,
}

-- What stands in the place of a backup: of an object, one with the same values at all keys but
-- `github_token`, which is gone; of anything else, the backup itself.
abbrev pub Restores : Stored → Option Stored → Type 0
Restores (json (obj fs)) v =
    (gs : Fields) × (v ≡ some (json (obj gs)))
    × ((k : String) → lookup k gs ≡ (if str_eq "github_token" k then none else lookup k fs))
Restores (json null) v = v ≡ some (json null)
Restores (json (bool b)) v = v ≡ some (json (bool b))
Restores (json (num n)) v = v ≡ some (json (num n))
Restores (json (str s)) v = v ≡ some (json (str s))
Restores (json (arr xs)) v = v ≡ some (json (arr xs))
Restores (plain s) v = v ≡ some (plain s)

without_token-Restores :
    (b : Stored) (o : Option Stored) (text : Stored)
    → without_token b ≡ some text
    → o ≡ some text
    → Restores b o
unfolding without_token
without_token-Restores (json (obj fs)) o text e h =
    (pop "github_token" fs, h ∙ sym e, λ k. lookup-pop "github_token" k fs)
without_token-Restores (json null) o text e h = cc
without_token-Restores (json (bool b)) o text e h = cc
without_token-Restores (json (num n)) o text e h = cc
without_token-Restores (json (str s)) o text e h = cc
without_token-Restores (json (arr xs)) o text e h = h ∙ sym e
without_token-Restores (plain s) o text e h = h ∙ sym e

-- From `s` to `t` the job `i` went back from the processing set to the end of the queue.
pub record Requeued (r : Redis) (i : String) (s t : r.Store) : Type 0 where
  pub backup : Stored
  pub data_gone : r.get (data_key i) s ≡ none
  pub was_backed_up : r.get (backup_key i) s ≡ some backup
  pub restored : Restores backup (r.get (data_key i) t)
  pub pending : r.get (status_key i) t ≡ some (plain "pending")
  pub queued : r.lrange pending_queue t ≡ r.lrange pending_queue s ++ plain i ∷ []
  pub not_processing : r.sismember processing_set i t ≡ false
  pub no_backup : r.get (backup_key i) t ≡ none

-- A round of the loop that returns has counted nothing, or has counted the job and re-queued it.
abbrev pub Round : (r : Redis) → String → ℕ → ℕ → r.Store → r.Store → Type 0
Round r i n m s t = (m ≡ n) ⊎ ((m ≡ n + 1) × Requeued r i s t)

module _ (r : Redis) (config : Config) where
  -- a read changes nothing, whether it works or not
  active_kept :
      (fs : List Fault) (i : String) (n : ℕ) (w : World r)
      → w.faults ≡ fs
      → (v : Stored) → r.get (data_key i) w.store ≡ some v
      → (reclaim_job r config i n w).1.store ≡ w.store
  unfolding reclaim_job try_except exists ◌>>=◌ pure restore_unless raise
  active_kept [] i n w f v has = rw (f, has, restore_unless) refl
  active_kept (fine ∷ fs) i n w f v has = rw (f, has, restore_unless) refl
  active_kept (refused network ∷ fs) i n w f v has = rw f refl
  active_kept (refused client ∷ fs) i n w f v has = rw f refl
  active_kept (reply_lost network ∷ fs) i n w f v has = rw f refl
  active_kept (reply_lost client ∷ fs) i n w f v has = rw f refl

  -- A job whose data has not expired is left alone, whatever commands fail.
  pub reclaim_job-active :
      (i : String) (n : ℕ) (w : World r) (v : Stored)
      → r.get (data_key i) w.store ≡ some v
      → (reclaim_job r config i n w).1.store ≡ w.store
  reclaim_job-active i n w v = active_kept w.faults i n w refl v

module _ (r : Redis) (config : Config) (positive : 0 < config.job_ttl) where
  module _ (i : String) where
    requeued : Stored → r.Store → r.Store
    requeued text s = r.delete (started_key i) (
        r.delete (backup_key i) (
          r.srem processing_set i (
            r.rpush pending_queue (plain i) (
              r.setex (status_key i) config.job_ttl (plain "pending")
                (r.setex (data_key i) config.job_ttl text s)))))

    requeue_job-ok :
        (text : Stored) (n m : ℕ) (w w' : World r)
        → requeue_job r config i (some text) n w ≡ (ok m, w')
        → (m ≡ n + 1) × (w'.store ≡ requeued text w.store)
    unfolding requeue_job setex rpush srem delete requeued
    requeue_job-ok text n m w w' e =
        let (w₁, s₁, _, e₁) = step-ok _ _ _ w e in
        let (w₂, s₂, _, e₂) = step-ok _ _ _ w₁ e₁ in
        let (w₃, s₃, _, e₃) = step-ok _ _ _ w₂ e₂ in
        let (w₄, s₄, _, e₄) = step-ok _ _ _ w₃ e₃ in
        let (w₅, s₅, _, e₅) = step-ok _ _ _ w₄ e₄ in
        let (w₆, s₆, _, e₆) = step-ok _ _ _ w₅ e₅ in
        let done = pure-ok _ w₆ e₆ in (done.0, cc (done.1, s₁, s₂, s₃, s₄, s₅, s₆))

    requeued-Requeued :
        (b text : Stored) (s : r.Store)
        → IsJobId i
        → r.get (data_key i) s ≡ none
        → r.get (backup_key i) s ≡ some b
        → without_token b ≡ some text
        → Requeued r i s (requeued text s)
    unfolding requeued
    requeued-Requeued b text s id gone has t = record {
      backup = b;
      data_gone = gone;
      was_backed_up = has;
      restored =
          without_token-Restores b _ text t
            (simp (redis_laws, key_laws, positive, backup-data i i id));
      pending = simp (redis_laws, key_laws, positive, started-status i i id);
      queued = simp redis_laws;
      not_processing = simp (redis_laws, key_laws);
      no_backup = simp (redis_laws, key_laws);
    }

    requeue_job-Round :
        (b : Stored) (o : Option Stored) (n m : ℕ) (w w' : World r)
        → IsJobId i
        → r.get (data_key i) w.store ≡ none
        → r.get (backup_key i) w.store ≡ some b
        → without_token b ≡ o
        → requeue_job r config i o n w ≡ (ok m, w')
        → Round r i n m w.store w'.store
    unfolding requeue_job
    requeue_job-Round b none n m w w' id gone has t e = absurd (raise-ok _ w e)
    requeue_job-Round b (some text) n m w w' id gone has t e =
        let done = requeue_job-ok text n m w w' e in
        inr (done.0, rw done.1 (requeued-Requeued b text w.store id gone has t))

    restore_job-Round :
        (o : Option Stored) (n m : ℕ) (w w' : World r)
        → IsJobId i
        → r.get (data_key i) w.store ≡ none
        → present (r.get (backup_key i) w.store) ≡ o
        → restore_job r config i o n w ≡ (ok m, w')
        → Round r i n m w.store w'.store
    unfolding restore_job srem present
    restore_job-Round none n m w w' id gone has e =
        let (w₁, s₁, _, e₁) = step-ok _ _ _ w e in inl ((pure-ok _ w₁ e₁).0)
    restore_job-Round (some b) n m w w' id gone has e =
        requeue_job-Round b (without_token b) n m w w' id gone (ground arith) refl e

    restore_unless-Round :
        (b : Bool) (n m : ℕ) (w w' : World r)
        → is_some (r.get (data_key i) w.store) ≡ b
        → IsJobId i
        → restore_unless r config b i n w ≡ (ok m, w')
        → Round r i n m w.store w'.store
    unfolding restore_unless get
    restore_unless-Round true n m w w' gone id e = inl ((pure-ok _ w e).0)
    restore_unless-Round false n m w w' gone id e =
        let (w₁, s₁, _, e₁) = step-ok _ _ _ w e in
        rw (← s₁) (restore_job-Round _ n m w₁ w' id (rw s₁ (ground arith)) (rw s₁ refl) e₁)

    on_os_error-count :
        (x : Error) (n m : ℕ) (w w' : World r) → on_os_error (pure n) x w ≡ (ok m, w') → m ≡ n
    on_os_error-count os_error n m w w' e = (pure-ok _ w e).0
    on_os_error-count json_decode_error n m w w' e = absurd (raise-ok _ w e)
    on_os_error-count attribute_error n m w w' e = absurd (raise-ok _ w e)
    on_os_error-count queue_error n m w w' e = absurd (raise-ok _ w e)
    on_os_error-count redis_error n m w w' e = absurd (raise-ok _ w e)
    on_os_error-count type_error n m w w' e = absurd (raise-ok _ w e)

    -- Whatever commands fail, with a positive `job_ttl` and an identifier that does not end like a
    -- derived key: a round that returns leaves the count, or adds one to it; and it adds one only
    -- for a job whose data was gone and whose backup was there, which it has put back at the end of
    -- the queue as "pending", out of the processing set and with no backup. If the backup is a JSON
    -- object, the job's data are an object with the same value at every key but `github_token`,
    -- which they do not have; otherwise the data are the backup itself.
    pub reclaim_job-Round :
        (n m : ℕ) (w w' : World r)
        → IsJobId i
        → reclaim_job r config i n w ≡ (ok m, w')
        → Round r i n m w.store w'.store
    unfolding reclaim_job exists
    reclaim_job-Round n m w w' id e = elim (try-cases _ _ w e) [
      | inl h ↦
          let (w₁, s₁, _, e₁) = step-ok _ _ _ w h in
          rw (← s₁) (restore_unless-Round _ n m w₁ w' (rw s₁ refl) id e₁)
      | inr (x, w₁, _, h) ↦ inl (on_os_error-count x n m w₁ w' h)
    ]

  -- With a positive `job_ttl`: if the loop over some job identifiers, none of which ends like a
  -- derived key, returns, whatever commands fail, then it has added to the count that it began with
  -- at most the number of identifiers, and taken nothing off it.
  pub reclaim_all-bounds :
      (ids : List String) (n m : ℕ) (w w' : World r)
      → All IsJobId ids
      → reclaim_all r config ids n w ≡ (ok m, w')
      → (n ≤ m) × (m ≤ n + length ids)
  unfolding reclaim_all
  reclaim_all-bounds [] n m w w' ids e = omega (arith, (pure-ok _ w e).0)
  reclaim_all-bounds (i ∷ is) n m w w' ids e =
      let (k, w₁, e₁, e₂) = bind-ok _ _ w e in
      counted (reclaim_job-Round i n k w w₁ ids.0 e₁) (reclaim_all-bounds is k m w₁ w' ids.1 e₂)
    where
      counted :
          {k : ℕ} {s t : r.Store}
          → Round r i n k s t
          → (k ≤ m) × (m ≤ k + length is)
          → (n ≤ m) × (m ≤ n + suc (length is))
      counted (inl h) b = omega arith
      counted (inr h) b = omega (arith, h.0)

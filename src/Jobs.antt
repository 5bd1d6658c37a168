-- ===== src/Jobs.antt =====
-- shared/job_queue.py: the job queue between the agent worker and the sandbox workers. Each method
-- of `JobQueue` is an action on its Redis connection, which is taken to be open (`_connect`). The
-- proofs are in the modules below.
mod Tests
pub mod Keys
pub mod Effects
pub mod Lifecycle
pub mod Completing
pub mod Reclaiming
pub mod Loss
pub mod Taking
use simple_claude_code_githu.Prelude.{
  ℕ, zero, suc, ◌+◌, ◌*◌, String, Bool, true, false, Option, none, some, List, [], ◌∷◌, take,
  if◌then◌else◌,
}
use simple_claude_code_githu.Json.{Json, null, bool, num, str, arr, obj, Fields, end, field, pop}
use simple_claude_code_githu.Redis.{Redis, Stored, json, plain, loads}
use simple_claude_code_githu.Redis.Io.{
  Error, os_error, json_decode_error, queue_error, attribute_error, type_error, Io, pure, raise,
  try_except, clock, ◌>>=◌, ◌>>◌,
}
use simple_claude_code_githu.Redis.Commands.{
  setex, delete, rpush, sadd, srem, get, lrange, llen, scard, smembers, exists, blpop, present,
}
use Keys.{
  data_key, status_key, backup_key, started_key, result_key, pending_queue, processing_set,
  dead_letter_queue,
}

-- What the methods take from outside: `job_ttl` of the constructor, the test that `uuid.UUID` makes
-- of an identifier, and the text of a decoding error.
pub record Config : Type 0 where
  pub job_ttl : ℕ
  pub is_uuid : String → Bool
  pub decode_message : Stored → String

-- `except OSError`
abbrev pub on_os_error : {A : Type 0} {r : Redis} → Io r A → Error → Io r A
on_os_error m os_error = m
on_os_error m e = raise e

-- `except (TypeError, ValueError)` and `except OSError`, both into a `QueueError`
abbrev pub into_queue_error : {A : Type 0} {r : Redis} → Error → Io r A
into_queue_error os_error = raise queue_error
into_queue_error json_decode_error = raise queue_error
into_queue_error type_error = raise queue_error
into_queue_error e = raise e

-- a dead letter, as `json.dumps` writes it
dead_letter : String → String → Fields → Stored
dead_letter job_id reason rest =
    json (obj (field "job_id" (str job_id) (field "reason" (str reason) rest)))

-- `job_data.pop("github_token", None)` on the decoded backup. Text that is not JSON is restored as
-- it is, and so is a list, whose `pop` raises the `TypeError` that is caught; `none` is the
-- `AttributeError` of a value with no `pop`.
pub without_token : Stored → Option Stored
unfolding pop
without_token (plain s) = some (plain s)
without_token (json (obj fs)) = some (json (obj (pop "github_token" fs)))
without_token (json (arr xs)) = some (json (arr xs))
without_token (json j) = none

-- every entry decoded, or `none` for a decoding error
pub decode_all : List Stored → Option (List Json)
decode_all [] = some []
decode_all (x ∷ xs) = elim (loads x) [
  | none ↦ none
  | some j ↦ elim (decode_all xs) [ none ↦ none | some js ↦ some (j ∷ js) ]
]

-- LRANGE 0 (limit - 1); the index -1 is that of the last entry
pub page : ℕ → List Stored → List Stored
page zero entries = entries
page (suc n) entries = take (suc n) entries

pub or_empty : Option (List Json) → List Json
or_empty none = []
or_empty (some js) = js

module _ (r : Redis) (config : Config) where
  open config use {job_ttl, is_uuid, decode_message}

  -- `job_id` is the text of the `uuid.uuid4()` that the call draws.
  pub create_job : String → Json → Io r String
  create_job job_id job_data =
      try_except
        (do
          setex (data_key job_id) job_ttl (json job_data)
          setex (status_key job_id) job_ttl (plain "pending")
          rpush pending_queue (plain job_id)
          pure job_id)
        into_queue_error

  mark_processing : String → Stored → Json → Io r (Option (String × Json))
  mark_processing job_id job_data_json job_data = do
    sadd processing_set job_id
    setex (status_key job_id) job_ttl (plain "processing")
    setex (backup_key job_id) (job_ttl * 2) job_data_json
    now ← clock
    setex (started_key job_id) job_ttl (json (num now))
    pure (some (job_id, job_data))

  data_expired : String → Io r (Option (String × Json))
  data_expired job_id = do
    now ← clock
    rpush dead_letter_queue (dead_letter job_id "data_expired" (field "timestamp" (num now) end))
    pure none

  -- the handler of `json.JSONDecodeError`; what its own write raises is logged and dropped
  decode_failed : String → Stored → Io r (Option (String × Json))
  decode_failed job_id job_data_json = do
    now ← clock
    try_except
        (do
          rpush dead_letter_queue (
              dead_letter job_id "json_decode_error" (
                field "error" (str (decode_message job_data_json))
                  (field "timestamp" (num now) end)))
          pure none)
        (λ _. pure none)

  load_job : String → Option Stored → Io r (Option (String × Json))
  load_job job_id none = data_expired job_id
  load_job job_id (some job_data_json) = elim (loads job_data_json) [
    | none ↦ decode_failed job_id job_data_json
    | some job_data ↦ mark_processing job_id job_data_json job_data
  ]

  -- An entry that is JSON text is no UUID with hyphens, as `create_job` pushes them.
  take_job : Option Stored → Io r (Option (String × Json))
  take_job none = pure none
  take_job (some (json j)) = pure none
  take_job (some (plain job_id)) =
      if is_uuid job_id
      then (do job_data_json ← get (data_key job_id); load_job job_id (present job_data_json))
      else pure none

  pub get_next_job : Io r (Option (String × Json))
  get_next_job =
      try_except (do result ← blpop pending_queue; take_job result) (on_os_error (pure none))

  pub complete_job : String → Json → String → Io r (Unit {0})
  complete_job job_id result status =
      try_except
        (do
          setex (result_key job_id) job_ttl (json result)
          setex (status_key job_id) job_ttl (plain status)
          srem processing_set job_id
          delete (backup_key job_id)
          delete (started_key job_id))
        into_queue_error

  pub get_job_status : String → Io r (Option Stored)
  get_job_status job_id = try_except (get (status_key job_id)) (on_os_error (pure none))

  decode_result : Option Stored → Option Json
  decode_result none = none
  decode_result (some result_json) = loads result_json

  pub get_job_result : String → Io r (Option Json)
  get_job_result job_id =
      try_except
        (do result_json ← get (result_key job_id); pure (decode_result (present result_json)))
        (on_os_error (pure none))

  requeue_job : String → Option Stored → ℕ → Io r ℕ
  requeue_job job_id none reclaimed = raise attribute_error
  requeue_job job_id (some restored_json) reclaimed = do
    setex (data_key job_id) job_ttl restored_json
    setex (status_key job_id) job_ttl (plain "pending")
    rpush pending_queue (plain job_id)
    srem processing_set job_id
    delete (backup_key job_id)
    delete (started_key job_id)
    pure (reclaimed + 1)

  -- with the data gone: re-queue from the backup, or drop the entry of the processing set
  restore_job : String → Option Stored → ℕ → Io r ℕ
  restore_job job_id none reclaimed = do srem processing_set job_id; pure reclaimed
  restore_job job_id (some backup_json) reclaimed =
      requeue_job job_id (without_token backup_json) reclaimed

  restore_unless : Bool → String → ℕ → Io r ℕ
  restore_unless true job_id reclaimed = pure reclaimed
  restore_unless false job_id reclaimed = do
    backup_json ← get (backup_key job_id)
    restore_job job_id (present backup_json) reclaimed

  -- one round of the loop
  pub reclaim_job : String → ℕ → Io r ℕ
  reclaim_job job_id reclaimed =
      try_except
        (do data_exists ← exists (data_key job_id); restore_unless data_exists job_id reclaimed)
        (on_os_error (pure reclaimed))

  pub reclaim_all : List String → ℕ → Io r ℕ
  reclaim_all [] reclaimed = pure reclaimed
  reclaim_all (job_id ∷ job_ids) reclaimed = do
    reclaimed' ← reclaim_job job_id reclaimed
    reclaim_all job_ids reclaimed'

  -- `except OSError: return 0` stands around SMEMBERS only
  pub reclaim_stale_jobs : Io r ℕ
  reclaim_stale_jobs = do
    job_ids ←
        try_except (do ids ← smembers processing_set; pure (some ids)) (on_os_error (pure none))
    elim job_ids [ none ↦ pure 0 | some ids ↦ reclaim_all ids 0 ]

  pub get_queue_depth : Io r ℕ
  get_queue_depth = try_except (llen pending_queue) (on_os_error (pure 0))

  pub get_processing_count : Io r ℕ
  get_processing_count = try_except (scard processing_set) (on_os_error (pure 0))

  pub get_dead_letter_count : Io r ℕ
  get_dead_letter_count = try_except (llen dead_letter_queue) (on_os_error (pure 0))

  pub inspect_dead_letters : ℕ → Io r (List Json)
  inspect_dead_letters limit =
      try_except
        (do entries ← lrange dead_letter_queue; pure (or_empty (decode_all (page limit entries))))
        (on_os_error (pure []))

-- ===== src/WorktreeLock.antt =====
-- shared/worktree_lock.py: the lock that keeps two jobs off one worktree, with the prompt that waits
-- for a running job. The state is the key in Redis and, for each client, its `WorktreeLock` object.
-- A script is one step on the server. What other clients do while this one sleeps is a parameter.
mod Tests
pub mod Keys
pub mod Ownership
pub mod Releasing
pub mod Pending
use simple_claude_code_githu.Prelude.{
  ℕ, zero, suc, String, Bool, true, false, Option, none, some, List, [], ◌∷◌, ◌||◌, ◌&&◌, str_eq,
  if◌then◌else◌,
}
use simple_claude_code_githu.Json.{
  Json, null, num, str, arr, obj, Fields, end, field, lookup, assign,
}
use simple_claude_code_githu.Json.Equality.{py_eq}
use simple_claude_code_githu.Redis.{Redis, Stored, json, plain}
use simple_claude_code_githu.Redis.Io.{Io, Error, pure, try_except, ◌>>=◌, ◌>>◌}
use simple_claude_code_githu.Redis.Commands.{get, setex, eval, set_nx, present}
use Keys.{WorktreeKey, lock_key, pending_key}

-- `LockInfo`, as the dataclass keeps what it is given
pub record LockInfo : Type 0 where
  pub job_id : Json
  pub session_id : Json
  pub status : Json
  pub pid : Json

pub record PendingPrompt : Type 0 where
  pub job_id : Json
  pub prompt : Json
  pub timestamp : Json

-- `json.dumps(lock_info.__dict__)` of a new lock
pub lock_value : String → ℕ → Fields
lock_value job_id pid =
    field "job_id" (str job_id)
      (field "session_id" null (field "status" (str "running") (field "pid" (num pid) end)))

pub pending_value : String → String → String → Fields
pending_value job_id prompt timestamp =
    field "job_id" (str job_id)
      (field "prompt" (str prompt) (field "timestamp" (str timestamp) end))

abbrev or_else : Json → Option Json → Json
or_else d none = d
or_else d (some j) = j

-- an unknown keyword argument is a `TypeError`
only_lock_fields : Fields → Bool
only_lock_fields end = true
only_lock_fields (field k v fs) =
    (str_eq k "job_id" || str_eq k "session_id" || str_eq k "status" || str_eq k "pid")
    && only_lock_fields fs

-- `LockInfo(**data)`
lock_info_of : Fields → Option LockInfo
unfolding only_lock_fields lookup
lock_info_of fs = elim (lookup "job_id" fs) [
  | none ↦ none
  | some job_id ↦
      if only_lock_fields fs
      then some (record {
        job_id = job_id;
        session_id = or_else null (lookup "session_id" fs);
        status = or_else (str "running") (lookup "status" fs);
        pid = or_else null (lookup "pid" fs);
      })
      else none
]

only_pending_fields : Fields → Bool
only_pending_fields end = true
only_pending_fields (field k v fs) =
    (str_eq k "job_id" || str_eq k "prompt" || str_eq k "timestamp") && only_pending_fields fs

abbrev prompt_from : Option Json → Option Json → Option Json → Option PendingPrompt
prompt_from (some job_id) (some prompt) (some timestamp) =
    some (record { job_id = job_id; prompt = prompt; timestamp = timestamp })
prompt_from _ _ _ = none

-- `PendingPrompt(**data)`
pub pending_of : Fields → Option PendingPrompt
unfolding only_pending_fields lookup
pending_of fs =
    if only_pending_fields fs
    then prompt_from (lookup "job_id" fs) (lookup "prompt" fs) (lookup "timestamp" fs)
    else none

-- The `WorktreeLock` object.
pub record Holder : Type 0 where
  pub lock_acquired : Bool
  pub job_id : Option String

-- The script of `release`: is the value at the key that of the job? In Lua a text has no field
-- `job_id`, and to index a number, a Boolean or null fails, as decoding does.
pub owned_by : String → Option Stored → Option Bool
unfolding lookup py_eq
owned_by i none = some false
owned_by i (some (json (obj fs))) = elim (lookup "job_id" fs) [
  | none ↦ some false
  | some j ↦ some (py_eq j (str i))
]
owned_by i (some (json (arr xs))) = some false
owned_by i (some (json (str s))) = some false
owned_by i (some other) = none

abbrev is_yes : Option Bool → Bool
is_yes (some true) = true
is_yes other = false

-- The script of `_update_lock_field`: the new value and its time to live. The lock's value is a
-- table; a script that finds something else fails.
pub updated : String → String → Option Stored → Option ℕ → Option (Option (Fields × ℕ))
unfolding assign
updated name value none ttl = some none
updated name value (some (json (obj fs))) (some (suc t)) =
    some (some (assign name (str value) fs, suc t))
updated name value (some (json (obj fs))) ttl = some none
updated name value (some other) ttl = none

module _ (r : Redis) (key : WorktreeKey) where
  pub release_script : String → Io r Bool
  release_script i =
      eval (λ s. owned_by i (r.get (lock_key key) s))
        (λ s. if is_yes (owned_by i (r.get (lock_key key) s)) then r.delete (lock_key key) s else s)

  abbrev written : Option (Option (Fields × ℕ)) → r.Store → r.Store
  written (some (some (fs, t))) s = r.setex (lock_key key) t (json (obj fs)) s
  written other s = s

  abbrev replied : Option (Option (Fields × ℕ)) → Option Bool
  replied none = none
  replied (some none) = some false
  replied (some (some v)) = some true

  pub update_script : String → String → Io r Bool
  unfolding updated
  update_script name value =
      eval (λ s. replied (updated name value (r.get (lock_key key) s) (r.ttl (lock_key key) s)))
        (λ s. written (updated name value (r.get (lock_key key) s) (r.ttl (lock_key key) s)) s)

  -- the script of `get_pending_prompt`
  pub take_script : Io r (Option Stored)
  take_script = eval (λ s. some (r.get (pending_key key) s)) (λ s. r.delete (pending_key key) s)

  pub release : Holder → Io r Holder
  release h = elim h.lock_acquired [
    | false ↦ pure h
    | true ↦ elim h.job_id [
      | none ↦ pure (record h { lock_acquired = false })
      | some i ↦ (do _ ← release_script i; pure (record h { lock_acquired = false }))
    ]
  ]

  -- `except Exception: return False`
  pub update_lock_field : String → String → Io r Bool
  update_lock_field name value = try_except (update_script name value) (λ _. pure false)

  pub set_session_id : Holder → String → Io r (Unit {0})
  set_session_id h session_id = elim h.lock_acquired [
    | false ↦ pure tt
    | true ↦ (do _ ← update_lock_field "session_id" session_id; pure tt)
  ]

  pub set_interrupted : Holder → Io r (Unit {0})
  set_interrupted h = elim h.lock_acquired [
    | false ↦ pure tt
    | true ↦ (do _ ← update_lock_field "status" "interrupted"; pure tt)
  ]

  -- what `json.loads` and the constructor make of a text; an exception gives `None`
  pub info_from : Option Stored → Option LockInfo
  unfolding lock_info_of
  info_from (some (json (obj fs))) = lock_info_of fs
  info_from other = none

  pub get_lock_info : Io r (Option LockInfo)
  get_lock_info = do lock_value ← get (lock_key key); pure (info_from (present lock_value))

  pub set_pending_prompt : String → String → String → Io r (Unit {0})
  set_pending_prompt job_id prompt timestamp =
      setex (pending_key key) 300 (json (obj (pending_value job_id prompt timestamp)))

  pub prompt_of : Option Stored → Option PendingPrompt
  unfolding pending_of
  prompt_of (some (json (obj fs))) = pending_of fs
  prompt_of other = none

  pub get_pending_prompt : Io r (Option PendingPrompt)
  get_pending_prompt = do raw ← take_script; pure (prompt_of (present raw))

  -- `asyncio.sleep`, in which other clients may change the store
  module _ (sleep : Io r (Unit {0})) where
    -- One look at the lock each second, `timeout` of them.
    pub wait_for_release : ℕ → Io r Bool
    wait_for_release zero = pure false
    wait_for_release (suc timeout) = do
      lock_value ← get (lock_key key)
      elim (present lock_value) [ none ↦ pure true | some v ↦ (do sleep; wait_for_release timeout) ]

    module _ (pid : ℕ) (timestamp : String) where
      -- `acquire` with a timeout of 0
      pub try_acquire : String → ℕ → Holder → Io r (Bool × Holder)
      unfolding lock_value
      try_acquire job_id ttl h = do
        acquired ← set_nx (lock_key key) ttl (json (obj (lock_value job_id pid)))
        elim acquired [
          | true ↦ pure (true, record { lock_acquired = true; job_id = some job_id })
          | false ↦ pure (false, h)
        ]

      -- with the lock still held after the wait, `set_pending_prompt(job_id, "")`
      pub leave_prompt : String → Bool × Holder → Io r (Bool × Holder)
      unfolding set_pending_prompt
      leave_prompt job_id (true, h) = pure (true, h)
      leave_prompt job_id (false, h) = do set_pending_prompt job_id "" timestamp; pure (false, h)

      pub wait_and_retry : String → ℕ → ℕ → Bool × Holder → Io r (Bool × Holder)
      wait_and_retry job_id timeout ttl (true, h) = pure (true, h)
      wait_and_retry job_id zero ttl (false, h) = pure (false, h)
      wait_and_retry job_id (suc n) ttl (false, h) = do
        _ ← wait_for_release (suc n)
        second ← try_acquire job_id ttl h
        leave_prompt job_id second

      pub acquire : String → ℕ → ℕ → Holder → Io r (Bool × Holder)
      acquire job_id timeout ttl h = do
        first ← try_acquire job_id ttl h
        wait_and_retry job_id timeout ttl first

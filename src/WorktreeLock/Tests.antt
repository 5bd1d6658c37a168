-- ===== src/WorktreeLock/Tests.antt =====
-- The lock of one worktree on the concrete server.
use simple_claude_code_githu.Prelude.{
  String, ◌≡◌, ◌≢◌, refl, true, false, none, some, List, [], ◌∷◌, arith, eq_iff,
}
use simple_claude_code_githu.Json.{obj, lookup}
use simple_claude_code_githu.Redis.{Stored, json}
use simple_claude_code_githu.Redis.Io.{
  World, Io, Fault, reply_lost, client, ok, pure, command, ◌>>=◌,
}
use simple_claude_code_githu.Redis.Commands.{set_nx, get, present}
use simple_claude_code_githu.Redis.Memory.{memory, empty}
use simple_claude_code_githu.WorktreeLock.Keys.{WorktreeKey, lock_key}
use simple_claude_code_githu.WorktreeLock.{
  Holder, lock_value, acquire, try_acquire, wait_and_retry, release, wait_for_release,
}
use simple_claude_code_githu.WorktreeLock.Ownership.{
  Held, holder_of, acquire-Held, acquire-excluded,
}
use simple_claude_code_githu.WorktreeLock.Releasing.{OthersLock, release-OthersLock}

abbrev key : WorktreeKey
key = record { repo = "dev/app"; thread_type = "pr"; thread_id = "7"; workflow = "review-pr" }

abbrev start : World memory
start = record { store = empty; time = 0; faults = [] }

abbrev nap : Io memory (Unit {0})
nap w = (ok tt, w)

abbrev idle : Holder
idle = record { lock_acquired = false; job_id = none }

abbrev mine : Holder
mine = record { lock_acquired = true; job_id = some "job-1" }

abbrev value : String → Stored
value job_id = json (obj (lock_value job_id 41))

-- a server on which `job_id` has the lock, and which lets commands fail
abbrev locked_by : String → List Fault → World memory
locked_by job_id faults = record {
  store = memory.setex (lock_key key) 600 (value job_id) empty;
  time = 0;
  faults = faults;
}

acquired :
    acquire memory key nap 41 "now" "job-1" 30 600 idle start
    ≡ (ok (true, mine), locked_by "job-1" [])
unfolding acquire lock_key ◌>>=◌ try_acquire set_nx pure wait_and_retry
acquired = refl

acquire-Held_example :
    Held memory key "job-1" 41 600 (locked_by "job-1" []).store
    × (mine ≡ holder_of memory key 41 "now" nap "job-1")
acquire-Held_example =
    acquire-Held memory key 41 "now" nap "job-1" 30 600 idle mine start (locked_by "job-1" [])
      (omega arith) acquired

acquire-excluded_example :
    ((acquire memory key nap 41 "now" "job-2" 0 600 idle (locked_by "job-1" [])).1.store
      ≡ (locked_by "job-1" []).store)
    × ((acquire memory key nap 41 "now" "job-2" 0 600 idle (locked_by "job-1" [])).0
        ≢ ok (true, mine))
unfolding lock_key
acquire-excluded_example =
    acquire-excluded memory key 41 "now" nap "job-2" 600 idle mine (locked_by "job-1" [])
      (value "job-1") refl

stolen : OthersLock memory key "job-1" (locked_by "job-2" []).store
unfolding lock_key lock_value lookup
stolen = record {
  owner = "job-2";
  fields = lock_value "job-2" 41;
  at_key = refl;
  named = refl;
  other = λ e. ground (arith, eq_iff "job-2" "job-1");
}

release-OthersLock_example :
    (release memory key mine (locked_by "job-2" (reply_lost client ∷ []))).1.store
    ≡ (locked_by "job-2" []).store
release-OthersLock_example =
    release-OthersLock memory key "job-1" (locked_by "job-2" (reply_lost client ∷ [])) stolen

held : Held memory key "job-1" 41 600 (locked_by "job-1" []).store
unfolding lock_key lock_value
held = record { value = refl; expires = refl }

waited : wait_for_release memory key nap 30 start ≡ (ok true, start)
unfolding wait_for_release get command present pure ◌>>=◌
waited = refl

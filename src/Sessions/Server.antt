-- ===== src/Sessions/Server.antt =====
-- The Redis server as the streaming sessions use it, which is not part of the repository: a record of
-- its views and commands, with what the Redis documentation says that they do.
use simple_claude_code_githu.Prelude.{
  ℕ, ◌<◌, ◌≡◌, String, Bool, ◌||◌, Option, none, some, List, [], ◌∷◌, ◌++◌, str_eq, if◌then◌else◌,
}
use simple_claude_code_githu.Redis.{Stored}
use simple_claude_code_githu.Workflows.{Dict, find}

abbrev pub or_else {ℓ} : {A : Type ℓ} → Option A → Option A → Option A
or_else none other = other
or_else (some x) other = some x

pub record SessionRedis : Type 1 where
  pub Store : Type 0
  -- the views: a field of a hash and whether the hash exists, a text, a list, a counter
  pub hget : String → String → Store → Option String
  pub has_hash : String → Store → Bool
  pub get : String → Store → Option String
  pub lrange : String → Store → List Stored
  pub counter : String → Store → Option ℕ
  -- the commands that write; a counter is only ever stored above zero
  pub hset : String → Dict String → Store → Store
  pub setex : String → ℕ → String → Store → Store
  pub expire : String → ℕ → Store → Store
  pub rpush : String → Stored → Store → Store
  pub set_counter : String → ℕ → Store → Store
  pub del : String → Store → Store
  -- HSET of some fields
  pub hget_hset :
      (k j f : String) (fs : Dict String) (s : Store)
      → hget j f (hset k fs s)
        ≡ (if str_eq k j then or_else (find f fs) (hget j f s) else hget j f s)
  pub has_hash_hset :
      (k j f v : String) (fs : Dict String) (s : Store)
      → has_hash j (hset k ((f, v) ∷ fs) s) ≡ str_eq k j || has_hash j s
  pub get_hset : (k j : String) (fs : Dict String) (s : Store) → get j (hset k fs s) ≡ get j s
  -- SETEX of a text, with a positive time to live
  pub get_setex :
      (k j : String) (t : ℕ) (v : String) (s : Store)
      → 0 < t
      → get j (setex k t v s) ≡ (if str_eq k j then some v else get j s)
  pub hget_setex :
      (k j f : String) (t : ℕ) (v : String) (s : Store) → hget j f (setex k t v s) ≡ hget j f s
  pub has_hash_setex :
      (k j : String) (t : ℕ) (v : String) (s : Store) → has_hash j (setex k t v s) ≡ has_hash j s
  -- EXPIRE with a positive time to live
  pub hget_expire :
      (k j f : String) (t : ℕ) (s : Store) → 0 < t → hget j f (expire k t s) ≡ hget j f s
  pub has_hash_expire :
      (k j : String) (t : ℕ) (s : Store) → 0 < t → has_hash j (expire k t s) ≡ has_hash j s
  pub get_expire : (k j : String) (t : ℕ) (s : Store) → 0 < t → get j (expire k t s) ≡ get j s
  pub lrange_expire :
      (k j : String) (t : ℕ) (s : Store) → 0 < t → lrange j (expire k t s) ≡ lrange j s
  pub counter_expire :
      (k j : String) (t : ℕ) (s : Store) → 0 < t → counter j (expire k t s) ≡ counter j s
  -- RPUSH appends at the tail.
  pub lrange_rpush :
      (k j : String) (v : Stored) (s : Store)
      → lrange j (rpush k v s) ≡ (if str_eq k j then lrange j s ++ v ∷ [] else lrange j s)
  -- the value that INCR and DECR leave
  pub counter_set :
      (k j : String) (n : ℕ) (s : Store)
      → counter j (set_counter k n s) ≡ (if str_eq k j then some n else counter j s)
  -- DEL
  pub lrange_del :
      (k j : String) (s : Store) → lrange j (del k s) ≡ (if str_eq k j then [] else lrange j s)
  pub counter_del :
      (k j : String) (s : Store) → counter j (del k s) ≡ (if str_eq k j then none else counter j s)

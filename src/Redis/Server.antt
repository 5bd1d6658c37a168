-- ===== src/Redis/Server.antt =====
-- The Redis server, which is not part of the repository: a record of its commands and of what the
-- Redis documentation says that they do. Each view shows the keys of one type; the program uses no
-- key at two types, so a command on one type leaves the views of the others alone. The passing of
-- time is no command: a key that expires is one more `delete`, which the environment makes.
use simple_claude_code_githu.Prelude.{
  ℕ, ◌<◌, String, ◌≡◌, Bool, Option, none, some, List, [], ◌∷◌, ◌++◌, str_eq, not, ◌&&◌, ◌||◌,
  if◌then◌else◌,
}
use simple_claude_code_githu.Prelude.Text.{str_elem}
use simple_claude_code_githu.Json.{Json}

-- A stored text, read as `json.loads` reads it: the text of a value, or a text that is not JSON
-- (an identifier, a status).
pub data Stored : Type 0 where
  json : Json → Stored
  plain : String → Stored

-- `json.loads`; `none` is a `json.JSONDecodeError`
unfoldable pub loads : Stored → Option Json
loads (json j) = some j
loads (plain s) = none

abbrev pub tail : List Stored → List Stored
tail [] = []
tail (x ∷ xs) = xs

pub record Redis : Type 1 where
  pub Store : Type 0
  -- the views: GET and TTL (no value: no such key), LRANGE 0 -1, SISMEMBER
  pub get : String → Store → Option Stored
  pub ttl : String → Store → Option ℕ
  pub lrange : String → Store → List Stored
  pub sismember : String → String → Store → Bool
  -- SMEMBERS, in the order in which this server answers
  pub smembers : String → Store → List String
  -- the commands that write
  pub setex : String → ℕ → Stored → Store → Store
  pub delete : String → Store → Store
  pub rpush : String → Stored → Store → Store
  pub lpop : String → Store → Store
  pub sadd : String → String → Store → Store
  pub srem : String → String → Store → Store
  pub elem_smembers : (k m : String) (s : Store) → str_elem m (smembers k s) ≡ sismember k m s
  -- SETEX wants a positive time to live, and replaces the value and the time to live.
  pub get_setex :
      (k j : String) (t : ℕ) (v : Stored) (s : Store)
      → 0 < t
      → get j (setex k t v s) ≡ (if str_eq k j then some v else get j s)
  pub ttl_setex :
      (k j : String) (t : ℕ) (v : Stored) (s : Store)
      → 0 < t
      → ttl j (setex k t v s) ≡ (if str_eq k j then some t else ttl j s)
  pub lrange_setex :
      (k j : String) (t : ℕ) (v : Stored) (s : Store) → lrange j (setex k t v s) ≡ lrange j s
  pub sismember_setex :
      (k j m : String) (t : ℕ) (v : Stored) (s : Store)
      → sismember j m (setex k t v s) ≡ sismember j m s
  -- DEL, of a key of the string type
  pub get_delete :
      (k j : String) (s : Store) → get j (delete k s) ≡ (if str_eq k j then none else get j s)
  pub ttl_delete :
      (k j : String) (s : Store) → ttl j (delete k s) ≡ (if str_eq k j then none else ttl j s)
  pub lrange_delete : (k j : String) (s : Store) → lrange j (delete k s) ≡ lrange j s
  pub sismember_delete : (k j m : String) (s : Store) → sismember j m (delete k s) ≡ sismember j m s
  -- RPUSH appends at the tail.
  pub get_rpush : (k j : String) (v : Stored) (s : Store) → get j (rpush k v s) ≡ get j s
  pub ttl_rpush : (k j : String) (v : Stored) (s : Store) → ttl j (rpush k v s) ≡ ttl j s
  pub lrange_rpush :
      (k j : String) (v : Stored) (s : Store)
      → lrange j (rpush k v s) ≡ (if str_eq k j then lrange j s ++ v ∷ [] else lrange j s)
  pub sismember_rpush :
      (k j m : String) (v : Stored) (s : Store) → sismember j m (rpush k v s) ≡ sismember j m s
  -- LPOP takes the head away.
  pub get_lpop : (k j : String) (s : Store) → get j (lpop k s) ≡ get j s
  pub ttl_lpop : (k j : String) (s : Store) → ttl j (lpop k s) ≡ ttl j s
  pub lrange_lpop :
      (k j : String) (s : Store)
      → lrange j (lpop k s) ≡ (if str_eq k j then tail (lrange j s) else lrange j s)
  pub sismember_lpop : (k j m : String) (s : Store) → sismember j m (lpop k s) ≡ sismember j m s
  -- SADD and SREM of one member
  pub get_sadd : (k j m : String) (s : Store) → get j (sadd k m s) ≡ get j s
  pub ttl_sadd : (k j m : String) (s : Store) → ttl j (sadd k m s) ≡ ttl j s
  pub lrange_sadd : (k j m : String) (s : Store) → lrange j (sadd k m s) ≡ lrange j s
  pub sismember_sadd :
      (k j m n : String) (s : Store)
      → sismember j n (sadd k m s) ≡ (str_eq k j && str_eq m n || sismember j n s)
  pub get_srem : (k j m : String) (s : Store) → get j (srem k m s) ≡ get j s
  pub ttl_srem : (k j m : String) (s : Store) → ttl j (srem k m s) ≡ ttl j s
  pub lrange_srem : (k j m : String) (s : Store) → lrange j (srem k m s) ≡ lrange j s
  pub sismember_srem :
      (k j m n : String) (s : Store)
      → sismember j n (srem k m s) ≡ (not (str_eq k j && str_eq m n) && sismember j n s)

-- ===== src/Redis/Commands.antt =====
-- The commands of the async Redis client as actions.
use mathlib.Core.List.{head?}
use simple_claude_code_githu.Prelude.{
  ℕ, String, Bool, true, false, not, Option, some, none, List, length, str_eq, if◌then◌else◌,
}
use simple_claude_code_githu.Redis.Server.{Redis, Stored, json, plain}
use simple_claude_code_githu.Redis.Io.{Io, command, pure, raise, redis_error, ◌>>=◌}

abbrev pub is_some : Option Stored → Bool
is_some none = false
is_some (some v) = true

module _ {r : Redis} where
  unfoldable pub setex : String → ℕ → Stored → Io r (Unit {0})
  unfolding command
  setex k t v = command (λ _. tt) (r.setex k t v)

  unfoldable pub delete : String → Io r (Unit {0})
  unfolding command
  delete k = command (λ _. tt) (r.delete k)

  unfoldable pub rpush : String → Stored → Io r (Unit {0})
  unfolding command
  rpush k v = command (λ _. tt) (r.rpush k v)

  unfoldable pub sadd : String → String → Io r (Unit {0})
  unfolding command
  sadd k m = command (λ _. tt) (r.sadd k m)

  unfoldable pub srem : String → String → Io r (Unit {0})
  unfolding command
  srem k m = command (λ _. tt) (r.srem k m)

  unfoldable pub get : String → Io r (Option Stored)
  unfolding command
  get k = command (r.get k) (λ s. s)

  unfoldable pub lrange : String → Io r (List Stored)
  unfolding command
  lrange k = command (r.lrange k) (λ s. s)

  unfoldable pub llen : String → Io r ℕ
  unfolding command
  llen k = command (λ s. length (r.lrange k s)) (λ s. s)

  unfoldable pub scard : String → Io r ℕ
  unfolding command
  scard k = command (λ s. length (r.smembers k s)) (λ s. s)

  unfoldable pub smembers : String → Io r (List String)
  unfolding command
  smembers k = command (r.smembers k) (λ s. s)

  -- EXISTS, of a key of the string type
  unfoldable pub exists : String → Io r Bool
  unfolding command
  exists k = command (λ s. is_some (r.get k s)) (λ s. s)

  -- BLPOP, which answers nothing when its timeout passes over an empty list
  unfoldable pub blpop : String → Io r (Option Stored)
  unfolding command
  blpop k = command (λ s. head? (r.lrange k s)) (r.lpop k)

module _ {r : Redis} {A : Type 0} where
  abbrev reply_of : Option A → Io r A
  reply_of none = raise redis_error
  reply_of (some a) = pure a

  -- EVAL of a script: the server runs it as one step. Without a reply the script failed.
  unfoldable pub eval : (r.Store → Option A) → (r.Store → r.Store) → Io r A
  unfolding command pure raise ◌>>=◌
  eval reply effect = command reply effect >>= reply_of

module _ {r : Redis} where
  -- SET NX EX: only a key that does not exist is set; the reply says whether it was.
  unfoldable pub set_nx : String → ℕ → Stored → Io r Bool
  unfolding command
  set_nx k t v =
      command (λ s. not (is_some (r.get k s)))
        (λ s. if is_some (r.get k s) then s else r.setex k t v s)

-- Python's `if not text`: no value, or the empty text
unfoldable pub present : Option Stored → Option Stored
present none = none
present (some (json j)) = some (json j)
present (some (plain s)) = if str_eq s "" then none else some (plain s)

-- ===== src/MessageQueue.antt =====
-- shared/queue.py: the queue of messages in Redis (`RedisQueue`). Its connection is taken to be open.
mod Tests
pub mod Receiving
pub mod Readiness
use simple_claude_code_githu.Prelude.{ℕ, zero, suc, String, Option, none, some}
use simple_claude_code_githu.Json.{Json}
use simple_claude_code_githu.Redis.{Redis, Stored, json, loads}
use simple_claude_code_githu.Redis.Io.{
  Error, os_error, json_decode_error, queue_error, type_error, Io, pure, raise, try_except, ◌>>=◌,
  ◌>>◌,
}
use simple_claude_code_githu.Redis.Commands.{rpush, blpop}

module _ {r : Redis} where
  -- `except OSError` and `except (TypeError, ValueError)`, both into a `QueueError`
  abbrev pub publish_failed : Error → Io r (Unit {0})
  publish_failed os_error = raise queue_error
  publish_failed json_decode_error = raise queue_error
  publish_failed type_error = raise queue_error
  publish_failed e = raise e

  pub publish : String → Json → Io r (Unit {0})
  publish queue_name message = try_except (rpush queue_name (json message)) publish_failed

  -- `callback` is the subscriber's, and `sleep` what others do in the second after an error.
  module _ (queue_name : String) (callback : Json → Io r (Unit {0})) (sleep : Io r (Unit {0})) where
    abbrev pub decoded : Option Json → Io r (Unit {0})
    decoded none = raise json_decode_error
    decoded (some message) = callback message

    abbrev pub process : Option Stored → Io r (Unit {0})
    process none = pure tt
    process (some message_json) = decoded (loads message_json)

    -- the three handlers of the loop
    abbrev pub recover : Error → Io r (Unit {0})
    recover json_decode_error = pure tt
    recover os_error = sleep
    recover e = sleep

    -- One pass of the loop.
    pub receive : Io r (Unit {0})
    receive = try_except (do result ← blpop queue_name; process result) recover

    -- The passes of the loop until `close` resets `_running`.
    pub subscribe : ℕ → Io r (Unit {0})
    unfolding receive
    subscribe zero = pure tt
    subscribe (suc n) = do receive; subscribe n

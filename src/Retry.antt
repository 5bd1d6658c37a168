-- ===== src/Retry.antt =====
-- shared/retry.py and shared/dlq.py: attempts with growing delays, and the dead letters of a queue.
-- Delays are natural numbers of some unit of time.
mod Tests
pub mod Attempts
pub mod DeadLetters
use simple_claude_code_githu.Prelude.{
  ℕ, zero, suc, ◌*◌, ◌^◌, min, Bool, true, false, List, [], ◌∷◌, ◌++◌, if◌then◌else◌,
}

-- The keyword arguments of `async_retry` that set the delays.
pub record Backoff : Type 0 where
  pub base_delay : ℕ
  pub max_delay : ℕ
  pub exponential_base : ℕ

-- What one call of the decorated function does.
pub data Attempt (A E : Type 0) : Type 0 where
  returned : A → Attempt A E
  failed : E → Attempt A E

-- What the wrapper does in the end: return, let an exception out that it does not catch, or raise
-- `RetryExhaustedError`.
pub data Ended (A E : Type 0) : Type 0 where
  result : A → Ended A E
  let_out : E → Ended A E
  exhausted : Ended A E

-- `min(base_delay * (exponential_base**attempt), max_delay)`
pub delay : Backoff → ℕ → ℕ
delay b attempt = min (b.base_delay * b.exponential_base ^ attempt) b.max_delay

-- `if attempt < max_attempts - 1`: no sleep after the last attempt
pub sleep_after : Backoff → ℕ → ℕ → List ℕ
unfolding delay
sleep_after b attempt zero = []
sleep_after b attempt (suc left) = delay b attempt ∷ []

module _ {A E : Type 0} (b : Backoff) (caught : E → Bool) (func : ℕ → Attempt A E) where
  abbrev pub retry_or : ℕ → ℕ → Attempt A E → Ended A E × List ℕ → Ended A E × List ℕ
  retry_or attempt left (returned a) rest = (result a, [])
  retry_or attempt left (failed e) rest =
      if caught e then (rest.0, sleep_after b attempt left ++ rest.1) else (let_out e, [])

  -- The loop from the attempt with a number on, with so many attempts left: its end, and how long
  -- it slept after each attempt.
  pub attempts_from : ℕ → ℕ → Ended A E × List ℕ
  unfolding sleep_after
  attempts_from attempt zero = (exhausted, [])
  attempts_from attempt (suc left) =
      retry_or attempt left (func attempt) (attempts_from (suc attempt) left)

  -- `wrapper`
  pub async_retry : ℕ → Ended A E × List ℕ
  unfolding attempts_from
  async_retry max_attempts = attempts_from 0 max_attempts

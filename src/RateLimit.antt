-- ===== src/RateLimit.antt =====
-- shared/rate_limiter.py: the in-memory sliding-window limiter and the table of named limiters. A
-- clock reading is a natural number of clock ticks, in which the window and the timeouts are
-- measured too; `requests[0] <= now - time_window` is written with a sum. Between taking the lock
-- and giving it back a call awaits nothing, so one round of the loop is one step.
mod Tests
pub mod Deque
pub mod Window
pub mod Waiting
pub mod Named
use simple_claude_code_githu.Prelude.{
  ℕ, ◌+◌, ◌-◌, String, Bool, true, false, ◌≡◌, Option, none, some, List, [], ◌∷◌, ◌++◌, length, ltb,
  leb, str_eq, if◌then◌else◌,
}

pub record Params : Type 0 where
  pub max_requests : ℕ
  pub time_window : ℕ

-- How a round of `acquire` ends: `return True`, `TimeoutError`, the `IndexError` of `requests[0]` on
-- an empty deque, or `asyncio.sleep` for some time.
pub data Verdict : Type 0 where
  acquired timed_out index_error : Verdict
  sleeping : ℕ → Verdict

-- `while requests and requests[0] <= now - time_window: requests.popleft()`
pub drop_expired : ℕ → ℕ → List ℕ → List ℕ
drop_expired window now [] = []
drop_expired window now (r ∷ rs) =
    let rest = drop_expired window now rs in if leb (r + window) now then rest else r ∷ rs

-- `timeout is not None` and `now - start_time >= timeout`
pub is_overdue : Option ℕ → ℕ → ℕ → Bool
is_overdue none start now = false
is_overdue (some timeout) start now = leb timeout (now - start)

-- `wait_time = (oldest_request + time_window) - now`
wait_turn : ℕ → ℕ → List ℕ → Verdict × List ℕ
wait_turn window now [] = (index_error, [])
wait_turn window now (r ∷ rs) = (sleeping (r + window - now), r ∷ rs)

-- What a round knows: when its call began, its clock reading, and its timeout.
pub record Call : Type 0 where
  pub start : ℕ
  pub now : ℕ
  pub timeout : Option ℕ

-- The rest of a round that finds no room.
pub no_room : Params → Call → List ℕ → Verdict × List ℕ
unfolding is_overdue wait_turn
no_room p c alive =
    if is_overdue c.timeout c.start c.now
    then (timed_out, alive)
    else wait_turn p.time_window c.now alive

-- One round of the loop of `InMemoryRateLimiterBackend.acquire`, on the deque of its key.
pub round : Params → Call → List ℕ → Verdict × List ℕ
unfolding no_room
round p c requests =
    let alive = drop_expired p.time_window c.now requests in
    if ltb (length alive) p.max_requests then (acquired, alive ++ c.now ∷ []) else no_room p c alive

-- After a round: return or raise, or go round again after the sleep.
abbrev proceed : Verdict × List ℕ → (List ℕ → Option Verdict × List ℕ) → Option Verdict × List ℕ
proceed (acquired, requests) again = (some acquired, requests)
proceed (timed_out, requests) again = (some timed_out, requests)
proceed (index_error, requests) again = (some index_error, requests)
proceed (sleeping wait, requests) again = again requests

-- A call with the key to itself: it loops over the clock readings of its rounds; `none` is a call
-- that is still asleep after the last of them.
pub acquire : Params → ℕ → Option ℕ → List ℕ → List ℕ → Option Verdict × List ℕ
acquire p start timeout [] requests = (none, requests)
acquire p start timeout (now ∷ later) requests =
    proceed (round p (record { start = start; now = now; timeout = timeout }) requests)
      (acquire p start timeout later)

-- The rounds of many calls, in the order in which they hold the lock.
abbrev pub grant : Verdict → ℕ → List ℕ → List ℕ
grant acquired now rest = now ∷ rest
grant _ now rest = rest

-- When requests were granted.
pub grants : Params → List Call → List ℕ → List ℕ
grants p [] requests = []
grants p (c ∷ cs) requests = grant (round p c requests).0 c.now (grants p cs (round p c requests).1)

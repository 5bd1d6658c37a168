-- ===== src/Retry/Tests.antt =====
-- Retries that fail twice, and a message that goes back to its queue.
use simple_claude_code_githu.Prelude.{ℕ, zero, suc, String, ◌≡◌, refl, Bool, true, inl, [], ◌∷◌}
use simple_claude_code_githu.Json.{Fields, field, end, str, num, lookup}
use simple_claude_code_githu.Redis.Io.{World}
use simple_claude_code_githu.Redis.Memory.{memory, empty}
use simple_claude_code_githu.Retry.{Backoff, Attempt, returned, failed, result, delay, async_retry}
use simple_claude_code_githu.Retry.DeadLetters.{Routed, enqueue_for_retry, enqueue_for_retry-Routed}
use simple_claude_code_githu.Retry.Attempts.{Ends, async_retry-Ends}

abbrev backoff : Backoff
backoff = record { base_delay = 1; max_delay = 60; exponential_base = 2 }

abbrev flaky : ℕ → Attempt String ℕ
flaky zero = failed 503
flaky (suc zero) = failed 503
flaky (suc (suc n)) = returned "done"

abbrev every : ℕ → Bool
every e = true

retried : async_retry backoff every flaky 3 ≡ (result "done", 1 ∷ 2 ∷ [])
unfolding async_retry delay
retried = refl

async_retry-Ends_example : Ends backoff every flaky 0 3 (async_retry backoff every flaky 3)
async_retry-Ends_example = async_retry-Ends backoff every flaky 3

abbrev message : Fields
message = field "repo" (str "o/r") (field "attempts" (num 1) end)

abbrev start : World memory
start = record { store = empty; time = 9; faults = [] }

-- The second failure of three: the message goes back.
enqueue_for_retry-Routed_example :
    Routed memory "queue" "dead" message "TimeoutError: slow" 3 1 start.store
      (enqueue_for_retry memory "queue" "dead" message "TimeoutError: slow" 3 start).1.store
unfolding lookup
enqueue_for_retry-Routed_example =
    enqueue_for_retry-Routed memory "queue" "dead" message "TimeoutError: slow" 3 1 start refl
      (inl refl) refl refl

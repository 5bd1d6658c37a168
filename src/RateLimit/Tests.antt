-- ===== src/RateLimit/Tests.antt =====
-- The rate limiter on concrete clock readings: two requests in ten ticks.
use simple_claude_code_githu.Prelude.{ℕ, ◌+◌, ◌≤◌, ◌≡◌, refl, none, some, List, [], ◌∷◌, arith}
use simple_claude_code_githu.RateLimit.{
  Params, sleeping, Call, round, acquire, drop_expired, grants,
}
use simple_claude_code_githu.RateLimit.Deque.{in_window}
use simple_claude_code_githu.RateLimit.Window.{sliding_log, grants-sliding_log, grants-in_window}
use simple_claude_code_githu.RateLimit.Waiting.{IsOver, at_time, acquire-IsOver}
use simple_claude_code_githu.RateLimit.Named.{Limiters}

abbrev params : Params
params = record { max_requests = 2; time_window = 10 }

abbrev at : ℕ → Call
at now = record { start = now; now = now; timeout = some 5 }

abbrev calls : List Call
calls = at 1 ∷ at 4 ∷ at 6 ∷ at 11 ∷ at 12 ∷ []

granted : grants params calls [] ≡ 1 ∷ 4 ∷ 11 ∷ []
unfolding grants round drop_expired
granted = refl

grants-sliding_log_example : grants params calls [] ≡ sliding_log params calls []
grants-sliding_log_example = grants-sliding_log params calls (omega arith)

grants-in_window_example : in_window 10 11 (grants params calls []) ≤ 2
grants-in_window_example = grants-in_window params calls 11 (omega arith)

-- the round at 6 sleeps for five ticks
sleeps :
    (wait : ℕ) → (round params (at_time 6 none 6) (1 ∷ 4 ∷ [])).0 ≡ sleeping wait → 6 + wait ≤ 11
unfolding round drop_expired
sleeps wait e = ground arith

acquire-IsOver_example : IsOver (acquire params 6 none (6 ∷ 11 ∷ []) (1 ∷ 4 ∷ [])).0
acquire-IsOver_example =
    acquire-IsOver params 6 6 11 none (1 ∷ 4 ∷ []) [] (omega arith) (omega arith) sleeps

abbrev nobody : Limiters
nobody = record { limiters = []; requests = [] }

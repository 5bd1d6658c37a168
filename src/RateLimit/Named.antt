-- ===== src/RateLimit/Named.antt =====
-- shared/rate_limiter.py: `RateLimiter` and `MultiRateLimiter` over the tables of the in-memory
-- backend. The limiters share one backend and are told apart by their names.
use simple_claude_code_githu.Prelude.{
  ℕ, String, ◌≡◌, ◌≢◌, refl, ◌∙◌, Option, none, some, List, [], eq_refl,
}
use simple_claude_code_githu.Prelude.Text.{str_ne}
use simple_claude_code_githu.Workflows.{Dict, find, put}
use simple_claude_code_githu.Workflows.Routing.{find-put}
use simple_claude_code_githu.RateLimit.{Params, Verdict, acquired, Call, round}

-- `_limiters`, and the backend's `_requests`
pub record Limiters : Type 0 where
  pub limiters : Dict Params
  pub requests : Dict (List ℕ)

-- `_get_requests`: a new deque for a new key
abbrev pub requests_of : Option (List ℕ) → List ℕ
requests_of none = []
requests_of (some q) = q

-- One round of the backend's `acquire` for a key; `round` changes the key's deque in place.
pub round_at : String → Params → Call → Dict (List ℕ) → Verdict × Dict (List ℕ)
unfolding find put
round_at name p c requests = (
  (round p c (requests_of (find name requests))).0,
  put name (round p c (requests_of (find name requests))).1 requests,
)

pub add_limiter : String → Params → Limiters → Limiters
unfolding put
add_limiter name p s = record s { limiters = put name p s.limiters }

get_limiter : String → Limiters → Option Params
unfolding find
get_limiter name s = find name s.limiters

-- One round of `MultiRateLimiter.acquire`, or `return True` where there is no limiter.
abbrev pub acquire_with : Option Params → String → Call → Limiters → Verdict × Limiters
acquire_with none name c s = (acquired, s)
acquire_with (some p) name c s =
    ((round_at name p c s.requests).0, record s { requests = (round_at name p c s.requests).1 })

pub acquire_named : String → Call → Limiters → Verdict × Limiters
unfolding get_limiter round_at
acquire_named name c s = acquire_with (get_limiter name s) name c s

cleanup : Limiters → Limiters
cleanup s = record { limiters = []; requests = [] }

-- What a round for a limiter does to the state `s`: its verdict and its new deque are those of the
-- limiter's own deque; the other deques and the limiters stay.
pub record Served (name : String) (p : Params) (c : Call) (s : Limiters) (v : Verdict)
    (t : Limiters) : Type 0 where
  pub verdict : v ≡ (round p c (requests_of (find name s.requests))).0
  pub deque : find name t.requests ≡ some (round p c (requests_of (find name s.requests))).1
  pub others : (j : String) → name ≢ j → find j t.requests ≡ find j s.requests
  pub same_limiters : t.limiters ≡ s.limiters

-- A round for a limiter that was just added runs with its parameters on the deque of its name, and
-- leaves the deques of all other names and the table of limiters as they were.
pub add_limiter-Served :
    (name : String) (p : Params) (c : Call) (s : Limiters)
    → Served name p c
        (add_limiter name p s)
        (acquire_named name c (add_limiter name p s)).0
        (acquire_named name c (add_limiter name p s)).1
unfolding acquire_named add_limiter get_limiter round_at
add_limiter-Served name p c s =
    rw (find-put name name p s.limiters, eq_refl name)
      (record {
        verdict = refl;
        deque = find-put name name _ s.requests ∙ rw (eq_refl name) refl;
        others = λ j ne. find-put name j _ s.requests ∙ rw (str_ne name j ne) refl;
        same_limiters = refl;
      })

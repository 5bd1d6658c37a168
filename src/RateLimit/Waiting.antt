-- ===== src/RateLimit/Waiting.antt =====
-- The ends of a round, and of one call of `acquire` (shared/rate_limiter.py) with its key to itself.
use simple_claude_code_githu.Prelude.{
  ℕ, ◌+◌, ◌-◌, ◌≤◌, ◌<◌, ◌≡◌, refl, ap, ◌⊎◌, inl, inr, true, false, Option, some, List, [], ◌∷◌,
  ◌++◌, arith, length, ltb, Bool-cases, ltb→lt, ltb→ge, lt→ltb,
}
use simple_claude_code_githu.RateLimit.{
  Params, Verdict, acquired, timed_out, sleeping, Call, drop_expired, no_room, round, is_overdue,
  acquire,
}

-- The deque never outgrows the bound.
drop-length : (window now : ℕ) (q : List ℕ) → length (drop_expired window now q) ≤ length q
unfolding drop_expired
drop-length window now [] = omega arith
drop-length window now (r ∷ rs) = ground (arith, drop-length window now rs)

-- The first request of a deque whose expired ones are gone has not expired.
drop_head :
    (window now : ℕ) (q : List ℕ) {r : ℕ} {rs : List ℕ}
    → drop_expired window now q ≡ r ∷ rs
    → now < r + window
unfolding drop_expired
drop_head window now [] e = ground arith
drop_head window now (x ∷ q) {r} {rs} e = ground (arith, drop_head window now q {r = r} {rs = rs})

-- Once its first request has expired, a deque gets shorter.
drop_shorter :
    (window now r : ℕ) (rs : List ℕ)
    → r + window ≤ now
    → length (drop_expired window now (r ∷ rs)) ≤ length rs
unfolding drop_expired
drop_shorter window now r rs h = ground (arith, drop-length window now rs)

abbrev pub at_time : ℕ → Option ℕ → ℕ → Call
at_time start timeout now = record { start = start; now = now; timeout = timeout }

-- A call has returned, or has given up.
abbrev pub IsOver : Option Verdict → Type 0
IsOver v = (v ≡ some acquired) ⊎ (v ≡ some timed_out)

module _ (p : Params) where
  -- The ways for a round on the deque `q` to end, each with its condition.
  pub data Ends (c : Call) (q : List ℕ) : Verdict × List ℕ → Type 0 where
    room :
        length (drop_expired p.time_window c.now q) < p.max_requests
        → Ends c q (acquired, drop_expired p.time_window c.now q ++ c.now ∷ [])
    overdue :
        p.max_requests ≤ length (drop_expired p.time_window c.now q)
        → is_overdue c.timeout c.start c.now ≡ true
        → Ends c q (timed_out, drop_expired p.time_window c.now q)
    asleep :
        (r : ℕ) (rs : List ℕ)
        → p.max_requests ≤ length (drop_expired p.time_window c.now q)
        → is_overdue c.timeout c.start c.now ≡ false
        → drop_expired p.time_window c.now q ≡ r ∷ rs
        → c.now < r + p.time_window
        → Ends c q (sleeping (r + p.time_window - c.now), r ∷ rs)

  no_room-Ends :
      (c : Call) (q alive : List ℕ)
      → 0 < p.max_requests
      → p.max_requests ≤ length (drop_expired p.time_window c.now q)
      → drop_expired p.time_window c.now q ≡ alive
      → Ends c q (no_room p c alive)
  unfolding no_room
  no_room-Ends c q [] positive full e = absurd (omega (arith, ap length e))
  no_room-Ends c q (r ∷ rs) positive full e =
      elim (Bool-cases (is_overdue c.timeout c.start c.now)) [
        | inl late ↦ rw (late, ← e) (overdue full late)
        | inr early ↦ rw early (asleep r rs full early e (drop_head p.time_window c.now q e))
      ]

  -- With `max_requests` positive, a round that finds fewer than `max_requests` requests in the window
  -- gets the permission and adds its clock reading at the end of the deque; one that finds no room is
  -- timed out if its timeout has passed, and else sleeps until the first request of the deque leaves
  -- the window. It never reads the first request of an empty deque.
  pub round-Ends : (c : Call) (q : List ℕ) → 0 < p.max_requests → Ends c q (round p c q)
  unfolding round
  round-Ends c q positive =
      elim (Bool-cases (ltb (length (drop_expired p.time_window c.now q)) p.max_requests)) [
        | inl free ↦ rw free (room (ltb→lt _ _ free))
        | inr full ↦ rw full (no_room-Ends c q _ positive (ltb→ge _ _ full) refl)
      ]

  -- a sleeper that wakes up in time finds room
  second_round :
      (start now later : ℕ) (timeout : Option ℕ) (r : ℕ) (rs rest : List ℕ)
      → length (r ∷ rs) ≤ p.max_requests
      → r + p.time_window ≤ later
      → (acquire p start timeout (later ∷ rest) (r ∷ rs)).0 ≡ some acquired
  unfolding acquire round
  second_round start now later timeout r rs rest fits woke = rw (lt→ltb _ _ shorter) refl
    where
      shorter : length (drop_expired p.time_window later (r ∷ rs)) < p.max_requests
      shorter = omega (arith, drop_shorter p.time_window later r rs woke)

  first_round :
      (start now later : ℕ) (timeout : Option ℕ) (q rest : List ℕ) (o : Verdict × List ℕ)
      → round p (at_time start timeout now) q ≡ o
      → Ends (at_time start timeout now) q o
      → length q ≤ p.max_requests
      → ((wait : ℕ) → o.0 ≡ sleeping wait → now + wait ≤ later)
      → IsOver (acquire p start timeout (now ∷ later ∷ rest) q).0
  unfolding acquire
  first_round start now later timeout q rest o e (room free) fits woke = inl (rw e refl)
  first_round start now later timeout q rest o e (overdue full late) fits woke = inr (rw e refl)
  first_round start now later timeout q rest o e (asleep r rs full early same unexpired) fits woke =
      inl (
        rw e (
          second_round start now later timeout r rs rest
            (omega (arith, drop-length p.time_window now q, ap length same))
            (omega (arith, woke (r + p.time_window - now) refl))))

  -- A call that has its key to itself, with `max_requests` positive and a deque within the bound,
  -- returns in its second round at the latest, if its sleep lasts as long as it asked for: it has
  -- the permission, or its timeout has passed.
  pub acquire-IsOver :
      (start now later : ℕ) (timeout : Option ℕ) (q rest : List ℕ)
      → 0 < p.max_requests
      → length q ≤ p.max_requests
      → ((wait : ℕ)
          → (round p (at_time start timeout now) q).0 ≡ sleeping wait
          → now + wait ≤ later)
      → IsOver (acquire p start timeout (now ∷ later ∷ rest) q).0
  acquire-IsOver start now later timeout q rest positive fits woke =
      first_round start now later timeout q rest _ refl
        (round-Ends (at_time start timeout now) q positive) fits woke

-- ===== src/Retry/Attempts.antt =====
-- How the retries end and how long they sleep.
use simple_claude_code_githu.Prelude.{
  ℕ, zero, suc, ◌+◌, ◌<◌, ◌≡◌, refl, ◌∙◌, ap, Bool, true, false, List, [], ◌∷◌, ◌++◌, arith, inl,
  inr, Bool-cases,
}
use simple_claude_code_githu.Retry.{
  Backoff, Attempt, returned, failed, Ended, result, let_out, exhausted, delay, sleep_after,
  retry_or, attempts_from, async_retry,
}

-- The delays of `count` attempts, from the one with the number `attempt` on.
pub delays : Backoff → ℕ → ℕ → List ℕ
delays b attempt zero = []
delays b attempt (suc count) = delay b attempt ∷ delays b (suc attempt) count

-- how many attempts are not the last one
abbrev pub before : ℕ → ℕ
before zero = zero
before (suc n) = n

module _ {A E : Type 0} (b : Backoff) (caught : E → Bool) (func : ℕ → Attempt A E) where
  -- `count` attempts, from a number on, fail with exceptions that are caught.
  pub data Failing : ℕ → ℕ → Type 0 where
    none_yet : {attempt : ℕ} → Failing attempt 0
    one_more :
        {attempt count : ℕ} (e : E)
        → func attempt ≡ failed e
        → caught e ≡ true
        → Failing (suc attempt) count
        → Failing attempt (suc count)

  -- The ways for the loop to end, each with the delays before it.
  pub data Ends (attempt left : ℕ) : Ended A E × List ℕ → Type 0 where
    succeeded :
        (count : ℕ) (a : A)
        → count < left
        → Failing attempt count
        → func (attempt + count) ≡ returned a
        → Ends attempt left (result a, delays b attempt count)
    not_caught :
        (count : ℕ) (e : E)
        → count < left
        → Failing attempt count
        → func (attempt + count) ≡ failed e
        → caught e ≡ false
        → Ends attempt left (let_out e, delays b attempt count)
    gave_up : Failing attempt left → Ends attempt left (exhausted, delays b attempt (before left))

  later :
      (attempt left : ℕ) (e : E) (rest : Ended A E × List ℕ)
      → func attempt ≡ failed e
      → caught e ≡ true
      → Ends (suc attempt) left rest
      → Ends attempt (suc left) (rest.0, sleep_after b attempt left ++ rest.1)
  unfolding sleep_after delays
  later attempt zero e _ f c (succeeded count a l fs g) = absurd (omega (arith, l))
  later attempt (suc left) e _ f c (succeeded count a l fs g) =
      let same : attempt + suc count ≡ suc attempt + count = omega arith in
      succeeded (suc count) a (omega (arith, l)) (one_more e f c fs) (rw same g)
  later attempt zero e _ f c (not_caught count x l fs g n) = absurd (omega (arith, l))
  later attempt (suc left) e _ f c (not_caught count x l fs g n) =
      let same : attempt + suc count ≡ suc attempt + count = omega arith in
      not_caught (suc count) x (omega (arith, l)) (one_more e f c fs) (rw same g) n
  later attempt zero e _ f c (gave_up fs) = gave_up (one_more e f c fs)
  later attempt (suc left) e _ f c (gave_up fs) = gave_up (one_more e f c fs)

  first-Ends :
      (attempt left : ℕ) (first : Attempt A E) (rest : Ended A E × List ℕ)
      → func attempt ≡ first
      → Ends (suc attempt) left rest
      → Ends attempt (suc left) (retry_or b caught func attempt left first rest)
  unfolding delays
  first-Ends attempt left (returned a) rest f ends =
      succeeded 0 a (omega arith) none_yet
        (ap func {x = attempt + 0} {y = attempt} (omega arith) ∙ f)
  first-Ends attempt left (failed e) rest f ends = elim (Bool-cases (caught e)) [
    | inl c ↦ rw c (later attempt left e rest f c ends)
    | inr n ↦ rw n (
        not_caught 0 e (omega arith) none_yet
          (ap func {x = attempt + 0} {y = attempt} (omega arith) ∙ f) n)
  ]

  attempts_from-Ends :
      (attempt left : ℕ) → Ends attempt left (attempts_from b caught func attempt left)
  unfolding attempts_from delays
  attempts_from-Ends attempt zero = gave_up none_yet
  attempts_from-Ends attempt (suc left) =
      first-Ends attempt left (func attempt) _ refl (attempts_from-Ends (suc attempt) left)

  -- The wrapper returns the result of the first attempt that succeeds, or lets out the first
  -- exception that is not caught, if all attempts before it failed with caught ones; if all
  -- `max_attempts` fail so, it raises `RetryExhaustedError`. Before that it has slept after each
  -- attempt but the last one, for the delays of their numbers.
  pub async_retry-Ends :
      (max_attempts : ℕ) → Ends 0 max_attempts (async_retry b caught func max_attempts)
  unfolding async_retry
  async_retry-Ends max_attempts = attempts_from-Ends 0 max_attempts

-- ===== src/Retry/DeadLetters.antt =====
-- shared/dlq.py: jobs that failed go back to their queue, or to the dead letters once they have used
-- up their attempts.
use simple_claude_code_githu.Prelude.{
  List, ℕ, ◌+◌, ◌<◌, ◌≤◌, String, ◌≡◌, ◌⊎◌, refl, ap, ◌∙◌, inl, inr, false, Option, none, some, [],
  ◌∷◌, ◌++◌, leb, if◌then◌else◌, str_eq, eq_refl, Bool-cases, leb→le, leb→gt,
}
use simple_claude_code_githu.Json.{
  Json, num, bool, int_of, str, obj, Fields, end, field, lookup, assign, lookup-assign,
}
use simple_claude_code_githu.Redis.{Redis, Stored, json}
use simple_claude_code_githu.Redis.Laws.{redis_laws}
use simple_claude_code_githu.Redis.Io.{
  World, Io, pure, raise, type_error, try_except, clock, command, ◌>>=◌,
}
use simple_claude_code_githu.Redis.Commands.{rpush, llen, lrange}
use simple_claude_code_githu.Jobs.{decode_all, page, or_empty}

-- `message.get("attempts", 0)`, as a number; `none` is the `TypeError` of adding one to it
abbrev pub attempts_in : Option Json → Option ℕ
attempts_in none = some 0
attempts_in (some (num n)) = some n
attempts_in (some (bool b)) = some (int_of b)
attempts_in (some other) = none

-- The message after `message["attempts"] = attempts` and `message["last_error"] = ...`.
pub counted : Fields → String → ℕ → Fields
unfolding assign
counted message last_error attempts =
    assign "last_error" (str last_error) (assign "attempts" (num attempts) message)

dlq_fields : Fields → String → ℕ → ℕ → Fields
unfolding counted
dlq_fields message last_error attempts now = field "reason" (str "max_retries_exceeded") (
    field "last_error" (str last_error) (
      field "attempts" (num attempts) (
        field "original_message" (obj (counted message last_error attempts))
          (field "timestamp" (num now) end))))

pub dlq_entry : Fields → String → ℕ → ℕ → Stored
unfolding dlq_fields
dlq_entry message last_error attempts now = json (obj (dlq_fields message last_error attempts now))

-- The same message, but for its attempts and its last error.
abbrev pub Marked : Fields → String → ℕ → Fields → Type 0
Marked message last_error attempts sent =
    (k : String)
    → lookup k sent ≡ (
        if str_eq "last_error" k
        then some (str last_error)
        else if str_eq "attempts" k
        then some (num attempts)
        else lookup k message)

counted-Marked :
    (message : Fields) (last_error : String) (attempts : ℕ)
    → Marked message last_error attempts (counted message last_error attempts)
unfolding counted
counted-Marked message last_error attempts k =
    lookup-assign "last_error" k (str last_error) (assign "attempts" (num attempts) message)
    ∙ ap (λ o. if str_eq "last_error" k then some (str last_error) else o)
        (lookup-assign "attempts" k (num attempts) message)

module _ (r : Redis) (queue_key dlq_key : String) where
  pub enqueue_counted : Fields → String → ℕ → ℕ → Io r (Unit {0})
  enqueue_counted message last_error max_retries attempts =
      if leb max_retries attempts
      then (do now ← clock; rpush dlq_key (dlq_entry message last_error attempts now))
      else rpush queue_key (json (obj (counted message last_error attempts)))

  enqueue_from : Fields → String → ℕ → Option ℕ → Io r (Unit {0})
  unfolding enqueue_counted
  enqueue_from message last_error max_retries none = raise type_error
  enqueue_from message last_error max_retries (some n) =
      enqueue_counted message last_error max_retries (n + 1)

  -- `last_error` is the text made of the exception.
  pub enqueue_for_retry : Fields → String → ℕ → Io r (Unit {0})
  unfolding lookup enqueue_from
  enqueue_for_retry message last_error max_retries =
      enqueue_from message last_error max_retries (attempts_in (lookup "attempts" message))

  -- `except Exception: return 0`
  pub get_dlq_count : Io r ℕ
  get_dlq_count = try_except (llen dlq_key) (λ _. pure 0)

  -- `except Exception: return []`
  pub inspect_dlq : ℕ → Io r (List Json)
  inspect_dlq limit =
      try_except (do entries ← lrange dlq_key; pure (or_empty (decode_all (page limit entries))))
        (λ _. pure [])

  -- The two places for a message that has failed `n` times before.
  pub data Routed (message : Fields) (last_error : String) (max_retries n : ℕ) (s t : r.Store)
      : Type 0 where
    again :
        (sent : Fields)
        → n + 1 < max_retries
        → Marked message last_error (n + 1) sent
        → r.lrange queue_key t ≡ r.lrange queue_key s ++ json (obj sent) ∷ []
        → r.lrange dlq_key t ≡ r.lrange dlq_key s
        → Routed message last_error max_retries n s t
    dead :
        (sent entry : Fields)
        → max_retries ≤ n + 1
        → Marked message last_error (n + 1) sent
        → lookup "original_message" entry ≡ some (obj sent)
        → lookup "reason" entry ≡ some (str "max_retries_exceeded")
        → lookup "attempts" entry ≡ some (num (n + 1))
        → r.lrange dlq_key t ≡ r.lrange dlq_key s ++ json (obj entry) ∷ []
        → r.lrange queue_key t ≡ r.lrange queue_key s
        → Routed message last_error max_retries n s t

  enqueue_counted-Routed :
      (message : Fields) (last_error : String) (max_retries n : ℕ) (w : World r)
      → w.faults ≡ []
      → str_eq queue_key dlq_key ≡ false
      → str_eq dlq_key queue_key ≡ false
      → Routed message last_error max_retries n w.store
          (enqueue_counted message last_error max_retries (n + 1) w).1.store
  unfolding enqueue_counted rpush command clock ◌>>=◌ dlq_entry dlq_fields lookup
  enqueue_counted-Routed message last_error max_retries n w f qd dq =
      let marked = counted-Marked message last_error (n + 1) in
      elim (Bool-cases (leb max_retries (n + 1))) [
        | inl spent ↦
            rw (spent, f)
              (dead (counted message last_error (n + 1))
                (dlq_fields message last_error (n + 1) w.time) (leb→le _ _ spent) marked refl refl
                refl (simp (redis_laws, eq_refl dlq_key)) (simp (redis_laws, dq)))
        | inr left ↦
            rw (left, f)
              (again (counted message last_error (n + 1)) (leb→gt _ _ left) marked
                (simp (redis_laws, eq_refl queue_key)) (simp (redis_laws, qd)))
      ]

  -- With no failing command and two different keys, a message whose attempts are the number `n`, or
  -- that has none, where `n` is 0, is put at the end of exactly one of the two lists, and the other
  -- one stays: back into its queue, if `n + 1` is less than `max_retries`, and else, as the original
  -- message of an entry with the reason "max_retries_exceeded" and the attempts `n + 1`, into the dead letters. It then has
  -- `n + 1` attempts and the text of the exception as its last error, and is otherwise as it was.
  pub enqueue_for_retry-Routed :
      (message : Fields) (last_error : String) (max_retries n : ℕ) (w : World r)
      → w.faults ≡ []
      → (lookup "attempts" message ≡ some (num n)) ⊎ ((lookup "attempts" message ≡ none) × (n ≡ 0))
      → str_eq queue_key dlq_key ≡ false
      → str_eq dlq_key queue_key ≡ false
      → Routed message last_error max_retries n w.store
          (enqueue_for_retry message last_error max_retries w).1.store
  unfolding enqueue_for_retry
  enqueue_for_retry-Routed message last_error max_retries n w f (inl has) qd dq =
      rw (has, enqueue_from) (enqueue_counted-Routed message last_error max_retries n w f qd dq)
  enqueue_for_retry-Routed message last_error max_retries n w f (inr (first, zero)) qd dq =
      rw (first, enqueue_from, zero)
        (enqueue_counted-Routed message last_error max_retries 0 w f qd dq)

-- ===== src/Sessions/Inbox.antt =====
-- The inbox of a session and the count of its subscribers.
use mathlib.Core.List.{append_assoc, append-nil}
use simple_claude_code_githu.Prelude.{
  ℕ, zero, suc, ◌<◌, ◌-◌, String, ◌≡◌, refl, sym, ap, ◌∙◌, true, Option, none, some, List, [], ◌∷◌,
  ◌++◌, ltb, str_eq, eq_refl, if◌then◌else◌, Bool-cases, inl, inr, arith,
}
use simple_claude_code_githu.Json.{Json, str, lookup, truthy}
use simple_claude_code_githu.Redis.{Stored, loads}
use simple_claude_code_githu.Sessions.{
  SessionRedis, inbox_key, subscribers_key, user_message, content_of, onto_contents, contents,
  push_inbox_message, pop_inbox_messages, increment_subscribers, incremented, decremented,
  decrement_subscribers, has_subscribers, above_zero, default_ttl,
}

-- the messages that are not empty
unfoldable pub non_empty_messages : List String → List Json
non_empty_messages [] = []
non_empty_messages (m ∷ ms) =
    let rest = non_empty_messages ms in if str_eq m "" then rest else str m ∷ rest

default_positive : 0 < default_ttl
unfolding default_ttl
default_positive = omega arith

contents-append : (xs ys : List Stored) → contents (xs ++ ys) ≡ contents xs ++ contents ys
unfolding contents
contents-append [] ys = refl
contents-append (x ∷ xs) ys =
    ap (onto_contents (content_of (loads x))) (contents-append xs ys)
    ∙ onto_append (content_of (loads x)) (contents xs) (contents ys)
  where
    onto_append :
        (o : Option Json) (js ks : List Json)
        → onto_contents o (js ++ ks) ≡ onto_contents o js ++ ks
    onto_append none js ks = refl
    onto_append (some j) js ks = refl

contents-user_message :
    (m : String) → contents (user_message m ∷ []) ≡ (if str_eq m "" then [] else str m ∷ [])
unfolding contents content_of user_message lookup truthy loads
contents-user_message m = elim (Bool-cases (str_eq m "")) [ inl e ↦ rw e refl | inr e ↦ rw e refl ]

module _ (r : SessionRedis) (token : String) where
  -- Some messages, pushed one after another.
  unfoldable pub push_all : List String → r.Store → r.Store
  push_all [] s = s
  push_all (m ∷ ms) s = push_all ms (push_inbox_message r token m s)

  -- `increment_subscribers` and `decrement_subscribers`, several times
  unfoldable pub connect : ℕ → r.Store → r.Store
  connect zero s = s
  connect (suc n) s = (increment_subscribers r token (connect n s)).1

  unfoldable pub disconnect : ℕ → r.Store → r.Store
  disconnect zero s = s
  disconnect (suc n) s = (decrement_subscribers r token (disconnect n s)).1

  push-lrange :
      (m : String) (s : r.Store)
      → r.lrange (inbox_key token) (push_inbox_message r token m s)
        ≡ r.lrange (inbox_key token) s ++ user_message m ∷ []
  unfolding push_inbox_message
  push-lrange m s =
      let key = inbox_key token in
      r.lrange_expire key key default_ttl (r.rpush key (user_message m) s) default_positive
      ∙ r.lrange_rpush key key (user_message m) s
      ∙ rw (eq_refl key) refl

  push_all-contents :
      (ms : List String) (s : r.Store)
      → contents (r.lrange (inbox_key token) (push_all ms s))
        ≡ contents (r.lrange (inbox_key token) s) ++ non_empty_messages ms
  unfolding push_all non_empty_messages
  push_all-contents [] s = sym (append-nil _)
  push_all-contents (m ∷ ms) s =
      push_all-contents ms (push_inbox_message r token m s)
      ∙ ap (λ xs. contents xs ++ non_empty_messages ms) (push-lrange m s)
      ∙ ap (λ js. js ++ non_empty_messages ms)
          (contents-append (r.lrange (inbox_key token) s) (user_message m ∷ [])
            ∙ ap (λ js. contents (r.lrange (inbox_key token) s) ++ js) (contents-user_message m))
      ∙ last_step m ms (contents (r.lrange (inbox_key token) s))
    where
      last_step :
          (m : String) (ms : List String) (js : List Json)
          → (js ++ (if str_eq m "" then [] else str m ∷ [])) ++ non_empty_messages ms
            ≡ js ++ (if str_eq m "" then non_empty_messages ms else str m ∷ non_empty_messages ms)
      last_step m ms js = elim (Bool-cases (str_eq m "")) [
        | inl e ↦ rw (e, append-nil js) refl
        | inr e ↦ rw e (append_assoc js (str m ∷ []) (non_empty_messages ms))
      ]

-- The messages that the browser pushes, other than empty ones, are popped once, in the order in
-- which they came and after those that were there; then the inbox is empty.
pub push-pop :
    (r : SessionRedis) (token : String) (ms : List String) (s : r.Store)
    → let popped = pop_inbox_messages r token (push_all r token ms s) in
      (popped.0 ≡ (pop_inbox_messages r token s).0 ++ non_empty_messages ms)
      × ((pop_inbox_messages r token popped.1).0 ≡ [])
unfolding pop_inbox_messages contents
push-pop r token ms s =
    let key = inbox_key token in
    (push_all-contents r token ms s, ap contents (popped_lrange key (push_all r token ms s)))
  where
    popped_lrange : (key : String) (t : r.Store) → r.lrange key (r.del key t) ≡ []
    popped_lrange key t = r.lrange_del key key t ∙ rw (eq_refl key) refl

-- the counter for a number of subscribers
counter_for : ℕ → Option ℕ
counter_for zero = none
counter_for (suc n) = some (suc n)

module _ (r : SessionRedis) (token : String) where
  set-counter :
      (n : ℕ) (s : r.Store)
      → r.counter (subscribers_key token) (r.set_counter (subscribers_key token) n s) ≡ some n
  set-counter n s =
      let key = subscribers_key token in r.counter_set key key n s ∙ rw (eq_refl key) refl

  del-counter :
      (s : r.Store) → r.counter (subscribers_key token) (r.del (subscribers_key token) s) ≡ none
  del-counter s = let key = subscribers_key token in r.counter_del key key s ∙ rw (eq_refl key) refl

  increment-counter :
      (n : ℕ) (s : r.Store)
      → r.counter (subscribers_key token) s ≡ counter_for n
      → r.counter (subscribers_key token) (increment_subscribers r token s).1 ≡ counter_for (suc n)
  unfolding increment_subscribers incremented counter_for
  increment-counter zero s e = rw e (
      r.counter_expire (subscribers_key token) (subscribers_key token) default_ttl _
        default_positive
      ∙ set-counter 1 s)
  increment-counter (suc n) s e = rw e (set-counter (suc (suc n)) s)

  decrement-counter :
      (n : ℕ) (s : r.Store)
      → r.counter (subscribers_key token) s ≡ counter_for n
      → r.counter (subscribers_key token) (decrement_subscribers r token s).1 ≡ counter_for (n - 1)
  unfolding decrement_subscribers decremented counter_for
  decrement-counter zero s e =
      let same : 0 - 1 ≡ 0 = omega arith in rw e (del-counter s ∙ ap counter_for (sym same))
  decrement-counter (suc zero) s e =
      let same : 1 - 1 ≡ 0 = omega arith in rw e (del-counter s ∙ ap counter_for (sym same))
  decrement-counter (suc (suc n)) s e =
      let same : suc (suc n) - 1 ≡ suc n = omega arith in
      rw e (set-counter (suc n) s ∙ ap counter_for (sym same))

  connect-counter :
      (n : ℕ) (s : r.Store)
      → r.counter (subscribers_key token) s ≡ none
      → r.counter (subscribers_key token) (connect r token n s) ≡ counter_for n
  unfolding connect counter_for
  connect-counter zero s e = e
  connect-counter (suc n) s e = increment-counter n (connect r token n s) (connect-counter n s e)

  disconnect-counter :
      (m n : ℕ) (s : r.Store)
      → r.counter (subscribers_key token) s ≡ counter_for n
      → r.counter (subscribers_key token) (disconnect r token m s) ≡ counter_for (n - m)
  unfolding disconnect
  disconnect-counter zero n s e = e ∙ ap counter_for (omega arith)
  disconnect-counter (suc m) n s e =
      decrement-counter (n - m) (disconnect r token m s) (disconnect-counter m n s e)
      ∙ ap counter_for (omega arith)

counter_for-above : (k : ℕ) → above_zero (counter_for k) ≡ ltb 0 k
unfolding counter_for
counter_for-above zero = refl
counter_for-above (suc k) = let more : ltb 0 (suc k) ≡ true = ground arith in sym more

ltb_difference : (m n : ℕ) → ltb 0 (n - m) ≡ ltb m n
ltb_difference m n = ground arith

-- After some subscribers have connected to a session without any, and some have disconnected, it has
-- subscribers exactly if fewer have disconnected than connected.
pub connect-disconnect :
    (r : SessionRedis) (token : String) (n m : ℕ) (s : r.Store)
    → r.counter (subscribers_key token) s ≡ none
    → has_subscribers r token (disconnect r token m (connect r token n s)) ≡ ltb m n
unfolding has_subscribers
connect-disconnect r token n m s e =
    ap above_zero
      (disconnect-counter r token m n (connect r token n s) (connect-counter r token n s e))
    ∙ counter_for-above (n - m)
    ∙ ltb_difference m n

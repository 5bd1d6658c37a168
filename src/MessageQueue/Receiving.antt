-- ===== src/MessageQueue/Receiving.antt =====
-- The loop of `RedisQueue.subscribe`.
use mathlib.Core.List.{head?, append_assoc, append-nil}
use simple_claude_code_githu.Prelude.{
  ℕ, zero, suc, ◌≤◌, String, ◌≡◌, refl, sym, ◌∙◌, ap, Option, none, some, List, [], ◌∷◌, ◌++◌,
  eq_refl, arith, length, length-append,
}
use simple_claude_code_githu.Prelude.Lines.{drop}
use simple_claude_code_githu.Json.{Json}
use simple_claude_code_githu.Redis.{Redis, Stored, loads, tail}
use simple_claude_code_githu.Redis.Laws.{redis_laws}
use simple_claude_code_githu.Redis.Io.{
  World, Error, Outcome, ok, raised, os_error, json_decode_error, queue_error, type_error,
  attribute_error, redis_error, Io, pure, raise, try_except, handled, resume, command, ◌>>=◌,
}
use simple_claude_code_githu.Redis.Commands.{blpop}
use simple_claude_code_githu.MessageQueue.{process, decoded, recover, receive, subscribe}

drop-append :
    {A : Type 0} (n : ℕ) (xs ys : List A) → n ≤ length xs → drop n (xs ++ ys) ≡ drop n xs ++ ys
drop-append zero xs ys h = refl
drop-append (suc n) [] ys h = absurd (omega arith)
drop-append (suc n) (x ∷ xs) ys h = drop-append n xs ys (omega arith)

then_on :
    {r : Redis} {A : Type 0} (f : Unit {0} → Io r A) (o : Outcome (Unit {0}) × World r)
    → o.0 ≡ ok tt
    → resume f o ≡ f tt o.1
then_on f (ok tt, w) e = refl
then_on f (raised x, w) e = cc

module _ {r : Redis} (queue_name : String) (callback : Json → Io r (Unit {0}))
    (sleep : Io r (Unit {0})) where
  recover-returns :
      (e : Error) (w : World r)
      → ((w : World r) → (sleep w).0 ≡ ok tt)
      → (recover queue_name callback sleep e w).0 ≡ ok tt
  unfolding pure
  recover-returns json_decode_error w s = refl
  recover-returns os_error w s = s w
  recover-returns attribute_error w s = s w
  recover-returns queue_error w s = s w
  recover-returns redis_error w s = s w
  recover-returns type_error w s = s w

  handled-returns :
      (o : Outcome (Unit {0}) × World r)
      → ((w : World r) → (sleep w).0 ≡ ok tt)
      → (handled (recover queue_name callback sleep) o).0 ≡ ok tt
  handled-returns (ok tt, w) s = refl
  handled-returns (raised e, w) s = recover-returns e w s

  receive-returns :
      (w : World r)
      → ((w : World r) → (sleep w).0 ≡ ok tt)
      → (receive queue_name callback sleep w).0 ≡ ok tt
  unfolding receive try_except
  receive-returns w s = handled-returns _ s

  -- Whatever the callback raises and whichever commands fail, no exception leaves the subscriber's
  -- loop, provided that none comes out of its sleep.
  pub subscribe-returns :
      (n : ℕ) (w : World r)
      → ((w : World r) → (sleep w).0 ≡ ok tt)
      → (subscribe queue_name callback sleep n w).0 ≡ ok tt
  unfolding subscribe ◌>>=◌ pure
  subscribe-returns zero w s = refl
  subscribe-returns (suc n) w s =
      rw
        (then_on (λ _. subscribe queue_name callback sleep n) (receive queue_name callback sleep w)
          (receive-returns w s))
        (subscribe-returns n _ s)

  -- To `w'` no failure is left, and the queue has grown at its end at most.
  abbrev pub Grown : World r → World r → Type 0
  Grown w w' =
      (w'.faults ≡ [])
      × ((pushed : List Stored) × (r.lrange queue_name w'.store
            ≡ r.lrange queue_name w.store ++ pushed))

  -- Where no command fails, none is made to fail, and messages are only put at the end of the queue.
  abbrev pub OnlyPushes : Io r (Unit {0}) → Type 0
  OnlyPushes m = (w : World r) → w.faults ≡ [] → Grown w (m w).1

  Grown-trans : (u v w : World r) → Grown u v → Grown v w → Grown u w
  Grown-trans u v w (f, (xs, e)) (g, (ys, h)) =
      (g, (xs ++ ys, h ∙ ap (λ zs. zs ++ ys) e ∙ append_assoc (r.lrange queue_name u.store) xs ys))

  kept : (w : World r) → w.faults ≡ [] → Grown w w
  kept w f = (f, ([], sym (append-nil (r.lrange queue_name w.store))))

  recover-Grown :
      (e : Error) (w : World r)
      → OnlyPushes sleep
      → w.faults ≡ []
      → Grown w (recover queue_name callback sleep e w).1
  unfolding pure
  recover-Grown json_decode_error w quiet f = kept w f
  recover-Grown os_error w quiet f = quiet w f
  recover-Grown attribute_error w quiet f = quiet w f
  recover-Grown queue_error w quiet f = quiet w f
  recover-Grown redis_error w quiet f = quiet w f
  recover-Grown type_error w quiet f = quiet w f

  handled-Grown :
      (w : World r) (o : Outcome (Unit {0}) × World r)
      → OnlyPushes sleep
      → Grown w o.1
      → Grown w (handled (recover queue_name callback sleep) o).1
  handled-Grown w (ok tt, w') quiet g = g
  handled-Grown w (raised e, w') quiet g =
      Grown-trans w w' (recover queue_name callback sleep e w').1 g (recover-Grown e w' quiet g.0)

  process-Grown :
      (entries : List Stored) (w : World r)
      → ((j : Json) → OnlyPushes (callback j))
      → w.faults ≡ []
      → Grown w (process queue_name callback sleep (head? entries) w).1
  unfolding pure raise
  process-Grown [] w calls f = kept w f
  process-Grown (d ∷ ds) w calls f = by_value (loads d)
    where
      by_value : (j : Option Json) → Grown w (decoded queue_name callback sleep j w).1
      by_value none = kept w f
      by_value (some j) = calls j w f

  -- the world after the BLPOP
  abbrev popped : World r → World r
  popped w = record w { store = r.lpop queue_name w.store; faults = [] }

  receive-Grown :
      (w : World r)
      → OnlyPushes sleep
      → ((j : Json) → OnlyPushes (callback j))
      → w.faults ≡ []
      → Grown (popped w) (receive queue_name callback sleep w).1
  unfolding receive try_except ◌>>=◌ blpop command
  receive-Grown w quiet calls f = rw f (
      handled-Grown (popped w)
        (process queue_name callback sleep (head? (r.lrange queue_name w.store)) (popped w)) quiet
        (process-Grown (r.lrange queue_name w.store) (popped w) calls refl))

  lrange-popped :
      (w : World r) → r.lrange queue_name (popped w).store ≡ tail (r.lrange queue_name w.store)
  lrange-popped w = simp (redis_laws, eq_refl queue_name)

  drop-tail-append :
      (n : ℕ) (entries pushed : List Stored)
      → suc n ≤ length entries
      → drop n (tail entries ++ pushed) ≡ drop (suc n) entries ++ pushed
  drop-tail-append n [] pushed h = absurd (omega arith)
  drop-tail-append n (x ∷ xs) pushed h = drop-append n xs pushed (omega arith)

  length-tail-append :
      (n : ℕ) (entries pushed : List Stored)
      → suc n ≤ length entries
      → n ≤ length (tail entries ++ pushed)
  length-tail-append n [] pushed h = absurd (omega arith)
  length-tail-append n (x ∷ xs) pushed h = omega (arith, length-append xs pushed)

  -- With no failing command at first, and a callback and a sleep that make none fail and change the
  -- queue at most by messages at its end: in `n` passes, where the queue holds `n` messages or more,
  -- the loop takes the first `n` off the queue, also one that does not decode and one whose callback
  -- raises. What is left is the others in order, and after them what was put at the end meanwhile.
  pub subscribe-takes :
      (n : ℕ) (w : World r)
      → ((w : World r) → (sleep w).0 ≡ ok tt)
      → OnlyPushes sleep
      → ((j : Json) → OnlyPushes (callback j))
      → w.faults ≡ []
      → n ≤ length (r.lrange queue_name w.store)
      → (pushed : List Stored) × (r.lrange queue_name
            (subscribe queue_name callback sleep n w).1.store
          ≡ drop n (r.lrange queue_name w.store) ++ pushed)
  unfolding subscribe ◌>>=◌ pure
  subscribe-takes zero w s quiet calls f enough =
      ([], sym (append-nil (r.lrange queue_name w.store)))
  subscribe-takes (suc n) w s quiet calls f enough =
      let w' = (receive queue_name callback sleep w).1 in
      let before = r.lrange queue_name w.store in
      let (faults, (xs, entries)) = receive-Grown w quiet calls f in
      let now : r.lrange queue_name w'.store ≡ tail before ++ xs =
        entries ∙ ap (λ es. es ++ xs) (lrange-popped w) in
      let (ys, rest) =
        subscribe-takes n w' s quiet calls faults
          (rw now (length-tail-append n before xs enough)) in
      rw
        (then_on (λ _. subscribe queue_name callback sleep n) (receive queue_name callback sleep w)
          (receive-returns w s))
        (
          xs ++ ys,
          rest
              ∙ ap (λ es. drop n es ++ ys) now
              ∙ ap (λ es. es ++ ys) (drop-tail-append n before xs enough)
              ∙ append_assoc (drop (suc n) before) xs ys,
        )

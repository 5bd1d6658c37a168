-- ===== src/MessageQueue/Readiness/Waiting.antt =====
-- When the waits for a repository and for its index end, and with what.
use simple_claude_code_githu.Prelude.{
  ℕ, ◌-◌, ◌≤◌, String, ◌≡◌, ◌≢◌, ◌⊎◌, ◌↔◌, refl, sym, ◌∙◌, ap, inl, inr, Bool, true, false, List,
  [], ◌∷◌, ◌++◌, ltb, Bool-cases, arith, ltb→lt, ltb→ge, if◌then◌else◌, All,
}
use simple_claude_code_githu.Redis.{Redis, Stored, json}
use simple_claude_code_githu.Redis.Laws.{redis_laws}
use simple_claude_code_githu.Redis.Io.{World, Outcome, ok, pure, command, try_except, ◌>>=◌}
use simple_claude_code_githu.Redis.Commands.{get, exists, rpush, present, is_some}
use simple_claude_code_githu.MessageQueue.{publish}
use simple_claude_code_githu.MessageQueue.Readiness.{
  Arrival, Verdict, ignored, completed, failed, no_dict, verdict, SyncOutcome, returned, timed_out,
  on_verdict, at_end, listen_for_sync, repo_dir_of, complete_key, sync_lock_key, sync_requests,
  sync_request, is_cached, subscription, request_repo_sync, closing, wait_for_event,
  wait_for_repo_sync,
}

-- The first arrival that is not quiet is a good one.
pub data FirstOf (quiet good : Arrival → Type 0) : List Arrival → Type 0 where
  now : {a : Arrival} {later : List Arrival} → good a → FirstOf quiet good (a ∷ later)
  after :
      {a : Arrival} {later : List Arrival}
      → quiet a
      → FirstOf quiet good later
      → FirstOf quiet good (a ∷ later)

ok_inj : {x y : SyncOutcome} → ok x ≡ ok y → x ≡ y
ok_inj e = cc e

module _ (repo ref : String) (start_time timeout : ℕ) where
  -- Arrivals within the timeout that say nothing of the repository, and those that say it is ready.
  abbrev pub Quiet : Arrival → Type 0
  Quiet a = (a.time - start_time ≤ timeout) × (verdict repo ref a.message ≡ ignored)

  abbrev pub Completes : Arrival → Type 0
  Completes a = (a.time - start_time ≤ timeout) × (verdict repo ref a.message ≡ completed)

  module _ (a : Arrival) (later : List Arrival) where
    rest_of :
        verdict repo ref a.message ≡ ignored
        → FirstOf Quiet Completes (a ∷ later)
        → FirstOf Quiet Completes later
    rest_of h (now g) = cc (h, g.1)
    rest_of h (after q f) = f

    head_verdict :
        FirstOf Quiet Completes (a ∷ later)
        → (a.time - start_time ≤ timeout)
          × ((verdict repo ref a.message ≡ completed) ⊎ (verdict repo ref a.message ≡ ignored))
    head_verdict (now g) = (g.0, inl g.1)
    head_verdict (after q f) = (q.0, inr q.1)

    neither :
        verdict repo ref a.message ≢ completed
        → verdict repo ref a.message ≢ ignored
        → FirstOf Quiet Completes (a ∷ later)
        → ⊥
    neither c i f = elim (head_verdict f).1 [ inl e ↦ c e | inr e ↦ i e ]

    in_time :
        (repo_dir : String) (v : Verdict) (rest : SyncOutcome)
        → verdict repo ref a.message ≡ v
        → a.time - start_time ≤ timeout
        → (rest ≡ returned repo_dir) ↔ FirstOf Quiet Completes later
        → (on_verdict v repo_dir rest ≡ returned repo_dir) ↔ FirstOf Quiet Completes (a ∷ later)
    in_time repo_dir ignored rest h l ih = (λ e. after (l, h) (ih.0 e), λ f. ih.1 (rest_of h f))
    in_time repo_dir completed rest h l ih = (λ e. now (l, h), λ f. refl)
    in_time repo_dir failed rest h l ih =
        (λ e. cc, λ f. absurd (neither (λ e. cc (h, e)) (λ e. cc (h, e)) f))
    in_time repo_dir no_dict rest h l ih =
        (λ e. cc, λ f. absurd (neither (λ e. cc (h, e)) (λ e. cc (h, e)) f))

  module _ (repo_dir : String) (closed : Bool) where
    not_at_end : (b : Bool) → at_end b ≡ returned repo_dir → FirstOf Quiet Completes []
    not_at_end true e = cc
    not_at_end false e = cc

    listen-FirstOf :
        (arrivals : List Arrival)
        → (listen_for_sync repo ref repo_dir start_time timeout closed arrivals ≡ returned repo_dir)
          ↔ FirstOf Quiet Completes arrivals
    unfolding listen_for_sync
    listen-FirstOf [] = (λ e. not_at_end closed e, λ f. elim f [ ])
    listen-FirstOf (a ∷ later) = elim (Bool-cases (ltb timeout (a.time - start_time))) [
      | inl late ↦
          rw late
            (λ e. cc, λ f. absurd (omega (arith, ltb→lt _ _ late, (head_verdict a later f).0)))
      | inr time ↦ rw time (
          in_time a later repo_dir (verdict repo ref a.message) _ refl (ltb→ge _ _ time)
            (listen-FirstOf later))
    ]

    in_time_late :
        (v : Verdict) (rest : SyncOutcome)
        → rest ≢ timed_out
        → on_verdict v repo_dir rest ≢ timed_out
    in_time_late ignored rest ih e = ih e
    in_time_late completed rest ih e = cc
    in_time_late failed rest ih e = cc
    in_time_late no_dict rest ih e = cc

    -- A wait never times out while no message comes after its timeout.
    listen-late :
        (arrivals : List Arrival)
        → All (λ a. a.time - start_time ≤ timeout) arrivals
        → listen_for_sync repo ref repo_dir start_time timeout closed arrivals ≢ timed_out
    unfolding listen_for_sync
    listen-late [] early e = not_late closed e
      where
        not_late : (b : Bool) → at_end b ≢ timed_out
        not_late true e = cc
        not_late false e = cc
    listen-late (a ∷ later) early e = elim (Bool-cases (ltb timeout (a.time - start_time))) [
      | inl late ↦ omega (arith, ltb→lt _ _ late, early.0)
      | inr time ↦
          in_time_late (verdict repo ref a.message) _ (listen-late later early.1) (rw time at e)
    ]

module _ (r : Redis) (repo ref : String) (path_exists : String → Bool) (start_time timeout : ℕ)
    (closed : Bool) (arrivals : List Arrival) (store : r.Store) (time : ℕ) where
  -- a server none of whose commands fails
  abbrev pub calm : World r
  calm = record { store = store; time = time; faults = [] }

  abbrev heard : SyncOutcome
  heard = listen_for_sync repo ref (repo_dir_of repo) start_time timeout closed arrivals

  abbrev pub waited : Outcome SyncOutcome × World r
  waited = wait_for_repo_sync repo ref path_exists start_time timeout closed arrivals calm

  -- The synchronisation is done, as far as the server and the file system know.
  abbrev pub cached : Bool
  cached =
      is_cached (present (r.get (complete_key repo ref) store)) (path_exists (repo_dir_of repo))

  -- The requests after the wait: one more, unless the lock of the synchronisation is held.
  abbrev pub requests_after : List Stored
  requests_after =
      if is_some (r.get (sync_lock_key repo) store)
      then r.lrange sync_requests store
      else r.lrange sync_requests store ++ json (sync_request repo ref) ∷ []

  closing-ok :
      (o : SyncOutcome) (s : r.Store)
      → closing {r = r} o (record { store = s; time = time; faults = [] })
        ≡ (ok o, record { store = s; time = time; faults = [] })
  unfolding subscription command pure ◌>>=◌
  closing-ok (returned p) s = refl
  closing-ok o s = refl

  waited-heard :
      cached ≡ false
      → (waited.0 ≡ ok heard) × (r.lrange sync_requests waited.1.store ≡ requests_after)
  unfolding wait_for_repo_sync wait_for_event get exists command pure ◌>>=◌ subscription
      request_repo_sync publish try_except rpush
  waited-heard miss = elim (Bool-cases (is_some (r.get (sync_lock_key repo) store))) [
    | inl held ↦ simp (miss, held, closing-ok heard store) (refl, refl)
    | inr free ↦
        simp
          (
            miss,
            free,
            closing-ok heard (r.rpush sync_requests (json (sync_request repo ref)) store),
          )
          (refl, simp redis_laws refl)
  ]

  -- A wait for a repository that is not known to be synchronised, with no failing command, asks for a
  -- synchronisation unless one is under way, and returns the path of the repository exactly when the
  -- first message that decides about the repository and the ref says, within the timeout, that it is
  -- complete, all those before it having come within the timeout, too.
  pub wait_for_repo_sync-Waited :
      cached ≡ false
      → ((waited.0 ≡ ok (returned (repo_dir_of repo)))
          ↔ FirstOf
              (Quiet repo ref start_time timeout)
              (Completes repo ref start_time timeout)
              arrivals)
        × (r.lrange sync_requests waited.1.store ≡ requests_after)
  wait_for_repo_sync-Waited miss =
      let (outcome, requests) = waited-heard miss in
      let (there, back) =
        listen-FirstOf repo ref start_time timeout (repo_dir_of repo) closed arrivals in
      ((λ e. there (ok_inj (sym outcome ∙ e)), λ f. outcome ∙ ap (λ o. ok o) (back f)), requests)

  -- The timeout of the wait passes unnoticed while nothing arrives: without a message that comes after
  -- it, and without a failing command, the wait does not end with the error for the timeout.
  pub wait_for_repo_sync-unnoticed :
      cached ≡ false → All (λ a. a.time - start_time ≤ timeout) arrivals → waited.0 ≢ ok timed_out
  wait_for_repo_sync-unnoticed miss early e =
      listen-late repo ref start_time timeout (repo_dir_of repo) closed arrivals early
        (ok_inj (sym (waited-heard miss).0 ∙ e))

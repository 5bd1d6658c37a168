-- ===== src/WorktreeLock/Pending.antt =====
-- The prompt that waits for a running job, and the wait for a lock to be released.
use simple_claude_code_githu.Prelude.{
  ℕ, zero, suc, String, ◌≡◌, refl, ◌∙◌, ap, inl, inr, ◌<◌, true, Option, none, some, Option-cases,
  [], arith, eq_refl,
}
use simple_claude_code_githu.Json.{str, obj, lookup}
use simple_claude_code_githu.Redis.{Redis, Stored, json}
use simple_claude_code_githu.Redis.Laws.{redis_laws}
use simple_claude_code_githu.Redis.Runs.{step-ok, bind-ok, pure-ok}
use simple_claude_code_githu.Redis.Io.{World, Io, ok, pure, raise, command, ◌>>=◌}
use simple_claude_code_githu.Redis.Commands.{get, setex, eval, present}
use simple_claude_code_githu.WorktreeLock.Keys.{WorktreeKey, lock_key, pending_key, pending-lock}
use simple_claude_code_githu.WorktreeLock.{
  PendingPrompt, pending_value, pending_of, prompt_of, set_pending_prompt, take_script,
  get_pending_prompt, wait_for_release,
}

module _ (r : Redis) (key : WorktreeKey) where
  -- the prompt as it comes back
  abbrev pub prompt_for : String → String → String → PendingPrompt
  prompt_for job_id prompt timestamp = record {
    job_id = str job_id;
    prompt = str prompt;
    timestamp = str timestamp;
  }

  prompt_roundtrip :
      (job_id prompt timestamp : String)
      → pending_of (pending_value job_id prompt timestamp)
        ≡ some (prompt_for job_id prompt timestamp)
  unfolding pending_of pending_value lookup
  prompt_roundtrip job_id prompt timestamp = refl

  module _ (job_id prompt timestamp : String) (w : World r) where
    abbrev pub after_set : World r
    after_set = (set_pending_prompt r key job_id prompt timestamp w).1

    abbrev pub after_take : World r
    after_take = (get_pending_prompt r key after_set).1

    -- What is seen of a prompt that is set and then asked for twice.
    pub record TakenOnce : Type 0 where
      pub first :
          (get_pending_prompt r key after_set).0 ≡ ok (some (prompt_for job_id prompt timestamp))
      pub second : (get_pending_prompt r key after_take).0 ≡ ok none
      pub lock_kept : r.get (lock_key key) after_take.store ≡ r.get (lock_key key) w.store

    abbrev stored : r.Store
    stored =
        r.setex (pending_key key) 300 (json (obj (pending_value job_id prompt timestamp))) w.store

    set_run :
        w.faults ≡ []
        → set_pending_prompt r key job_id prompt timestamp w ≡ (ok tt, record w { store = stored })
    unfolding set_pending_prompt setex command
    set_run f = rw f refl

  take_run :
      (w : World r) (o : Option Stored)
      → w.faults ≡ []
      → r.get (pending_key key) w.store ≡ o
      → get_pending_prompt r key w ≡ (
        ok (prompt_of r key (present o)),
        record w { store = r.delete (pending_key key) w.store },
      )
  unfolding get_pending_prompt take_script eval command pure raise ◌>>=◌
  take_run w o f e = rw (f, e) refl

  -- With no failing command, a prompt that is set is handed to the first who asks for it, as it was
  -- given, the next who asks gets none, and the lock is as it was.
  pub set_pending_prompt-TakenOnce :
      (job_id prompt timestamp : String) (w : World r)
      → w.faults ≡ []
      → TakenOnce job_id prompt timestamp w
  unfolding prompt_of present
  set_pending_prompt-TakenOnce job_id prompt timestamp w f =
      let positive : 0 < 300 = omega arith in
      let s₁ : r.get (pending_key key) (stored job_id prompt timestamp w)
          ≡ some (json (obj (pending_value job_id prompt timestamp))) =
        simp (redis_laws, positive, eq_refl (pending_key key)) in
      let s₂ : r.get (pending_key key)
            (r.delete (pending_key key) (stored job_id prompt timestamp w))
          ≡ none =
        simp (redis_laws, eq_refl (pending_key key)) in
      let run₁ = set_run job_id prompt timestamp w f in
      let run₂ = take_run (record w { store = stored job_id prompt timestamp w }) _ f s₁ in
      let run₃ =
        take_run
          (record w { store = r.delete (pending_key key) (stored job_id prompt timestamp w) }) _ f
          s₂ in
      let world₁ : after_set job_id prompt timestamp w
          ≡ record w { store = stored job_id prompt timestamp w } =
        ap (λ p. p.1) run₁ in
      let world₂ : after_take job_id prompt timestamp w
          ≡ record w { store = r.delete (pending_key key) (stored job_id prompt timestamp w) } =
        rw (after_take, world₁) (ap (λ p. p.1) run₂) in
      record {
        first =
            rw world₁
              (ap (λ p. p.0) run₂ ∙ ap (λ p. ok p) (prompt_roundtrip job_id prompt timestamp));
        second = rw world₂ (ap (λ p. p.0) run₃);
        lock_kept = rw world₂ (simp (redis_laws, positive, pending-lock key key));
      }

  -- If the wait returns `True`, whatever commands fail and whatever others do in the meantime, then
  -- the key of the lock holds no text, or the empty one, in the store with which it returns.
  pub wait_for_release-free :
      (sleep : Io r (Unit {0})) (timeout : ℕ) (w w' : World r)
      → wait_for_release r key sleep timeout w ≡ (ok true, w')
      → present (r.get (lock_key key) w'.store) ≡ none
  unfolding wait_for_release get
  wait_for_release-free sleep zero w w' e = let (same, _) = pure-ok _ w e in cc
  wait_for_release-free sleep (suc n) w w' e =
      let (w₁, s₁, _, e₁) = step-ok _ _ _ w e in
      elim (Option-cases (present (r.get (lock_key key) w.store))) [
        | inl free ↦ let (_, store) = pure-ok _ w₁ (rw free at e₁) in rw (store, s₁) free
        | inr (v, held) ↦
            let (_, w₂, _, e₂) = bind-ok _ _ w₁ (rw held at e₁) in
            wait_for_release-free sleep n w₂ w' e₂
      ]

-- ===== src/WorktreeLock/Ownership.antt =====
-- `acquire` against the key of the lock: who holds it.
use simple_claude_code_githu.Prelude.{
  ℕ, zero, suc, ◌<◌, String, ◌≡◌, ◌≢◌, refl, ◌∙◌, inl, inr, Bool, true, false, some, Option-cases,
  List, [], ◌∷◌, arith, eq_refl,
}
use simple_claude_code_githu.Json.{obj}
use simple_claude_code_githu.Redis.{Redis, Stored, json}
use simple_claude_code_githu.Redis.Laws.{redis_laws}
use simple_claude_code_githu.Redis.Runs.{step-ok, bind-ok, pure-ok}
use simple_claude_code_githu.Redis.Io.{
  World, Io, Fault, fine, refused, reply_lost, ok, pure, command, ◌>>=◌,
}
use simple_claude_code_githu.Redis.Commands.{set_nx}
use simple_claude_code_githu.WorktreeLock.Keys.{WorktreeKey, lock_key}
use simple_claude_code_githu.WorktreeLock.{
  Holder, lock_value, try_acquire, acquire, wait_and_retry, leave_prompt,
}

-- The lock is kept under the key for the job, with the time to live.
pub record Held (r : Redis) (key : WorktreeKey) (job_id : String) (pid ttl : ℕ) (t : r.Store)
    : Type 0 where
  pub value : r.get (lock_key key) t ≡ some (json (obj (lock_value job_id pid)))
  pub expires : r.ttl (lock_key key) t ≡ some ttl

module _ (r : Redis) (key : WorktreeKey) (pid : ℕ) (timestamp : String)
    (sleep : Io r (Unit {0})) where
  -- the lock that `h` stands for is the job's
  abbrev pub holder_of : String → Holder
  holder_of job_id = record { lock_acquired = true; job_id = some job_id }

  try_acquire-Held :
      (job_id : String) (ttl : ℕ) (h h' : Holder) (w w' : World r)
      → 0 < ttl
      → try_acquire r key sleep pid timestamp job_id ttl h w ≡ (ok (true, h'), w')
      → Held r key job_id pid ttl w'.store × (h' ≡ holder_of job_id)
  unfolding try_acquire set_nx
  try_acquire-Held job_id ttl h h' w w' positive e =
      let (w₁, s₁, _, e₁) = step-ok _ _ _ w e in
      elim (Option-cases (r.get (lock_key key) w.store)) [
        | inl free ↦
            let (same, store) = pure-ok _ w₁ (rw free at e₁) in
            let now = store ∙ (rw free at s₁) in
            (
              record {
                value = rw now (simp (redis_laws, positive, eq_refl (lock_key key)));
                expires = rw now (simp (redis_laws, positive, eq_refl (lock_key key)));
              },
              cc,
            )
        | inr (v, held) ↦ let (same, _) = pure-ok _ w₁ (rw held at e₁) in cc
      ]

  -- what is known after an attempt: if it says so, the lock is held
  abbrev Got : String → ℕ → Bool × Holder → r.Store → Type 0
  Got job_id ttl (b, h) t = b ≡ true → Held r key job_id pid ttl t × (h ≡ holder_of job_id)

  try_acquire-Got :
      (job_id : String) (ttl : ℕ) (h : Holder) (p : Bool × Holder) (w w' : World r)
      → 0 < ttl
      → try_acquire r key sleep pid timestamp job_id ttl h w ≡ (ok p, w')
      → Got job_id ttl p w'.store
  try_acquire-Got job_id ttl h (true, h') w w' positive e says =
      try_acquire-Held job_id ttl h h' w w' positive e
  try_acquire-Got job_id ttl h (false, h') w w' positive e says = cc

  returned-Got :
      (job_id : String) (ttl : ℕ) (p q : Bool × Holder) (w w' : World r)
      → Got job_id ttl p w.store
      → pure p w ≡ (ok q, w')
      → Got job_id ttl q w'.store
  returned-Got job_id ttl p q w w' got e = let (same, store) = pure-ok p w e in rw (same, store) got

  leave_prompt-Got :
      (job_id : String) (ttl : ℕ) (p q : Bool × Holder) (w w' : World r)
      → Got job_id ttl p w.store
      → leave_prompt r key sleep pid timestamp job_id p w ≡ (ok q, w')
      → Got job_id ttl q w'.store
  unfolding leave_prompt
  leave_prompt-Got job_id ttl (true, h) q w w' got e =
      returned-Got job_id ttl (true, h) q w w' got e
  leave_prompt-Got job_id ttl (false, h) q w w' got e =
      let (_, w₁, _, e₁) = bind-ok _ _ w e in
      returned-Got job_id ttl (false, h) q w₁ w' (λ no. cc) e₁

  wait_and_retry-Got :
      (job_id : String) (timeout ttl : ℕ) (p q : Bool × Holder) (w w' : World r)
      → 0 < ttl
      → Got job_id ttl p w.store
      → wait_and_retry r key sleep pid timestamp job_id timeout ttl p w ≡ (ok q, w')
      → Got job_id ttl q w'.store
  unfolding wait_and_retry
  wait_and_retry-Got job_id timeout ttl (true, h) q w w' positive got e =
      returned-Got job_id ttl (true, h) q w w' got e
  wait_and_retry-Got job_id zero ttl (false, h) q w w' positive got e =
      returned-Got job_id ttl (false, h) q w w' got e
  wait_and_retry-Got job_id (suc n) ttl (false, h) q w w' positive got e =
      let (_, w₁, _, e₁) = bind-ok _ _ w e in
      let (second, w₂, e₂, e₃) = bind-ok _ _ w₁ e₁ in
      leave_prompt-Got job_id ttl second q w₂ w'
        (try_acquire-Got job_id ttl h second w₁ w₂ positive e₂) e₃

  -- Whatever commands fail and whatever other clients do during the wait: if `acquire` with a positive
  -- time to live returns `True`, the key holds the lock of this job with that time to live, and the
  -- object knows that the lock is its own.
  pub acquire-Held :
      (job_id : String) (timeout ttl : ℕ) (h h' : Holder) (w w' : World r)
      → 0 < ttl
      → acquire r key sleep pid timestamp job_id timeout ttl h w ≡ (ok (true, h'), w')
      → Held r key job_id pid ttl w'.store × (h' ≡ holder_of job_id)
  unfolding acquire
  acquire-Held job_id timeout ttl h h' w w' positive e =
      let (first, w₁, e₁, e₂) = bind-ok _ _ w e in
      wait_and_retry-Got job_id timeout ttl first (true, h') w₁ w' positive
        (try_acquire-Got job_id ttl h first w w₁ positive e₁) e₂ refl

  kept_out :
      (fs : List Fault) (job_id : String) (ttl : ℕ) (h h' : Holder) (w : World r) (v : Stored)
      → w.faults ≡ fs
      → r.get (lock_key key) w.store ≡ some v
      → ((acquire r key sleep pid timestamp job_id 0 ttl h w).1.store ≡ w.store)
        × ((acquire r key sleep pid timestamp job_id 0 ttl h w).0 ≢ ok (true, h'))
  unfolding acquire try_acquire set_nx command wait_and_retry pure ◌>>=◌
  kept_out [] job_id ttl h h' w v f held = rw (f, held) (refl, λ e. ground arith)
  kept_out (fine ∷ fs) job_id ttl h h' w v f held = rw (f, held) (refl, λ e. ground arith)
  kept_out (refused x ∷ fs) job_id ttl h h' w v f held = rw f (refl, λ e. ground arith)
  kept_out (reply_lost x ∷ fs) job_id ttl h h' w v f held = rw (f, held) (refl, λ e. ground arith)

  -- A lock that somebody holds keeps others out: whatever commands fail, an `acquire` that does not
  -- wait leaves the store as it was and does not return `True`.
  pub acquire-excluded :
      (job_id : String) (ttl : ℕ) (h h' : Holder) (w : World r) (v : Stored)
      → r.get (lock_key key) w.store ≡ some v
      → ((acquire r key sleep pid timestamp job_id 0 ttl h w).1.store ≡ w.store)
        × ((acquire r key sleep pid timestamp job_id 0 ttl h w).0 ≢ ok (true, h'))
  acquire-excluded job_id ttl h h' w v held = kept_out w.faults job_id ttl h h' w v refl held

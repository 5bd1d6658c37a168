-- ===== src/WorktreeLock/Releasing.antt =====
-- `release` and the update of a field: what they do to the key of the lock.
use simple_claude_code_githu.Prelude.{
  ℕ, suc, ◌<◌, String, ◌≡◌, ◌≢◌, refl, true, false, none, some, List, [], ◌∷◌, arith, eq_refl,
}
use simple_claude_code_githu.Prelude.Text.{str_ne}
use simple_claude_code_githu.Json.{str, obj, Fields, lookup, assign}
use simple_claude_code_githu.Json.Equality.{py_eq}
use simple_claude_code_githu.Redis.{Redis, json}
use simple_claude_code_githu.Redis.Laws.{redis_laws}
use simple_claude_code_githu.Redis.Io.{
  World, Fault, fine, refused, reply_lost, ok, pure, raise, command, try_except, ◌>>=◌,
}
use simple_claude_code_githu.Redis.Commands.{eval}
use simple_claude_code_githu.WorktreeLock.Keys.{WorktreeKey, lock_key}
use simple_claude_code_githu.WorktreeLock.{
  lock_value, owned_by, release_script, release, updated, update_script, update_lock_field,
}
use simple_claude_code_githu.WorktreeLock.Ownership.{Held}

abbrev tail_of : List Fault → List Fault
tail_of [] = []
tail_of (f ∷ fs) = fs

module _ (r : Redis) (key : WorktreeKey) where
  -- The lock at the key is another job's.
  pub record OthersLock (job_id : String) (s : r.Store) : Type 0 where
    pub owner : String
    pub fields : Fields
    pub at_key : r.get (lock_key key) s ≡ some (json (obj fields))
    pub named : lookup "job_id" fields ≡ some (str owner)
    pub other : owner ≢ job_id

  not_owned :
      (job_id : String) (s : r.Store)
      → OthersLock job_id s
      → owned_by job_id (r.get (lock_key key) s) ≡ some false
  unfolding owned_by py_eq
  not_owned job_id s o = rw (o.at_key, owned_by, o.named, str_ne o.owner job_id o.other) refl

  script_kept :
      (fs : List Fault) (job_id : String) (w : World r)
      → w.faults ≡ fs
      → owned_by job_id (r.get (lock_key key) w.store) ≡ some false
      → (release r key (record { lock_acquired = true; job_id = some job_id }) w).1.store ≡ w.store
  unfolding release release_script eval command pure raise ◌>>=◌
  script_kept [] job_id w f o = rw (f, o) refl
  script_kept (fine ∷ fs) job_id w f o = rw (f, o) refl
  script_kept (refused x ∷ fs) job_id w f o = rw f refl
  script_kept (reply_lost x ∷ fs) job_id w f o = rw (f, o) refl

  -- Whatever commands fail, a job that believes to hold the lock, but whose lock has expired and been
  -- taken by another job, does not take it away from that job when it releases it.
  pub release-OthersLock :
      (job_id : String) (w : World r)
      → OthersLock job_id w.store
      → (release r key (record { lock_acquired = true; job_id = some job_id }) w).1.store ≡ w.store
  release-OthersLock job_id w o = script_kept w.faults job_id w refl (not_owned job_id w.store o)

  -- With no failing command, a job that holds the lock and releases it leaves the key free, and its
  -- object no longer claims the lock.
  pub release-Held :
      (job_id : String) (pid ttl : ℕ) (w : World r)
      → w.faults ≡ []
      → Held r key job_id pid ttl w.store
      → ((release r key (record { lock_acquired = true; job_id = some job_id }) w).0
          ≡ ok (record { lock_acquired = false; job_id = some job_id }))
        × (r.get
              (lock_key key)
              (release r key (record { lock_acquired = true; job_id = some job_id }) w).1.store
            ≡ none)
  unfolding release release_script eval command pure raise ◌>>=◌ owned_by py_eq lock_value lookup
  release-Held job_id pid ttl w f held =
      rw (f, held.value, owned_by, lookup, eq_refl job_id)
        (refl, simp (redis_laws, eq_refl (lock_key key)))

  -- The lock at the key is the table `fs`, which lives for `t` more.
  pub record Locked (fs : Fields) (t : ℕ) (s : r.Store) : Type 0 where
    pub value : r.get (lock_key key) s ≡ some (json (obj fs))
    pub lives : r.ttl (lock_key key) s ≡ some (suc t)

  -- With no failing command, the update of a field of a lock that has not expired stores the lock's
  -- table with that field assigned to the text, and keeps the time to live.
  pub update_lock_field-Locked :
      (name text : String) (fs : Fields) (t : ℕ) (w : World r)
      → w.faults ≡ []
      → Locked fs t w.store
      → ((update_lock_field r key name text w).0 ≡ ok true)
        × Locked (assign name (str text) fs) t (update_lock_field r key name text w).1.store
  unfolding update_lock_field update_script eval command pure raise ◌>>=◌ updated try_except
  update_lock_field-Locked name text fs t w f l =
      let positive : 0 < suc t = omega arith in
      rw (f, l.value, l.lives, updated)
        (
          refl,
          record {
            value = simp (redis_laws, positive, eq_refl (lock_key key));
            lives = simp (redis_laws, positive, eq_refl (lock_key key));
          },
        )

  missing_kept :
      (faults : List Fault) (name text : String) (w : World r)
      → w.faults ≡ faults
      → r.get (lock_key key) w.store ≡ none
      → update_lock_field r key name text w ≡ (ok false, record w { faults = tail_of faults })
  unfolding update_lock_field update_script eval command pure raise ◌>>=◌ updated try_except
  missing_kept [] name text w f n = rw (f, n) refl
  missing_kept (fine ∷ fs) name text w f n = rw (f, n) refl
  missing_kept (refused x ∷ fs) name text w f n = rw f refl
  missing_kept (reply_lost x ∷ fs) name text w f n = rw (f, n) refl

  -- Whatever commands fail, the update of a field of a lock that has expired returns `False` and
  -- does not bring the lock back.
  pub update_lock_field-expired :
      (name text : String) (w : World r)
      → r.get (lock_key key) w.store ≡ none
      → ((update_lock_field r key name text w).0 ≡ ok false)
        × ((update_lock_field r key name text w).1.store ≡ w.store)
  update_lock_field-expired name text w n =
      rw (missing_kept w.faults name text w refl n) (refl, refl)

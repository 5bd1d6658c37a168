-- ===== src/Sessions/Lifecycle.antt =====
-- A session from its creation to its end and back.
use simple_claude_code_githu.Prelude.{
  ℕ, ◌<◌, String, ◌≡◌, refl, ap, ◌∙◌, Bool, true, false, none, some, [], ◌∷◌, str_eq, eq_refl,
  if◌then◌else◌,
}
use simple_claude_code_githu.Webhook.{decimal}
use simple_claude_code_githu.Workflows.{Dict, find}
use simple_claude_code_githu.Sessions.{
  SessionRedis, NewSession, session_key, streaming_lookup_key, session_data, create_session,
  has_session, session_field, looked_up, verified, find_session, find_active_session, if_running,
  completed_fields, set_completed, set_running,
}

module _ (r : SessionRedis) where
  -- The lookup key of a session holds its token, and its hash is there with a status.
  record Found (n : NewSession) (status : String) (s : r.Store) : Type 0 where
    looked :
        r.get (streaming_lookup_key n.repo (decimal n.issue_number) n.workflow n.thread_type) s
        ≡ some n.token
    there : r.has_hash (session_key n.token) s ≡ true
    has_status : r.hget (session_key n.token) "status" s ≡ some status

  create-Found :
      (n : NewSession) (ttl : ℕ) (s : r.Store)
      → 0 < ttl
      → Found n "running" (create_session r n ttl s)
  unfolding create_session find
  create-Found n ttl s positive =
      let key = session_key n.token in
      let lk = streaming_lookup_key n.repo (decimal n.issue_number) n.workflow n.thread_type in
      let filled = r.hset key (session_data n) s in
      record {
        looked =
            r.get_setex lk lk ttl n.token (r.expire key ttl filled) positive ∙ rw (eq_refl lk) refl;
        there =
            r.has_hash_setex lk key ttl n.token (r.expire key ttl filled)
            ∙ r.has_hash_expire key key ttl filled positive
            ∙ r.has_hash_hset key key "token" n.token _ s
            ∙ rw (eq_refl key) refl;
        has_status =
            r.hget_setex lk key "status" ttl n.token (r.expire key ttl filled)
            ∙ r.hget_expire key key "status" ttl filled positive
            ∙ r.hget_hset key key "status" (session_data n) s
            ∙ rw (eq_refl key) refl;
      }

  -- a command that writes the status of a session that is there
  hset-Found :
      (n : NewSession) (old status : String) (fs : Dict String) (s : r.Store)
      → Found n old s
      → Found n status (r.hset (session_key n.token) (("status", status) ∷ fs) s)
  unfolding find
  hset-Found n old status fs s f =
      let key = session_key n.token in
      record {
        looked = r.get_hset key _ (("status", status) ∷ fs) s ∙ f.looked;
        there = r.has_hash_hset key key "status" status fs s ∙ rw (eq_refl key) refl;
        has_status =
            r.hget_hset key key "status" (("status", status) ∷ fs) s ∙ rw (eq_refl key) refl;
      }

  expire-Found :
      (n : NewSession) (status : String) (ttl : ℕ) (s : r.Store)
      → 0 < ttl
      → Found n status s
      → Found n status (r.expire (session_key n.token) ttl s)
  expire-Found n status ttl s positive f =
      let key = session_key n.token in
      record {
        looked = r.get_expire key _ ttl s positive ∙ f.looked;
        there = r.has_hash_expire key key ttl s positive ∙ f.there;
        has_status = r.hget_expire key key "status" ttl s positive ∙ f.has_status;
      }

  Found-find_session :
      (n : NewSession) (status : String) (s : r.Store)
      → str_eq n.token "" ≡ false
      → Found n status s
      → find_session r n.repo n.issue_number n.workflow n.thread_type s ≡ (some n.token, s)
  unfolding find_session looked_up verified has_session
  Found-find_session n status s named f = rw (f.looked, named, f.there) refl

  Found-find_active_session :
      (n : NewSession) (status : String) (s : r.Store)
      → str_eq n.token "" ≡ false
      → Found n status s
      → find_active_session r n.repo n.issue_number n.workflow n.thread_type s
        ≡ (if str_eq status "running" then some n.token else none, s)
  unfolding find_active_session if_running session_field
  Found-find_active_session n status s named f =
      rw (Found-find_session n status s named f, f.has_status) refl

not_active :
    (is_error : Bool) (token : String)
    → (if str_eq (if is_error then "error" else "completed") "running" then some token else none)
      ≡ none
not_active true token = refl
not_active false token = refl

-- With positive times to live: a session that was created is found and active; once it is completed, with or without an error, it
-- is still found under its lookup key, but not as an active one; and `set_running` makes it active
-- again.
pub create-complete-run :
    (r : SessionRedis) (n : NewSession) (ttl again : ℕ) (is_error : Bool) (session_id : String)
    (s : r.Store)
    → 0 < ttl
    → 0 < again
    → str_eq n.token "" ≡ false
    → let created = create_session r n ttl s in
      let completed = set_completed r n.token is_error session_id created in
      let resumed = set_running r n.token again completed in
      (find_active_session r n.repo n.issue_number n.workflow n.thread_type created
        ≡ (some n.token, created))
      × ((find_session r n.repo n.issue_number n.workflow n.thread_type completed
            ≡ (some n.token, completed))
          × ((find_active_session r n.repo n.issue_number n.workflow n.thread_type completed
                ≡ (none, completed))
              × (find_active_session r n.repo n.issue_number n.workflow n.thread_type resumed
                  ≡ (some n.token, resumed))))
unfolding set_completed completed_fields set_running
create-complete-run r n ttl again is_error session_id s positive again_positive named =
    let ended : String = if is_error then "error" else "completed" in
    let created = create-Found r n ttl s positive in
    let completed = hset-Found r n "running" ended _ (create_session r n ttl s) created in
    let done = set_completed r n.token is_error session_id (create_session r n ttl s) in
    let running = hset-Found r n ended "running" [] done completed in
    let resumed = expire-Found r n "running" again _ again_positive running in
    (
      Found-find_active_session r n "running" _ named created,
      (
        Found-find_session r n ended done named completed,
        (
          Found-find_active_session r n ended done named completed
              ∙ ap (λ token. (token, done)) (not_active is_error n.token),
          Found-find_active_session r n "running" _ named resumed,
        ),
      ),
    )

-- ===== src/Sessions.antt =====
-- shared/streaming_session.py: the store of the streaming sessions. The Redis server is a record of the
-- views and commands that it uses, with what the Redis documentation says of them; here no command
-- fails, a Lua script is one step, and the passing of time is no command: a key that expires is one
-- more `del`.
mod Server
pub mod Lifecycle
pub mod Inbox
mod Tests
pub use Server.{SessionRedis, or_else}
use Prim.Native.String.{◌++◌ as str_append}
use simple_claude_code_githu.Prelude.{
  ℕ, zero, suc, ◌<◌, ◌≡◌, String, Bool, true, false, not, ◌&&◌, ◌||◌, Option, none, some, List, [],
  ◌∷◌, ◌++◌, str_eq, if◌then◌else◌,
}
use simple_claude_code_githu.Json.{Json, str, obj, Fields, end, field, lookup, truthy}
use simple_claude_code_githu.Redis.{Stored, json, plain, loads}
use simple_claude_code_githu.Webhook.{decimal}
use simple_claude_code_githu.Workflows.{Dict, find}
use simple_claude_code_githu.WorktreeLock.Keys.{sanitize_repo_key}

pub session_key : String → String
session_key token = str_append "session:stream:" token

pub inbox_key : String → String
inbox_key token = str_append "session:inbox:" token

pub subscribers_key : String → String
subscribers_key token = str_append "session:subscribers:" token

pub history_key : String → String
history_key token = str_append "session:history:" token

-- `streaming_lookup_key` of shared/constants.py
pub streaming_lookup_key : String → String → String → String → String
unfolding sanitize_repo_key
streaming_lookup_key repo thread_id workflow thread_type =
    let thread = str_append ":" (str_append thread_id (str_append ":" workflow)) in
    let typed = str_append ":" (str_append thread_type thread) in
    str_append "session:stream:lookup:"
      (str_append (sanitize_repo_key repo) (if str_eq thread_type "" then thread else typed))

-- The arguments of `create_session`.
pub record NewSession : Type 0 where
  pub token : String
  pub repo : String
  pub issue_number : ℕ
  pub workflow : String
  pub session_proxy_url : String
  pub installation_id : String
  pub initial_query : String
  pub thread_type : String
  pub ref : String
  pub user : String
  pub conversation_config : String
  pub session_id : String

abbrev pub session_data : NewSession → Dict String
session_data n =
    ("token", n.token)
    ∷ ("repo", n.repo)
    ∷ ("issue_number", decimal n.issue_number)
    ∷ ("workflow", n.workflow)
    ∷ ("session_proxy_url", n.session_proxy_url)
    ∷ ("status", "running")
    ∷ ("installation_id", n.installation_id)
    ∷ ("initial_query", n.initial_query)
    ∷ ("thread_type", n.thread_type)
    ∷ ("ref", n.ref)
    ∷ ("user", n.user)
    ∷ ("conversation_config", n.conversation_config)
    ∷ ("session_id", n.session_id)
    ∷ ("transcript_path", "")
    ∷ ("run_count", "1")
    ∷ []

unfoldable pub default_ttl : ℕ
default_ttl = 2592000

-- What a script that counts returns.
pub data Count : Type 0 where
  minus_one : Count
  at : ℕ → Count

-- the text of a message of the browser
pub user_message : String → Stored
user_message content =
    json (obj (field "type" (str "user_message") (field "content" (str content) end)))

-- `data.get("type") == "user_message"`
abbrev is_user_message : Option Json → Bool
is_user_message (some (str t)) = str_eq t "user_message"
is_user_message _ = false

abbrev if_truthy : Option Json → Option Json
unfolding truthy
if_truthy none = none
if_truthy (some j) = if truthy j then some j else none

-- the content of an item of the inbox, if it is that of a message of the browser and not empty; an
-- item that is no dict raises an exception, which is passed over
unfoldable pub content_of : Option Json → Option Json
unfolding lookup if_truthy
content_of (some (obj fs)) =
    if is_user_message (lookup "type" fs) then if_truthy (lookup "content" fs) else none
content_of _ = none

abbrev pub onto_contents : Option Json → List Json → List Json
onto_contents none js = js
onto_contents (some j) js = j ∷ js

unfoldable pub contents : List Stored → List Json
unfolding content_of loads
contents [] = []
contents (x ∷ xs) = onto_contents (content_of (loads x)) (contents xs)

abbrev pub above_zero : Option ℕ → Bool
above_zero none = false
above_zero (some zero) = false
above_zero (some (suc n)) = true

-- `if not raw`
abbrev present : Option String → Option String
present none = none
present (some token) = if str_eq token "" then none else some token

-- the token under the lookup key, or else under the legacy key
unfoldable pub looked_up : Option String → String → Option String → Option String
looked_up raw thread_type legacy =
    or_else (present raw) (if str_eq thread_type "" then none else present legacy)

module _ (r : SessionRedis) where
  -- The commands of the pipeline.
  unfoldable pub create_session : NewSession → ℕ → r.Store → r.Store
  unfolding session_key streaming_lookup_key
  create_session n ttl_seconds s =
      let key = session_key n.token in
      let lk = streaming_lookup_key n.repo (decimal n.issue_number) n.workflow n.thread_type in
      r.setex lk ttl_seconds n.token (r.expire key ttl_seconds (r.hset key (session_data n) s))

  -- `get_session` finds a session: HGETALL gives fields
  unfoldable pub has_session : String → r.Store → Bool
  unfolding session_key
  has_session token s = r.has_hash (session_key token) s

  -- `session.get(name)`
  unfoldable pub session_field : String → String → r.Store → Option String
  unfolding session_key
  session_field name token s = r.hget (session_key token) name s

  -- the token that was found, if its session is still there; else the lookup key is deleted
  unfoldable pub verified : String → Option String → r.Store → Option String × r.Store
  unfolding has_session
  verified lk none s = (none, s)
  verified lk (some token) s = if has_session token s then (some token, s) else (none, r.del lk s)

  unfoldable pub find_session : String → ℕ → String → String → r.Store → Option String × r.Store
  unfolding looked_up verified streaming_lookup_key
  find_session repo issue_number workflow thread_type s =
      let lk = streaming_lookup_key repo (decimal issue_number) workflow thread_type in
      let legacy = streaming_lookup_key repo (decimal issue_number) workflow "" in
      verified lk (looked_up (r.get lk s) thread_type (r.get legacy s)) s

  abbrev is_running : Option String → Bool
  is_running none = false
  is_running (some status) = str_eq status "running"

  unfoldable pub if_running : Option String → r.Store → Option String × r.Store
  unfolding session_field
  if_running none s = (none, s)
  if_running (some token) s =
      (if is_running (session_field "status" token s) then some token else none, s)

  unfoldable pub find_active_session :
      String → ℕ → String → String → r.Store → Option String × r.Store
  unfolding find_session if_running
  find_active_session repo issue_number workflow thread_type s =
      let found = find_session repo issue_number workflow thread_type s in
      if_running found.0 found.1

  abbrev status_of : Bool → String
  status_of is_error = if is_error then "error" else "completed"

  -- the fields that `set_completed` writes
  unfoldable pub completed_fields : Bool → String → Dict String
  completed_fields is_error session_id =
      ("status", status_of is_error)
      ∷ (if str_eq session_id "" then [] else ("session_id", session_id) ∷ [])

  unfoldable pub set_completed : String → Bool → String → r.Store → r.Store
  unfolding completed_fields session_key
  set_completed token is_error session_id s =
      r.hset (session_key token) (completed_fields is_error session_id) s

  unfoldable pub set_running : String → ℕ → r.Store → r.Store
  unfolding session_key
  set_running token ttl_seconds s =
      r.expire (session_key token) ttl_seconds
        (r.hset (session_key token) (("status", "running") ∷ []) s)

  pub update_session_id : String → String → r.Store → r.Store
  unfolding session_key
  update_session_id token session_id s =
      r.hset (session_key token) (("session_id", session_id) ∷ []) s

  pub update_transcript_path : String → String → r.Store → r.Store
  unfolding session_key
  update_transcript_path token path s =
      r.hset (session_key token) (("transcript_path", path) ∷ []) s

  pub delete_session : String → r.Store → r.Store
  unfolding session_key inbox_key subscribers_key
  delete_session token s =
      r.del (subscribers_key token) (r.del (inbox_key token) (r.del (session_key token) s))

  pub set_ttl : String → ℕ → r.Store → r.Store
  unfolding session_key inbox_key subscribers_key
  set_ttl token ttl_seconds s =
      r.expire (subscribers_key token) ttl_seconds
        (r.expire (inbox_key token) ttl_seconds (r.expire (session_key token) ttl_seconds s))

  -- The script of `increment_subscribers`: INCR of a counter, and EXPIRE when it is new.
  unfoldable pub incremented : String → Option ℕ → r.Store → Count × r.Store
  unfolding default_ttl
  incremented key (some (suc n)) s = (at (suc (suc n)), r.set_counter key (suc (suc n)) s)
  incremented key (some zero) s = (at 1, r.expire key default_ttl (r.set_counter key 1 s))
  incremented key none s = (at 1, r.expire key default_ttl (r.set_counter key 1 s))

  unfoldable pub increment_subscribers : String → r.Store → Count × r.Store
  unfolding incremented subscribers_key
  increment_subscribers token s =
      incremented (subscribers_key token) (r.counter (subscribers_key token) s) s

  -- The script of `decrement_subscribers`: DECR of a counter, and DEL unless it is above zero.
  unfoldable pub decremented : String → Option ℕ → r.Store → Count × r.Store
  decremented key (some (suc (suc n))) s = (at (suc n), r.set_counter key (suc n) s)
  decremented key (some (suc zero)) s = (at 0, r.del key s)
  decremented key (some zero) s = (minus_one, r.del key s)
  decremented key none s = (minus_one, r.del key s)

  unfoldable pub decrement_subscribers : String → r.Store → Count × r.Store
  unfolding decremented subscribers_key
  decrement_subscribers token s =
      decremented (subscribers_key token) (r.counter (subscribers_key token) s) s

  unfoldable pub has_subscribers : String → r.Store → Bool
  unfolding subscribers_key
  has_subscribers token s = above_zero (r.counter (subscribers_key token) s)

  abbrev parsed_all : List Stored → List Json
  parsed_all [] = []
  parsed_all (x ∷ xs) = elim (loads x) [ none ↦ parsed_all xs | some j ↦ j ∷ parsed_all xs ]

  -- and `get_replay_buffer`
  pub get_history : String → r.Store → List Json
  unfolding history_key
  get_history token s = parsed_all (r.lrange (history_key token) s)

  unfoldable pub push_inbox_message : String → String → r.Store → r.Store
  unfolding inbox_key default_ttl user_message
  push_inbox_message token content s =
      r.expire (inbox_key token) default_ttl (r.rpush (inbox_key token) (user_message content) s)

  unfoldable pub pop_inbox_messages : String → r.Store → List Json × r.Store
  unfolding inbox_key contents
  pop_inbox_messages token s = (contents (r.lrange (inbox_key token) s), r.del (inbox_key token) s)

-- ===== src/Sessions/Tests.antt =====
-- A server whose views are functions, and a session on it.
use simple_claude_code_githu.Prelude.{
  ℕ, String, ◌≡◌, refl, Bool, true, false, ◌||◌, Option, none, some, List, [], ◌∷◌, ◌++◌, ltb,
  str_eq, if◌then◌else◌, arith,
}
use simple_claude_code_githu.Redis.{Stored}
use simple_claude_code_githu.Workflows.{find}
use simple_claude_code_githu.Sessions.{
  SessionRedis, NewSession, or_else, create_session, set_completed, set_running, find_session,
  find_active_session, pop_inbox_messages, has_subscribers,
}
use simple_claude_code_githu.Sessions.Lifecycle.{create-complete-run}
use simple_claude_code_githu.Sessions.Inbox.{
  push_all, connect, disconnect, non_empty_messages, push-pop, connect-disconnect,
}

record Views : Type 0 where
  fields : String → String → Option String
  hashes : String → Bool
  texts : String → Option String
  lists : String → List Stored
  counters : String → Option ℕ

-- a function with another value at one key
abbrev at_key : {A : Type 0} → String → A → (String → A) → String → A
at_key k x f j = if str_eq k j then x else f j

abbrev views : SessionRedis
views = record {
  Store = Views;
  hget = λ j f s. s.fields j f;
  has_hash = λ j s. s.hashes j;
  get = λ j s. s.texts j;
  lrange = λ j s. s.lists j;
  counter = λ j s. s.counters j;
  hset = λ k fs s. record s {
    fields = λ j f. if str_eq k j then or_else (find f fs) (s.fields j f) else s.fields j f;
    hashes = λ j. str_eq k j || s.hashes j;
  };
  setex = λ k t v s. record s { texts = at_key k (some v) s.texts };
  expire = λ k t s. s;
  rpush = λ k v s. record s { lists = λ j. if str_eq k j then s.lists j ++ v ∷ [] else s.lists j };
  set_counter = λ k n s. record s { counters = at_key k (some n) s.counters };
  del = λ k s. record {
    fields = at_key k (λ f. none) s.fields;
    hashes = at_key k false s.hashes;
    texts = at_key k none s.texts;
    lists = at_key k [] s.lists;
    counters = at_key k none s.counters;
  };
  hget_hset = λ k j f fs s. refl;
  has_hash_hset = λ k j f v fs s. refl;
  get_hset = λ k j fs s. refl;
  get_setex = λ k j t v s positive. refl;
  hget_setex = λ k j f t v s. refl;
  has_hash_setex = λ k j t v s. refl;
  hget_expire = λ k j f t s positive. refl;
  has_hash_expire = λ k j t s positive. refl;
  get_expire = λ k j t s positive. refl;
  lrange_expire = λ k j t s positive. refl;
  counter_expire = λ k j t s positive. refl;
  lrange_rpush = λ k j v s. refl;
  counter_set = λ k j n s. refl;
  lrange_del = λ k j s. refl;
  counter_del = λ k j s. refl;
}

abbrev empty : Views
empty = record {
  fields = λ j f. none;
  hashes = λ j. false;
  texts = λ j. none;
  lists = λ j. [];
  counters = λ j. none;
}

abbrev session : NewSession
session = record {
  token = "4f0c";
  repo = "o/r";
  issue_number = 7;
  workflow = "review-pr";
  session_proxy_url = "";
  installation_id = "";
  initial_query = "hi";
  thread_type = "pr";
  ref = "main";
  user = "u";
  conversation_config = "";
  session_id = "";
}

create-complete-run_example :
    let created = create_session views session 60 empty in
    let completed = set_completed views "4f0c" true "s1" created in
    let resumed = set_running views "4f0c" 60 completed in
    (find_active_session views "o/r" 7 "review-pr" "pr" created ≡ (some "4f0c", created))
    × ((find_session views "o/r" 7 "review-pr" "pr" completed ≡ (some "4f0c", completed))
        × ((find_active_session views "o/r" 7 "review-pr" "pr" completed ≡ (none, completed))
            × (find_active_session views "o/r" 7 "review-pr" "pr" resumed
                ≡ (some "4f0c", resumed))))
create-complete-run_example =
    create-complete-run views session 60 60 true "s1" empty (omega arith) (omega arith) refl

push-pop_example :
    let popped =
      pop_inbox_messages views "4f0c" (push_all views "4f0c" ("a" ∷ "" ∷ "b" ∷ []) empty) in
    (popped.0
      ≡ (pop_inbox_messages views "4f0c" empty).0 ++ non_empty_messages ("a" ∷ "" ∷ "b" ∷ []))
    × ((pop_inbox_messages views "4f0c" popped.1).0 ≡ [])
push-pop_example = push-pop views "4f0c" ("a" ∷ "" ∷ "b" ∷ []) empty

connect-disconnect_example :
    has_subscribers views "4f0c" (disconnect views "4f0c" 1 (connect views "4f0c" 2 empty))
    ≡ ltb 1 2
connect-disconnect_example = connect-disconnect views "4f0c" 2 1 empty refl

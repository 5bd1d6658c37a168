-- ===== src/MessageQueue/Readiness/Tests.antt =====
-- The waits for a repository whose synchronisation completes after nine ticks.
use simple_claude_code_githu.Prelude.{
  String, ◌≡◌, ◌↔◌, refl, Bool, false, none, some, List, [], ◌∷◌, arith,
}
use simple_claude_code_githu.Json.{Json, str, obj, end, field, lookup}
use simple_claude_code_githu.Json.Equality.{py_eq}
use simple_claude_code_githu.Redis.{json}
use simple_claude_code_githu.Redis.Memory.{memory, empty}
use simple_claude_code_githu.Redis.Io.{ok}
use simple_claude_code_githu.Redis.Commands.{present}
use simple_claude_code_githu.MessageQueue.Readiness.{
  Arrival, control, published, verdict, returned, ignored, completed, wait_for_indexing,
  indexing_configured, lowers_to, listen_for_index, proceed, repo_dir_of,
}
use simple_claude_code_githu.MessageQueue.Readiness.Waiting.{
  FirstOf, now, after, Quiet, Completes, waited, cached, requests_after, wait_for_repo_sync-Waited,
}

abbrev event : String → Json
event status =
    obj (field "repo" (str "a/b") (field "ref" (str "main") (field "status" (str status) end)))

abbrev arrivals : List Arrival
arrivals =
    record { time = 1; message = control }
    ∷ record { time = 4; message = published (json (event "started")) }
    ∷ record { time = 9; message = published (json (event "complete")) }
    ∷ []

started_ignored : verdict "a/b" "main" (published (json (event "started"))) ≡ ignored
unfolding verdict py_eq lookup
started_ignored = refl

complete_completes : verdict "a/b" "main" (published (json (event "complete"))) ≡ completed
unfolding verdict py_eq lookup
complete_completes = refl

control_ignored : verdict "a/b" "main" control ≡ ignored
unfolding verdict
control_ignored = refl

abbrev exists_nothing : String → Bool
exists_nothing path = false

completes : FirstOf (Quiet "a/b" "main" 0 300) (Completes "a/b" "main" 0 300) arrivals
completes =
    after (omega arith, control_ignored)
      (after (omega arith, started_ignored) (now (omega arith, complete_completes)))

not_cached : cached memory "a/b" "main" exists_nothing 0 300 false arrivals empty 0 ≡ false
unfolding present
not_cached = refl

-- the index of the same repository, which is waited for where it is configured
index_ready :
    wait_for_indexing "a/b" "main" 0 600 false
      (indexing_configured (some "True") (some "key"))
      (ok none)
      arrivals
    ≡ proceed
unfolding wait_for_indexing listen_for_index indexing_configured lowers_to verdict py_eq lookup
index_ready = refl

wait_for_repo_sync-Waited_example :
    ((waited memory "a/b" "main" exists_nothing 0 300 false arrivals empty 0).0
        ≡ ok (returned (repo_dir_of "a/b"))
      ↔ FirstOf (Quiet "a/b" "main" 0 300) (Completes "a/b" "main" 0 300) arrivals)
    × (memory.lrange "agent:sync:requests"
          (waited memory "a/b" "main" exists_nothing 0 300 false arrivals empty 0).1.store
        ≡ requests_after memory "a/b" "main" exists_nothing 0 300 false arrivals empty 0)
wait_for_repo_sync-Waited_example =
    wait_for_repo_sync-Waited memory "a/b" "main" exists_nothing 0 300 false arrivals empty 0
      not_cached

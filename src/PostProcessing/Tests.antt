-- ===== src/PostProcessing/Tests.antt =====
-- The jobs of a session that stopped twice, with the same memory job each time.
use simple_claude_code_githu.Prelude.{String, ◌≡◌, refl, none, some, List, [], ◌∷◌, ◌++◌}
use simple_claude_code_githu.Redis.Memory.{memory, empty}
use simple_claude_code_githu.Redis.Io.{Io, ok}
use simple_claude_code_githu.PostProcessing.{
  PostJob, deduplicate, remember, same_key, flush_pending_post_jobs,
}
use simple_claude_code_githu.PostProcessing.Deduplication.{
  Distinct, first_like, last_like, deduplicate-last,
}
use simple_claude_code_githu.PostProcessing.Flushing.{calm, requests_for, flush-requests}

abbrev job : String → String → String → PostJob
job job_type event memory_index = record {
  job_type = job_type;
  repo = "dev/app";
  event = event;
  transcript_path = some "/t/1.jsonl";
  claude_md = none;
  memory_index = some memory_index;
  workflow_name = none;
  session_meta = none;
  ref = none;
}

abbrev buffered : List PostJob
buffered = job "memory" "Stop" "old" ∷ job "indexing" "Stop" "" ∷ job "memory" "Stop" "new" ∷ []

replaced : deduplicate buffered ≡ job "memory" "Stop" "new" ∷ job "indexing" "Stop" "" ∷ []
unfolding deduplicate remember same_key
replaced = refl

abbrev as_is : String → String
as_is s = s

abbrev nap : Io memory (Unit {0})
nap w = (ok tt, w)

deduplicate-last_example :
    Distinct (deduplicate buffered)
    × (first_like (job "memory" "Stop" "") (deduplicate buffered)
        ≡ last_like (job "memory" "Stop" "") none buffered)
deduplicate-last_example = deduplicate-last buffered (job "memory" "Stop" "")

flush-requests_example :
    memory.lrange "agent:memory:requests"
      (flush_pending_post_jobs as_is nap buffered (calm memory as_is nap empty 0)).1.store
    ≡ [] ++ requests_for as_is "agent:memory:requests" (deduplicate buffered)
flush-requests_example = flush-requests memory as_is nap "agent:memory:requests" buffered empty 0

-- ===== src/Lib.antt =====
-- A verification library for the services that run Claude on GitHub events. A webhook turns an
-- event into common fields and picks the workflows that want it; a worker puts one job per
-- workflow into a queue in Redis; sandbox workers take jobs, run the agent and store its results.
--
-- Parts, and the code that each one models:
--   Prelude   shared types, Boolean tests on ℕ, lists, text equality, rulesets; the lines of a
--             text in Lines.
--   Json      Python's values as `json.loads` gives them, with `==`, `in`, `bool` and dict access.
--             A dict is a list of fields; numbers are natural (the payloads hold identifiers,
--             counters and times).
--   Redis     the server as an interface of commands with what its documentation says of them,
--             and actions whose commands may fail, before or after they take effect.
--             Redis/Memory is a concrete server, on which the tests run.
--   Jobs      shared/job_queue.py, with the key prefixes of shared/constants.py. One action for
--             each method of `JobQueue`; the helpers are its branches. Keys: the names of the
--             keys and that they differ. Taking, Loss: `get_next_job`. Completing:
--             `complete_job`. Reclaiming: `reclaim_stale_jobs`. Effects: `create_job`.
--             Lifecycle: the methods one after another.
--   RateLimit shared/rate_limiter.py, `InMemoryRateLimiterBackend.acquire`. A round of its loop is
--             one step, since it awaits nothing while it holds the lock; the calls on a key are a
--             list of rounds in the order in which they hold the lock. Deque: the deque. Window:
--             what is granted. Waiting: how rounds and calls end. Named: `RateLimiter` and
--             `MultiRateLimiter`, whose limiters share the tables of one backend.
--   WorktreeLock
--             shared/worktree_lock.py: the operations of `WorktreeLock` on the lock and on the
--             prompt that waits. A Lua script is one step on the server. Keys: the names of the
--             keys. Ownership: `acquire`. Releasing: `release` and the fields of a lock. Pending:
--             the prompt, and the wait for a release.
--   Retry     shared/retry.py, its proofs in Attempts; DeadLetters: shared/dlq.py.
--   Payload   shared/utils.py: `resolve_path`, the segments of URLs, the URL of a session; proofs
--             in Paths.
--   Workflows workflows/engine.py: the lookup tables, the routing of events and commands, the
--             filters. Names: `_validate_workflow_names`. Routing, Declared, Filters: the tables
--             against the configuration.
--   Webhook   services/webhook/payload_extractor.py, and services/webhook/extraction_rules.py in
--             Rules. It resolves paths with Payload and keeps its rules in the dicts of Workflows.
--   MessageQueue
--             shared/queue.py: publishing and the loop of a subscriber of `RedisQueue`; Readiness:
--             the waits for a synchronised repository and for its index. Receiving and
--             Readiness/Waiting: the proofs.
--   PostProcessing
--             shared/post_processing.py: the jobs that follow a session. Deduplication: which jobs
--             are left; Flushing: what the queues get.
--   RepoSetup repo_setup/engine.py: the choice of the set-up, the environment and the run of the
--             commands; proofs in Running.
--   ThreadHistory
--             shared/thread_history.py: the comments of issues and pull requests, page by page;
--             Formatting: the text made of them. Paging, Cutting: the comments against the thread.
--   ImportResolver
--             shared/import_resolver.py: the file that an import names; its proofs in Within.
--   FileTree  shared/file_tree.py: the tree of a repository, with its proofs in Budget; Sources: the
--             walk of the source files, the summary of their counts and `generate_file_tree`.
--   Chunker   shared/chunker.py: the chunks of a parsed file, and in Fallback those of a file
--             without a parser, `chunk_file` and `chunk_repo`; Fallback/Covering: these chunks
--             against the lines.
--   CodeGraph shared/code_graph.py: the queries of `SymbolIndex` on the edges and definitions that its
--             caches hold. Levels: the traversals against the lengths of call paths. Diff: the parser
--             of diffs, on changed files in Files, whose hunks are those of Hunks with the
--             numbers of Numbers, and on added and deleted ones in Added. Enclosing,
--             DefinitionMap: the definition around a node. Symbols, Impact, Changes, Flow: the
--             methods; Flow/Ending: the end of the traversal of `trace_flow`.
--   Indexing  services/indexing_worker/indexing_worker.py: the processing of a job, whose ends stand in
--             Outcomes and the order of its effects in Phases. Embedding: the embeddings with
--             their cache; Batches, Merging, Results: what they come to. Upserting: the records
--             of the chunks.
--   Sessions  shared/streaming_session.py: the store of the streaming sessions, over its own interface
--             of Redis hashes, texts, lists and counters, where no command fails. Lifecycle: the
--             states of a session. Inbox: its messages and its subscribers.
--
-- Loops are structural recursion on what they run over: the identifiers of the processing set, the
-- workflows and their entries, the filters, the rules, the attempts that are left, the seconds of
-- a wait, the messages of a subscription, the pages of comments that are left, the nodes and the
-- lines of a file. The passes of a subscriber's loop are counted, up to its end by `close`. The
-- tree of a repository is recursion on the levels of directories that are left. The traversal of
-- `trace_flow` runs on fuel, one unit for each call in the graph and one more, which Flow/Ending
-- shows to be enough; the batches of texts run on one unit for each text. The one unbounded loop
-- is that of the rate limiter, which runs over the clock readings of its rounds; Waiting says how
-- many it needs. The decimal digits of a number are computed with one more unit of fuel than the
-- number, which has no more digits than that.
--
-- Parameters: the Redis server, the test of an identifier by `uuid.UUID`, the message of a
-- decoding error, the `repr` of lists and dicts, `str.lower`, Pydantic's reading of the extracted
-- fields, what other clients do to the server while one sleeps, what the processes of a set-up do,
-- the answers of GitHub, the callback of a subscriber and the messages that a subscription delivers,
-- the tree that tree-sitter gives for a file and the patterns of a language, the directories and
-- files that exist, the matching of ignore files, the answers of the graph database and of git,
-- the service that embeds texts, and the digests of texts.
-- Readings of the clock are natural numbers of ticks.
--
-- Not modelled: the connection to Redis, logging, the YAML files and Pydantic's reading of them,
-- system context files and prompts, the limiter that keeps its window in Redis, the queue in Google
-- Pub/Sub, the histories of discussions, transcripts, the persistent sessions, and the other
-- services (the sandbox, the proxies), which mostly run other programs.
pub mod Prelude
pub mod FileTree
pub mod Json
pub mod Redis
pub mod Jobs
pub mod RateLimit
pub mod Payload
pub mod Workflows
pub mod Webhook
pub mod Sessions
pub mod ThreadHistory
pub mod WorktreeLock
pub mod Retry
pub mod MessageQueue
pub mod PostProcessing
pub mod ImportResolver
pub mod Indexing
pub mod RepoSetup
pub mod Chunker
pub mod CodeGraph

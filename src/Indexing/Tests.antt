-- ===== src/Indexing/Tests.antt =====
-- A service that refuses its first call, a cache with one entry, and jobs on two commits.
use simple_claude_code_githu.Prelude.{
  ℕ, zero, suc, String, ◌≡◌, refl, sym, ap, ◌∙◌, true, false, Option, none, some, List, [], ◌∷◌,
  ◌++◌, map, str_eq, eq_iff, Bool-cases, inl, inr, if◌then◌else◌, ◌≤◌, length, get_elem?,
}
use simple_claude_code_githu.Workflows.{find}
use simple_claude_code_githu.RepoSetup.{contains, starts_with}
use simple_claude_code_githu.Prelude.Lines.{splitlines, strip, strip_left, strip_right, is_space}
use simple_claude_code_githu.Payload.{split}
use simple_claude_code_githu.Chunker.{Chunk, embed_text}
use simple_claude_code_githu.Indexing.{
  done, raised, Environment, GitRun, ended, failed, Effect, cleaned, changed_names, removed_names,
  status_names, process_indexing_job,
}
use simple_claude_code_githu.Indexing.Outcomes.{
  Announced, KeepsWorktree, process_indexing_job-Announced,
}
use simple_claude_code_githu.Indexing.Embedding.{
  Answer, embeddings, refused, Client, is_rate_limit, values, batch_embed,
}
use simple_claude_code_githu.Indexing.Embedding.Batches.{Answers, now, limited}
use simple_claude_code_githu.Indexing.Embedding.Results.{batch_embed-values}
use simple_claude_code_githu.Indexing.Upserting.{
  records, record_of, embedded, embedded_count, records-shifted,
}

-- The empty text has no embedding.
abbrev embedding_of : String → Option ℕ
embedding_of String.[] = none
embedding_of (String.◌∷◌ c s) = some 7

abbrev service : ℕ → List String → Answer ℕ
service zero batch = refused "429 RESOURCE_EXHAUSTED"
service (suc n) batch = embeddings (map embedding_of batch)

abbrev as_is : String → String
as_is s = s

abbrev client : Client ℕ
client = record { cache = ("b", 7) ∷ []; lookup_fails = false; store_fails = false }

is_limit : is_rate_limit "429 RESOURCE_EXHAUSTED" ≡ true
unfolding is_rate_limit contains starts_with
is_limit = refl

service-Answers : (n : ℕ) (batch : List String) → Answers service embedding_of 4 n batch
service-Answers zero batch = limited "429 RESOURCE_EXHAUSTED" refl is_limit (now refl)
service-Answers (suc n) batch = now refl

cache_correct : (t : String) (v : ℕ) → find t client.cache ≡ some v → embedding_of t ≡ some v
unfolding find
cache_correct t v = elim (Bool-cases (str_eq "b" t)) [
  | inl e ↦ rw e (λ h. ap embedding_of (sym ((eq_iff "b" t).0 e)) ∙ h)
  | inr e ↦ rw e (λ h. cc)
]

batch_embed-values_example :
    ((batch_embed as_is service 1 (some client) ("a" ∷ "b" ∷ "" ∷ "c" ∷ [])).0
      ≡ done (values (map embedding_of ("a" ∷ "b" ∷ "" ∷ "c" ∷ []))))
    × ((batch_embed as_is service 1 none ("a" ∷ "b" ∷ "" ∷ "c" ∷ [])).0
        ≡ done (values (map embedding_of ("a" ∷ "b" ∷ "" ∷ "c" ∷ []))))
batch_embed-values_example =
    batch_embed-values embedding_of as_is service 1 client ("a" ∷ "b" ∷ "" ∷ "c" ∷ [])
      service-Answers cache_correct

-- A job at the commit "c2", with the given previous commit and runs of git.
abbrev job : Option String → GitRun → GitRun → Environment ℕ
job previous changed removed = record {
  create_worktree = done (some "/tmp/w");
  commit_hash = some "c2";
  previous_commit = previous;
  diff_changed = λ a b. changed;
  diff_removed = λ a b. removed;
  chunk_repo = λ files. done [];
  embed = λ chunks. raised "429";
  upsert = λ files chunks vs. done 0;
  write_metadata = some "WRONGTYPE Operation against a key";
  rewrite_metadata = none;
}

process_indexing_job-Announced_example :
    (es : List (Effect ℕ)) × ((process_indexing_job (job none failed failed) (some "o/r") true
        ≡ es ++ cleaned "/tmp/w" ∷ [])
      × (Announced "c2" false es × KeepsWorktree es))
process_indexing_job-Announced_example =
    process_indexing_job-Announced (job none failed failed) "o/r" "/tmp/w" "c2" refl refl refl refl

no_change : changed_names (ended 0 "") ≡ []
unfolding changed_names
no_change = refl

one_removed : removed_names (ended 0 "D\told.py\n") ≡ "old.py" ∷ []
unfolding removed_names status_names split splitlines strip strip_left strip_right is_space
one_removed = refl

abbrev chunk : String → String → Chunk
chunk n text = record {
  filepath = "a.py";
  name = n;
  kind = "function";
  language = "python";
  start_line = 1;
  end_line = 1;
  content = text;
  parent = none;
}

-- The service has no embedding for the chunk `f`.
abbrev all_but_first : String → Option ℕ
all_but_first t = if str_eq t "# a.py | function: f\nx" then none else some 3

second_is_some : all_but_first (embed_text (chunk "g" "y")) ≡ some 3
unfolding embed_text
second_is_some = refl

abbrev three_chunks : List Chunk
three_chunks = chunk "e" "w" ∷ chunk "f" "x" ∷ chunk "g" "y" ∷ []

-- The embedding of the third chunk goes into the record of the second.
records-shifted_example :
    (length (records as_is "o/r" three_chunks (embedded all_but_first as_is "o/r" three_chunks))
      ≡ embedded_count all_but_first as_is "o/r" three_chunks)
    × (embedded_count all_but_first as_is "o/r" (chunk "e" "w" ∷ chunk "f" "x" ∷ []) ≤ 2)
    × ((c : Chunk) × (get_elem? three_chunks
            (embedded_count all_but_first as_is "o/r" (chunk "e" "w" ∷ chunk "f" "x" ∷ []))
          ≡ some c)
        × (get_elem?
              (records as_is "o/r" three_chunks (embedded all_but_first as_is "o/r" three_chunks))
              (embedded_count all_but_first as_is "o/r" (chunk "e" "w" ∷ chunk "f" "x" ∷ []))
            ≡ some (record_of as_is "o/r" c 3)))
records-shifted_example =
    records-shifted all_but_first as_is "o/r" (chunk "e" "w" ∷ chunk "f" "x" ∷ []) (chunk "g" "y")
      [] 3 second_is_some

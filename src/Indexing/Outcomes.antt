-- ===== src/Indexing/Outcomes.antt =====
-- What the processing of an indexing job comes to.
use simple_claude_code_githu.Prelude.{
  ℕ, String, ◌≡◌, refl, inl, inr, Bool, true, false, ◌&&◌, Option, none, some, List, [], ◌∷◌, ◌++◌,
  str_eq, is_empty, Bool-cases,
}
use simple_claude_code_githu.RepoSetup.{contains}
use simple_claude_code_githu.Chunker.{Chunk}
use simple_claude_code_githu.Indexing.{
  Attempt, done, raised, complete, error_of, Effect, built_graph, built_routes, upserted,
  stored_metadata, refused_metadata, migrated_metadata, published, cleaned, Environment, Job, after,
  return, or_raise, rewriting, updating, files_to_build, announce, store_chunks, embed_chunks,
  index_files, index_changes, is_incremental, index_commit, report, index_worktree, run_in,
  process_indexing_job,
}

module _ {ℓ} {V : Type ℓ} where
  -- What the events and the metadata of some effects say: a completion is published only after an
  -- HSET of the metadata that has stored the commit, or whose exception was logged, and since which
  -- no metadata was removed.
  unfoldable pub Announced : String → Bool → List (Effect V) → Type 0
  Announced commit updated [] = Unit
  Announced commit updated (built_graph files ∷ es) = Announced commit updated es
  Announced commit updated (built_routes ∷ es) = Announced commit updated es
  Announced commit updated (upserted removed chunks vs ∷ es) = Announced commit updated es
  Announced commit updated (stored_metadata c n ∷ es) = (c ≡ commit) × Announced commit true es
  Announced commit updated (refused_metadata m ∷ es) = Announced commit true es
  Announced commit updated (migrated_metadata ∷ es) = Announced commit false es
  Announced commit updated (published complete ∷ es) =
      (updated ≡ true) × Announced commit updated es
  Announced commit updated (published (error_of m) ∷ es) = Announced commit updated es
  Announced commit updated (cleaned w ∷ es) = Announced commit updated es

  -- No effect removes the worktree.
  unfoldable pub KeepsWorktree : List (Effect V) → Type 0
  KeepsWorktree [] = Unit
  KeepsWorktree (cleaned w ∷ es) = ⊥
  KeepsWorktree (_ ∷ es) = KeepsWorktree es

  -- what every part of a job guarantees
  unfoldable pub Sound : String → Job V → Type 0
  Sound commit j = Announced commit false j.0 × KeepsWorktree j.0

  module _ (commit : String) where
    -- the event of an error changes nothing
    Announced-error :
        (m : String) (b : Bool) (es : List (Effect V))
        → Announced commit b es
        → Announced commit b (es ++ published (error_of m) ∷ [])
    unfolding Announced
    Announced-error m b [] a = tt
    Announced-error m b (built_graph files ∷ es) a = Announced-error m b es a
    Announced-error m b (built_routes ∷ es) a = Announced-error m b es a
    Announced-error m b (upserted removed chunks vs ∷ es) a = Announced-error m b es a
    Announced-error m b (stored_metadata c n ∷ es) (e, a) = (e, Announced-error m true es a)
    Announced-error m b (refused_metadata n ∷ es) a = Announced-error m true es a
    Announced-error m b (migrated_metadata ∷ es) a = Announced-error m false es a
    Announced-error m b (published complete ∷ es) (e, a) = (e, Announced-error m b es a)
    Announced-error m b (published (error_of n) ∷ es) a = Announced-error m b es a
    Announced-error m b (cleaned w ∷ es) a = Announced-error m b es a

    KeepsWorktree-error :
        (m : String) (es : List (Effect V))
        → KeepsWorktree es
        → KeepsWorktree (es ++ published (error_of m) ∷ [])
    unfolding KeepsWorktree
    KeepsWorktree-error m [] a = tt
    KeepsWorktree-error m (built_graph files ∷ es) a = KeepsWorktree-error m es a
    KeepsWorktree-error m (built_routes ∷ es) a = KeepsWorktree-error m es a
    KeepsWorktree-error m (upserted removed chunks vs ∷ es) a = KeepsWorktree-error m es a
    KeepsWorktree-error m (stored_metadata c n ∷ es) a = KeepsWorktree-error m es a
    KeepsWorktree-error m (refused_metadata n ∷ es) a = KeepsWorktree-error m es a
    KeepsWorktree-error m (migrated_metadata ∷ es) a = KeepsWorktree-error m es a
    KeepsWorktree-error m (published status ∷ es) a = KeepsWorktree-error m es a
    KeepsWorktree-error m (cleaned w ∷ es) a = absurd a

    or_raise-Sound {κ} :
        {A : Type κ} (step : Attempt A) (next : A → Job V)
        → ((a : A) → Sound commit (next a))
        → Sound commit (or_raise step next)
    unfolding Sound Announced KeepsWorktree
    or_raise-Sound (raised m) next sound = (tt, tt)
    or_raise-Sound (done a) next sound = sound a

    rewriting-Sound :
        (env : Environment V) (again : Option String) (count : ℕ)
        → Sound commit (
            after migrated_metadata
              (rewriting {V = V} again commit count (after (published complete) return)))
    unfolding Sound Announced KeepsWorktree
    rewriting-Sound env none count = ((refl, (refl, tt)), tt)
    rewriting-Sound env (some m) count = (tt, tt)

    refused-Sound :
        (env : Environment V) (m : String)
        → Sound commit (after {V = V} (refused_metadata m) (after (published complete) return))
    unfolding Sound Announced KeepsWorktree
    refused-Sound env m = ((refl, tt), tt)

    updating-Sound :
        (env : Environment V) (failure again : Option String) (count : ℕ)
        → Sound commit
            (updating {V = V} failure again commit count (after (published complete) return))
    unfolding Sound Announced KeepsWorktree
    updating-Sound env none again count = ((refl, (refl, tt)), tt)
    updating-Sound env (some m) again count = elim (Bool-cases (contains "WRONGTYPE" m)) [
      | inl e ↦ rw e (rewriting-Sound env again count)
      | inr e ↦ rw e (refused-Sound env m)
    ]

    module _ (env : Environment V) where
      announce-Sound : (count : ℕ) → Sound commit (announce env commit count)
      unfolding announce
      announce-Sound count = updating-Sound env env.write_metadata env.rewrite_metadata count

      upserted-Sound :
          (removed : List String) (chunks : List Chunk) (vs : List V) (j : Job V)
          → Sound commit j
          → Sound commit (after (upserted removed chunks vs) j)
      unfolding Sound Announced KeepsWorktree
      upserted-Sound removed chunks vs j sound = sound

      built-Sound :
          (changed : Option (List String)) (j : Job V)
          → Sound commit j
          → Sound commit (after (built_graph (files_to_build changed)) (after built_routes j))
      unfolding Sound Announced KeepsWorktree
      built-Sound changed j sound = sound

      embed_chunks-Sound :
          (removed : List String) (chunks : List Chunk)
          → Sound commit (embed_chunks env commit removed chunks)
      unfolding embed_chunks store_chunks Sound Announced KeepsWorktree
      embed_chunks-Sound removed [] = (tt, tt)
      embed_chunks-Sound removed (c ∷ cs) = or_raise-Sound (env.embed (c ∷ cs)) _ (λ vs.
          or_raise-Sound (env.upsert removed (c ∷ cs) vs) _
            (λ n. upserted-Sound removed (c ∷ cs) vs (announce env commit n) (announce-Sound n)))

      index_files-Sound :
          (changed : Option (List String)) (removed : List String)
          → Sound commit (index_files env commit changed removed)
      unfolding index_files
      index_files-Sound changed removed =
          built-Sound changed (or_raise (env.chunk_repo changed) (embed_chunks env commit removed))
            (or_raise-Sound (env.chunk_repo changed) (embed_chunks env commit removed)
              (embed_chunks-Sound removed))

      index_changes-Sound :
          (changed removed : List String) → Sound commit (index_changes env commit changed removed)
      unfolding index_changes
      index_changes-Sound changed removed =
          elim (Bool-cases (is_empty changed && is_empty removed)) [
            | inl e ↦ rw e (announce-Sound 0)
            | inr e ↦ rw e (index_files-Sound (some changed) removed)
          ]

      index_commit-Sound : Sound commit (index_commit env commit)
      unfolding index_commit
      index_commit-Sound = elim (Bool-cases (is_incremental env.previous_commit commit)) [
        | inl e ↦ rw e (index_changes-Sound _ _)
        | inr e ↦ rw e (index_files-Sound none [])
      ]

      report-Sound :
          (j : Job V)
          → Sound commit j
          → Announced commit false (report j) × KeepsWorktree (report j)
      unfolding Sound report
      report-Sound (es, none) sound = sound
      report-Sound (es, some m) (announced, keeps) =
          (Announced-error m false es announced, KeepsWorktree-error m es keeps)

-- In a job for a named repository, with an API key and a Redis client, whose worktree was made and
-- whose commit is known, whatever fails on the way: the removal of the worktree is tried as the last
-- effect and by no other; an HSET that stores metadata stores the commit; and completion is published
-- only after an HSET of the metadata that has stored the commit or whose exception was logged, and
-- not if old metadata were removed after that HSET.
pub process_indexing_job-Announced {ℓ} :
    {V : Type ℓ} (env : Environment V) (repo worktree commit : String)
    → str_eq repo "" ≡ false
    → str_eq worktree "" ≡ false
    → env.create_worktree ≡ done (some worktree)
    → env.commit_hash ≡ some commit
    → (es : List (Effect V)) × ((process_indexing_job env (some repo) true
          ≡ es ++ cleaned worktree ∷ [])
        × (Announced commit false es × KeepsWorktree es))
unfolding process_indexing_job run_in index_worktree
process_indexing_job-Announced env repo worktree commit named there made found = (
  report (index_commit env commit),
  (
    rw (named, made, there, found) refl,
    report-Sound commit env (index_commit env commit) (index_commit-Sound commit env),
  ),
)

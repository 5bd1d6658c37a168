-- ===== src/Indexing/Embedding.antt =====
-- The embeddings of services/indexing_worker/indexing_worker.py: `_get_cached_embeddings`,
-- `_cache_embeddings`, `_embed_texts` and `batch_embed`. The hash of a text and the service that embeds
-- are parameters; the service is asked with the number of the call. Two lists that the source keeps
-- in step, of indices and of embeddings, are one list of pairs.
pub mod Batches
pub mod Merging
pub mod Results
use simple_claude_code_githu.Prelude.{
  ℕ, zero, suc, ◌+◌, String, Bool, true, false, not, ◌&&◌, ◌||◌, Option, none, some, List, [], ◌∷◌,
  ◌++◌, map, length, take, is_empty, ◌==◌, if◌then◌else◌,
}
use simple_claude_code_githu.Prelude.Lines.{drop}
use simple_claude_code_githu.RepoSetup.{contains}
use simple_claude_code_githu.Workflows.{Dict, find, put}
use simple_claude_code_githu.Indexing.{Attempt, done, raised}

-- `xs[n]`, or `none` where it raises an `IndexError`
unfoldable pub nth {ℓ} : {A : Type ℓ} → ℕ → List A → Option A
nth n [] = none
nth zero (x ∷ xs) = some x
nth (suc n) (x ∷ xs) = nth n xs

-- the entry of a dict with numbers as keys
unfoldable pub find_num {ℓ} : {A : Type ℓ} → ℕ → List (ℕ × A) → Option A
find_num k [] = none
find_num k ((j, v) ∷ d) = if j == k then some v else find_num k d

-- `enumerate(xs)` with the pairs turned around: the position of each index
unfoldable pub positions : ℕ → List ℕ → List (ℕ × ℕ)
positions p [] = []
positions p (i ∷ is) = (i, p) ∷ positions (suc p) is

unfoldable pub range_from : ℕ → ℕ → List ℕ
range_from i zero = []
range_from i (suc n) = i ∷ range_from (suc i) n

unfoldable pub is_rate_limit : String → Bool
unfolding contains
is_rate_limit message = contains "429" message || contains "RESOURCE_EXHAUSTED" message

abbrev pub onto_option {ℓ} : {A : Type ℓ} → Option A → List A → List A
onto_option none xs = xs
onto_option (some x) xs = x ∷ xs

-- the texts at some indices
unfoldable pub pick : List ℕ → List String → List String
unfolding nth
pick [] texts = []
pick (i ∷ is) texts = onto_option (nth i texts) (pick is texts)

-- The service's answer: the values of each embedding, or `none` where they are empty.
pub data Answer (V : Type 0) : Type 0 where
  embeddings : List (Option V) → Answer V
  refused : String → Answer V

-- The client of the cache: its entries by the hashes of the texts, and whether a command fails.
pub record Client (V : Type 0) : Type 0 where
  pub cache : Dict V
  pub lookup_fails : Bool
  pub store_fails : Bool

module _ {V : Type 0} where
  -- the embeddings that are not empty, with the indices of their texts
  unfoldable pub valid_pairs : ℕ → List (Option V) → List (ℕ × V)
  valid_pairs i [] = []
  valid_pairs i (none ∷ es) = valid_pairs (suc i) es
  valid_pairs i (some v ∷ es) = (i, v) ∷ valid_pairs (suc i) es

  unfoldable pub misses_from : ℕ → List (Option V) → List ℕ
  misses_from i [] = []
  misses_from i (none ∷ rs) = i ∷ misses_from (suc i) rs
  misses_from i (some v ∷ rs) = misses_from (suc i) rs

  unfoldable pub values : List (Option V) → List V
  values [] = []
  values (none ∷ rs) = values rs
  values (some v ∷ rs) = v ∷ values rs

  -- The attempts at a batch: the number of those that are left after this one, and that of the calls
  -- made before. The result has the number of calls.
  abbrev pub attempted :
      ℕ → ℕ → (String → Attempt (List (ℕ × V)) × ℕ) → Answer V → Attempt (List (ℕ × V)) × ℕ
  unfolding valid_pairs
  attempted calls i otherwise (embeddings es) = (done (valid_pairs i es), suc calls)
  attempted calls i otherwise (refused message) = otherwise message

  unfoldable pub embed_attempt :
      (ℕ → List String → Answer V) → ℕ → ℕ → ℕ → List String → Attempt (List (ℕ × V)) × ℕ
  unfolding attempted is_rate_limit
  embed_attempt api zero calls i batch =
      attempted calls i (λ message. (raised message, suc calls)) (api calls batch)
  embed_attempt api (suc left) calls i batch =
      let again = embed_attempt api left (suc calls) i batch in
      attempted calls i
        (λ message. if is_rate_limit message then again else (raised message, suc calls))
        (api calls batch)

  abbrev pub join_pairs : List (ℕ × V) → Attempt (List (ℕ × V)) → Attempt (List (ℕ × V))
  join_pairs ps (done qs) = done (ps ++ qs)
  join_pairs ps (raised message) = raised message

  -- what follows the pairs of a batch
  abbrev pub then_rest :
      Attempt (List (ℕ × V)) × ℕ → (ℕ → Attempt (List (ℕ × V))) → Attempt (List (ℕ × V))
  then_rest (done ps, calls) rest = join_pairs ps (rest calls)
  then_rest (raised message, calls) rest = raised message

  -- The loop over the batches, whose size is one more than `size`, from the text at `i` on; a unit of
  -- fuel for each text is enough.
  unfoldable pub embed_from :
      (ℕ → List String → Answer V) → ℕ → ℕ → ℕ → ℕ → List String → Attempt (List (ℕ × V))
  unfolding embed_attempt
  embed_from api size fuel calls i [] = done []
  embed_from api size zero calls i (t ∷ ts) = done []
  embed_from api size (suc fuel) calls i (t ∷ ts) =
      then_rest (embed_attempt api 4 calls i (take (suc size) (t ∷ ts)))
        (λ n. embed_from api size fuel n (i + suc size) (drop (suc size) (t ∷ ts)))

  unfoldable pub embed_texts :
      (ℕ → List String → Answer V) → ℕ → List String → Attempt (List (ℕ × V))
  unfolding embed_from
  embed_texts api size texts = embed_from api size (length texts) 0 0 texts

  unfoldable pub get_cached_embeddings :
      (String → String) → Client V → List String → List (Option V) × List ℕ
  unfolding find misses_from range_from
  get_cached_embeddings hash client contents =
      let found = map (λ t. find (hash t) client.cache) contents in
      if client.lookup_fails
      then (map (λ t. none) contents, range_from 0 (length contents))
      else (found, misses_from 0 found)

  unfoldable pub store_one : (String → String) → Option String → V → Dict V → Dict V
  unfolding put
  store_one hash none v cache = cache
  store_one hash (some t) v cache = put (hash t) v cache

  unfoldable pub store_all : (String → String) → List String → List (ℕ × V) → Dict V → Dict V
  unfolding nth
  store_all hash miss_texts [] cache = cache
  store_all hash miss_texts ((i, v) ∷ ps) cache =
      store_all hash miss_texts ps (store_one hash (nth i miss_texts) v cache)

  -- `_cache_embeddings` of the texts that the indices name
  unfoldable pub cache_embeddings :
      (String → String) → List String → List (ℕ × V) → Client V → Client V
  unfolding store_all
  cache_embeddings hash miss_texts pairs client =
      if client.store_fails
      then client
      else record client { cache = store_all hash miss_texts pairs client.cache }

  -- the embedding at a position, if the text has one
  abbrev pub found_at : List (ℕ × V) → Option ℕ → Option V
  unfolding find_num
  found_at local_to_embed none = none
  found_at local_to_embed (some pos) = find_num pos local_to_embed

  -- The loop that merges the cached embeddings with the new ones.
  unfoldable pub merge_from : List (ℕ × ℕ) → List (ℕ × V) → ℕ → List (Option V) → List V
  unfolding found_at find_num
  merge_from index_to_local local_to_embed i [] = []
  merge_from index_to_local local_to_embed i (some v ∷ rs) =
      v ∷ merge_from index_to_local local_to_embed (suc i) rs
  merge_from index_to_local local_to_embed i (none ∷ rs) =
      onto_option (found_at local_to_embed (find_num i index_to_local))
        (merge_from index_to_local local_to_embed (suc i) rs)

  unfoldable pub merged : List (Option V) → List ℕ → Attempt (List (ℕ × V)) → Attempt (List V)
  unfolding merge_from positions
  merged cached misses (raised message) = raised message
  merged cached misses (done pairs) = done (merge_from (positions 0 misses) pairs 0 cached)

  -- What `batch_embed` returns after the look into the cache.
  unfoldable pub embed_misses :
      (ℕ → List String → Answer V) → ℕ → List String → List (Option V) → List ℕ → Attempt (List V)
  unfolding values merged pick embed_texts
  embed_misses api size texts cached misses =
      if is_empty misses
      then done (values cached)
      else merged cached misses (embed_texts api size (pick misses texts))

  -- and what it leaves in the cache
  unfoldable pub store_new :
      (String → String) → List String → Attempt (List (ℕ × V)) → Client V → Client V
  unfolding cache_embeddings
  store_new hash miss_texts (raised message) client = client
  store_new hash miss_texts (done pairs) client =
      if is_empty pairs then client else cache_embeddings hash miss_texts pairs client

  unfoldable pub client_after :
      (String → String)
      → (ℕ → List String → Answer V)
      → ℕ
      → Client V
      → List String
      → List ℕ
      → Client V
  unfolding store_new pick embed_texts
  client_after hash api size client texts misses =
      let miss_texts = pick misses texts in
      if is_empty misses
      then client
      else store_new hash miss_texts (embed_texts api size miss_texts) client

  unfoldable pub batch_embed :
      (String → String)
      → (ℕ → List String → Answer V)
      → ℕ
      → Option (Client V)
      → List String
      → Attempt (List V) × Option (Client V)
  unfolding embed_misses get_cached_embeddings range_from client_after
  batch_embed hash api size none texts =
      (embed_misses api size texts (map (λ t. none) texts) (range_from 0 (length texts)), none)
  batch_embed hash api size (some client) texts =
      let found = get_cached_embeddings hash client texts in
      (
        embed_misses api size texts found.0 found.1,
        some (client_after hash api size client texts found.1),
      )

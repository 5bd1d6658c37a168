-- ===== src/Indexing/Embedding/Results.antt =====
-- What `batch_embed` returns, with and without a cache.
use simple_claude_code_githu.Prelude.{
  ℕ, suc, String, ◌≡◌, refl, ap, ◌∙◌, Option, none, some, List, [], ◌∷◌, map, length, Bool-cases,
  inl, inr,
}
use simple_claude_code_githu.Workflows.{Dict, find}
use simple_claude_code_githu.Indexing.{done}
use simple_claude_code_githu.Indexing.Embedding.{
  range_from, Answer, Client, misses_from, values, embed_misses, get_cached_embeddings, batch_embed,
}
use simple_claude_code_githu.Indexing.Embedding.Batches.{Answers}
use simple_claude_code_githu.Indexing.Embedding.Merging.{Matching, embed_misses-values}

module _ {V : Type 0} (f : String → Option V) where
  Matching-none : (texts : List String) → Matching f (map (λ t. none) texts) texts
  unfolding Matching
  Matching-none [] = tt
  Matching-none (t ∷ ts) = Matching-none ts

  misses_from-none :
      (i : ℕ) (texts : List String)
      → range_from i (length texts) ≡ misses_from {V = V} i (map (λ t. none) texts)
  unfolding misses_from range_from
  misses_from-none i [] = refl
  misses_from-none i (t ∷ ts) = ap (λ is. i ∷ is) (misses_from-none (suc i) ts)

  Matching-cons :
      (o : Option V) (rs : List (Option V)) (t : String) (ts : List String)
      → ((v : V) → o ≡ some v → f t ≡ some v)
      → Matching f rs ts
      → Matching f (o ∷ rs) (t ∷ ts)
  unfolding Matching
  Matching-cons none rs t ts h m = m
  Matching-cons (some v) rs t ts h m = (h v refl, m)

  module _ (hash : String → String) (cache : Dict V) where
    Matching-found :
        ((t : String) (v : V) → find (hash t) cache ≡ some v → f t ≡ some v)
        → (texts : List String) → Matching f (map (λ t. find (hash t) cache) texts) texts
    unfolding Matching
    Matching-found correct [] = tt
    Matching-found correct (t ∷ ts) =
        Matching-cons (find (hash t) cache) (map (λ u. find (hash u) cache) ts) t ts (correct t)
          (Matching-found correct ts)

-- If the service answers every batch with the embeddings of its texts after at most four refusals for
-- the rate limit, and what the cache holds under the hash of a text is the embedding of that text, then
-- `batch_embed` returns the embeddings of the texts that have one, in the order of the texts, whatever
-- is cached, whether or not the cache can be read, and without a cache.
pub batch_embed-values :
    {V : Type 0} (f : String → Option V) (hash : String → String) (api : ℕ → List String → Answer V)
    (size : ℕ) (client : Client V) (texts : List String)
    → ((n : ℕ) (batch : List String) → Answers api f 4 n batch)
    → ((t : String) (v : V) → find (hash t) client.cache ≡ some v → f t ≡ some v)
    → ((batch_embed hash api size (some client) texts).0 ≡ done (values (map f texts)))
      × ((batch_embed hash api size none texts).0 ≡ done (values (map f texts)))
unfolding batch_embed get_cached_embeddings
batch_embed-values {V = V} f hash api size client texts answers correct = (with_client, without)
  where
    without :
        embed_misses api size texts (map (λ t. none) texts) (range_from 0 (length texts))
        ≡ done (values (map f texts))
    without =
        ap (embed_misses api size texts (map (λ t. none) texts)) (misses_from-none f 0 texts)
        ∙ embed_misses-values f api size (map (λ t. none) texts) texts answers
            (Matching-none f texts)

    with_client : (batch_embed hash api size (some client) texts).0 ≡ done (values (map f texts))
    with_client = elim (Bool-cases client.lookup_fails) [
      | inl e ↦ rw e without
      | inr e ↦ rw e (
          embed_misses-values f api size (map (λ t. find (hash t) client.cache) texts) texts answers
            (Matching-found f hash client.cache correct texts))
    ]

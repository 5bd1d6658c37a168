-- ===== src/Indexing/Embedding/Batches.antt =====
-- What the batches of `_embed_texts` give, rate limits included.
use simple_claude_code_githu.Prelude.{
  ℕ, zero, suc, ◌+◌, ◌≤◌, String, ◌≡◌, refl, sym, ap, ◌∙◌, true, Option, none, some, List, [], ◌∷◌,
  ◌++◌, map, length, take, arith,
}
use simple_claude_code_githu.Prelude.Lines.{drop}
use simple_claude_code_githu.Indexing.{done}
use simple_claude_code_githu.Indexing.Embedding.{
  is_rate_limit, Answer, embeddings, refused, valid_pairs, embed_attempt, join_pairs, then_rest,
  embed_from,
}

-- The service answers a batch with the embeddings `f` of its texts, after at most `left` refusals that
-- are due to the rate limit.
pub data Answers {V : Type 0} (api : ℕ → List String → Answer V) (f : String → Option V)
    : ℕ → ℕ → List String → Type 0 where
  now :
      {left calls : ℕ} {batch : List String}
      → api calls batch ≡ embeddings (map f batch)
      → Answers api f left calls batch
  limited :
      {left calls : ℕ} {batch : List String} (message : String)
      → api calls batch ≡ refused message
      → is_rate_limit message ≡ true
      → Answers api f left (suc calls) batch
      → Answers api f (suc left) calls batch

module _ {V : Type 0} where
  -- the pair of an embedding, if it is not empty, before others
  unfoldable pub onto_pairs : ℕ → Option V → List (ℕ × V) → List (ℕ × V)
  onto_pairs i none ps = ps
  onto_pairs i (some v) ps = (i, v) ∷ ps

  pub valid_pairs-cons :
      (i : ℕ) (o : Option V) (es : List (Option V))
      → valid_pairs i (o ∷ es) ≡ onto_pairs i o (valid_pairs (suc i) es)
  unfolding valid_pairs onto_pairs
  valid_pairs-cons i none es = refl
  valid_pairs-cons i (some v) es = refl

  onto_pairs-append :
      (i : ℕ) (o : Option V) (ps qs : List (ℕ × V))
      → onto_pairs i o (ps ++ qs) ≡ onto_pairs i o ps ++ qs
  unfolding onto_pairs
  onto_pairs-append i none ps qs = refl
  onto_pairs-append i (some v) ps qs = refl

length-drop : (n : ℕ) (t : String) (ts : List String) → length (drop (suc n) (t ∷ ts)) ≤ length ts
length-drop zero t ts = omega arith
length-drop (suc n) t [] = omega arith
length-drop (suc n) t (u ∷ us) = omega (arith, length-drop n u us)

module _ {V : Type 0} (f : String → Option V) where
  valid_pairs-split :
      (n i : ℕ) (texts : List String)
      → valid_pairs i (map f texts)
        ≡ valid_pairs i (map f (take n texts)) ++ valid_pairs (i + n) (map f (drop n texts))
  unfolding valid_pairs
  valid_pairs-split zero i texts = let same : i + 0 ≡ i = omega arith in rw same refl
  valid_pairs-split (suc n) i [] = refl
  valid_pairs-split (suc n) i (t ∷ ts) =
      let same : suc i + n ≡ i + suc n = omega arith in
      let later = valid_pairs (i + suc n) (map f (drop n ts)) in
      valid_pairs-cons i (f t) (map f ts)
      ∙ ap (onto_pairs i (f t)) (valid_pairs-split n (suc i) ts)
      ∙ ap
          (λ k.
            onto_pairs i (f t)
              (valid_pairs (suc i) (map f (take n ts)) ++ valid_pairs k (map f (drop n ts))))
          same
      ∙ onto_pairs-append i (f t) (valid_pairs (suc i) (map f (take n ts))) later
      ∙ ap (λ ps. ps ++ later) (sym (valid_pairs-cons i (f t) (map f (take n ts))))

module _ {V : Type 0} (api : ℕ → List String → Answer V) (f : String → Option V) where
  embed_attempt-Answers :
      (left calls i : ℕ) (batch : List String)
      → Answers api f left calls batch
      → (n : ℕ) × (embed_attempt api left calls i batch ≡ (done (valid_pairs i (map f batch)), n))
  unfolding embed_attempt
  embed_attempt-Answers zero calls i batch (now e) = (suc calls, rw e refl)
  embed_attempt-Answers (suc left) calls i batch (now e) = (suc calls, rw e refl)
  embed_attempt-Answers (suc left) calls i batch (limited message e limit later) =
      let (n, same) = embed_attempt-Answers left (suc calls) i batch later in
      (n, rw (e, limit) same)

  -- The batches together give the embeddings of all texts, each with the index of its text.
  pub embed_from-Answers :
      (size fuel calls i : ℕ) (texts : List String)
      → ((n : ℕ) (batch : List String) → Answers api f 4 n batch)
      → length texts ≤ fuel
      → embed_from api size fuel calls i texts ≡ done (valid_pairs i (map f texts))
  unfolding embed_from valid_pairs
  embed_from-Answers size fuel calls i [] answers le = refl
  embed_from-Answers size zero calls i (t ∷ ts) answers le = absurd (omega (arith, le))
  embed_from-Answers size (suc fuel) calls i (t ∷ ts) answers le =
      let batch = take (suc size) (t ∷ ts) in
      let rest = drop (suc size) (t ∷ ts) in
      let (n, same) = embed_attempt-Answers 4 calls i batch (answers calls batch) in
      ap (λ r. then_rest r (λ m. embed_from api size fuel m (i + suc size) rest)) same
      ∙ ap (join_pairs (valid_pairs i (map f batch))) (
          embed_from-Answers size fuel n (i + suc size) rest answers
            (omega (arith, le, length-drop size t ts)))
      ∙ ap done (sym (valid_pairs-split f (suc size) i (t ∷ ts)))

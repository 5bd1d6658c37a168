-- ===== src/Indexing/Embedding/Merging.antt =====
-- The merge of the cached embeddings with the new ones.
use simple_claude_code_githu.Prelude.{
  ℕ, suc, ◌+◌, ◌≤◌, ◌<◌, String, ◌≡◌, refl, sym, ap, ◌∙◌, true, false, Option, none, some, List, [],
  ◌∷◌, map, length, is_empty, ◌==◌, Bool-cases, inl, inr, arith,
}
use simple_claude_code_githu.Indexing.{done}
use simple_claude_code_githu.Indexing.Embedding.{
  nth, find_num, positions, onto_option, pick, Answer, valid_pairs, misses_from, values, found_at,
  embed_texts, merge_from, merged, embed_misses,
}
use simple_claude_code_githu.Indexing.Embedding.Batches.{
  Answers, onto_pairs, valid_pairs-cons, embed_from-Answers,
}

find_num-here : {A : Type 0} (k : ℕ) (v : A) (d : List (ℕ × A)) → find_num k ((k, v) ∷ d) ≡ some v
unfolding find_num
find_num-here k v d = let same : (k == k) ≡ true = ground arith in rw same refl

find_num-other :
    {A : Type 0} (j k : ℕ) (v : A) (d : List (ℕ × A))
    → j < k
    → find_num k ((j, v) ∷ d) ≡ find_num k d
unfolding find_num
find_num-other j k v d l = let differ : (j == k) ≡ false = ground (arith, l) in rw differ refl

nth-next :
    (i : ℕ) (texts : List String) (t : String) (ts : List String)
    → ((k : ℕ) → nth (k + i) texts ≡ nth k (t ∷ ts))
    → (k : ℕ) → nth (k + suc i) texts ≡ nth k ts
unfolding nth
nth-next i texts t ts at k =
    let same : suc k + i ≡ k + suc i = omega arith in ap (λ n. nth n texts) (sym same) ∙ at (suc k)

nth-zero : (k : ℕ) (texts : List String) → nth (k + 0) texts ≡ nth k texts
nth-zero k texts = let same : k + 0 ≡ k = omega arith in ap (λ n. nth n texts) same

module _ {V : Type 0} (f : String → Option V) where
  -- The cached results are those of their texts, as far as there are any.
  unfoldable pub Matching : List (Option V) → List String → Type 0
  Matching [] [] = Unit
  Matching [] (t ∷ ts) = ⊥
  Matching (r ∷ rs) [] = ⊥
  Matching (none ∷ rs) (t ∷ ts) = Matching rs ts
  Matching (some v ∷ rs) (t ∷ ts) = (f t ≡ some v) × Matching rs ts

  -- the texts without a cached result
  missing_texts : List (Option V) → List String → List String
  missing_texts [] ts = []
  missing_texts (r ∷ rs) [] = []
  missing_texts (none ∷ rs) (t ∷ ts) = t ∷ missing_texts rs ts
  missing_texts (some v ∷ rs) (t ∷ ts) = missing_texts rs ts

  values-cons : (o : Option V) (rs : List (Option V)) → values (o ∷ rs) ≡ onto_option o (values rs)
  unfolding values
  values-cons none rs = refl
  values-cons (some v) rs = refl

  find_num-later : (q i : ℕ) (es : List (Option V)) → q < i → find_num q (valid_pairs i es) ≡ none
  unfolding find_num valid_pairs
  find_num-later q i [] l = refl
  find_num-later q i (none ∷ es) l = find_num-later q (suc i) es (omega (arith, l))
  find_num-later q i (some v ∷ es) l =
      let differ : (i == q) ≡ false = ground (arith, l) in
      rw differ (find_num-later q (suc i) es (omega (arith, l)))

  -- the pair of an index comes before those of later ones
  find_num-onto_pairs :
      (i : ℕ) (o : Option V) (es : List (Option V))
      → find_num i (onto_pairs i o (valid_pairs (suc i) es)) ≡ o
  unfolding onto_pairs
  find_num-onto_pairs i none es = find_num-later i (suc i) es (omega arith)
  find_num-onto_pairs i (some v) es = find_num-here i v (valid_pairs (suc i) es)

  find_num-past :
      (i q : ℕ) (o : Option V) (ps : List (ℕ × V))
      → i < q
      → find_num q (onto_pairs i o ps) ≡ find_num q ps
  unfolding onto_pairs
  find_num-past i q none ps l = refl
  find_num-past i q (some v) ps l = find_num-other i q v ps l

  module _ (index_to_local : List (ℕ × ℕ)) (local_to_embed : List (ℕ × V)) where
    merge_from-values :
        (i p : ℕ) (rs : List (Option V)) (ts : List String)
        → Matching rs ts
        → ((j : ℕ)
            → i ≤ j
            → find_num j index_to_local ≡ find_num j (positions p (misses_from i rs)))
        → ((q : ℕ)
            → p ≤ q
            → find_num q local_to_embed ≡ find_num q (valid_pairs p (map f (missing_texts rs ts))))
        → merge_from index_to_local local_to_embed i rs ≡ values (map f ts)
    unfolding Matching merge_from values misses_from missing_texts positions
    merge_from-values i p [] [] m here there = refl
    merge_from-values i p [] (t ∷ ts) m here there = absurd m
    merge_from-values i p (r ∷ rs) [] m here there = absurd m
    merge_from-values i p (some v ∷ rs) (t ∷ ts) (e, m) here there =
        ap (λ vs. v ∷ vs)
          (merge_from-values (suc i) p rs ts m (λ j le. here j (omega (arith, le))) there)
        ∙ ap (λ o. onto_option o (values (map f ts))) (sym e)
        ∙ sym (values-cons (f t) (map f ts))
    merge_from-values i p (none ∷ rs) (t ∷ ts) m here there =
        let rest = map f (missing_texts rs ts) in
        let position =
          here i (omega arith) ∙ find_num-here i p (positions (suc p) (misses_from (suc i) rs)) in
        let embedding =
          there p (omega arith)
          ∙ ap (find_num p) (valid_pairs-cons p (f t) rest)
          ∙ find_num-onto_pairs p (f t) rest in
        let later =
          merge_from-values (suc i) (suc p) rs ts m
            (λ j le.
              here j (omega (arith, le))
              ∙ find_num-other i j p (positions (suc p) (misses_from (suc i) rs))
                  (omega (arith, le)))
            (λ q le.
              there q (omega (arith, le))
              ∙ ap (find_num q) (valid_pairs-cons p (f t) rest)
              ∙ find_num-past p q (f t) (valid_pairs (suc p) rest) (omega (arith, le))) in
        ap
          (λ o.
            onto_option (found_at local_to_embed o)
              (merge_from index_to_local local_to_embed (suc i) rs))
          position
        ∙ ap (λ o. onto_option o (merge_from index_to_local local_to_embed (suc i) rs)) embedding
        ∙ ap (onto_option (f t)) later
        ∙ sym (values-cons (f t) (map f ts))

  -- the texts that are picked for the service
  pick-missing_texts :
      (i : ℕ) (texts : List String) (rs : List (Option V)) (ts : List String)
      → Matching rs ts
      → ((k : ℕ) → nth (k + i) texts ≡ nth k ts)
      → pick (misses_from i rs) texts ≡ missing_texts rs ts
  unfolding pick misses_from missing_texts Matching nth
  pick-missing_texts i texts [] [] m at = refl
  pick-missing_texts i texts [] (t ∷ ts) m at = absurd m
  pick-missing_texts i texts (r ∷ rs) [] m at = absurd m
  pick-missing_texts i texts (some v ∷ rs) (t ∷ ts) (e, m) at =
      pick-missing_texts (suc i) texts rs ts m (nth-next i texts t ts at)
  pick-missing_texts i texts (none ∷ rs) (t ∷ ts) m at =
      let here : 0 + i ≡ i = omega arith in
      ap (λ o. onto_option o (pick (misses_from (suc i) rs) texts))
        (ap (λ n. nth n texts) (sym here) ∙ at 0)
      ∙ ap (λ us. t ∷ us) (pick-missing_texts (suc i) texts rs ts m (nth-next i texts t ts at))

  -- with everything cached, the cached values are those of the texts
  values-cached :
      (i : ℕ) (rs : List (Option V)) (ts : List String)
      → Matching rs ts
      → is_empty (misses_from i rs) ≡ true
      → values rs ≡ values (map f ts)
  unfolding values Matching misses_from
  values-cached i [] [] m e = refl
  values-cached i [] (t ∷ ts) m e = absurd m
  values-cached i (r ∷ rs) [] m e = absurd m
  values-cached i (some v ∷ rs) (t ∷ ts) (same, m) e =
      ap (λ vs. v ∷ vs) (values-cached (suc i) rs ts m e)
      ∙ ap (λ o. onto_option o (values (map f ts))) (sym same)
      ∙ sym (values-cons (f t) (map f ts))
  values-cached i (none ∷ rs) (t ∷ ts) m e = cc

  pub embed_misses-values :
      (api : ℕ → List String → Answer V) (size : ℕ) (rs : List (Option V)) (texts : List String)
      → ((n : ℕ) (batch : List String) → Answers api f 4 n batch)
      → Matching rs texts
      → embed_misses api size texts rs (misses_from 0 rs) ≡ done (values (map f texts))
  unfolding embed_misses merged embed_texts
  embed_misses-values api size rs texts answers m =
      elim (Bool-cases (is_empty (misses_from 0 rs))) [
        | inl e ↦ rw e (ap done (values-cached 0 rs texts m e))
        | inr e ↦
            let missing = missing_texts rs texts in
            let pairs = valid_pairs 0 (map f missing) in
            rw
              (
                e,
                pick-missing_texts 0 texts rs texts m (λ k. nth-zero k texts),
                embed_from-Answers api f size (length missing) 0 0 missing answers (omega arith),
              )
              (ap done (
                merge_from-values (positions 0 (misses_from 0 rs)) pairs 0 0 rs texts m
                  (λ j le. refl) (λ q le. refl)))
      ]

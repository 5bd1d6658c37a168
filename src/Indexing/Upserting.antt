-- ===== src/Indexing/Upserting.antt =====
-- `_symbol_id` and `upsert_chunks` of services/indexing_worker/indexing_worker.py. The digest of a text,
-- and which statements the database accepts, are parameters.
use Prim.Native.String.{◌++◌ as str_append}
use simple_claude_code_githu.Prelude.{
  ℕ, zero, suc, String, ◌≡◌, refl, Bool, Option, none, some, List, [], ◌∷◌, length, map,
  if◌then◌else◌, ◌+◌, ◌≤◌, ◌++◌, ◌∙◌, arith, get_elem?, get_elem?-some, length-append,
}
use simple_claude_code_githu.Chunker.{Chunk, embed_text}
use simple_claude_code_githu.Webhook.{decimal}
use simple_claude_code_githu.Indexing.Embedding.{values}

-- `s[:n]`
unfoldable pub first_chars : ℕ → String → String
first_chars zero s = ""
first_chars (suc n) String.[] = ""
first_chars (suc n) (String.◌∷◌ c s) = String.◌∷◌ c (first_chars n s)

-- The record of a chunk, less its kind, which is always "definition".
pub record SymbolRecord (V : Type 0) : Type 0 where
  pub id : String
  pub name : String
  pub category : String
  pub filepath : String
  pub line : ℕ
  pub end_line : ℕ
  pub language : String
  pub repo : String
  pub embedding : V
  pub content : String

-- What the database is asked to delete and has stored, and the count.
pub record Upserted (V : Type 0) : Type 0 where
  pub deleted_files : List String
  pub stored : List (SymbolRecord V)
  pub count : ℕ

pub symbol_id : (String → String) → String → ℕ → String → String → String → String
unfolding first_chars
symbol_id sha256 filepath start_line kind name repo =
    let colon = str_append ":" in
    first_chars 40 (
      sha256 (
        str_append repo (
          colon (
            str_append filepath
              (colon (str_append kind (colon (str_append name (colon (decimal start_line))))))))))

abbrev one_if {ℓ} : {A : Type ℓ} → Option A → ℕ
one_if none = 0
one_if (some a) = 1

one_if-le {ℓ} : {A : Type ℓ} (o : Option A) → one_if o ≤ 1
one_if-le none = omega arith
one_if-le (some a) = omega arith

zero_plus : (n : ℕ) → 0 + n ≡ n
zero_plus n = omega arith

one_plus : (n : ℕ) → 1 + n ≡ suc n
one_plus n = omega arith

module _ {V : Type 0} where
  unfoldable pub record_of : (String → String) → String → Chunk → V → SymbolRecord V
  unfolding first_chars
  record_of sha256 repo chunk embedding = record {
    id = symbol_id sha256 chunk.filepath chunk.start_line chunk.kind chunk.name repo;
    name = chunk.name;
    category = chunk.kind;
    filepath = chunk.filepath;
    line = chunk.start_line;
    end_line = chunk.end_line;
    language = chunk.language;
    repo = repo;
    embedding = embedding;
    content = first_chars 2000 chunk.content;
  }

  -- The records of `zip(chunks, embeddings)`.
  unfoldable pub records : (String → String) → String → List Chunk → List V → List (SymbolRecord V)
  unfolding record_of
  records sha256 repo [] vs = []
  records sha256 repo (c ∷ cs) [] = []
  records sha256 repo (c ∷ cs) (v ∷ vs) = record_of sha256 repo c v ∷ records sha256 repo cs vs

  records-place :
      (sha256 : String → String) (repo : String) (cs : List Chunk) (vs : List V) (i : ℕ) (c : Chunk)
      (v : V)
      → get_elem? cs i ≡ some c
      → get_elem? vs i ≡ some v
      → get_elem? (records sha256 repo cs vs) i ≡ some (record_of sha256 repo c v)
  unfolding records
  records-place sha256 repo [] vs i c v e h = cc
  records-place sha256 repo (d ∷ cs) [] i c v e h = cc
  records-place sha256 repo (d ∷ cs) (w ∷ vs) zero c v e h = cc
  records-place sha256 repo (d ∷ cs) (w ∷ vs) (suc i) c v e h =
      records-place sha256 repo cs vs i c v e h

  length-records :
      (sha256 : String → String) (repo : String) (cs : List Chunk) (vs : List V)
      → length vs ≤ length cs
      → length (records sha256 repo cs vs) ≡ length vs
  unfolding records
  length-records sha256 repo [] [] h = refl
  length-records sha256 repo [] (v ∷ vs) h = absurd (omega arith)
  length-records sha256 repo (c ∷ cs) [] h = refl
  length-records sha256 repo (c ∷ cs) (v ∷ vs) h =
      omega (arith, length-records sha256 repo cs vs (omega arith))

  -- the records that the database accepts
  unfoldable pub accepted : (SymbolRecord V → Bool) → List (SymbolRecord V) → List (SymbolRecord V)
  accepted accepts [] = []
  accepted accepts (r ∷ rs) = let rest = accepted accepts rs in if accepts r then r ∷ rest else rest

  pub upsert_chunks :
      (String → String)
      → (SymbolRecord V → Bool)
      → String
      → List Chunk
      → List V
      → List String
      → Upserted V
  unfolding records accepted
  upsert_chunks sha256 accepts repo chunks embeddings removed_files =
      let stored = accepted accepts (records sha256 repo chunks embeddings) in
      record { deleted_files = removed_files; stored = stored; count = length stored }

  module _ (f : String → Option V) (sha256 : String → String) (repo : String) where
    -- what `batch_embed` returns for the texts of some chunks
    unfoldable pub embedded : List Chunk → List V
    unfolding values
    embedded chunks = values (map f (map embed_text chunks))

    -- how many of some chunks have an embedding
    unfoldable pub embedded_count : List Chunk → ℕ
    embedded_count [] = 0
    embedded_count (c ∷ cs) = one_if (f (embed_text c)) + embedded_count cs

    embedded_count-le : (cs : List Chunk) → embedded_count cs ≤ length cs
    unfolding embedded_count
    embedded_count-le [] = omega arith
    embedded_count-le (c ∷ cs) = omega (arith, one_if-le (f (embed_text c)), embedded_count-le cs)

    -- the embeddings are those of the chunks that have one, in order
    embedded-place :
        (before : List Chunk) (d : Chunk) (after : List Chunk) (v : V)
        → f (embed_text d) ≡ some v
        → get_elem? (embedded (before ++ d ∷ after)) (embedded_count before) ≡ some v
    unfolding embedded embedded_count values
    embedded-place [] d after v e = rw e refl
    embedded-place (c ∷ cs) d after v e = skip (f (embed_text c)) (embedded-place cs d after v e)
      where
        skip :
            (o : Option V)
            → get_elem? (embedded (cs ++ d ∷ after)) (embedded_count cs) ≡ some v
            → get_elem?
                (values (o ∷ map f (map embed_text (cs ++ d ∷ after))))
                (one_if o + embedded_count cs)
              ≡ some v
        skip none ih = rw (zero_plus (embedded_count cs)) ih
        skip (some w) ih = rw (one_plus (embedded_count cs)) ih

    length-embedded : (cs : List Chunk) → length (embedded cs) ≡ embedded_count cs
    unfolding embedded embedded_count values
    length-embedded [] = refl
    length-embedded (c ∷ cs) = ground (arith, length-embedded cs)

    -- There are as many records as chunks with an embedding. The embedding of a chunk goes into the
    -- record of the chunk whose position is the number of the chunks before it that have one: its
    -- own, if all of these have one, and else that of an earlier chunk.
    pub records-shifted :
        (before : List Chunk) (d : Chunk) (after : List Chunk) (v : V)
        → f (embed_text d) ≡ some v
        → (length (records sha256 repo (before ++ d ∷ after) (embedded (before ++ d ∷ after)))
            ≡ embedded_count (before ++ d ∷ after))
          × (embedded_count before ≤ length before)
          × ((c : Chunk) × (get_elem? (before ++ d ∷ after) (embedded_count before) ≡ some c)
              × (get_elem?
                    (records sha256 repo (before ++ d ∷ after) (embedded (before ++ d ∷ after)))
                    (embedded_count before)
                  ≡ some (record_of sha256 repo c v)))
    records-shifted before d after v e =
        let all = before ++ d ∷ after in
        let (c, here) =
          get_elem?-some all (embedded_count before)
            (omega (arith, embedded_count-le before, length-append before (d ∷ after))) in
        (
          length-records sha256 repo all (embedded all)
                (omega (arith, length-embedded all, embedded_count-le all))
              ∙ length-embedded all,
          embedded_count-le before,
          (
            c,
            here,
            records-place sha256 repo all (embedded all) (embedded_count before) c v here
                (embedded-place before d after v e),
          ),
        )

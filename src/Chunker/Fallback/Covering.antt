-- ===== src/Chunker/Fallback/Covering.antt =====
-- The chunks of a file without a parser, against its lines.
use simple_claude_code_githu.Prelude.{
  ℕ, zero, suc, ◌+◌, ◌≤◌, ◌<◌, String, ◌≡◌, refl, subst, inl, inr, Bool, true, false, ◌&&◌, ◌⊎◌,
  Option, none, some, List, [], ◌∷◌, length, ltb, is_empty, Bool-cases, arith, ltb→lt,
}
use simple_claude_code_githu.Prelude.Lines.{splitlines}
use simple_claude_code_githu.Chunker.{Chunk}
use simple_claude_code_githu.Chunker.Fallback.{
  Pattern, Definition, first_match, noted, find_definitions, blank_at, trim, last_index,
  definition_chunk, chunks_of, chunk_lines, chunk_with_regex,
}

-- The lines from `a` on, before `b`, are blank (counted from 0).
abbrev pub Blank : List String → ℕ → ℕ → Type 0
Blank lines a b = (i : ℕ) → a ≤ i → i < b → blank_at lines i ≡ true

-- The chunks cover the lines from `a` on: they follow one another without overlap, and a line that is
-- in none of them is blank.
pub data Covers (lines : List String) : ℕ → List Chunk → Type 0 where
  rest_blank : {a : ℕ} → Blank lines a (length lines) → Covers lines a []
  covered :
      {a : ℕ} {cs : List Chunk} (c : Chunk) (s e : ℕ)
      → c.start_line ≡ s + 1
      → c.end_line ≡ e
      → a ≤ s
      → s < e
      → e ≤ length lines
      → Blank lines a s
      → Covers lines e cs
      → Covers lines a (c ∷ cs)

-- Definitions in the order of their lines, from the line `a` on, before the line `n`.
data Ascending (n : ℕ) : ℕ → List Definition → Type 0 where
  finished : {a : ℕ} → Ascending n a []
  ascend :
      {a : ℕ} {ds : List Definition} (d : Definition)
      → a ≤ d.line
      → d.line < n
      → Ascending n (d.line + 1) ds
      → Ascending n a (d ∷ ds)

weaker : {n a b : ℕ} {ds : List Definition} → b ≤ a → Ascending n a ds → Ascending n b ds
weaker l finished = finished
weaker l (ascend d from before rest) = ascend d (omega (arith, l, from)) before rest

find_definitions-Ascending :
    (patterns : List Pattern) (i : ℕ) (ls : List String)
    → Ascending (i + length ls) i (find_definitions patterns i ls)
unfolding find_definitions
find_definitions-Ascending patterns i [] = finished
find_definitions-Ascending patterns i (l ∷ ls) =
    let same : suc i + length ls ≡ i + suc (length ls) = omega arith in
    at_line (first_match patterns l) (rw (← same) (find_definitions-Ascending patterns (suc i) ls))
  where
    at_line :
        (m : Option (String × String)) {ds : List Definition}
        → Ascending (i + suc (length ls)) (suc i) ds
        → Ascending (i + suc (length ls)) i (noted i m ds)
    at_line none asc = weaker (omega arith) asc
    at_line (some (kind, name)) asc =
        ascend _ (omega arith) (omega arith) (weaker (omega arith) asc)

record Trimmed (lines : List String) (start finish e : ℕ) : Type 0 where
  pub from : start ≤ e
  pub upto : e ≤ finish
  pub blanks : Blank lines (e + 1) (finish + 1)

lt_or_last : (i e : ℕ) → i < e + 1 → (i < e) ⊎ (i ≡ e)
lt_or_last i e l = ground arith

both : (a b : Bool) → a && b ≡ true → (a ≡ true) × (b ≡ true)
both true b e = (refl, e)
both false b e = cc

trim-Trimmed :
    (lines : List String) (start finish : ℕ)
    → start ≤ finish
    → Trimmed lines start finish (trim lines start finish)
unfolding trim
trim-Trimmed lines start zero l = record {
  from = l;
  upto = omega arith;
  blanks = λ i a b. absurd (omega (arith, a, b));
}
trim-Trimmed lines start (suc e) l =
    elim (Bool-cases (ltb start (suc e) && blank_at lines (suc e))) [
      | inl more ↦ rw more (
          let (inside, empty) = both (ltb start (suc e)) (blank_at lines (suc e)) more in
          let t = trim-Trimmed lines start e (omega (arith, ltb→lt _ _ inside)) in
          record {
            from = t.from;
            upto = omega (arith, t.upto);
            blanks = λ i a b. elim (lt_or_last i (suc e) b) [
              | inl below ↦ t.blanks i a (omega (arith, below))
              | inr last ↦ rw last empty
            ];
          })
      | inr stop ↦
          rw stop (record {
            from = l;
            upto = omega arith;
            blanks = λ i a b. absurd (omega (arith, a, b));
          })
    ]

-- the definition after one at the line `m`, seen from any line up to its own
later_start :
    {n m b : ℕ} (next : Definition) (ds : List Definition)
    → b ≤ next.line
    → Ascending n m (next ∷ ds)
    → Ascending n b (next ∷ ds)
later_start next ds l (ascend _ from before rest) = ascend next l before rest

next_after :
    {n m : ℕ} (next : Definition) (ds : List Definition) → Ascending n m (next ∷ ds) → m ≤ next.line
next_after next ds (ascend _ from before rest) = from

module _ (rel_path language : String) (lines : List String) where
  -- the last line of a definition is not before its first one
  last_index-from :
      (d : Definition) (ds : List Definition)
      → d.line < length lines
      → Ascending (length lines) (d.line + 1) ds
      → (d.line ≤ last_index lines ds) × (last_index lines ds + 1 ≤ length lines)
  last_index-from d [] l asc = omega (arith, l)
  last_index-from d (next ∷ ds) l (ascend _ from before rest) = omega (arith, from, before)

  chunks_of-Covers :
      (d : Definition) (ds : List Definition) (a : ℕ)
      → Ascending (length lines) a (d ∷ ds)
      → Blank lines a d.line
      → Covers lines a (chunks_of rel_path language lines (d ∷ ds))
  unfolding chunks_of definition_chunk
  chunks_of-Covers d [] a (ascend _ from before rest) blank =
      let (later, within) = last_index-from d [] before rest in
      let t = trim-Trimmed lines d.line (last_index lines []) later in
      covered _ d.line (trim lines d.line (last_index lines []) + 1) refl refl from
        (omega (arith, t.from)) (omega (arith, t.upto, within)) blank
        (rest_blank (λ i x y. t.blanks i x (omega (arith, y))))
  chunks_of-Covers d (next ∷ ds) a (ascend _ from before rest) blank =
      let (later, within) = last_index-from d (next ∷ ds) before rest in
      let t = trim-Trimmed lines d.line (last_index lines (next ∷ ds)) later in
      let after = next_after next ds rest in
      covered _ d.line (trim lines d.line (last_index lines (next ∷ ds)) + 1) refl refl from
        (omega (arith, t.from)) (omega (arith, t.upto, within)) blank
        (chunks_of-Covers next ds _ (later_start next ds (omega (arith, t.upto, after)) rest)
          (λ i x y. t.blanks i x (omega (arith, y))))

module _ (rel_path language source : String) (patterns : List Pattern) where
  none_found : (ls : List String) → is_empty ls ≡ true → find_definitions patterns 0 ls ≡ []
  unfolding find_definitions
  none_found [] empty = refl
  none_found (l ∷ ls) empty = cc

  all_definitions :
      (ls : List String) {d : Definition} {ds : List Definition}
      → find_definitions patterns 0 ls ≡ d ∷ ds
      → Ascending (length ls) 0 (d ∷ ds)
  all_definitions ls found =
      let same : 0 + length ls ≡ length ls = omega arith in
      let asc = simp same at (find_definitions-Ascending patterns 0 ls) in
      subst (Ascending (length ls) 0) found asc

  -- From the first line on at which a pattern matches, the chunks of a file that has no parser do not
  -- overlap, and a line of the file that is in none of them is blank.
  pub chunk_with_regex-Covers :
      (d : Definition) (ds : List Definition)
      → find_definitions patterns 0 (splitlines source) ≡ d ∷ ds
      → Covers (splitlines source) d.line (chunk_with_regex rel_path language source patterns)
  unfolding chunk_with_regex chunk_lines find_definitions
  chunk_with_regex-Covers d ds found = elim (Bool-cases (is_empty (splitlines source))) [
    | inl empty ↦ (let nothing = none_found (splitlines source) empty in cc)
    | inr more ↦
        rw (more, found)
          (chunks_of-Covers rel_path language (splitlines source) d ds d.line
            (later_start d ds (omega arith) (all_definitions (splitlines source) found))
            (λ i a b. absurd (omega (arith, a, b))))
  ]

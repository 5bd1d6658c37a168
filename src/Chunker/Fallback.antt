-- ===== src/Chunker/Fallback.antt =====
-- `_chunk_with_regex`, `chunk_file` and `chunk_repo` of shared/chunker.py. A pattern is a kind and the
-- function that gives the last group of its match on a line.
mod Tests
pub mod Covering
use Prim.Native.Char.{Char, code}
use simple_claude_code_githu.Prelude.{
  ℕ, zero, suc, ◌+◌, ◌-◌, String, Bool, true, false, not, ◌&&◌, Option, none, some, List, [], ◌∷◌,
  ◌++◌, ltb, length, is_empty, if◌then◌else◌, ◌==◌,
}
use simple_claude_code_githu.Prelude.Lines.{slice, join_lines, splitlines, is_blank}
use simple_claude_code_githu.Payload.{split}
use simple_claude_code_githu.Chunker.{Chunk, Node, LanguageConfig, extract_chunks}

abbrev pub Pattern : Type 0
Pattern = String × (String → Option String)

-- A definition: its line, counted from 0, its kind and its name.
pub record Definition : Type 0 where
  pub line : ℕ
  pub kind : String
  pub name : String

-- the first pattern that matches a line
pub first_match : List Pattern → String → Option (String × String)
first_match [] line = none
first_match ((kind, pattern) ∷ ps) line = elim (pattern line) [
  | none ↦ first_match ps line
  | some name ↦ some (kind, name)
]

abbrev pub noted : ℕ → Option (String × String) → List Definition → List Definition
noted i none rest = rest
noted i (some (kind, name)) rest = record { line = i; kind = kind; name = name } ∷ rest

pub find_definitions : List Pattern → ℕ → List String → List Definition
unfolding first_match
find_definitions patterns i [] = []
find_definitions patterns i (l ∷ ls) =
    noted i (first_match patterns l) (find_definitions patterns (suc i) ls)

-- Is the line with a number blank?
pub blank_at : List String → ℕ → Bool
unfolding is_blank
blank_at [] i = false
blank_at (l ∷ ls) zero = is_blank l
blank_at (l ∷ ls) (suc i) = blank_at ls i

-- `while end_idx > start_idx and not lines[end_idx].strip(): end_idx -= 1`
pub trim : List String → ℕ → ℕ → ℕ
unfolding blank_at
trim lines start zero = zero
trim lines start (suc e) =
    let up = trim lines start e in if ltb start (suc e) && blank_at lines (suc e) then up else suc e

-- The last line of a definition: the one before the next definition, or the last one of the file.
abbrev pub last_index : List String → List Definition → ℕ
last_index lines [] = length lines - 1
last_index lines (next ∷ rest) = next.line - 1

module _ (rel_path language : String) (lines : List String) where
  pub definition_chunk : Definition → ℕ → Chunk
  definition_chunk d end_idx = record {
    filepath = rel_path;
    name = d.name;
    kind = d.kind;
    language = language;
    start_line = d.line + 1;
    end_line = end_idx + 1;
    content = join_lines (slice d.line (end_idx + 1) lines);
    parent = none;
  }

  pub chunks_of : List Definition → List Chunk
  unfolding definition_chunk trim
  chunks_of [] = []
  chunks_of (d ∷ ds) = definition_chunk d (trim lines d.line (last_index lines ds)) ∷ chunks_of ds

-- The text before the last dot, if there is a dot.
unfoldable pub before_last_dot : String → Option String
before_last_dot String.[] = none
before_last_dot (String.◌∷◌ c s) = elim (before_last_dot s) [
  | some t ↦ some (String.◌∷◌ c t)
  | none ↦ if code c == b'.' then some "" else none
]

unfoldable pub ends_with_dot : String → Bool
ends_with_dot String.[] = false
ends_with_dot (String.◌∷◌ c String.[]) = code c == b'.'
ends_with_dot (String.◌∷◌ c (String.◌∷◌ d s)) = ends_with_dot (String.◌∷◌ d s)

unfoldable pub last_of : String → List String → String
last_of d [] = d
last_of d (x ∷ xs) = last_of x xs

abbrev stem_from : String → Option String → String
unfolding ends_with_dot
stem_from name none = name
stem_from name (some String.[]) = name
stem_from name (some (String.◌∷◌ c t)) = if ends_with_dot name then name else String.◌∷◌ c t

-- the stem of a file name: up to its last dot, unless that is its first or last character
unfoldable pub stem_of_name : String → String
unfolding before_last_dot ends_with_dot
stem_of_name name = stem_from name (before_last_dot name)

-- `Path(rel_path).stem`
pub stem : String → String
unfolding last_of stem_of_name
stem rel_path = stem_of_name (last_of "" (split b'/' rel_path))

module _ (rel_path language source : String) where
  -- the whole file as one chunk
  pub module_chunk : List String → Chunk
  unfolding stem
  module_chunk lines = record {
    filepath = rel_path;
    name = stem rel_path;
    kind = "module";
    language = language;
    start_line = 1;
    end_line = length lines;
    content = source;
    parent = none;
  }

  pub chunk_lines : List String → List Definition → List Chunk
  unfolding module_chunk chunks_of
  chunk_lines lines [] = module_chunk lines ∷ []
  chunk_lines lines (d ∷ ds) = chunks_of rel_path language lines (d ∷ ds)

  pub chunk_with_regex : List Pattern → List Chunk
  unfolding chunk_lines find_definitions splitlines
  chunk_with_regex patterns =
      let lines = splitlines source in
      if is_empty lines then [] else chunk_lines lines (find_definitions patterns 0 lines)

-- What is known of a file: the text, unless it cannot be read; the name of its language; and, where
-- that is registered and the parser works, its configuration with the nodes under the root.
pub record SourceFile : Type 0 where
  pub rel_path : String
  pub text : Option String
  pub language : Option String
  pub parsed : Option (LanguageConfig × List Node)
  pub patterns : List Pattern

abbrev or_unknown_language : Option String → String
or_unknown_language none = "unknown"
or_unknown_language (some l) = l

abbrev or_regex : List Chunk → List Chunk → List Chunk
or_regex [] fallback = fallback
or_regex (c ∷ cs) fallback = c ∷ cs

abbrev tree_chunks : String → String → Option (LanguageConfig × List Node) → List Chunk
unfolding extract_chunks
tree_chunks rel_path source none = []
tree_chunks rel_path source (some (config, roots)) = extract_chunks rel_path config source roots

pub chunk_file : SourceFile → List Chunk
unfolding is_blank chunk_with_regex extract_chunks
chunk_file f = elim f.text [
  | none ↦ []
  | some source ↦
      if is_blank source
      then []
      else or_regex (tree_chunks f.rel_path source f.parsed)
          (chunk_with_regex f.rel_path (or_unknown_language f.language) source f.patterns)
]

-- `is_file` and the walk of the repository are the file system's.
module _ (is_file : String → Bool) (file : String → SourceFile) where
  pub chunk_files : List String → List Chunk
  unfolding chunk_file
  chunk_files [] = []
  chunk_files (p ∷ ps) = (if is_file p then chunk_file (file p) else []) ++ chunk_files ps

  pub chunk_all : List String → List Chunk
  unfolding chunk_file
  chunk_all [] = []
  chunk_all (p ∷ ps) = chunk_file (file p) ++ chunk_all ps

  pub chunk_repo : List String → Option (List String) → List Chunk
  unfolding chunk_files chunk_all
  chunk_repo walk none = chunk_all walk
  chunk_repo walk (some changed_files) = chunk_files changed_files

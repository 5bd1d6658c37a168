-- ===== src/Chunker.antt =====
-- shared/chunker.py: source files cut into pieces for embedding. The parse is tree-sitter's: a tree of
-- nodes, each with its type, its first and last row and its text.
mod Tests
pub mod Fallback
use Prim.Native.String.{◌++◌ as str_append}
use simple_claude_code_githu.Prelude.{
  ℕ, zero, suc, ◌+◌, ◌-◌, ◌/◌, min, String, Bool, true, false, Option, none, some, List, [], ◌∷◌,
  ◌++◌, leb, ltb, length, if◌then◌else◌, is_empty,
}
use simple_claude_code_githu.Prelude.Text.{str_elem}
use simple_claude_code_githu.Prelude.Lines.{slice, join_lines}
use simple_claude_code_githu.Payload.{split}
use simple_claude_code_githu.Webhook.{decimal}

pub record Chunk : Type 0 where
  pub filepath : String
  pub name : String
  pub kind : String
  pub language : String
  pub start_line : ℕ
  pub end_line : ℕ
  pub content : String
  pub parent : Option String

abbrev label_under : String → String → Option String → String
label_under kind name none = str_append kind (str_append ": " name)
label_under kind name (some String.[]) = str_append kind (str_append ": " name)
label_under kind name (some (String.◌∷◌ c p)) =
    str_append kind (str_append ": " (str_append (String.◌∷◌ c p) (str_append "." name)))

unfoldable pub embed_text : Chunk → String
embed_text c = str_append "# " (
    str_append c.filepath (
      str_append " | "
        (str_append (label_under c.kind c.name c.parent) (str_append "\n" c.content))))

mutual
  pub data Node : Type 0 where
    node : String → ℕ → ℕ → String → Nodes → Node

  pub data Nodes : Type 0 where
    no_nodes : Nodes
    child : Node → Nodes → Nodes

abbrev pub node_type : Node → String
node_type (node t a b s ns) = t

-- `node.start_point[0] + 1` and `node.end_point[0] + 1`
abbrev pub first_line : Node → ℕ
first_line (node t a b s ns) = a + 1

abbrev pub last_line : Node → ℕ
last_line (node t a b s ns) = b + 1

abbrev pub node_text : Node → String
node_text (node t a b s ns) = s

abbrev pub listed : Nodes → List Node
listed no_nodes = []
listed (child n ns) = n ∷ listed ns

abbrev pub children : Node → List Node
children (node t a b s ns) = listed ns

-- the part of `LanguageConfig` that the chunker reads
pub record LanguageConfig : Type 0 where
  pub name : String
  pub function_types : List String
  pub class_types : List String
  pub method_types : List String
  pub decorator_types : List String

abbrev name_types : List String
name_types =
    "identifier" ∷ "property_identifier" ∷ "type_identifier" ∷ "field_identifier" ∷ "constant" ∷ []

name_among : List Node → String
unfolding str_elem
name_among [] = "unknown"
name_among (n ∷ ns) = if str_elem (node_type n) name_types then node_text n else name_among ns

pub extract_name : Node → String
unfolding name_among
extract_name n = name_among (children n)

-- `wrapper if wrapper else node`
abbrev pub outer : Option Node → Node → Node
outer none n = n
outer (some w) n = w

abbrev split_block_types : List String
split_block_types =
    "try_statement" ∷ "if_statement" ∷ "for_statement" ∷ "while_statement" ∷ "with_statement"
    ∷ "match_statement" ∷ []

-- the first lines of the blocks among some nodes
pub block_starts : List Node → List ℕ
unfolding str_elem
block_starts [] = []
block_starts (n ∷ ns) =
    if str_elem (node_type n) split_block_types
    then first_line n ∷ block_starts ns
    else block_starts ns

abbrev body_types : List String
body_types = "block" ∷ "function_body" ∷ "statement_block" ∷ []

-- The first line of the body: that of the first node that is one, or else the given line.
pub body_line : ℕ → List Node → ℕ
unfolding str_elem
body_line start [] = start
body_line start (n ∷ ns) =
    if str_elem (node_type n) body_types then first_line n else body_line start ns

-- The boundaries after the first one: each block that starts after the last boundary.
pub later_boundaries : ℕ → List ℕ → List ℕ
later_boundaries last [] = []
later_boundaries last (s ∷ ss) =
    if ltb last s then s ∷ later_boundaries s ss else later_boundaries last ss

-- `chunks if chunks else [_make_chunk(...)]`
abbrev pub or_whole : List Chunk → Chunk → List Chunk
or_whole [] whole = whole ∷ []
or_whole (c ∷ cs) whole = c ∷ cs

module _ (rel_path language : String) where
  pub make_chunk : Node → Option Node → Chunk
  unfolding extract_name
  make_chunk n wrapper = record {
    filepath = rel_path;
    name = extract_name n;
    kind = "function";
    language = language;
    start_line = first_line (outer wrapper n);
    end_line = last_line n;
    content = node_text (outer wrapper n);
    parent = none;
  }

  module _ (func_name sig_text : String) (lines : List String) where
    pub part : ℕ → ℕ → ℕ → Chunk
    part num part_start part_end = record {
      filepath = rel_path;
      name = str_append func_name (str_append " (part " (str_append (decimal num) ")"));
      kind = "function";
      language = language;
      start_line = part_start;
      end_line = part_end;
      content = str_append sig_text (join_lines (slice (part_start - 1) part_end lines));
      parent = none;
    }

    -- The loop over neighbouring boundaries, from the part with a number on.
    pub parts_from : ℕ → ℕ → List ℕ → List Chunk
    unfolding part
    parts_from num part_start [] = []
    parts_from num part_start (b ∷ bs) =
        if ltb (b - 1) part_start
        then parts_from (suc num) b bs
        else part num part_start (b - 1) ∷ parts_from (suc num) b bs

  pub split_oversized_function : Node → String → Option Node → List Chunk
  unfolding block_starts body_line later_boundaries parts_from make_chunk extract_name
  split_oversized_function n source wrapper =
      let start_line = first_line (outer wrapper n) in
      let starts = block_starts (children n) in
      let body_start = body_line start_line (children n) in
      let lines = split 10 source in
      let sig_text = str_append (join_lines (slice (start_line - 1) (body_start - 1) lines)) "\n" in
      if ltb (length starts) 2
      then make_chunk n wrapper ∷ []
      else or_whole
          (parts_from (extract_name n) sig_text lines 1 body_start
            (later_boundaries body_start starts ++ (last_line n + 1) ∷ []))
          (make_chunk n wrapper)

  pub make_function_chunks : Node → String → Option Node → List Chunk
  unfolding split_oversized_function make_chunk
  make_function_chunks n source wrapper =
      if leb (last_line n - first_line (outer wrapper n) + 1) 200
      then make_chunk n wrapper ∷ []
      else split_oversized_function n source wrapper

-- `_find_header_end`: the line of the first method, or else the middle of the class.
first_method : List String → List Node → Option ℕ
unfolding str_elem
first_method method_types [] = none
first_method method_types (n ∷ ns) =
    if str_elem (node_type n) method_types
    then some (first_line n)
    else first_method method_types ns

abbrev pub line_or : ℕ → Option ℕ → ℕ
line_or middle none = middle
line_or middle (some l) = l

pub find_header_end : Node → List String → ℕ
unfolding first_method
find_header_end n method_types =
    line_or (min ((first_line n - 1 + (last_line n - 1)) / 2 + 1) (last_line n))
      (first_method method_types (children n))

module _ (rel_path : String) (config : LanguageConfig) where
  pub class_chunk : String → ℕ → ℕ → String → Chunk
  class_chunk class_name start_line end_line content = record {
    filepath = rel_path;
    name = class_name;
    kind = "class";
    language = config.name;
    start_line = start_line;
    end_line = end_line;
    content = content;
    parent = none;
  }

  pub method_chunks : String → List Node → List Chunk
  unfolding str_elem extract_name
  method_chunks class_name [] = []
  method_chunks class_name (n ∷ ns) =
      if str_elem (node_type n) config.method_types
      then record {
        filepath = rel_path;
        name = extract_name n;
        kind = "method";
        language = config.name;
        start_line = first_line n;
        end_line = last_line n;
        content = node_text n;
        parent = some class_name;
      }
        ∷ method_chunks class_name ns
      else method_chunks class_name ns

  pub header_chunks : Node → String → ℕ → ℕ → List Chunk
  unfolding extract_name class_chunk
  header_chunks n source start_line header_end =
      if ltb start_line header_end
      then class_chunk (extract_name n) start_line header_end
          (join_lines (slice (start_line - 1) header_end (split 10 source)))
        ∷ []
      else []

  pub make_class_chunks : Node → String → Option Node → List Chunk
  unfolding extract_name class_chunk header_chunks find_header_end method_chunks
  make_class_chunks n source wrapper =
      let start_line = first_line (outer wrapper n) in
      if leb (last_line n - start_line + 1) 150
      then class_chunk (extract_name n) start_line (last_line n) (node_text (outer wrapper n)) ∷ []
      else header_chunks n source start_line (find_header_end n config.method_types)
        ++ method_chunks (extract_name n) (children n)

  -- what is found under a node: a function or a class, perhaps within a wrapper
  pub definition_chunks : String → Option Node → Node → List Chunk
  unfolding str_elem make_function_chunks make_class_chunks
  definition_chunks source wrapper n =
      if str_elem (node_type n) config.function_types
      then make_function_chunks rel_path config.name n source wrapper
      else if str_elem (node_type n) config.class_types
      then make_class_chunks n source wrapper
      else []

  pub wrapped_chunks : String → Node → List Node → List Chunk
  unfolding definition_chunks
  wrapped_chunks source wrapper [] = []
  wrapped_chunks source wrapper (n ∷ ns) =
      definition_chunks source (some wrapper) n ++ wrapped_chunks source wrapper ns

  pub extract_chunks : String → List Node → List Chunk
  unfolding str_elem definition_chunks wrapped_chunks
  extract_chunks source [] = []
  extract_chunks source (n ∷ ns) =
      (if str_elem (node_type n) config.decorator_types
        then wrapped_chunks source n (children n)
        else definition_chunks source none n)
      ++ extract_chunks source ns

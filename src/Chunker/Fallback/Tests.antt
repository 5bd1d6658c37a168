-- ===== src/Chunker/Fallback/Tests.antt =====
-- A file of two functions, without a parser.
use Prim.Native.Char.{code}
use simple_claude_code_githu.Prelude.{
  String, ◌≡◌, refl, Option, none, some, List, [], ◌∷◌, if◌then◌else◌, ◌==◌,
}
use simple_claude_code_githu.Prelude.Lines.{splitlines}
use simple_claude_code_githu.Chunker.Fallback.{
  Pattern, Definition, find_definitions, first_match, chunk_with_regex,
}
use simple_claude_code_githu.Chunker.Fallback.Covering.{Covers, chunk_with_regex-Covers}

-- lines that start with `d` are functions, named by the line
abbrev pattern : String → Option String
pattern String.[] = none
pattern (String.◌∷◌ c s) = if code c == 100 then some s else none

abbrev text : String
text = "import os\ndef a\n  1\n\ndef b\n\n"

abbrev patterns : List Pattern
patterns = ("function", pattern) ∷ []

abbrev def_a : Definition
def_a = record { line = 1; kind = "function"; name = "ef a" }

abbrev def_b : Definition
def_b = record { line = 4; kind = "function"; name = "ef b" }

two_found : find_definitions patterns 0 (splitlines text) ≡ def_a ∷ def_b ∷ []
unfolding find_definitions first_match splitlines
two_found = refl

chunk_with_regex-Covers_example :
    Covers (splitlines text) 1 (chunk_with_regex "a.py" "python" text patterns)
chunk_with_regex-Covers_example =
    chunk_with_regex-Covers "a.py" "python" text patterns def_a (def_b ∷ []) two_found

-- ===== src/Chunker/Tests.antt =====
-- A class with its methods in a block.
use simple_claude_code_githu.Prelude.{◌≡◌, refl, false, [], ◌∷◌, All}
use simple_claude_code_githu.Prelude.Text.{str_elem}
use simple_claude_code_githu.Chunker.{
  Node, node, no_nodes, child, LanguageConfig, children, node_type,
}

abbrev python : LanguageConfig
python = record {
  name = "python";
  function_types = "function_definition" ∷ [];
  class_types = "class_definition" ∷ [];
  method_types = "function_definition" ∷ [];
  decorator_types = "decorated_definition" ∷ [];
}

-- A class on the lines 1 to 200 with its methods in a block.
abbrev large_class : Node
large_class = node "class_definition" 0 199 "" (
    child (node "identifier" 0 0 "Store" no_nodes) (
      child (node "block" 1 199 "" (child (node "function_definition" 1 150 "" no_nodes) no_nodes))
        no_nodes))

methods_in_block :
    All (λ m. str_elem (node_type m) python.method_types ≡ false) (children large_class)
unfolding str_elem
methods_in_block = (refl, (refl, tt))

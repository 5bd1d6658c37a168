-- ===== src/ImportResolver/Tests.antt =====
-- Imports of a module next to the importing one, and of a TypeScript file with a dot in its name.
use simple_claude_code_githu.Prelude.{String, Bool, ◌≡◌, refl, inl, List, [], ◌∷◌}
use simple_claude_code_githu.Prelude.Text.{str_elem}
use simple_claude_code_githu.Payload.{split}
use simple_claude_code_githu.Chunker.Fallback.{stem_of_name, before_last_dot, ends_with_dot}
use simple_claude_code_githu.ImportResolver.{
  resolved, unresolved, same_path, relative_to, with_suffix, named, first_file, find_module,
  descend, up, leading_dots, is_stdlib, resolve_relative, resolve_python_import, resolve_dots,
  find_ts, resolve_ts_import,
}
use simple_claude_code_githu.ImportResolver.Within.{Existing, imports-Existing}

abbrev repo : List String
repo = "r" ∷ "w" ∷ []

abbrev only_utils : List String → Bool
unfolding same_path
only_utils path = same_path path ("utils.py" ∷ "app" ∷ repo)

utils_found : resolve_python_import only_utils repo ".utils" "app/main.py" ≡ resolved "app/utils.py"
unfolding resolve_python_import is_stdlib str_elem split resolve_relative leading_dots up descend
    find_module with_suffix stem_of_name before_last_dot ends_with_dot first_file named relative_to
    same_path
utils_found = refl

abbrev only_service : List String → Bool
unfolding same_path
only_service path = same_path path ("user.service.ts" ∷ "app" ∷ repo)

-- the suffix takes the place of ".service"
service_missed : resolve_ts_import only_service repo "./user.service" "app/main.ts" ≡ unresolved
unfolding resolve_ts_import split resolve_dots descend find_ts with_suffix stem_of_name
    before_last_dot ends_with_dot first_file named relative_to same_path
service_missed = refl

imports-Existing_example : Existing only_utils repo "app/utils.py"
imports-Existing_example =
    imports-Existing only_utils repo ".utils" "app/main.py" "app/utils.py" (inl utils_found)

-- ===== src/FileTree/Tests.antt =====
-- A repository with an excluded directory, shown in full and with a budget of one entry.
use simple_claude_code_githu.Prelude.{
  ◌+◌, ◌≤◌, String, Bool, false, true, ◌≡◌, refl, [], ◌∷◌, length,
}
use simple_claude_code_githu.Prelude.Text.{str_elem}
use simple_claude_code_githu.FileTree.{
  Entry, file, directory, nothing, also, tree_state, walk, walk_entries, sorted, insert, str_lt,
  visible, is_visible, should_exclude_dir, should_exclude_file, has_suffix, ends_with,
}
use simple_claude_code_githu.FileTree.Budget.{tree, tree_state-bounds}

abbrev repo : Entry
repo = directory "app" true (
    also (file "setup.py") (
      also (directory ".git" true nothing)
        (also (directory "src" true (also (file "a.pyc") (also (file "a.py") nothing))) nothing)))

abbrev as_is : String → String
as_is s = s

abbrev ignore_none : String → Bool → Bool
ignore_none path is_directory = false

shown :
    (tree_state as_is ignore_none 200 3 repo).lines
    ≡ "app/" ∷ "├── src/" ∷ "│   └── a.py" ∷ "└── setup.py" ∷ []
unfolding tree_state walk walk_entries sorted insert str_lt visible is_visible should_exclude_dir
    should_exclude_file str_elem has_suffix ends_with
shown = refl

three_entries : (tree_state as_is ignore_none 200 3 repo).entry_count ≡ 3
unfolding tree_state walk walk_entries sorted insert str_lt visible is_visible should_exclude_dir
    should_exclude_file str_elem has_suffix ends_with
three_entries = refl

tree_state-bounds_example :
    ((tree as_is ignore_none 1 3 repo).entry_count ≤ 1)
    × (length (tree as_is ignore_none 1 3 repo).lines
        ≤ 1 + (tree as_is ignore_none 1 3 repo).entry_count + 3)
tree_state-bounds_example = tree_state-bounds as_is ignore_none 1 3 repo

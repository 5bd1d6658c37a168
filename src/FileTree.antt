-- ===== src/FileTree.antt =====
-- shared/file_tree.py: the tree of a repository for the prompt. The directories are a tree of entries
-- in the order of the file system; the ignore files (`match_file` of pathspec) and `str.lower` are
-- parameters.
mod Tests
pub mod Budget
pub mod Sources
use Prim.Native.Char.{Char, code}
use Prim.Native.String.{◌++◌ as str_append}
use simple_claude_code_githu.Prelude.{
  ℕ, zero, suc, String, Bool, true, false, not, ◌&&◌, ◌||◌, Option, none, some, List, [], ◌∷◌, ◌++◌,
  leb, ltb, length, is_empty, str_eq, if◌then◌else◌, ◌==◌,
}
use simple_claude_code_githu.Prelude.Text.{str_elem}
use simple_claude_code_githu.Prelude.Lines.{join_lines}
use simple_claude_code_githu.Webhook.{decimal}

mutual
  pub data Entry : Type 0 where
    file : String → Entry
    -- a directory, and whether it can be read
    directory : String → Bool → Entries → Entry

  pub data Entries : Type 0 where
    nothing : Entries
    also : Entry → Entries → Entries

abbrev pub entry_name : Entry → String
entry_name (file name) = name
entry_name (directory name readable es) = name

abbrev is_dir : Entry → Bool
is_dir (file name) = false
is_dir (directory name readable es) = true

abbrev pub iterdir : Entries → List Entry
iterdir nothing = []
iterdir (also e es) = e ∷ iterdir es

abbrev pub exclude_dirs : List String
exclude_dirs =
    "node_modules" ∷ "vendor" ∷ "third_party" ∷ "__pycache__" ∷ ".git" ∷ ".venv" ∷ "venv" ∷ "env"
    ∷ "dist" ∷ "build" ∷ ".tox" ∷ ".mypy_cache" ∷ ".pytest_cache" ∷ ".ruff_cache" ∷ "site-packages"
    ∷ "egg-info" ∷ ".eggs" ∷ ".hg" ∷ ".svn" ∷ ".idea" ∷ ".vscode" ∷ ".fleet" ∷ ".cargo" ∷ []

abbrev pub exclude_files : List String
exclude_files =
    "package-lock.json" ∷ "yarn.lock" ∷ "pnpm-lock.yaml" ∷ "Gemfile.lock" ∷ "poetry.lock"
    ∷ "uv.lock" ∷ ".DS_Store" ∷ "Thumbs.db" ∷ []

abbrev pub exclude_suffixes : List String
exclude_suffixes =
    ".min.js" ∷ ".min.css" ∷ ".bundle.js" ∷ ".pb.go" ∷ "_pb2.py" ∷ "_pb2.pyi" ∷ "_pb2_grpc.py"
    ∷ ".pyc" ∷ ".pyo" ∷ ".so" ∷ ".dylib" ∷ ".dll" ∷ ".exe" ∷ []

-- `name.endswith(suffix)`
ends_with : String → String → Bool
ends_with suffix String.[] = str_eq suffix ""
ends_with suffix (String.◌∷◌ c s) = str_eq suffix (String.◌∷◌ c s) || ends_with suffix s

pub has_suffix : String → List String → Bool
unfolding ends_with
has_suffix name [] = false
has_suffix name (s ∷ ss) = ends_with s name || has_suffix name ss

abbrev starts_with_dot : String → Bool
starts_with_dot String.[] = false
starts_with_dot (String.◌∷◌ c s) = code c == b'.'

pub should_exclude_dir : String → Bool
unfolding str_elem
should_exclude_dir name = str_elem name exclude_dirs || starts_with_dot name

pub should_exclude_file : String → Bool
unfolding str_elem has_suffix
should_exclude_file name = str_elem name exclude_files || has_suffix name exclude_suffixes

-- `s < t` of Python
unfoldable pub str_lt : String → String → Bool
str_lt s String.[] = false
str_lt String.[] (String.◌∷◌ d t) = true
str_lt (String.◌∷◌ c s) (String.◌∷◌ d t) =
    ltb (code c) (code d) || ((code c == code d) && str_lt s t)

-- The lines so far, and the entries among them.
pub record TreeState : Type 0 where
  pub lines : List String
  pub entry_count : ℕ

abbrev pub add_line : String → TreeState → TreeState
add_line line st = record st { lines = st.lines ++ line ∷ [] }

abbrev pub add_entry : String → TreeState → TreeState
add_entry line st = record { lines = st.lines ++ line ∷ []; entry_count = suc st.entry_count }

module _ (lower : String → String) where
  -- the order of the keys `(not e.is_dir(), e.name.lower())`
  abbrev before : Entry → Entry → Bool
  before a b =
      if is_dir a
      then not (is_dir b) || str_lt (lower (entry_name a)) (lower (entry_name b))
      else not (is_dir b) && str_lt (lower (entry_name a)) (lower (entry_name b))

  insert : Entry → List Entry → List Entry
  unfolding str_lt
  insert e [] = e ∷ []
  insert e (d ∷ ds) = let rest = insert e ds in if before d e then d ∷ rest else e ∷ d ∷ ds

  -- `sorted`, which keeps the order of equal keys
  pub sorted : List Entry → List Entry
  unfolding insert
  sorted [] = []
  sorted (e ∷ es) = insert e (sorted es)

-- `_is_ignored` of a path, for a directory or for a file; a spec is pathspec's `match_file`
pub is_ignored_by : Option (String → Bool) → String → Bool → Bool
is_ignored_by none rel_path is_directory = false
is_ignored_by (some match_file) rel_path true =
    match_file (str_append rel_path "/") || match_file rel_path
is_ignored_by (some match_file) rel_path false = match_file rel_path

module _ (is_ignored : String → Bool → Bool) where
  is_visible : String → Entry → Bool
  unfolding should_exclude_dir should_exclude_file
  is_visible rel_prefix (file name) =
      not (should_exclude_file name || is_ignored (str_append rel_prefix name) false)
  is_visible rel_prefix (directory name readable es) =
      not (should_exclude_dir name || is_ignored (str_append rel_prefix name) true)

  pub visible : String → List Entry → List Entry
  unfolding is_visible
  visible rel_prefix [] = []
  visible rel_prefix (e ∷ es) =
      let rest = visible rel_prefix es in if is_visible rel_prefix e then e ∷ rest else rest

module _ (lower : String → String) (is_ignored : String → Bool → Bool) (max_entries : ℕ) where
  -- What walks a directory: it gets the prefix of its lines and that of its paths.
  abbrev pub Walk : Type 0
  Walk = Entry → String → String → TreeState → TreeState

  abbrev pub truncation : String → ℕ → String
  truncation prefix more =
      str_append prefix (str_append "... (truncated, " (str_append (decimal more) " more entries)"))

  abbrev pub connector : Bool → String
  connector is_last = if is_last then "└── " else "├── "

  abbrev pub child_prefix : Bool → String
  child_prefix is_last = if is_last then "    " else "│   "

  -- one entry; `is_last` of those of its directory
  abbrev pub show_entry : Walk → Entry → Bool → String → String → TreeState → TreeState
  show_entry walk_dir (file name) is_last prefix rel_prefix st =
      add_entry (str_append prefix (str_append (connector is_last) name)) st
  show_entry walk_dir (directory name readable es) is_last prefix rel_prefix st =
      walk_dir (directory name readable es) (str_append prefix (child_prefix is_last))
        (str_append (str_append rel_prefix name) "/")
        (add_entry (str_append prefix (str_append (connector is_last) (str_append name "/"))) st)

  -- the loop over the visible entries of a directory
  pub walk_entries : Walk → List Entry → String → String → TreeState → TreeState
  walk_entries walk_dir [] prefix rel_prefix st = st
  walk_entries walk_dir (e ∷ es) prefix rel_prefix st =
      if leb max_entries st.entry_count
      then add_line (truncation prefix (length (e ∷ es))) st
      else walk_entries walk_dir es prefix rel_prefix
          (show_entry walk_dir e (is_empty es) prefix rel_prefix st)

  -- `_walk`, with the levels of directories that are left: `max_depth - depth + 1`
  pub walk : ℕ → Walk
  unfolding walk_entries sorted visible
  walk zero e prefix rel_prefix st = st
  walk (suc levels) (file name) prefix rel_prefix st = st
  walk (suc levels) (directory name readable es) prefix rel_prefix st =
      if leb max_entries st.entry_count || not readable
      then st
      else walk_entries (walk levels) (visible is_ignored rel_prefix (sorted lower (iterdir es)))
          prefix rel_prefix st

  pub tree_state : ℕ → Entry → TreeState
  unfolding walk
  tree_state max_depth repo =
      walk max_depth repo "" ""
        (record { lines = str_append (entry_name repo) "/" ∷ []; entry_count = 0 })

-- ===== src/FileTree/Sources.antt =====
-- The walk over the source files of a repository and the summary of their counts, in
-- shared/file_tree.py: `walk_source_files`, `_count_summary`, and `generate_file_tree` with it. A path is
-- relative to the repository.
use Prim.Native.Char.{code}
use Prim.Native.String.{◌++◌ as str_append}
use simple_claude_code_githu.Prelude.{
  ℕ, suc, String, Bool, true, false, not, ◌||◌, Option, none, some, List, [], ◌∷◌, ◌++◌, ltb,
  length, take, str_eq, if◌then◌else◌, ◌==◌, map,
}
use simple_claude_code_githu.Prelude.Text.{str_elem}
use simple_claude_code_githu.Prelude.Lines.{join, join_lines}
use simple_claude_code_githu.Webhook.{decimal}
use simple_claude_code_githu.FileTree.{
  Entry, file, directory, Entries, nothing, also, exclude_files, exclude_suffixes, has_suffix,
  should_exclude_dir, str_lt, is_ignored_by, tree_state,
}
use simple_claude_code_githu.Payload.{split}
use simple_claude_code_githu.Chunker.Fallback.{before_last_dot, ends_with_dot, last_of}
use simple_claude_code_githu.RepoSetup.{contains}

-- `f"{rel_root}/{name}" if rel_root else name`
abbrev child_path : String → String → String
child_path rel_root name =
    if str_eq rel_root "" then name else str_append rel_root (str_append "/" name)

-- the names of a directory's files, and walks of its directories, each in the order of the names
unfoldable pub insert_name : String → List String → List String
unfolding str_lt
insert_name n [] = n ∷ []
insert_name n (m ∷ ms) = let rest = insert_name n ms in if str_lt m n then m ∷ rest else n ∷ m ∷ ms

sorted_file_names : Entries → List String
unfolding insert_name
sorted_file_names nothing = []
sorted_file_names (also (file n) es) = insert_name n (sorted_file_names es)
sorted_file_names (also (directory n readable ds) es) = sorted_file_names es

insert_walk : String × List String → List (String × List String) → List (String × List String)
unfolding str_lt
insert_walk w [] = w ∷ []
insert_walk w (v ∷ vs) =
    let rest = insert_walk w vs in if str_lt v.0 w.0 then v ∷ rest else w ∷ v ∷ vs

walks_in_order : List (String × List String) → List String
walks_in_order [] = []
walks_in_order (w ∷ ws) = w.1 ++ walks_in_order ws

module _ (lower : String → String) (is_ignored : String → Bool → Bool) where
  is_source_file : String → Bool
  unfolding str_elem has_suffix contains
  is_source_file name = not (
      str_eq name ".git"
      || str_elem name exclude_files
      || has_suffix name exclude_suffixes
      || contains ".generated." (lower name)
      || contains ".min." (lower name)
      || contains ".bundle." (lower name))

  source_names : String → List String → List String
  unfolding is_source_file
  source_names rel_root [] = []
  source_names rel_root (n ∷ ns) =
      let rest = source_names rel_root ns in
      if is_source_file n
      then if is_ignored (child_path rel_root n) false then rest else child_path rel_root n ∷ rest
      else rest

  abbrev yielded : Bool → String → Entries → List (String × List String) → List String
  unfolding source_names sorted_file_names walks_in_order
  yielded false rel_root es walks = []
  yielded true rel_root es walks =
      source_names rel_root (sorted_file_names es) ++ walks_in_order walks

  mutual
    unfolding should_exclude_dir insert_walk source_names sorted_file_names walks_in_order

    -- the walk of a directory with its name, unless it is excluded
    dir_walk : String → Entry → List (String × List String) → List (String × List String)
    dir_walk rel_root (file n) walks = walks
    dir_walk rel_root (directory n readable es) walks =
        let inner = sub_walks (child_path rel_root n) es in
        if should_exclude_dir n || is_ignored (child_path rel_root n) true
        then walks
        else insert_walk (n, yielded readable (child_path rel_root n) es inner) walks

    sub_walks : String → Entries → List (String × List String)
    sub_walks rel_root nothing = []
    sub_walks rel_root (also e es) = dir_walk rel_root e (sub_walks rel_root es)

  -- from the entries of the repository, and whether it can be read
  pub walk_source_files : Bool → Entries → List String
  unfolding sub_walks source_names sorted_file_names walks_in_order
  walk_source_files readable es = yielded readable "" es (sub_walks "" es)

-- the text from the last dot on
from_last_dot : String → Option String
from_last_dot String.[] = none
from_last_dot (String.◌∷◌ c s) = elim (from_last_dot s) [
  | some t ↦ some t
  | none ↦ if code c == b'.' then some (String.◌∷◌ c s) else none
]

abbrev suffix_or_none : Option String → String
suffix_or_none none = ""
suffix_or_none (some t) = t

abbrev suffix_after : Option String → String → String
unfolding from_last_dot ends_with_dot
suffix_after none name = ""
suffix_after (some String.[]) name = ""
suffix_after (some (String.◌∷◌ c t)) name =
    if ends_with_dot name then "" else suffix_or_none (from_last_dot name)

-- `filepath.suffix`: empty where the last dot is the first or the last character of the name
suffix_of : String → String
unfolding last_of before_last_dot from_last_dot ends_with_dot
suffix_of path = let name = last_of "" (split b'/' path) in suffix_after (before_last_dot name) name

-- `counts[key] = counts.get(key, 0) + 1`
count_one : String → List (String × ℕ) → List (String × ℕ)
count_one key [] = (key, 1) ∷ []
count_one key (e ∷ es) =
    let rest = count_one key es in if str_eq e.0 key then (e.0, suc e.1) ∷ es else e ∷ rest

abbrev count_key : String → String
count_key ext = if str_eq ext "" then "(no ext)" else ext

count_all : (String → String) → List String → List (String × ℕ) → List (String × ℕ)
unfolding suffix_of count_one
count_all lower [] counts = counts
count_all lower (p ∷ ps) counts =
    count_all lower ps (count_one (count_key (lower (suffix_of p))) counts)

-- `sorted` by falling counts, which keeps the order of equal ones
insert_count : String × ℕ → List (String × ℕ) → List (String × ℕ)
insert_count e [] = e ∷ []
insert_count e (d ∷ ds) =
    let rest = insert_count e ds in if ltb e.1 d.1 then d ∷ rest else e ∷ d ∷ ds

sorted_counts : List (String × ℕ) → List (String × ℕ)
unfolding insert_count
sorted_counts [] = []
sorted_counts (e ∷ es) = insert_count e (sorted_counts es)

abbrev count_text : String × ℕ → String
count_text e = str_append e.0 (str_append ": " (decimal e.1))

pub count_summary : (String → String) → List String → String
unfolding count_all sorted_counts
count_summary lower [] = "empty repository"
count_summary lower (p ∷ ps) = str_append (decimal (length (p ∷ ps))) (
    str_append " files total — "
      (join ", " (map count_text (take 5 (sorted_counts (count_all lower (p ∷ ps) []))))))

-- The arguments: `str.lower`, the spec of the ignore files, the depth and the entries at most, and the
-- repository.
pub generate_file_tree : (String → String) → Option (String → Bool) → ℕ → ℕ → Entry → String
unfolding tree_state is_ignored_by count_summary walk_source_files
generate_file_tree lower ignore_spec max_depth max_entries (file name) = ""
generate_file_tree lower ignore_spec max_depth max_entries (directory name readable es) =
    str_append
      (join_lines
        (tree_state lower (is_ignored_by ignore_spec) max_entries max_depth
          (directory name readable es)).lines)
      (str_append "\n\n(" (
        str_append
          (count_summary lower (walk_source_files lower (is_ignored_by ignore_spec) readable es))
          ")"))

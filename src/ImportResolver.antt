-- ===== src/ImportResolver.antt =====
-- shared/import_resolver.py: the file that an import of Python or TypeScript names. A path is the list of
-- its components, the last one first; there are no symbolic links. `is_file` is the file system's.
mod Tests
pub mod Within
use Prim.Native.Char.{Char, code}
use Prim.Native.String.{◌++◌ as str_append}
use simple_claude_code_githu.Prelude.{
  ℕ, zero, suc, String, Bool, true, false, ◌&&◌, ◌||◌, Option, none, some, List, [], ◌∷◌, ◌++◌,
  str_eq, if◌then◌else◌, ◌==◌, is_empty, length,
}
use simple_claude_code_githu.Prelude.Text.{str_elem}
use simple_claude_code_githu.Prelude.Lines.{join}
use simple_claude_code_githu.Payload.{split}
use simple_claude_code_githu.Chunker.Fallback.{stem_of_name}

abbrev py_stdlib : List String
py_stdlib =
    "abc" ∷ "argparse" ∷ "asyncio" ∷ "base64" ∷ "collections" ∷ "concurrent" ∷ "contextlib" ∷ "copy"
    ∷ "csv" ∷ "dataclasses" ∷ "datetime" ∷ "decimal" ∷ "enum" ∷ "functools" ∷ "glob" ∷ "hashlib"
    ∷ "http" ∷ "importlib" ∷ "inspect" ∷ "io" ∷ "itertools" ∷ "json" ∷ "logging" ∷ "math"
    ∷ "multiprocessing" ∷ "operator" ∷ "os" ∷ "pathlib" ∷ "pickle" ∷ "platform" ∷ "pprint" ∷ "queue"
    ∷ "random" ∷ "re" ∷ "shlex" ∷ "shutil" ∷ "signal" ∷ "socket" ∷ "sqlite3" ∷ "ssl" ∷ "string"
    ∷ "struct" ∷ "subprocess" ∷ "sys" ∷ "tempfile" ∷ "textwrap" ∷ "threading" ∷ "time" ∷ "traceback"
    ∷ "types" ∷ "typing" ∷ "unittest" ∷ "urllib" ∷ "uuid" ∷ "warnings" ∷ "weakref" ∷ "xml"
    ∷ "zipfile" ∷ []

abbrev first_of : List String → String
first_of [] = ""
first_of (x ∷ xs) = x

pub is_stdlib : String → Bool
unfolding str_elem
is_stdlib module_path = str_elem (first_of (split b'.' module_path)) py_stdlib

-- `base / text`, from the components of the text; empty ones and "." do not count
pub descend : List String → List String → List String
descend base [] = base
descend base (c ∷ cs) =
    if str_eq c "" || str_eq c "." then descend base cs else descend (c ∷ base) cs

abbrev pub parent : List String → List String
parent [] = []
parent (c ∷ base) = base

pub same_path : List String → List String → Bool
same_path [] [] = true
same_path [] (d ∷ ds) = false
same_path (c ∷ cs) [] = false
same_path (c ∷ cs) (d ∷ ds) = str_eq c d && same_path cs ds

-- `path.relative_to(repo_path)`, its components from the first one on; `none` is a ValueError
abbrev pub below : Option (List String) → String → Option (List String)
below none c = none
below (some cs) c = some (cs ++ c ∷ [])

pub relative_to : List String → List String → Option (List String)
unfolding same_path
relative_to repo [] = if same_path [] repo then some [] else none
relative_to repo (c ∷ base) =
    let inner = relative_to repo base in
    if same_path (c ∷ base) repo then some [] else below inner c

-- `path.with_suffix(ext)`, which replaces what follows the last dot of the name; `none` is a ValueError
pub with_suffix : String → List String → Option (List String)
with_suffix ext [] = none
with_suffix ext (name ∷ base) = some (str_append (stem_of_name name) ext ∷ base)

pub data Resolution : Type 0 where
  resolved : String → Resolution
  unresolved value_error : Resolution

-- the dots at the start of a text, and what follows them
abbrev one_dot : ℕ × String → ℕ × String
one_dot (n, rest) = (suc n, rest)

pub leading_dots : String → ℕ × String
leading_dots String.[] = (0, "")
leading_dots (String.◌∷◌ c s) =
    let more = leading_dots s in if code c == b'.' then one_dot more else (0, String.◌∷◌ c s)

-- the directory some levels up, of which the first one is the directory itself
pub up : ℕ → List String → List String
up zero dir = dir
up (suc zero) dir = dir
up (suc (suc n)) dir = up (suc n) (parent dir)

abbrev relative_target : ℕ × String → List String → List String
unfolding descend up
relative_target (dots, rest) dir = descend (up dots dir) (split b'.' rest)

abbrev pub starts_with_dot : String → Bool
starts_with_dot String.[] = false
starts_with_dot (String.◌∷◌ c s) = code c == b'.'

-- `if result: return result`
abbrev pub or_then : Resolution → Resolution → Resolution
or_then (resolved p) next = if str_eq p "" then next else resolved p
or_then unresolved next = next
or_then value_error next = value_error

-- `(dir / text).resolve()`
pub resolve_dots : List String → List String → List String
resolve_dots dir [] = dir
resolve_dots dir (c ∷ cs) =
    if str_eq c "" || str_eq c "."
    then resolve_dots dir cs
    else if str_eq c ".."
    then resolve_dots (parent dir) cs
    else resolve_dots (c ∷ dir) cs

abbrev pub suffixed : List String → List String → List (Option (List String))
unfolding with_suffix
suffixed target [] = []
suffixed target (ext ∷ exts) = with_suffix ext target ∷ suffixed target exts

abbrev pub indexes : List String → List String → List (Option (List String))
indexes target [] = []
indexes target (ext ∷ exts) = some (str_append "index" ext ∷ target) ∷ indexes target exts

abbrev pub within_repo : Option (List String) → Resolution → Resolution
within_repo none r = unresolved
within_repo (some cs) r = r

module _ (is_file : List String → Bool) (repo : List String) where
  -- the text of a file that exists, relative to the repository; `outside` if it is not in it
  pub named : Resolution → Option (List String) → Resolution
  named outside none = outside
  named outside (some cs) = resolved (join "/" cs)

  -- the first of some candidates that is a file, or else what the rest gives
  pub first_file : Resolution → List (Option (List String)) → Resolution → Resolution
  unfolding named relative_to
  first_file outside [] rest = rest
  first_file outside (none ∷ cs) rest = value_error
  first_file outside (some c ∷ cs) rest =
      if is_file c then named outside (relative_to repo c) else first_file outside cs rest

  pub find_module : List String → Resolution
  unfolding first_file with_suffix
  find_module base =
      first_file unresolved (with_suffix ".py" base ∷ some ("__init__.py" ∷ base) ∷ []) unresolved

  abbrev pub from_dir : String → List String
  unfolding descend
  from_dir from_file = parent (descend repo (split b'/' from_file))

  pub resolve_relative : String → List String → Resolution
  unfolding find_module leading_dots descend up
  resolve_relative module_path dir = find_module (relative_target (leading_dots module_path) dir)

  pub resolve_python_import : String → String → Resolution
  unfolding is_stdlib resolve_relative find_module descend
  resolve_python_import module_path from_file =
      if is_stdlib module_path
      then unresolved
      else if starts_with_dot module_path
      then resolve_relative module_path (from_dir from_file)
      else or_then (find_module (descend (from_dir from_file) (split b'.' module_path)))
          (or_then (find_module (descend repo (split b'.' module_path))) unresolved)

  pub find_ts : List String → Resolution
  unfolding first_file with_suffix relative_to
  find_ts target = within_repo (relative_to repo target) (
      first_file value_error
        (suffixed target (".ts" ∷ ".tsx" ∷ ".js" ∷ ".jsx" ∷ ".mjs" ∷ ".cjs" ∷ []))
        (first_file value_error (indexes target (".ts" ∷ ".tsx" ∷ ".js" ∷ ".jsx" ∷ [])) unresolved))

  pub resolve_ts_import : String → String → Resolution
  unfolding find_ts resolve_dots descend
  resolve_ts_import module_path from_file =
      if starts_with_dot module_path
      then find_ts (resolve_dots (from_dir from_file) (split b'/' module_path))
      else unresolved

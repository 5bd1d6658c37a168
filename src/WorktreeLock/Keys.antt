-- ===== src/WorktreeLock/Keys.antt =====
-- The keys of a worktree, with `sanitize_repo_key` of shared/constants.py.
use Prim.Native.Char.{code}
use Prim.Native.String.{◌++◌}
use simple_claude_code_githu.Prelude.{String, ◌≡◌, refl, false, if◌then◌else◌, str_eq, ◌==◌}
use simple_claude_code_githu.Prelude.Text.{clash-str_eq, clash}

pub record WorktreeKey : Type 0 where
  pub repo : String
  pub thread_type : String
  pub thread_id : String
  pub workflow : String

-- `repo.replace("/", "--")`
unfoldable pub sanitize_repo_key : String → String
sanitize_repo_key String.[] = ""
sanitize_repo_key (String.◌∷◌ c rest) =
    let safe = sanitize_repo_key rest in if code c == b'/' then "--" ++ safe else String.◌∷◌ c safe

-- `str(key)`
key_text : WorktreeKey → String
unfolding sanitize_repo_key
key_text k =
    sanitize_repo_key k.repo
    ++ (":" ++ (k.thread_type ++ ("-" ++ (k.thread_id ++ (":" ++ k.workflow)))))

unfoldable pub lock_key : WorktreeKey → String
unfolding key_text
lock_key k = "lock:worktree:" ++ key_text k

unfoldable pub pending_key : WorktreeKey → String
unfolding key_text
pending_key k = "pending:" ++ key_text k

-- A lock is never kept under the key of a prompt.
pub pending-lock : (j k : WorktreeKey) → str_eq (pending_key j) (lock_key k) ≡ false
unfolding pending_key lock_key clash
pending-lock j k = clash-str_eq "pending:" "lock:worktree:" (key_text j) (key_text k) refl

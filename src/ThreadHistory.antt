-- ===== src/ThreadHistory.antt =====
-- shared/thread_history.py: the comments of an issue or a pull request, fetched page by page. What
-- the API answers to a request is a parameter, and `max_comments` is not negative.
mod Tests
pub mod Paging
pub mod Cutting
pub mod Formatting
use Prim.Native.String.{◌++◌ as str_append}
use simple_claude_code_githu.Prelude.{
  ℕ, zero, suc, String, Bool, true, false, not, Option, none, some, List, [], ◌∷◌, ◌++◌, leb, ltb,
  length, take, if◌then◌else◌, ◌==◌,
}
use simple_claude_code_githu.Json.{
  Json, null, bool, num, str, arr, obj, Items, nil, cons, Fields, end, field, lookup, truthy,
}

-- An exception of the client; or a status with the body, unless that is no JSON.
pub data Response : Type 0 where
  request_failed : Response
  answered : ℕ → Option Json → Response

pub record Comment : Type 0 where
  pub author : Json
  pub created_at : Json
  pub body : Json
  pub context : Option String

-- `d.get(key, default)`
abbrev pub default_to : Json → Option Json → Json
default_to default none = default
default_to default (some j) = j

pub get_or : String → Json → Fields → Json
unfolding lookup
get_or key default fs = default_to default (lookup key fs)

-- `d.get(key, "") or ""`
pub get_text : String → Fields → Json
unfolding get_or truthy
get_text key fs = let j = get_or key (str "") fs in if truthy j then j else str ""

-- `d.get("user", {}).get("login", "unknown")`; `none` is an AttributeError
abbrev pub login_of : Json → Option Json
unfolding get_or
login_of (obj user) = some (get_or "login" (str "unknown") user)
login_of j = none

pub user_login : Fields → Option Json
unfolding get_or
user_login fs = login_of (get_or "user" (obj end) fs)

-- One comment of a page; `none` is an AttributeError.
abbrev pub comment_by : Option String → Fields → Json → Comment
unfolding get_or get_text
comment_by context fs author = record {
  author = author;
  created_at = get_or "created_at" (str "") fs;
  body = get_text "body" fs;
  context = context;
}

pub comment_of : Json → Option Comment
unfolding user_login get_or get_text
comment_of (obj fs) = elim (user_login fs) [
  | none ↦ none
  | some author ↦ some (comment_by none fs author)
]
comment_of j = none

-- `f"{c['path']}:{c.get('original_line', '?')}"`, where there is a path; `text` is `str`
abbrev pub context_of : (Json → String) → Fields → Option String
unfolding get_or truthy
context_of text fs =
    let path = get_or "path" null fs in
    if truthy path
    then some (str_append (text path) (str_append ":" (text (get_or "original_line" (str "?") fs))))
    else none

pub review_comment_of : (Json → String) → Json → Option Comment
unfolding user_login get_or get_text truthy
review_comment_of text (obj fs) = elim (user_login fs) [
  | none ↦ none
  | some author ↦ some (comment_by (context_of text fs) fs author)
]
review_comment_of text j = none

abbrev pub listed : Items → List Json
listed nil = []
listed (cons x xs) = x ∷ listed xs

module _ (comment : Json → Option Comment) where
  -- The comments after those of a page are appended, and whether all of them could be; those before
  -- one that raises an exception stay.
  pub append_page : List Json → List Comment → List Comment × Bool
  append_page [] comments = (comments, true)
  append_page (x ∷ xs) comments = elim (comment x) [
    | none ↦ (comments, false)
    | some c ↦ append_page xs (comments ++ c ∷ [])
  ]

  -- After a page, and whether the loop goes on. A body that is no list raises an exception before
  -- anything is appended.
  abbrev pub after_page : ℕ → List Comment × Bool → List Comment × Bool
  after_page count (comments, false) = (comments, false)
  after_page count (comments, true) =
      if leb 500 (length comments)
      then (take 500 comments, false)
      else if ltb count 100
      then (comments, false)
      else (comments, true)

  abbrev pub read_body : List Comment → Option Json → List Comment × Bool
  unfolding append_page truthy
  read_body comments none = (comments, false)
  read_body comments (some (arr nil)) = (comments, false)
  read_body comments (some (arr xs)) =
      after_page (length (listed xs)) (append_page (listed xs) comments)
  read_body comments (some j) = (comments, false)

  pub read_response : List Comment → Response → List Comment × Bool
  unfolding append_page
  read_response comments request_failed = (comments, false)
  read_response comments (answered status body) =
      if status == 200 then read_body comments body else (comments, false)

  -- The loop, from a page on (counted from 0), with the pages that are left of `MAX_COMMENT_PAGES`.
  abbrev pub go_on : (List Comment → List Comment) → List Comment × Bool → List Comment
  go_on rest (comments, false) = comments
  go_on rest (comments, true) = rest comments

  pub fetch_from : (ℕ → Response) → ℕ → ℕ → List Comment → List Comment
  unfolding read_response
  fetch_from responses zero page comments = comments
  fetch_from responses (suc n) page comments =
      go_on (λ cs. fetch_from responses n (suc page) cs) (read_response comments (responses page))

abbrev pub max_comment_pages : ℕ
max_comment_pages = 5

pub fetch_comments : (ℕ → Response) → ℕ → List Comment
unfolding fetch_from comment_of
fetch_comments responses max_comments =
    take max_comments (fetch_from comment_of responses max_comment_pages 0 [])

pub fetch_pr_review_comments : (Json → String) → (ℕ → Response) → ℕ → List Comment
unfolding fetch_from review_comment_of
fetch_pr_review_comments text responses max_comments =
    take max_comments (fetch_from (review_comment_of text) responses max_comment_pages 0 [])

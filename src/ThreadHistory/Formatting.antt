-- ===== src/ThreadHistory/Formatting.antt =====
-- The text of a thread for the prompt: `_fetch_issue_body`, `_format_thread_history` and
-- `fetch_and_format_thread_history`, for issues and pull requests. `text` is `str`; `none` is an
-- exception that leaves the function.
use Prim.Native.String.{◌++◌ as str_append}
use simple_claude_code_githu.Prelude.{
  ℕ, suc, String, Bool, true, false, ◌&&◌, Option, none, some, List, [], ◌∷◌, ◌++◌, leb, length,
  str_eq, if◌then◌else◌, ◌==◌,
}
use simple_claude_code_githu.Prelude.Lines.{strip, join}
use simple_claude_code_githu.Json.{Json, str, arr, obj, nil, Fields, truthy}
use simple_claude_code_githu.Webhook.{decimal}
use simple_claude_code_githu.ThreadHistory.{
  Response, request_failed, answered, Comment, get_or, get_text, user_login, listed, fetch_comments,
  fetch_pr_review_comments,
}

pub record IssueBody : Type 0 where
  pub title : Json
  pub body : Json
  pub author : Json
  pub created_at : Json
  pub state : Json
  pub labels : List Json

-- `[lbl.get("name", "") for lbl in labels]`
label_names : List Json → Option (List Json)
unfolding get_or
label_names [] = some []
label_names (obj fs ∷ rest) = elim (label_names rest) [
  | none ↦ none
  | some names ↦ some (get_or "name" (str "") fs ∷ names)
]
label_names (j ∷ rest) = none

abbrev labels_of : Json → Option (List Json)
unfolding label_names
labels_of (arr xs) = label_names (listed xs)
labels_of (str s) = if str_eq s "" then some [] else none
labels_of (obj fs) = if truthy (obj fs) then none else some []
labels_of j = none

abbrev body_with : Fields → Json → List Json → IssueBody
unfolding get_or get_text
body_with payload author labels = record {
  title = get_or "title" (str "") payload;
  body = get_text "body" payload;
  author = author;
  created_at = get_or "created_at" (str "") payload;
  state = get_or "state" (str "") payload;
  labels = labels;
}

abbrev body_of : Json → Option IssueBody
unfolding user_login get_or get_text label_names
body_of (obj payload) = elim (user_login payload) [
  | none ↦ none
  | some author ↦ elim (labels_of (get_or "labels" (arr nil) payload)) [
    | none ↦ none
    | some labels ↦ some (body_with payload author labels)
  ]
]
body_of j = none

abbrev decoded_body : Option Json → Option IssueBody
unfolding user_login get_or get_text label_names
decoded_body none = none
decoded_body (some j) = body_of j

pub fetch_issue_body : Response → Option IssueBody
unfolding user_login get_or get_text label_names
fetch_issue_body request_failed = none
fetch_issue_body (answered status body) = if status == 200 then decoded_body body else none

abbrev pub joined : List String → String
joined [] = ""
joined (x ∷ xs) = str_append x (joined xs)

-- `value.strip() or default`, of a text
abbrev stripped_or : String → Json → Option String
stripped_or default (str s) = some (if str_eq (strip s) "" then default else strip s)
stripped_or default j = none

-- the texts to be joined
all_texts : List Json → Option (List String)
all_texts [] = some []
all_texts (str s ∷ rest) = elim (all_texts rest) [ none ↦ none | some ss ↦ some (s ∷ ss) ]
all_texts (j ∷ rest) = none

module _ (text : Json → String) where
  abbrev if_truthy : Json → (String → String) → String
  unfolding truthy
  if_truthy j f = if truthy j then f (text j) else ""

  abbrev labels_text : List String → String
  labels_text [] = ""
  labels_text (l ∷ ls) = joined (" [Labels: " ∷ join ", " (l ∷ ls) ∷ "]" ∷ [])

  abbrev issue_lines : String → IssueBody → List String → String → List String
  unfolding truthy
  issue_lines thread_label b labels body_text =
      joined (
        "## Original "
        ∷ thread_label
        ∷ ": "
        ∷ text b.title
        ∷ if_truthy b.state (λ s. joined (" (" ∷ s ∷ ")" ∷ []))
        ∷ labels_text labels
        ∷ [])
      ∷ joined (
          "**Author:** "
          ∷ text b.author
          ∷ if_truthy b.created_at (λ s. str_append " | **Created:** " s)
          ∷ [])
      ∷ body_text
      ∷ []

  pub issue_parts : String → Option IssueBody → Option (List String)
  unfolding truthy all_texts
  issue_parts thread_label none = some []
  issue_parts thread_label (some b) = elim (all_texts b.labels) [
    | none ↦ none
    | some labels ↦ elim (stripped_or "(No description provided)" b.body) [
      | none ↦ none
      | some body_text ↦ some (issue_lines thread_label b labels body_text)
    ]
  ]

  abbrev context_text : Option String → String
  context_text none = ""
  context_text (some c) = joined (" | `" ∷ c ∷ "`" ∷ [])

  abbrev entry : String → ℕ → Comment → String → String
  unfolding truthy
  entry heading i c body_text = joined (
      heading
      ∷ decimal i
      ∷ "\n**"
      ∷ text c.author
      ∷ "**"
      ∷ if_truthy c.created_at (λ s. str_append " | " s)
      ∷ context_text c.context
      ∷ "\n"
      ∷ body_text
      ∷ [])

  -- the entries of comments, numbered from `i` on
  pub entries : String → ℕ → List Comment → Option (List String)
  unfolding truthy
  entries heading i [] = some []
  entries heading i (c ∷ cs) = elim (entries heading (suc i) cs) [
    | none ↦ none
    | some rest ↦ elim (stripped_or "(no content)" c.body) [
      | none ↦ none
      | some body_text ↦ some (entry heading i c body_text ∷ rest)
    ]
  ]

  abbrev section : String → String → List Comment → Option (List String)
  unfolding entries
  section title heading [] = some []
  section title heading (c ∷ cs) = elim (entries heading 1 (c ∷ cs)) [
    | none ↦ none
    | some rest ↦
        some (joined ("\n## " ∷ title ∷ " (" ∷ decimal (length (c ∷ cs)) ∷ ")" ∷ []) ∷ rest)
  ]

  abbrev appended : Option (List String) → Option (List String) → Option (List String)
  appended none ys = none
  appended (some xs) none = none
  appended (some xs) (some ys) = some (xs ++ ys)

  abbrev truncated_parts : Bool → List String
  truncated_parts true = "\n---\n*Older comments truncated — only recent history shown.*\n---" ∷ []
  truncated_parts false = []

  abbrev wrapped : List String → String
  wrapped [] = ""
  wrapped (p ∷ ps) =
      str_append "<thread_history>\n" (str_append (join "\n\n" (p ∷ ps)) "\n</thread_history>")

  abbrev wrap : Option (List String) → Option String
  wrap none = none
  wrap (some parts) = some (wrapped parts)

  pub format_thread_history :
      Option IssueBody → List Comment → List Comment → Bool → Bool → Option String
  unfolding issue_parts entries
  format_thread_history issue_body comments review_comments is_pr truncated = wrap (
      appended (issue_parts (if is_pr then "Pull Request" else "Issue") issue_body) (
        appended (some (truncated_parts truncated)) (
          appended (section "Comments" "### Comment " comments)
            (section "Review Comments" "### Review Comment " review_comments))))

-- What `ThreadHistoryConfig` holds.
pub record ThreadHistoryConfig : Type 0 where
  pub enabled : Bool
  pub max_comments : ℕ
  pub include_pr_reviews : Bool
  pub include_issue_body : Bool

-- The answers of the API for one thread: the issue, and the pages of the two kinds of comments.
pub record Answers : Type 0 where
  pub issue : Response
  pub comments : ℕ → Response
  pub review_comments : ℕ → Response

module _ (text : Json → String) (answers : Answers) where
  pub fetch_and_format_thread_history : String → ThreadHistoryConfig → Option String
  unfolding fetch_issue_body fetch_comments fetch_pr_review_comments format_thread_history
  fetch_and_format_thread_history thread_type config =
      let is_pr = str_eq thread_type "pr" in
      let comments = fetch_comments answers.comments config.max_comments in
      if config.enabled
      then format_thread_history text
          (if config.include_issue_body then fetch_issue_body answers.issue else none) comments
          (if is_pr && config.include_pr_reviews
            then fetch_pr_review_comments text answers.review_comments config.max_comments
            else [])
          is_pr (leb config.max_comments (length comments))
      else some ""

-- ===== src/ThreadHistory/Tests.antt =====
-- A thread of two comments, one of which has no text.
use simple_claude_code_githu.Prelude.{
  ℕ, ◌*◌, min, String, ◌≡◌, refl, none, some, List, [], ◌∷◌, take,
}
use simple_claude_code_githu.Prelude.Lines.{drop}
use simple_claude_code_githu.Json.{Json, str, arr, obj, null, end, field, lookup, truthy}
use simple_claude_code_githu.ThreadHistory.{
  Response, answered, Comment, comment_of, user_login, get_or, get_text, fetch_comments,
}
use simple_claude_code_githu.ThreadHistory.Paging.{
  ReadAs, no_more, one_more, items, fetch_comments-oldest,
}
use simple_claude_code_githu.ThreadHistory.Cutting.{fetch_comments-cut}

abbrev written : String → Json → Json
written login body =
    obj (field "user" (obj (field "login" (str login) end)) (field "body" body end))

abbrev thread : List Json
thread = written "ada" (str "It fails.") ∷ written "bob" null ∷ []

abbrev said : String → String → Comment
said login body = record {
  author = str login;
  created_at = str "";
  body = str body;
  context = none;
}

-- the API, which has one page of the thread
abbrev api : ℕ → Response
api page = answered 200 (some (arr (items (take 100 (drop (100 * page) thread)))))

read : ReadAs comment_of thread (said "ada" "It fails." ∷ said "bob" "" ∷ [])
unfolding comment_of user_login get_or get_text lookup truthy
read = one_more _ _ refl (one_more _ _ refl no_more)

fetch_comments-oldest_example :
    fetch_comments api 100 ≡ take (min 100 500) (said "ada" "It fails." ∷ said "bob" "" ∷ [])
fetch_comments-oldest_example = fetch_comments-oldest api 100 thread _ (λ page. refl) read

abbrev anonymous : Json
anonymous = obj (field "user" null end)

unreadable : comment_of anonymous ≡ none
unfolding comment_of user_login get_or lookup
unreadable = refl

ada_read : ReadAs comment_of (written "ada" (str "a") ∷ []) (said "ada" "a" ∷ [])
unfolding comment_of user_login get_or get_text lookup truthy
ada_read = one_more _ _ refl no_more

abbrev cut_api : ℕ → Response
cut_api page = answered 200 (some (arr (items (written "ada" (str "a") ∷ anonymous ∷ thread))))

fetch_comments-cut_example : fetch_comments cut_api 100 ≡ said "ada" "a" ∷ []
fetch_comments-cut_example =
    fetch_comments-cut cut_api 100 (written "ada" (str "a") ∷ []) (said "ada" "a" ∷ []) anonymous
      thread refl ada_read unreadable

-- ===== src/ThreadHistory/Cutting.antt =====
-- A comment that cannot be read, among those of a page.
use mathlib.Core.List.{append_assoc, append-nil}
use simple_claude_code_githu.Prelude.{
  ℕ, ◌≡◌, sym, ap, ◌∙◌, false, Option, none, some, List, [], ◌∷◌, ◌++◌, length, take,
}
use simple_claude_code_githu.Json.{Json, arr}
use simple_claude_code_githu.ThreadHistory.{
  Response, answered, Comment, comment_of, append_page, after_page, read_response, go_on,
  fetch_from, fetch_comments,
}
use simple_claude_code_githu.ThreadHistory.Paging.{
  ReadAs, no_more, one_more, items, listed-items, body_page,
}

append_page-cut :
    (comment : Json → Option Comment) (xs : List Json) (cs comments : List Comment) (x : Json)
    (ys : List Json)
    → ReadAs comment xs cs
    → comment x ≡ none
    → append_page comment (xs ++ x ∷ ys) comments ≡ (comments ++ cs, false)
unfolding append_page
append_page-cut comment [] cs comments x ys no_more bad =
    rw (append_page, bad) (ap (λ l. (l, false)) (sym (append-nil comments)))
append_page-cut comment (z ∷ zs) cs comments x ys (one_more {cs = ds} _ c e r) bad =
    rw (append_page, e)
      (append_page-cut comment zs ds (comments ++ c ∷ []) x ys r bad
        ∙ ap (λ l. (l, false)) (append_assoc comments (c ∷ []) ds))

read_body-items :
    (xs : List Json) (x : Json) (ys : List Json)
    → read_response comment_of [] (answered 200 (some (arr (items (xs ++ x ∷ ys)))))
      ≡ after_page comment_of (length (xs ++ x ∷ ys)) (append_page comment_of (xs ++ x ∷ ys) [])
read_body-items [] x ys =
    body_page comment_of x (items ys) []
    ∙ ap (λ zs. after_page comment_of (length zs) (append_page comment_of zs []))
        (listed-items (x ∷ ys))
read_body-items (z ∷ zs) x ys =
    body_page comment_of z (items (zs ++ x ∷ ys)) []
    ∙ ap (λ es. after_page comment_of (length es) (append_page comment_of es []))
        (listed-items (z ∷ zs ++ x ∷ ys))

-- A comment on the first page that cannot be read, such as one whose user is null, ends the history:
-- only the comments before it are returned, up to `max_comments`.
pub fetch_comments-cut :
    (responses : ℕ → Response) (max_comments : ℕ) (xs : List Json) (cs : List Comment) (x : Json)
    (ys : List Json)
    → responses 0 ≡ answered 200 (some (arr (items (xs ++ x ∷ ys))))
    → ReadAs comment_of xs cs
    → comment_of x ≡ none
    → fetch_comments responses max_comments ≡ take max_comments cs
unfolding fetch_comments fetch_from
fetch_comments-cut responses max_comments xs cs x ys first r bad =
    let page =
      ap (read_response comment_of []) first
      ∙ read_body-items xs x ys
      ∙ ap (after_page comment_of (length (xs ++ x ∷ ys)))
          (append_page-cut comment_of xs cs [] x ys r bad) in
    ap (λ q. take max_comments (go_on comment_of (λ ds. fetch_from comment_of responses 4 1 ds) q))
      page

-- ===== src/ThreadHistory/Paging.antt =====
-- The pages of comments put together again.
use mathlib.Core.List.{append_assoc, append-nil}
use simple_claude_code_githu.Prelude.{
  ℕ, zero, suc, ◌+◌, ◌*◌, ◌≤◌, ◌<◌, min, ◌≡◌, refl, sym, ap, ◌∙◌, inl, inr, Bool, true, false, ◌&&◌,
  Option, some, List, [], ◌∷◌, ◌++◌, leb, ltb, length, take, length-append, arith, ltb→lt, ltb→ge,
  Bool-cases,
}
use simple_claude_code_githu.Prelude.Lines.{drop}
use simple_claude_code_githu.Prelude.Slices.{take-all, length-take, take-add, drop-drop, take-take}
use simple_claude_code_githu.Json.{Json, arr, Items, nil, cons}
use simple_claude_code_githu.ThreadHistory.{
  Response, answered, Comment, comment_of, listed, append_page, after_page, read_body,
  read_response, go_on, fetch_from, fetch_comments,
}

-- The entries and the comments that they are, one for one.
pub data ReadAs (comment : Json → Option Comment) : List Json → List Comment → Type 0 where
  no_more : ReadAs comment [] []
  one_more :
      {xs : List Json} {cs : List Comment} (x : Json) (c : Comment)
      → comment x ≡ some c
      → ReadAs comment xs cs
      → ReadAs comment (x ∷ xs) (c ∷ cs)

abbrev pub items : List Json → Items
items [] = nil
items (x ∷ xs) = cons x (items xs)

pub listed-items : (xs : List Json) → listed (items xs) ≡ xs
listed-items [] = refl
listed-items (x ∷ xs) = ap (λ ys. x ∷ ys) (listed-items xs)

-- The API as documented: the page with a number (from 0) has up to 100 comments of the thread, in
-- order, behind those of the pages before it.
abbrev pub Serves : (ℕ → Response) → List Json → Type 0
Serves responses xs =
    (page : ℕ)
    → responses page ≡ answered 200 (some (arr (items (take 100 (drop (100 * page) xs)))))

-- the test on which the loop goes on
test_passed : (a b : ℕ) → leb 100 a && ltb b 500 ≡ true → (100 ≤ a) × (b < 500)
test_passed a b e = ground arith

test_failed : (a b : ℕ) → leb 100 a && ltb b 500 ≡ false → 100 ≤ a → 500 ≤ b
test_failed a b e l = ground arith

module _ (comment : Json → Option Comment) where
  ReadAs-take :
      (n : ℕ) {xs : List Json} {cs : List Comment}
      → ReadAs comment xs cs
      → ReadAs comment (take n xs) (take n cs)
  ReadAs-take zero r = no_more
  ReadAs-take (suc n) no_more = no_more
  ReadAs-take (suc n) (one_more x c e r) = one_more x c e (ReadAs-take n r)

  ReadAs-drop :
      (n : ℕ) {xs : List Json} {cs : List Comment}
      → ReadAs comment xs cs
      → ReadAs comment (drop n xs) (drop n cs)
  ReadAs-drop zero r = r
  ReadAs-drop (suc n) no_more = no_more
  ReadAs-drop (suc n) (one_more x c e r) = ReadAs-drop n r

  ReadAs-length :
      {xs : List Json} {cs : List Comment} → ReadAs comment xs cs → length cs ≡ length xs
  ReadAs-length no_more = refl
  ReadAs-length (one_more x c e r) = ap suc (ReadAs-length r)

  append_page-all :
      (xs : List Json) (cs comments : List Comment)
      → ReadAs comment xs cs
      → append_page comment xs comments ≡ (comments ++ cs, true)
  unfolding append_page
  append_page-all [] cs comments no_more = ap (λ l. (l, true)) (sym (append-nil comments))
  append_page-all (x ∷ xs) cs comments (one_more {cs = ds} _ c e r) =
      rw (append_page, e)
        (append_page-all xs ds (comments ++ c ∷ []) r
          ∙ ap (λ l. (l, true)) (append_assoc comments (c ∷ []) ds))

  after_page-kept :
      (count : ℕ) (comments : List Comment)
      → length comments ≤ 500
      → after_page comment count (comments, true)
        ≡ (comments, leb 100 count && ltb (length comments) 500)
  after_page-kept count comments l = elim (Bool-cases (leb 500 (length comments))) [
    | inl full ↦
        let no : ltb (length comments) 500 ≡ false = ground arith in
        rw (full, no, take-all 500 comments l) (ground arith)
    | inr room ↦
        let yes : ltb (length comments) 500 ≡ true = ground arith in rw (room, yes) (ground arith)
  ]

  pub body_page :
      (x : Json) (xs : Items) (comments : List Comment)
      → read_response comment comments (answered 200 (some (arr (cons x xs))))
        ≡ after_page comment
            (length (listed (cons x xs)))
            (append_page comment (listed (cons x xs)) comments)
  unfolding read_response read_body
  body_page x xs comments = refl

  read_page :
      (xs : List Json) (cs comments : List Comment)
      → ReadAs comment xs cs
      → length comments + length cs ≤ 500
      → read_response comment comments (answered 200 (some (arr (items xs))))
        ≡ (comments ++ cs, leb 100 (length cs) && ltb (length (comments ++ cs)) 500)
  unfolding read_response read_body
  read_page [] cs comments no_more l = ap (λ l. (l, false)) (sym (append-nil comments))
  read_page (x ∷ xs) cs comments r l =
      let bound : length (comments ++ cs) ≤ 500 = rw (length-append comments cs) l in
      body_page x (items xs) comments
      ∙ ap (λ ys. after_page comment (length ys) (append_page comment ys comments))
          (listed-items (x ∷ xs))
      ∙ ap (after_page comment (length (x ∷ xs))) (append_page-all (x ∷ xs) cs comments r)
      ∙ rw (ReadAs-length r) (after_page-kept (length (x ∷ xs)) (comments ++ cs) bound)

  module _ (n page : ℕ) (comments cs : List Comment) where
    abbrev before : List Comment
    before = drop (100 * page) cs

    abbrev goes_on : Bool
    goes_on = leb 100 (length (take 100 before)) && ltb (length (comments ++ take 100 before)) 500

    page_end :
        length comments ≡ 100 * page
        → goes_on ≡ true
        → length (comments ++ take 100 before) ≡ 100 * suc page
    page_end l more =
        let few = length-take 100 before in
        let sum = length-append comments (take 100 before) in
        let (full, room) =
          test_passed (length (take 100 before)) (length (comments ++ take 100 before)) more in
        omega (arith, l, few, sum, full)

    next_pages :
        (comments ++ take 100 before) ++ take (100 * n) (drop (100 * suc page) cs)
        ≡ comments ++ take (100 * suc n) before
    next_pages =
        let next : 100 * page + 100 ≡ 100 * suc page = omega arith in
        let total : 100 + 100 * n ≡ 100 * suc n = omega arith in
        append_assoc comments (take 100 before) (take (100 * n) (drop (100 * suc page) cs))
        ∙ ap (λ ds. comments ++ ds)
            (ap (λ k. take 100 before ++ take (100 * n) (drop k cs)) (sym next)
              ∙ ap (λ ds. take 100 before ++ take (100 * n) ds)
                  (sym (drop-drop 100 (100 * page) cs))
              ∙ sym (take-add 100 (100 * n) before)
              ∙ ap (λ k. take k before) total)

    last_page :
        suc n + page ≡ 5
        → length comments ≡ 100 * page
        → goes_on ≡ false
        → take 100 before ≡ take (100 * suc n) before
    last_page total l last = elim (Bool-cases (ltb (length before) 100)) [
      | inl short ↦
          take-all 100 before (omega (arith, ltb→lt _ _ short))
          ∙ sym (take-all (100 * suc n) before (omega (arith, ltb→lt _ _ short)))
      | inr full ↦
          let few = length-take 100 before in
          let sum = length-append comments (take 100 before) in
          let enough : 100 ≤ length (take 100 before) = omega (arith, few, ltb→ge _ _ full) in
          let all =
            test_failed (length (take 100 before)) (length (comments ++ take 100 before)) last
              enough in
          let once : 100 ≡ 100 * suc n = omega (arith, total, l, few, sum, all) in
          ap (λ k. take k before) once
    ]

  -- the loop over a thread that the API serves, from a page on
  fetch_from-all :
      (responses : ℕ → Response) (xs : List Json) (cs : List Comment)
      → Serves responses xs
      → ReadAs comment xs cs
      → (n page : ℕ) → n + page ≡ 5
      → (comments : List Comment) → length comments ≡ 100 * page
      → fetch_from comment responses n page comments
        ≡ comments ++ take (100 * n) (drop (100 * page) cs)
  unfolding fetch_from
  fetch_from-all responses xs cs s r zero page total comments l = sym (append-nil comments)
  fetch_from-all responses xs cs s r (suc n) page total comments l =
      let before = drop (100 * page) cs in
      let these = take 100 before in
      let few : length these ≤ 100 = omega (arith, length-take 100 before) in
      let bound : length comments + length these ≤ 500 = omega (arith, l, total, few) in
      let page_read =
        read_page (take 100 (drop (100 * page) xs)) these comments
          (ReadAs-take 100 (ReadAs-drop (100 * page) r)) bound in
      ap (λ q. go_on comment (λ ds. fetch_from comment responses n (suc page) ds) q)
        (ap (read_response comment comments) (s page) ∙ page_read)
      ∙ elim (Bool-cases (leb 100 (length these) && ltb (length (comments ++ these)) 500)) [
        | inl more ↦ rw more (
            fetch_from-all responses xs cs s r n (suc page) (omega (arith, total))
              (comments ++ these) (page_end n page comments cs l more)
            ∙ next_pages n page comments cs)
        | inr last ↦ rw last (ap (λ ds. comments ++ ds) (last_page n page comments cs total l last))
      ]

-- Of a thread that the API serves in order and in pages of 100 comments, with the rest on the last
-- one, and whose every entry can be read, none of them with a null user, `_fetch_comments` returns
-- the oldest comments, up to `max_comments` and 500 of them, each once and in order.
pub fetch_comments-oldest :
    (responses : ℕ → Response) (max_comments : ℕ) (xs : List Json) (cs : List Comment)
    → Serves responses xs
    → ReadAs comment_of xs cs
    → fetch_comments responses max_comments ≡ take (min max_comments 500) cs
unfolding fetch_comments
fetch_comments-oldest responses max_comments xs cs s r =
    ap (take max_comments)
      (fetch_from-all comment_of responses xs cs s r 5 0 (omega arith) [] (omega arith))
    ∙ take-take max_comments 500 cs

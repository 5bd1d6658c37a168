-- ===== src/Webhook/Extraction.antt =====
-- What the extractor makes of payloads under the rules that the service ships.
use Prim.Native.String.{◌++◌}
use simple_claude_code_githu.Prelude.{
  ℕ, String, ◌≡◌, ◌≢◌, refl, ap, ◌∙◌, Option, none, some, [], arith, eq_iff,
}
use simple_claude_code_githu.Prelude.Text.{str_ne}
use simple_claude_code_githu.Json.{Json, null, bool, num, str, arr, obj, truthy}
use simple_claude_code_githu.Payload.{resolve_path}
use simple_claude_code_githu.Workflows.{Dict, qualified}
use simple_claude_code_githu.Webhook.Rules.{EventExtractionConfig, extraction_rules}
use simple_claude_code_githu.Webhook.{
  Pydantic, ExtractedFields, Result, ok, failed, missing_field, ◌>>=◌, checked, decimal, extract,
  extract_by, extract_field, config_of, resolve_ref, or_unknown, build, extract_extra,
}

-- The events about a pull request, each with the path of the user that it is credited to.
pub data PullRequestEvent : String → String → Type 0 where
  opened : PullRequestEvent "pull_request" "pull_request.user.login"
  review : PullRequestEvent "pull_request_review" "review.user.login"
  review_comment : PullRequestEvent "pull_request_review_comment" "comment.user.login"
  review_thread : PullRequestEvent "pull_request_review_thread" "sender.login"

module _ (pydantic : Pydantic) (repr : Json → String) where
  build_user :
      (n : ℕ) (ref u : String) (extra : Dict Json)
      → u ≢ ""
      → build pydantic repr (num n) ref (or_unknown (str u)) extra
        ≡ ok (record { issue_number = some n; ref = ref; user = u; extra = extra })
  unfolding build or_unknown truthy
  build_user n ref u extra ne = rw (pydantic.int_num n, str_ne u "" ne, pydantic.str_str u) refl

  -- For each of the pull request events, without an override for its action, a payload with the
  -- number of the pull request and a non-empty user name gives that number, that user and the ref
  -- `refs/pull/<number>/head`.
  pub extract-pull_request :
      (event_type user_path : String) (action : Option String) (payload : Json) (n : ℕ) (u : String)
      → PullRequestEvent event_type user_path
      → config_of (qualified event_type action) extraction_rules ≡ none
      → resolve_path payload "pull_request.number" null ≡ num n
      → resolve_path payload user_path null ≡ str u
      → u ≢ ""
      → extract pydantic repr extraction_rules event_type action payload
        ≡ ok (record {
          issue_number = some n;
          ref = "refs/pull/" ++ (decimal n ++ "/head");
          user = u;
          extra = [];
        })
  unfolding extract extraction_rules
  extract-pull_request event_type user_path action payload n u opened plain hn hu ne =
      rw (plain, hn, hu) (build_user n _ u [] ne)
  extract-pull_request event_type user_path action payload n u review plain hn hu ne =
      rw (plain, hn, hu) (build_user n _ u [] ne)
  extract-pull_request event_type user_path action payload n u review_comment plain hn hu ne =
      rw (plain, hn, hu) (build_user n _ u [] ne)
  extract-pull_request event_type user_path action payload n u review_thread plain hn hu ne =
      rw (plain, hn, hu) (build_user n _ u [] ne)

-- The events whose issue number is required, each with its path.
pub data NeedsNumber : String → String → Type 0 where
  pull_request : NeedsNumber "pull_request" "pull_request.number"
  pull_request_review : NeedsNumber "pull_request_review" "pull_request.number"
  pull_request_review_comment : NeedsNumber "pull_request_review_comment" "pull_request.number"
  pull_request_review_thread : NeedsNumber "pull_request_review_thread" "pull_request.number"
  issues : NeedsNumber "issues" "issue.number"
  issue_comment : NeedsNumber "issue_comment" "issue.number"

module _ (pydantic : Pydantic) (repr : Json → String) where
  -- For each event that needs a number, a payload with none, or with null, is refused with an error
  -- that names the path, whatever else it holds.
  pub extract-missing :
      (event_type path : String) (action : Option String) (payload : Json)
      → NeedsNumber event_type path
      → config_of (qualified event_type action) extraction_rules ≡ none
      → resolve_path payload path null ≡ null
      → extract pydantic repr extraction_rules event_type action payload
        ≡ failed (missing_field path)
  unfolding extract extraction_rules
  extract-missing event_type path action payload pull_request plain h = rw (plain, h) refl
  extract-missing event_type path action payload pull_request_review plain h = rw (plain, h) refl
  extract-missing event_type path action payload pull_request_review_comment plain h =
      rw (plain, h) refl
  extract-missing event_type path action payload pull_request_review_thread plain h =
      rw (plain, h) refl
  extract-missing event_type path action payload issues plain h = rw (plain, h) refl
  extract-missing event_type path action payload issue_comment plain h = rw (plain, h) refl

or_unknown-ne : (v : Json) → or_unknown v ≢ str ""
unfolding or_unknown truthy
or_unknown-ne null e = ground (arith, eq_iff "unknown" "")
or_unknown-ne (bool b) e = ground (arith, eq_iff "unknown" "")
or_unknown-ne (num n) e = ground (arith, eq_iff "unknown" "")
or_unknown-ne (str s) e = ground (arith, eq_iff "unknown" "", eq_iff s "")
or_unknown-ne (arr xs) e = ground (arith, eq_iff "unknown" "")
or_unknown-ne (obj fs) e = ground (arith, eq_iff "unknown" "")

module _ {ℓ κ} {A : Type ℓ} {B : Type κ} (next : A → Result B) where
  -- a block that succeeded got a value from its first part
  first_part :
      (m : Result A) {final : B}
      → (m >>= next) ≡ ok final
      → (value : A) × (m ≡ ok value) × (next value ≡ ok final)
  first_part (failed error) e = cc
  first_part (ok value) e = (value, refl, e)

checked-ok {ℓ} : {A : Type ℓ} (o : Option A) {a : A} → checked o ≡ ok a → o ≡ some a
checked-ok none h = cc
checked-ok (some b) h = cc

module _ (pydantic : Pydantic) (repr : Json → String) where
  build_named :
      (issue_number v : Json) (ref : String) (extra : Dict Json) {f : ExtractedFields}
      → build pydantic repr issue_number ref (or_unknown v) extra ≡ ok f
      → f.user ≢ ""
  unfolding build
  build_named issue_number v ref extra {f} e =
      let (n, _, e₁) = first_part _ (checked (pydantic.as_int issue_number)) e in
      let (u, hu, e₂) = first_part _ (checked (pydantic.as_str (or_unknown v))) e₁ in
      let is_text = pydantic.str_only (or_unknown v) u (checked-ok _ hu) in
      let same : u ≡ f.user = ground (arith, e₂) in
      λ empty. or_unknown-ne v (is_text ∙ ap str (same ∙ empty))

  extract_by-named :
      (c : Option EventExtractionConfig) (event_type : String) (payload : Json)
      {f : ExtractedFields}
      → extract_by pydantic repr c event_type payload ≡ ok f
      → f.user ≢ ""
  unfolding extract_by
  extract_by-named none event_type payload e =
      build_named null (resolve_path payload "sender.login" null) "main" [] e
  extract_by-named (some c) event_type payload e =
      let (n, _, e₁) = first_part _ (extract_field c.issue_number payload) e in
      let (ref, _, e₂) = first_part _ (resolve_ref repr event_type c.ref payload) e₁ in
      let (v, _, e₃) = first_part _ (extract_field (some c.user) payload) e₂ in
      let (extra, _, e₄) = first_part _ (extract_extra c.extra payload) e₃ in
      build_named n v ref extra e₄

  -- Whatever the rules, the event and the payload, the extracted user is never the empty text.
  pub extract-named :
      (rules : Dict EventExtractionConfig) (event_type : String) (action : Option String)
      (payload : Json) (f : ExtractedFields)
      → extract pydantic repr rules event_type action payload ≡ ok f
      → f.user ≢ ""
  unfolding extract
  extract-named rules event_type action payload f e = extract_by-named _ event_type payload e

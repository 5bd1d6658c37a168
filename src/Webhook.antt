-- ===== src/Webhook.antt =====
-- services/webhook/payload_extractor.py: what is taken from the payload of a GitHub event. Pydantic,
-- which checks the extracted fields, is outside: an interface with what its documentation says.
mod Tests
pub mod Rules
pub mod Extraction
use Prim.Native.String.{◌++◌}
use simple_claude_code_githu.Prelude.{
  ℕ, zero, suc, ◌/◌, ◌%◌, String, ◌≡◌, Bool, true, false, Option, none, some, List, [], ◌∷◌, str_eq,
  ltb, if◌then◌else◌, ◌==◌,
}
use simple_claude_code_githu.Json.{Json, null, bool, num, str, arr, obj, Fields, lookup, truthy}
use simple_claude_code_githu.Json.Equality.{py_eq}
use simple_claude_code_githu.Payload.{resolve_path}
use simple_claude_code_githu.Workflows.{Dict, find, qualified}
use Rules.{ExtractionRule, EventExtractionConfig}

-- Pydantic's reading of a value for a field of type `int | None` or `str`; `none` is a
-- `ValidationError`. A string field takes strings only.
pub record Pydantic : Type 0 where
  pub as_int : Json → Option (Option ℕ)
  pub as_str : Json → Option String
  pub int_null : as_int null ≡ some none
  pub int_num : (n : ℕ) → as_int (num n) ≡ some (some n)
  pub str_str : (s : String) → as_str (str s) ≡ some s
  pub str_only : (j : Json) (s : String) → as_str j ≡ some s → j ≡ str s

pub record ExtractedFields : Type 0 where
  pub issue_number : Option ℕ
  pub ref : String
  pub user : String
  pub extra : Dict Json

-- The `ValueError` of a missing required field, with its path, and Pydantic's.
pub data ExtractError : Type 0 where
  missing_field : String → ExtractError
  validation_error : ExtractError

pub data Result {ℓ} (A : Type ℓ) : Type ℓ where
  failed : ExtractError → Result A
  ok : A → Result A

module _ {ℓ κ} {A : Type ℓ} {B : Type κ} where
  infixl 5 ◌>>=◌
  abbrev pub ◌>>=◌ : Result A → (A → Result B) → Result B
  ◌>>=◌ (failed error) next = failed error
  ◌>>=◌ (ok value) next = next value

abbrev pub checked {ℓ} : {A : Type ℓ} → Option A → Result A
checked none = failed validation_error
checked (some a) = ok a

-- `str(n)` of a number: its decimal digits
unfoldable pub digit_text : ℕ → List String → String
digit_text n [] = ""
digit_text zero (d ∷ ds) = d
digit_text (suc n) (d ∷ ds) = digit_text n ds

abbrev pub digit : ℕ → String
unfolding digit_text
digit n = digit_text n ("0" ∷ "1" ∷ "2" ∷ "3" ∷ "4" ∷ "5" ∷ "6" ∷ "7" ∷ "8" ∷ "9" ∷ [])

unfoldable pub decimal_from : ℕ → ℕ → String
unfolding digit_text
decimal_from zero n = ""
decimal_from (suc fuel) n =
    let front = decimal_from fuel (n / 10) ++ digit (n % 10) in if ltb n 10 then digit n else front

unfoldable pub decimal : ℕ → String
unfolding decimal_from
decimal n = decimal_from (suc n) n

-- `str(value)`; `repr` gives the text of lists and dicts.
text_of : (Json → String) → Json → String
unfolding decimal
text_of repr null = "None"
text_of repr (bool true) = "True"
text_of repr (bool false) = "False"
text_of repr (num n) = decimal n
text_of repr (str s) = s
text_of repr (arr xs) = repr (arr xs)
text_of repr (obj fs) = repr (obj fs)

abbrev ref_strategies : Dict String
ref_strategies =
    ("pull_request", "pr")
    ∷ ("pull_request_review", "pr")
    ∷ ("pull_request_review_comment", "pr")
    ∷ ("pull_request_review_thread", "pr")
    ∷ ("workflow_job", "heads")
    ∷ ("workflow_run", "heads")
    ∷ ("check_run", "heads")
    ∷ ("check_suite", "heads")
    ∷ ("deployment", "heads")
    ∷ ("deployment_status", "heads")
    ∷ ("repository_dispatch", "heads")
    ∷ ("push", "passthrough")
    ∷ ("merge_group", "passthrough")
    ∷ ("workflow_dispatch", "passthrough")
    ∷ ("create", "create_delete")
    ∷ ("delete", "create_delete")
    ∷ ("issue_comment", "main")
    ∷ []

abbrev text_or : String → Option String → String
text_or d none = d
text_or d (some s) = s

-- `_extract_field`
extract_value : ExtractionRule → Json → Result Json
extract_value rule null =
    if rule.required then failed (missing_field rule.path) else ok rule.default
extract_value rule value = ok value

pub extract_field : Option ExtractionRule → Json → Result Json
unfolding extract_value
extract_field none payload = ok null
extract_field (some rule) payload = extract_value rule (resolve_path payload rule.path null)

-- `data.get("ref_type", "branch") == "tag"`
is_tag : Json → Bool
unfolding lookup py_eq
is_tag (obj fs) = elim (lookup "ref_type" fs) [ none ↦ false | some t ↦ py_eq t (str "tag") ]
is_tag other = false

-- the last part of `_resolve_ref`
apply_strategy : (Json → String) → String → Json → Json → String
unfolding is_tag text_of
apply_strategy repr strategy payload raw_ref =
    if str_eq strategy "pr"
    then "refs/pull/" ++ (text_of repr raw_ref ++ "/head")
    else if str_eq strategy "heads"
    then "refs/heads/" ++ text_of repr raw_ref
    else if str_eq strategy "main"
    then "main"
    else if str_eq strategy "create_delete"
    then (if is_tag payload
        then "refs/tags/" ++ text_of repr raw_ref
        else "refs/heads/" ++ text_of repr raw_ref)
    else text_of repr raw_ref

abbrev ref_from : (Json → String) → String → Json → Json → String
ref_from repr strategy payload null = "main"
ref_from repr strategy payload raw_ref = apply_strategy repr strategy payload raw_ref

pub resolve_ref : (Json → String) → String → Option ExtractionRule → Json → Result String
unfolding extract_field apply_strategy find
resolve_ref repr event_type none payload = ok "main"
resolve_ref repr event_type (some rule) payload = do
  raw_ref ← extract_field (some rule) payload
  ok (ref_from repr (text_or "passthrough" (find event_type ref_strategies)) payload raw_ref)

-- `value or "unknown"`
pub or_unknown : Json → Json
unfolding truthy
or_unknown value = if truthy value then value else str "unknown"

pub extract_extra : Dict ExtractionRule → Json → Result (Dict Json)
unfolding extract_field
extract_extra [] payload = ok []
extract_extra ((name, rule) ∷ rules) payload = do
  value ← extract_field (some rule) payload
  values ← extract_extra rules payload
  ok ((name, value) ∷ values)

abbrev pub config_of : Option String → Dict EventExtractionConfig → Option EventExtractionConfig
config_of none rules = none
config_of (some key) rules = find key rules

abbrev else_config :
    Option EventExtractionConfig → Option EventExtractionConfig → Option EventExtractionConfig
else_config (some c) other = some c
else_config none other = other

find_config : Dict EventExtractionConfig → String → Option String → Option EventExtractionConfig
unfolding find qualified
find_config rules event_type action =
    else_config (config_of (qualified event_type action) rules) (find event_type rules)

module _ (pydantic : Pydantic) (repr : Json → String) where
  -- `ExtractedFields(...)`
  pub build : Json → String → Json → Dict Json → Result ExtractedFields
  build issue_number ref user extra = do
    n ← checked (pydantic.as_int issue_number)
    u ← checked (pydantic.as_str user)
    ok (record { issue_number = n; ref = ref; user = u; extra = extra })

  pub extract_by : Option EventExtractionConfig → String → Json → Result ExtractedFields
  unfolding extract_field resolve_ref or_unknown extract_extra build
  extract_by none event_type payload =
      build null "main" (or_unknown (resolve_path payload "sender.login" null)) []
  extract_by (some c) event_type payload = do
    issue_number ← extract_field c.issue_number payload
    ref ← resolve_ref repr event_type c.ref payload
    user ← extract_field (some c.user) payload
    extra ← extract_extra c.extra payload
    build issue_number ref (or_unknown user) extra

  -- `PayloadExtractor(rules).extract(event_type, action, data)`
  pub extract : Dict EventExtractionConfig → String → Option String → Json → Result ExtractedFields
  unfolding find_config extract_by
  extract rules event_type action payload =
      extract_by (find_config rules event_type action) event_type payload

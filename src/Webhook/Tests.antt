-- ===== src/Webhook/Tests.antt =====
-- The extractor on concrete payloads, with a strict reading of integers in Pydantic's place.
use Prim.Native.String.{◌++◌}
use simple_claude_code_githu.Prelude.{ℕ, String, ◌≡◌, refl, Option, none, some, []}
use simple_claude_code_githu.Json.{Json, null, num, str, obj, end, field}
use simple_claude_code_githu.Webhook.{Pydantic, ExtractedFields, decimal}

abbrev strict_int : Json → Option (Option ℕ)
strict_int null = some none
strict_int (num n) = some (some n)
strict_int _ = none

abbrev strict_str : Json → Option String
strict_str (str s) = some s
strict_str _ = none

strict_str_only : (j : Json) (s : String) → strict_str j ≡ some s → j ≡ str s
strict_str_only (str t) s e = cc
strict_str_only _ s e = cc

abbrev pydantic : Pydantic
pydantic = record {
  as_int = strict_int;
  as_str = strict_str;
  int_null = refl;
  int_num = λ n. refl;
  str_str = λ s. refl;
  str_only = strict_str_only;
}

abbrev repr : Json → String
repr j = "..."

abbrev payload : Json
payload = obj (
    field "pull_request"
      (obj (field "number" (num 42) (field "user" (obj (field "login" (str "dev") end)) end))) end)

abbrev expected : ExtractedFields
expected = record {
  issue_number = some 42;
  ref = "refs/pull/" ++ (decimal 42 ++ "/head");
  user = "dev";
  extra = [];
}

ref_text : "refs/pull/" ++ (decimal 42 ++ "/head") ≡ "refs/pull/42/head"
unfolding decimal
ref_text = refl

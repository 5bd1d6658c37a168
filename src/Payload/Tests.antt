-- ===== src/Payload/Tests.antt =====
-- `resolve_path` and the segment tables on concrete inputs.
use simple_claude_code_githu.Prelude.{◌≡◌, ◌↔◌, refl, [], ◌∷◌}
use simple_claude_code_githu.Json.{Json, null, num, str, obj, end, field, lookup}
use simple_claude_code_githu.Payload.{resolve_path}
use simple_claude_code_githu.Payload.Paths.{Free, Reaches, join, dot, resolve_path-Reaches}

abbrev payload : Json
payload =
    obj
      (field "action" (str "opened") (field "pull_request" (obj (field "number" (num 7) end)) end))

found : resolve_path payload "pull_request.number" null ≡ num 7
unfolding resolve_path lookup
found = refl

missing : resolve_path payload "pull_request.user.login" null ≡ null
unfolding resolve_path lookup
missing = refl

free : (Free b'.' "pull_request") × ((Free b'.' "number") × Unit {0})
free = (
  (
    refl,
    (refl, (refl, (refl, (refl, (refl, (refl, (refl, (refl, (refl, (refl, (refl, tt))))))))))),
  ),
  ((refl, (refl, (refl, (refl, (refl, (refl, tt)))))), tt),
)

resolve_path-Reaches_example :
    (resolve_path payload (join dot ("pull_request" ∷ "number" ∷ [])) null ≡ num 7)
    ↔ Reaches payload ("pull_request" ∷ "number" ∷ []) (num 7)
resolve_path-Reaches_example =
    resolve_path-Reaches payload "pull_request" ("number" ∷ []) null (num 7) free (λ e. cc)

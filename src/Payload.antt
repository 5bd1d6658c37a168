-- ===== src/Payload.antt =====
-- shared/utils.py: `resolve_path`, the tables between thread types and URL segments, and the URL of a
-- session.
mod Tests
pub mod Paths
use Prim.Native.Char.{Char, code}
use Prim.Native.String
use Prim.Native.String.{◌++◌}
use simple_claude_code_githu.Prelude.{
  ℕ, String, Bool, true, false, ◌&&◌, Option, none, some, List, [], ◌∷◌, str_eq, if◌then◌else◌,
  ◌==◌,
}
use simple_claude_code_githu.Json.{Json, null, bool, num, str, arr, obj, Fields, lookup}

-- A character in front of the first piece.
abbrev onto_first : Char → List String → List String
onto_first c [] = String.◌∷◌ c String.[] ∷ []
onto_first c (p ∷ ps) = String.◌∷◌ c p ∷ ps

-- `text.split(sep)` for a one-character separator: always one piece at least
unfoldable pub split : ℕ → String → List String
split sep String.[] = "" ∷ []
split sep (String.◌∷◌ c rest) =
    let pieces = split sep rest in if code c == sep then "" ∷ pieces else onto_first c pieces

-- The loop over the keys; `none` is the default's place.
pub walk : Json → List String → Option Json
walk current [] = some current
walk (obj fs) (key ∷ keys) = elim (lookup key fs) [ none ↦ none | some v ↦ walk v keys ]
walk null (key ∷ keys) = none
walk (bool b) (key ∷ keys) = none
walk (num n) (key ∷ keys) = none
walk (str s) (key ∷ keys) = none
walk (arr xs) (key ∷ keys) = none

abbrev pub or_default {ℓ} : {A : Type ℓ} → A → Option A → A
or_default d none = d
or_default d (some a) = a

-- `resolve_path(data, path, default)`
unfoldable pub resolve_path : Json → String → Json → Json
unfolding split walk
resolve_path current path default = or_default default (walk current (split b'.' path))

-- `thread_type_to_url_segment`
pub thread_type_to_url_segment : String → String
thread_type_to_url_segment thread_type =
    if str_eq thread_type "pr"
    then "pull"
    else if str_eq thread_type "issue"
    then "issues"
    else if str_eq thread_type "discussion"
    then "discussions"
    else "issues"

-- `url_segment_to_thread_type`
pub url_segment_to_thread_type : String → String
url_segment_to_thread_type segment =
    if str_eq segment "pull"
    then "pr"
    else if str_eq segment "issues"
    then "issue"
    else if str_eq segment "discussions"
    then "discussion"
    else "issue"

abbrev is_empty_text : String → Bool
is_empty_text String.[] = true
is_empty_text (String.◌∷◌ c s) = false

-- `rstrip('/')`
pub rstrip_slash : String → String
rstrip_slash String.[] = ""
rstrip_slash (String.◌∷◌ c s) =
    let rest = rstrip_slash s in
    if (code c == b'/') && is_empty_text rest then "" else String.◌∷◌ c rest

-- The number is given by its digits.
pub build_session_url : String → String → String → String → String → String → String
unfolding rstrip_slash thread_type_to_url_segment
build_session_url base_url owner repo_name thread_type issue_number workflow =
    if is_empty_text base_url
    then ""
    else rstrip_slash base_url
      ++ ("/session/"
          ++ (owner
              ++ ("/"
                  ++ (repo_name
                      ++ ("/"
                          ++ (thread_type_to_url_segment thread_type
                              ++ ("/" ++ (issue_number ++ ("/" ++ workflow)))))))))

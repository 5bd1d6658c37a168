-- ===== src/Payload/Paths.antt =====
-- shared/utils.py: the keys of a path, the tables of URL segments and the URL of a session.
use Prim.Native.Char.{Char, code}
use Prim.Native.String.{◌++◌}
use text.Mathlib.TextLemmas.{cons-append, nil-append}
use simple_claude_code_githu.Prelude.{
  ℕ, String, ◌≡◌, ◌≢◌, ◌↔◌, refl, sym, ap, subst, ◌∙◌, ◌⊎◌, inl, inr, true, false, Option, none,
  some, List, [], ◌∷◌, All, arith, ◌==◌, Option-cases,
}
use simple_claude_code_githu.Json.{Json, null, obj, Fields, lookup}
use simple_claude_code_githu.Payload.{
  split, walk, resolve_path, or_default, rstrip_slash, build_session_url,
  thread_type_to_url_segment, url_segment_to_thread_type,
}

-- No character of the text is the separator.
abbrev pub Free : ℕ → String → Type 0
Free sep String.[] = Unit
Free sep (String.◌∷◌ c s) = ((code c == sep) ≡ false) × Free sep s

-- `sep.join(pieces)`, for a separator of one character
pub join : Char → List String → String
join c [] = ""
join c (p ∷ []) = p
join c (p ∷ q ∷ ps) = p ++ String.◌∷◌ c (join c (q ∷ ps))

split-Free : (sep : ℕ) (s : String) → Free sep s → split sep s ≡ s ∷ []
unfolding split
split-Free sep String.[] f = refl
split-Free sep (String.◌∷◌ c s) f = rw (f.0, split-Free sep s f.1) refl

split_next :
    (c : Char) (p rest : String)
    → Free (code c) p
    → split (code c) (p ++ String.◌∷◌ c rest) ≡ p ∷ split (code c) rest
unfolding split
split_next c String.[] rest f = rw (nil-append (String.◌∷◌ c rest), same) refl
  where
    same : (code c == code c) ≡ true
    same = ground arith
split_next c (String.◌∷◌ d p) rest f =
    rw (cons-append d p (String.◌∷◌ c rest), f.0, split_next c p rest f.1) refl

-- Pieces that are free of the separator come back.
split-join :
    (c : Char) (p : String) (ps : List String)
    → All (Free (code c)) (p ∷ ps)
    → split (code c) (join c (p ∷ ps)) ≡ p ∷ ps
unfolding join
split-join c p [] f = split-Free (code c) p f.0
split-join c p (q ∷ ps) f =
    split_next c p (join c (q ∷ ps)) f.0 ∙ ap (λ l. p ∷ l) (split-join c q ps f.1)

-- The value `v` is reached from `d` by looking up the keys one after another.
pub data Reaches : Json → List String → Json → Type 0 where
  arrived : {d : Json} → Reaches d [] d
  entered :
      {fs : Fields} {k : String} {ks : List String} {v w : Json}
      → lookup k fs ≡ some w
      → Reaches w ks v
      → Reaches (obj fs) (k ∷ ks) v

walk_reached : {d v : Json} {keys : List String} → Reaches d keys v → walk d keys ≡ some v
unfolding walk
walk_reached arrived = refl
walk_reached (entered found rest) = rw (found, walk) (walk_reached rest)

reached : (d v : Json) (keys : List String) → walk d keys ≡ some v → Reaches d keys v
unfolding walk
reached d v [] e = let same : d ≡ v = cc in subst (Reaches d []) same arrived
reached (obj fs) v (k ∷ keys) e = elim (Option-cases (lookup k fs)) [
  | inl missing ↦ cc (rw (missing, walk) at e)
  | inr (w, found) ↦ entered found (reached w v keys (rw (found, walk) at e))
]
reached null v (k ∷ keys) e = cc
reached _ v (k ∷ keys) e = cc

abbrev pub dot : Char
dot = "."

-- For keys without dots, joined by dots, and a value other than the default: `resolve_path` returns
-- the value exactly when the keys, looked up one after another, reach it.
pub resolve_path-Reaches :
    (d : Json) (k : String) (ks : List String) (default v : Json)
    → All (Free b'.') (k ∷ ks)
    → v ≢ default
    → (resolve_path d (join dot (k ∷ ks)) default ≡ v) ↔ Reaches d (k ∷ ks) v
unfolding resolve_path
resolve_path-Reaches d k ks default v f ne = (
  λ e. found (rw (split-join dot k ks f) at e) (walk d (k ∷ ks)) refl,
  λ r. rw (split-join dot k ks f) (rw (walk_reached r) refl),
)
  where
    found :
        or_default default (walk d (k ∷ ks)) ≡ v
        → (o : Option Json) → walk d (k ∷ ks) ≡ o
        → Reaches d (k ∷ ks) v
    found e none h = absurd (ne (sym (rw h at e)))
    found e (some u) h = let same : u ≡ v = rw h at e in reached d v (k ∷ ks) (h ∙ ap some same)

-- Each of the three thread types has a URL segment that leads back to it.
pub segment_roundtrip :
    (t : String)
    → (t ≡ "pr") ⊎ (t ≡ "issue") ⊎ (t ≡ "discussion")
    → url_segment_to_thread_type (thread_type_to_url_segment t) ≡ t
unfolding url_segment_to_thread_type thread_type_to_url_segment
segment_roundtrip t (inl e) = rw e refl
segment_roundtrip t (inr (inl e)) = rw e refl
segment_roundtrip t (inr (inr e)) = rw e refl

rstrip-append : (s : String) → rstrip_slash (s ++ "/") ≡ rstrip_slash s
unfolding rstrip_slash
rstrip-append String.[] = refl
rstrip-append (String.◌∷◌ c s) = rw (cons-append c s "/", rstrip-append s) refl

-- A slash at the end of a base address that is not empty makes no difference to the session URL.
pub build_session_url-slash :
    (base_url owner repo_name thread_type issue_number workflow : String)
    → base_url ≢ ""
    → build_session_url (base_url ++ "/") owner repo_name thread_type issue_number workflow
      ≡ build_session_url base_url owner repo_name thread_type issue_number workflow
unfolding build_session_url rstrip_slash
build_session_url-slash String.[] owner repo_name thread_type issue_number workflow ne =
    absurd (ne refl)
build_session_url-slash (String.◌∷◌ c s) owner repo_name thread_type issue_number workflow ne =
    rw (cons-append c s "/", rstrip-append s) refl

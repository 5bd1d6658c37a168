-- ===== src/ImportResolver/Within.antt =====
-- What an import is resolved to.
use simple_claude_code_githu.Prelude.{
  String, ◌≡◌, ◌⊎◌, refl, inl, inr, Bool, true, Option, none, some, List, [], ◌∷◌, Bool-cases,
  str_eq,
}
use simple_claude_code_githu.Prelude.Lines.{join}
use simple_claude_code_githu.ImportResolver.{
  Resolution, within_repo, suffixed, indexes, starts_with_dot, resolved, unresolved, value_error,
  relative_to, with_suffix, named, first_file, find_module, or_then, is_stdlib, resolve_relative,
  resolve_python_import, find_ts, resolve_ts_import,
}

module _ (is_file : List String → Bool) (repo : List String) where
  -- The text of a file that exists in the repository, relative to it.
  pub record Existing (p : String) : Type 0 where
    pub path : List String
    pub components : List String
    pub exists : is_file path ≡ true
    pub inside : relative_to repo path ≡ some components
    pub text : p ≡ join "/" components

  -- Whatever text a resolution gives is that of a file in the repository.
  abbrev Sound : Resolution → Type 0
  Sound r = (p : String) → r ≡ resolved p → Existing p

  first_file-Sound :
      (outside : Resolution) (cs : List (Option (List String))) (rest : Resolution)
      → Sound outside
      → Sound rest
      → Sound (first_file is_file repo outside cs rest)
  unfolding first_file named
  first_file-Sound outside [] rest o s = s
  first_file-Sound outside (none ∷ cs) rest o s = λ p e. cc
  first_file-Sound outside (some c ∷ cs) rest o s = elim (Bool-cases (is_file c)) [
    | inl there ↦ rw there (by_place there (relative_to repo c) refl)
    | inr absent ↦ rw absent (first_file-Sound outside cs rest o s)
  ]
    where
      by_place :
          is_file c ≡ true
          → (q : Option (List String)) → relative_to repo c ≡ q
          → Sound (named is_file repo outside q)
      by_place there none e = o
      by_place there (some ks) e = λ p same. record {
        path = c;
        components = ks;
        exists = there;
        inside = e;
        text = cc (same);
      }

  nothing-Sound : Sound unresolved
  nothing-Sound p e = cc

  error-Sound : Sound value_error
  error-Sound p e = cc

  find_module-Sound : (base : List String) → Sound (find_module is_file repo base)
  unfolding find_module
  find_module-Sound base =
      first_file-Sound unresolved (with_suffix ".py" base ∷ some ("__init__.py" ∷ base) ∷ [])
        unresolved nothing-Sound nothing-Sound

  or_then-Sound : (r next : Resolution) → Sound r → Sound next → Sound (or_then r next)
  or_then-Sound (resolved p) next s n = elim (Bool-cases (str_eq p "")) [
    | inl empty ↦ rw empty n
    | inr text ↦ rw text s
  ]
  or_then-Sound unresolved next s n = n
  or_then-Sound value_error next s n = error-Sound

  resolve_relative-Sound :
      (module_path : String) (dir : List String)
      → Sound (resolve_relative is_file repo module_path dir)
  unfolding resolve_relative
  resolve_relative-Sound module_path dir = find_module-Sound _

  python-Sound :
      (module_path from_file : String)
      → Sound (resolve_python_import is_file repo module_path from_file)
  unfolding resolve_python_import
  python-Sound module_path from_file = elim (Bool-cases (is_stdlib module_path)) [
    | inl standard ↦ rw standard nothing-Sound
    | inr other ↦ elim (Bool-cases (starts_with_dot module_path)) [
      | inl dotted ↦ rw (other, dotted) (resolve_relative-Sound module_path _)
      | inr plain ↦
          rw (other, plain)
            (or_then-Sound _ _ (find_module-Sound _)
              (or_then-Sound _ _ (find_module-Sound _) nothing-Sound))
    ]
  ]

  find_ts-Sound : (target : List String) → Sound (find_ts is_file repo target)
  unfolding find_ts
  find_ts-Sound target = by_place (relative_to repo target) (
      first_file-Sound value_error
        (suffixed target (".ts" ∷ ".tsx" ∷ ".js" ∷ ".jsx" ∷ ".mjs" ∷ ".cjs" ∷ [])) _ error-Sound
        (first_file-Sound value_error (indexes target (".ts" ∷ ".tsx" ∷ ".js" ∷ ".jsx" ∷ []))
          unresolved error-Sound nothing-Sound))
    where
      by_place : (q : Option (List String)) {r : Resolution} → Sound r → Sound (within_repo q r)
      by_place none s = nothing-Sound
      by_place (some ks) s = s

  ts-Sound :
      (module_path from_file : String)
      → Sound (resolve_ts_import is_file repo module_path from_file)
  unfolding resolve_ts_import
  ts-Sound module_path from_file = elim (Bool-cases (starts_with_dot module_path)) [
    | inl dotted ↦ rw dotted (find_ts-Sound _)
    | inr bare ↦ rw bare nothing-Sound
  ]

  -- What an import is resolved to, of Python or of TypeScript, is the path of a file that exists in the
  -- repository, however many levels up the import goes.
  pub imports-Existing :
      (module_path from_file p : String)
      → (resolve_python_import is_file repo module_path from_file ≡ resolved p)
        ⊎ (resolve_ts_import is_file repo module_path from_file ≡ resolved p)
      → Existing p
  imports-Existing module_path from_file p (inl e) = python-Sound module_path from_file p e
  imports-Existing module_path from_file p (inr e) = ts-Sound module_path from_file p e

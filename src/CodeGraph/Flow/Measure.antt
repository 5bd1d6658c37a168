-- ===== src/CodeGraph/Flow/Measure.antt =====
-- What bounds the passes of the traversal of `trace_flow`: the frontier and the calls to names that
-- were not visited.
use simple_claude_code_githu.Prelude.{
  ℕ, suc, ◌+◌, ◌≤◌, String, ◌≡◌, refl, sym, ap, ◌∙◌, inl, inr, Bool, true, false, ◌||◌, List, [],
  ◌∷◌, length, length-append, leb, str_eq, eq_iff, eq_refl, if◌then◌else◌, Bool-cases, arith,
}
use simple_claude_code_githu.Prelude.Text.{str_elem, str_eq-sym, str_elem-append, or_comm}
use simple_claude_code_githu.Workflows.{Dict, find}
use simple_claude_code_githu.FileTree.{str_lt}
use simple_claude_code_githu.FileTree.Sources.{insert_name}
use simple_claude_code_githu.CodeGraph.{Tag, Edges, get_list}
use simple_claude_code_githu.CodeGraph.Impact.{sorted_names}
use simple_claude_code_githu.CodeGraph.Flow.{Trace, see_callee, see_callees, follow, all_callees}

-- how many of some names were not visited
unfoldable pub unvisited : List String → List String → ℕ
unvisited [] visited = 0
unvisited (x ∷ xs) visited =
    let rest = unvisited xs visited in if str_elem x visited then rest else suc rest

unvisited-more :
    (xs visited : List String) (c : String) → unvisited xs (c ∷ visited) ≤ unvisited xs visited
unfolding unvisited str_elem
unvisited-more [] visited c = omega arith
unvisited-more (x ∷ xs) visited c = elim (Bool-cases (str_elem x visited)) [
  | inl e ↦ elim (Bool-cases (str_eq c x)) [
    | inl same ↦ rw (e, same) (unvisited-more xs visited c)
    | inr other ↦ rw (e, other) (unvisited-more xs visited c)
  ]
  | inr e ↦ elim (Bool-cases (str_eq c x)) [
    | inl same ↦ rw (e, same) (omega (arith, unvisited-more xs visited c))
    | inr other ↦ rw (e, other) (omega (arith, unvisited-more xs visited c))
  ]
]

unvisited-new :
    (xs visited : List String) (c : String)
    → str_elem c xs ≡ true
    → str_elem c visited ≡ false
    → suc (unvisited xs (c ∷ visited)) ≤ unvisited xs visited
unfolding unvisited str_elem
unvisited-new [] visited c among new = cc
unvisited-new (x ∷ xs) visited c among new = elim (Bool-cases (str_eq x c)) [
  | inl same ↦
      let e : str_elem x visited ≡ false =
        ap (λ z. str_elem z visited) ((eq_iff x c).0 same) ∙ new in
      rw (e, str_eq-sym c x, same) (omega (arith, unvisited-more xs visited c))
  | inr other ↦
      let less = unvisited-new xs visited c (same_rest other among) new in
      elim (Bool-cases (str_elem x visited)) [
        | inl e ↦ rw (e, str_eq-sym c x, other) less
        | inr e ↦ rw (e, str_eq-sym c x, other) (omega (arith, less))
      ]
]
  where
    same_rest : {a b : Bool} → a ≡ false → a || b ≡ true → b ≡ true
    same_rest {a = true} f e = cc
    same_rest {a = false} f e = e

-- sorting brings no new names
insert_name-elem :
    (c x : String) (xs : List String) → str_elem c (insert_name x xs) ≡ str_elem c (x ∷ xs)
unfolding insert_name str_elem
insert_name-elem c x [] = refl
insert_name-elem c x (y ∷ ys) = elim (Bool-cases (str_lt y x)) [
  | inl e ↦ rw e (
      ap (λ b. str_eq y c || b) (insert_name-elem c x ys)
      ∙ or_swap (str_eq y c) (str_eq x c) (str_elem c ys))
  | inr e ↦ rw e refl
]
  where
    or_swap : (a b r : Bool) → a || (b || r) ≡ b || (a || r)
    or_swap true true r = refl
    or_swap true false r = refl
    or_swap false b r = refl

sorted_names-elem : (c : String) (xs : List String) → str_elem c (sorted_names xs) ≡ str_elem c xs
unfolding sorted_names str_elem
sorted_names-elem c [] = refl
sorted_names-elem c (x ∷ xs) =
    insert_name-elem c x (sorted_names xs) ∙ ap (λ b. str_eq x c || b) (sorted_names-elem c xs)

get_list-nil : (name : String) → get_list {A = String} name [] ≡ []
unfolding get_list find
get_list-nil name = refl

get_list-here :
    (caller name : String) (callees : List String) (edges : Edges)
    → str_eq caller name ≡ true
    → get_list name ((caller, callees) ∷ edges) ≡ callees
unfolding get_list find
get_list-here caller name callees edges e = rw e refl

get_list-other :
    (caller name : String) (callees : List String) (edges : Edges)
    → str_eq caller name ≡ false
    → get_list name ((caller, callees) ∷ edges) ≡ get_list name edges
unfolding get_list find
get_list-other caller name callees edges e = rw e refl

get_list-callees :
    (calls_fwd : Edges) (name c : String)
    → str_elem c (get_list name calls_fwd) ≡ true
    → str_elem c (all_callees calls_fwd) ≡ true
unfolding all_callees
get_list-callees [] name c e = ap (str_elem c) (sym (get_list-nil name)) ∙ e
get_list-callees ((caller, callees) ∷ edges) name c e = elim (Bool-cases (str_eq caller name)) [
  | inl same ↦
      let among = ap (str_elem c) (sym (get_list-here caller name callees edges same)) ∙ e in
      str_elem-append c callees (all_callees edges)
      ∙ ap (λ b. b || str_elem c (all_callees edges)) among
  | inr other ↦
      let later = ap (str_elem c) (sym (get_list-other caller name callees edges other)) ∙ e in
      str_elem-append c callees (all_callees edges)
      ∙ ap (λ b. str_elem c callees || b) (get_list-callees edges name c later)
      ∙ or_comm (str_elem c callees) true
]

unfoldable pub measure : Edges → Trace → ℕ
unfolding unvisited
measure calls_fwd t = length t.frontier + unvisited (all_callees calls_fwd) t.visited

module _ (def_cache : Dict (List Tag)) (calls_fwd : Edges) where
  see_callee-measure :
      (caller : String) (depth : ℕ) (callee : String) (t : Trace)
      → str_elem callee (all_callees calls_fwd) ≡ true
      → measure calls_fwd (see_callee def_cache caller depth callee t) ≤ measure calls_fwd t
  unfolding see_callee measure
  see_callee-measure caller depth callee t among = elim (Bool-cases (str_elem callee t.visited)) [
    | inl e ↦ rw e (omega arith)
    | inr e ↦ rw e (
        omega (
          arith,
          unvisited-new (all_callees calls_fwd) t.visited callee among e,
          length-append t.frontier ((callee, suc depth) ∷ []),
        ))
  ]

  see_callees-measure :
      (caller : String) (depth : ℕ) (callees : List String) (t : Trace)
      → ((c : String) → str_elem c callees ≡ true → str_elem c (all_callees calls_fwd) ≡ true)
      → measure calls_fwd (see_callees def_cache caller depth callees t) ≤ measure calls_fwd t
  unfolding see_callees str_elem
  see_callees-measure caller depth [] t among = omega arith
  see_callees-measure caller depth (c ∷ cs) t among =
      let here = among c (ap (λ b. b || str_elem c cs) (eq_refl c)) in
      let rest =
        see_callees-measure caller depth cs (see_callee def_cache caller depth c t)
          (λ d later. among d (ap (λ b. str_eq c d || b) later ∙ or_comm (str_eq c d) true)) in
      omega (arith, rest, see_callee-measure caller depth c t here)

  pub follow-measure :
      (max_depth : ℕ) (name : String) (depth : ℕ) (t : Trace)
      → measure calls_fwd (follow def_cache calls_fwd max_depth name depth t) ≤ measure calls_fwd t
  unfolding follow
  follow-measure max_depth name depth t = elim (Bool-cases (leb max_depth depth)) [
    | inl e ↦ rw e (omega arith)
    | inr e ↦ rw e (
        see_callees-measure name depth (sorted_names (get_list name calls_fwd)) t (λ c h.
          get_list-callees calls_fwd name c
            (sym (sorted_names-elem c (get_list name calls_fwd)) ∙ h)))
  ]

pub unvisited-length : (xs visited : List String) → unvisited xs visited ≤ length xs
unfolding unvisited
unvisited-length [] visited = omega arith
unvisited-length (x ∷ xs) visited = elim (Bool-cases (str_elem x visited)) [
  | inl e ↦ rw e (omega (arith, unvisited-length xs visited))
  | inr e ↦ rw e (omega (arith, unvisited-length xs visited))
]

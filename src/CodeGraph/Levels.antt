-- ===== src/CodeGraph/Levels.antt =====
-- The traversal of the call graph against the lengths of the shortest call paths.
pub mod Shortest
pub mod Depths
use mathlib.Core.List.{append_assoc, append-nil}
use simple_claude_code_githu.Prelude.{
  ℕ, zero, suc, ◌+◌, ◌≤◌, ◌<◌, String, ◌≡◌, refl, sym, ap, ◌∙◌, ◌⊎◌, inl, inr, ◌↔◌, Bool, true,
  false, not, ◌&&◌, ◌||◌, Option, none, some, List, [], ◌∷◌, ◌++◌, ◌==◌, if◌then◌else◌, is_empty,
  str_eq, eq_iff, Bool-cases, arith,
}
use simple_claude_code_githu.Prelude.Text.{str_elem, str_eq-sym, str_elem-append, or_false, or_comm}
use simple_claude_code_githu.Workflows.{Dict}
use simple_claude_code_githu.CodeGraph.{
  Tag, Edges, get_list, Item, items_of, Level, visit, visit_all, visit_level, Impact, put_level,
  levels_from, bfs, table, bfs_upstream, bfs_downstream, level_at,
}

-- A name that `n` calls lead to from one of the seeds.
unfoldable pub Reach : Edges → List String → ℕ → String → Type 0
Reach edges seeds zero x = str_elem x seeds ≡ true
Reach edges seeds (suc n) x =
    (y : String) × (Reach edges seeds n y × (str_elem x (get_list y edges) ≡ true))

-- `n` is the length of the shortest of the paths of calls from the seeds to the name.
unfoldable pub Distance : Edges → List String → ℕ → String → Type 0
Distance edges seeds n x = Reach edges seeds n x × ((m : ℕ) → m < n → Reach edges seeds m x → ⊥)

-- Names without a repetition.
unfoldable pub Distinct : List String → Type 0
Distinct [] = Unit
Distinct (x ∷ xs) = (str_elem x xs ≡ false) × Distinct xs

-- the entries of some names, name by name
unfoldable pub items_of_all : Dict (List Tag) → List String → List Item
unfolding items_of get_list
items_of_all def_cache [] = []
items_of_all def_cache (x ∷ xs) = items_of x (get_list x def_cache) ++ items_of_all def_cache xs

-- What a level is at any time of its run: its names were not visited before, each is there once,
-- and its entries are theirs.
pub record IsLevel (def_cache : Dict (List Tag)) (before : List String) (l : Level) : Type 0 where
  pub visited_is :
      (x : String) → str_elem x l.visited ≡ str_elem x before || str_elem x l.next_level
  pub next_is_new : (x : String) → str_elem x l.next_level ≡ true → str_elem x before ≡ false
  pub distinct : Distinct l.next_level
  pub items : l.level_items ≡ items_of_all def_cache l.next_level

items_of_all-append :
    (def_cache : Dict (List Tag)) (xs ys : List String)
    → items_of_all def_cache (xs ++ ys) ≡ items_of_all def_cache xs ++ items_of_all def_cache ys
unfolding items_of_all
items_of_all-append def_cache [] ys = refl
items_of_all-append def_cache (x ∷ xs) ys =
    ap (λ zs. items_of x (get_list x def_cache) ++ zs) (items_of_all-append def_cache xs ys)
    ∙ sym (append_assoc (items_of x (get_list x def_cache)) _ _)

-- what a test of two names says of the one in the place of the other
elem_same : (x s : String) (xs : List String) → str_eq s x ≡ true → str_elem x xs ≡ str_elem s xs
elem_same x s xs e = ap (λ z. str_elem z xs) (sym ((eq_iff s x).0 e))

or_assoc : (a b c : Bool) → (a || b) || c ≡ a || (b || c)
or_assoc true b c = refl
or_assoc false b c = refl

or_same : (a b : Bool) → (b ≡ true → a ≡ true) → a ≡ a || b
or_same true b h = refl
or_same false true h = h refl
or_same false false h = refl

Distinct-append :
    (s : String) (xs : List String) → Distinct xs → str_elem s xs ≡ false → Distinct (xs ++ s ∷ [])
unfolding Distinct str_elem
Distinct-append s [] d e = (refl, tt)
Distinct-append s (x ∷ xs) (new, d) e =
    let (other, rest) = or_false (str_eq x s) (str_elem s xs) e in
    (
      str_elem-append x xs (s ∷ []) ∙ rw (new, str_eq-sym s x, other) refl,
      Distinct-append s xs d rest,
    )

visit-visited :
    (def_cache : Dict (List Tag)) (s : String) (l : Level) (x : String)
    → str_elem x (visit def_cache s l).visited ≡ str_elem x l.visited || str_eq s x
unfolding visit str_elem
visit-visited def_cache s l x = elim (Bool-cases (str_elem s l.visited)) [
  | inl e ↦
      rw e (or_same (str_elem x l.visited) (str_eq s x) (λ same. elem_same x s l.visited same ∙ e))
  | inr e ↦ rw e (or_comm (str_eq s x) (str_elem x l.visited))
]

visit_all-visited :
    (def_cache : Dict (List Tag)) (sources : List String) (l : Level) (x : String)
    → str_elem x (visit_all def_cache sources l).visited
      ≡ str_elem x l.visited || str_elem x sources
unfolding visit_all str_elem
visit_all-visited def_cache [] l x = sym (or_comm (str_elem x l.visited) false)
visit_all-visited def_cache (s ∷ sources) l x =
    visit_all-visited def_cache sources (visit def_cache s l) x
    ∙ ap (λ b. b || str_elem x sources) (visit-visited def_cache s l x)
    ∙ or_assoc (str_elem x l.visited) (str_eq s x) (str_elem x sources)

-- Some name of a level calls the name (or is called by it, on the reversed edges).
unfoldable pub any_call : Edges → List String → String → Bool
any_call edges [] x = false
any_call edges (c ∷ cs) x = str_elem x (get_list c edges) || any_call edges cs x

pub visit_level-visited :
    (def_cache : Dict (List Tag)) (edges : Edges) (current : List String) (l : Level) (x : String)
    → str_elem x (visit_level def_cache edges current l).visited
      ≡ str_elem x l.visited || any_call edges current x
unfolding visit_level any_call
visit_level-visited def_cache edges [] l x = sym (or_comm (str_elem x l.visited) false)
visit_level-visited def_cache edges (c ∷ cs) l x =
    visit_level-visited def_cache edges cs (visit_all def_cache (get_list c edges) l) x
    ∙ ap (λ b. b || any_call edges cs x) (visit_all-visited def_cache (get_list c edges) l x)
    ∙ or_assoc (str_elem x l.visited) (str_elem x (get_list c edges)) (any_call edges cs x)

or_shuffle : (q a n : Bool) → q || (a || n) ≡ a || (n || (q || false))
or_shuffle true true n = refl
or_shuffle true false true = refl
or_shuffle true false false = refl
or_shuffle false a true = refl
or_shuffle false a false = refl

-- a member of a list with one more entry
last_or :
    (x s : String) (xs : List String)
    → str_elem x (xs ++ s ∷ []) ≡ true
    → (str_elem x xs ≡ true) ⊎ (str_eq s x ≡ true)
unfolding str_elem
last_or x s xs h = elim (Bool-cases (str_elem x xs)) [
  | inl e ↦ inl e
  | inr e ↦ inr (
      sym (or_comm (str_eq s x) false)
      ∙ ap (λ b. b || (str_eq s x || false)) (sym e)
      ∙ sym (str_elem-append x xs (s ∷ []))
      ∙ h)
]

module _ (def_cache : Dict (List Tag)) (before : List String) where
  IsLevel-visit :
      (s : String) (l : Level)
      → IsLevel def_cache before l
      → IsLevel def_cache before (visit def_cache s l)
  unfolding visit str_elem items_of_all
  IsLevel-visit s l i = elim (Bool-cases (str_elem s l.visited)) [
    | inl e ↦ rw e i
    | inr e ↦
        let (old, new) =
          or_false (str_elem s before) (str_elem s l.next_level) (sym (i.visited_is s) ∙ e) in
        rw e (record {
          visited_is = λ x.
              ap (λ b. str_eq s x || b) (i.visited_is x)
              ∙ or_shuffle (str_eq s x) (str_elem x before) (str_elem x l.next_level)
              ∙ ap (λ b. str_elem x before || b) (sym (str_elem-append x l.next_level (s ∷ [])));
          next_is_new = λ x h. elim (last_or x s l.next_level h) [
            | inl e ↦ i.next_is_new x e
            | inr e ↦ elem_same x s before e ∙ old
          ];
          distinct = Distinct-append s l.next_level i.distinct new;
          items =
              ap (λ is. is ++ items_of s (get_list s def_cache)) i.items
              ∙ ap (λ is. items_of_all def_cache l.next_level ++ is)
                  (sym (append-nil (items_of s (get_list s def_cache))))
              ∙ sym (items_of_all-append def_cache l.next_level (s ∷ []));
        })
  ]

  IsLevel-visit_all :
      (sources : List String) (l : Level)
      → IsLevel def_cache before l
      → IsLevel def_cache before (visit_all def_cache sources l)
  unfolding visit_all
  IsLevel-visit_all [] l i = i
  IsLevel-visit_all (s ∷ sources) l i =
      IsLevel-visit_all sources (visit def_cache s l) (IsLevel-visit s l i)

  pub IsLevel-visit_level :
      (edges : Edges) (current : List String) (l : Level)
      → IsLevel def_cache before l
      → IsLevel def_cache before (visit_level def_cache edges current l)
  unfolding visit_level
  IsLevel-visit_level edges [] l i = i
  IsLevel-visit_level edges (c ∷ cs) l i =
      IsLevel-visit_level edges cs (visit_all def_cache (get_list c edges) l)
        (IsLevel-visit_all (get_list c edges) l i)

-- ===== src/CodeGraph/Levels/Shortest.antt =====
-- The levels that the traversal finds are those of the shortest paths.
use simple_claude_code_githu.Prelude.{
  ℕ, suc, ◌≤◌, ◌<◌, String, ◌≡◌, refl, sym, ap, ◌∙◌, ◌⊎◌, inl, inr, Bool, true, false, ◌||◌, List,
  [], ◌∷◌, str_eq, eq_iff, eq_refl, leb, leb→le, leb→gt, subst, Bool-cases, arith,
}
use simple_claude_code_githu.Prelude.Text.{str_elem, or_true, or_comm}
use simple_claude_code_githu.Workflows.{Dict}
use simple_claude_code_githu.CodeGraph.{Tag, Edges, get_list, Level, visit_level}
use simple_claude_code_githu.CodeGraph.Levels.{
  Reach, Distance, Distinct, items_of_all, IsLevel, any_call, visit_level-visited,
  IsLevel-visit_level,
}

any_call-caller :
    (edges : Edges) (current : List String) (x : String)
    → any_call edges current x ≡ true
    → (y : String) × ((str_elem y current ≡ true) × (str_elem x (get_list y edges) ≡ true))
unfolding any_call str_elem
any_call-caller edges [] x e = cc
any_call-caller edges (c ∷ cs) x e = elim (or_true _ (any_call edges cs x) e) [
  | inl here ↦ (c, (ap (λ b. b || str_elem c cs) (eq_refl c), here))
  | inr there ↦
      let (y, (among, calls)) = any_call-caller edges cs x there in
      (y, (ap (λ b. str_eq c y || b) among ∙ or_comm (str_eq c y) true, calls))
]

caller-any_call :
    (edges : Edges) (current : List String) (x y : String)
    → str_elem y current ≡ true
    → str_elem x (get_list y edges) ≡ true
    → any_call edges current x ≡ true
unfolding any_call str_elem
caller-any_call edges [] x y among calls = cc
caller-any_call edges (c ∷ cs) x y among calls = elim (or_true (str_eq c y) (str_elem y cs) among) [
  | inl same ↦
      ap (λ z. str_elem x (get_list z edges) || any_call edges cs x) ((eq_iff c y).0 same)
      ∙ ap (λ b. b || any_call edges cs x) calls
  | inr later ↦
      ap (λ b. str_elem x (get_list c edges) || b) (caller-any_call edges cs x y later calls)
      ∙ or_comm (str_elem x (get_list c edges)) true
]

below_or_equal : (m n : ℕ) → m ≤ suc n → (m ≤ n) ⊎ (m ≡ suc n)
below_or_equal m n h = elim (Bool-cases (leb m n)) [
  | inl e ↦ inl (leb→le m n e)
  | inr e ↦ let l : n < m = leb→gt m n e in inr (omega (arith, l, h))
]

-- the second parts of two equal alternatives whose common first part is false
same_side : (v n a : Bool) → v ≡ false → v || n ≡ v || a → n ≡ a
same_side true n a f e = cc
same_side false n a f e = e

module _ (def_cache : Dict (List Tag)) (edges : Edges) (seeds : List String) where
  -- What the traversal knows after `depth` levels.
  pub record Frontier (depth : ℕ) (visited current : List String) : Type 0 where
    seen :
        (x : String) → str_elem x visited ≡ true → (m : ℕ) × ((m ≤ depth) × Reach edges seeds m x)
    reached : (x : String) (m : ℕ) → m ≤ depth → Reach edges seeds m x → str_elem x visited ≡ true
    at_distance : (x : String) → str_elem x current ≡ true → Distance edges seeds depth x
    is_current : (x : String) → Distance edges seeds depth x → str_elem x current ≡ true

  unfoldable pub start : List String → Level
  start visited = record { visited = visited; next_level = []; level_items = [] }

  unfoldable pub level_of : List String → List String → Level
  level_of visited current = visit_level def_cache edges current (start visited)

  pub IsLevel-level_of :
      (visited current : List String) → IsLevel def_cache visited (level_of visited current)
  unfolding level_of start items_of_all Distinct str_elem
  IsLevel-level_of visited current =
      IsLevel-visit_level def_cache visited edges current (start visited) (record {
        visited_is = λ x. sym (or_comm (str_elem x visited) false);
        next_is_new = λ x h. cc;
        distinct = tt;
        items = refl;
      })

  pub Distance-Reach : (n : ℕ) (x : String) → Distance edges seeds n x → Reach edges seeds n x
  unfolding Distance
  Distance-Reach n x d = d.0

  pub Reach-at : (x : String) (m n : ℕ) → m ≡ n → Reach edges seeds m x → Reach edges seeds n x
  Reach-at x m n e = subst (λ k. Reach edges seeds k x) e

  -- the last caller on a shortest path is at the distance before
  Distance-caller :
      (n : ℕ) (x y : String)
      → Distance edges seeds (suc n) x
      → Reach edges seeds n y
      → str_elem x (get_list y edges) ≡ true
      → Distance edges seeds n y
  unfolding Distance Reach
  Distance-caller n x y far near calls =
      (near, λ m less shorter. far.1 (suc m) (omega (arith, less)) (y, (shorter, calls)))

  module _ (depth : ℕ) (visited current : List String) (f : Frontier depth visited current) where
    next-new :
        (x : String)
        → str_elem x (level_of visited current).next_level ≡ true
        → str_elem x visited ≡ false
    next-new x h = (IsLevel-level_of visited current).next_is_new x h

    new_called :
        (x : String)
        → str_elem x visited ≡ false
        → str_elem x (level_of visited current).next_level ≡ any_call edges current x
    unfolding level_of start
    new_called x new = same_side (str_elem x visited) _ _ new (
        sym ((IsLevel-level_of visited current).visited_is x)
        ∙ visit_level-visited def_cache edges current (start visited) x)

    pub next-Distance :
        (x : String)
        → str_elem x (level_of visited current).next_level ≡ true
        → Distance edges seeds (suc depth) x
    unfolding Distance Reach
    next-Distance x h =
        let new = next-new x h in
        let (y, (among, calls)) = any_call-caller edges current x (sym (new_called x new) ∙ h) in
        (
          (y, ((f.at_distance y among).0, calls)),
          λ m less shorter. cc (f.reached x m (omega (arith, less)) shorter, new),
        )

    Distance-new : (x : String) → Distance edges seeds (suc depth) x → str_elem x visited ≡ false
    unfolding Distance
    Distance-new x d = elim (Bool-cases (str_elem x visited)) [
      | inr e ↦ e
      | inl e ↦ let (m, (near, r)) = f.seen x e in absurd (d.1 m (omega (arith, near)) r)
    ]

    pub Distance-next :
        (x : String)
        → Distance edges seeds (suc depth) x
        → str_elem x (level_of visited current).next_level ≡ true
    unfolding Distance Reach
    Distance-next x d =
        let (y, (near, calls)) = d.0 in
        new_called x (Distance-new x d)
        ∙ caller-any_call edges current x y
            (f.is_current y (Distance-caller depth x y d near calls)) calls

    level_of-visited :
        (x : String)
        → str_elem x (level_of visited current).visited
          ≡ str_elem x visited || str_elem x (level_of visited current).next_level
    level_of-visited = (IsLevel-level_of visited current).visited_is

    not_seen :
        (x : String) (m : ℕ) → m ≤ depth → str_elem x visited ≡ false → Reach edges seeds m x → ⊥
    not_seen x m near new r = cc (f.reached x m near r, new)

    first-Reach :
        (x : String)
        → str_elem x visited ≡ false
        → Reach edges seeds (suc depth) x
        → Distance edges seeds (suc depth) x
    unfolding Distance
    first-Reach x new r = (r, λ m less. not_seen x m (omega (arith, less)) new)

    reached_later :
        (x : String) (m : ℕ)
        → m ≤ suc depth
        → Reach edges seeds m x
        → str_elem x (level_of visited current).visited ≡ true
    reached_later x m le r = elim (Bool-cases (str_elem x visited)) [
      | inl e ↦
          level_of-visited x ∙ ap (λ b. b || str_elem x (level_of visited current).next_level) e
      | inr new ↦ elim (below_or_equal m depth le) [
        | inl near ↦ absurd (not_seen x m near new r)
        | inr far ↦
            let here = Reach-at x m (suc depth) far r in
            let next = Distance-next x (first-Reach x new here) in
            level_of-visited x
            ∙ ap (λ b. str_elem x visited || b) next
            ∙ or_comm (str_elem x visited) true
      ]
    ]

    pub Frontier-step :
        Frontier
          (suc depth)
          (level_of visited current).visited
          (level_of visited current).next_level
    Frontier-step = record {
      seen = λ x h. elim (or_true _ _ (sym (level_of-visited x) ∙ h)) [
        | inl e ↦ let (m, (near, r)) = f.seen x e in (m, (omega (arith, near), r))
        | inr e ↦ (suc depth, (omega arith, Distance-Reach (suc depth) x (next-Distance x e)))
      ];
      reached = reached_later;
      at_distance = next-Distance;
      is_current = Distance-next;
    }

  pub Frontier-seeds : Frontier 0 seeds seeds
  unfolding Reach Distance
  Frontier-seeds = record {
    seen = λ x h. (0, (omega arith, h));
    reached = λ x m le r. Reach-at x m 0 (omega (arith, le)) r;
    at_distance = λ x h. (h, λ m less r. absurd (omega (arith, less)));
    is_current = λ x d. d.0;
  }

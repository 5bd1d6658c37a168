-- ===== src/CodeGraph/Levels/Depths.antt =====
-- What the traversal of the call graph shows at each depth.
use simple_claude_code_githu.Prelude.{
  ℕ, zero, suc, ◌+◌, ◌≤◌, ◌<◌, String, ◌≡◌, refl, sym, ap, ◌∙◌, inl, inr, ◌↔◌, true, false, List,
  [], ◌∷◌, ◌==◌, ◌||◌, subst, if◌then◌else◌, is_empty, eq_refl, Bool-cases, arith,
}
use simple_claude_code_githu.Prelude.Text.{str_elem}
use simple_claude_code_githu.Workflows.{Dict}
use simple_claude_code_githu.CodeGraph.{
  Tag, Edges, Item, visit_level, Impact, put_level, levels_from, bfs, table, bfs_upstream,
  bfs_downstream, level_at,
}
use simple_claude_code_githu.CodeGraph.Levels.{Distance, Distinct, items_of_all}
use simple_claude_code_githu.CodeGraph.Levels.Shortest.{
  Frontier, start, level_of, IsLevel-level_of, next-Distance, Distance-next, Frontier-step,
  Frontier-seeds,
}

-- without names there are no levels
levels_from-nil :
    (def_cache : Dict (List Tag)) (edges : Edges) (left depth : ℕ) (visited : List String)
    → levels_from def_cache edges left depth visited [] ≡ []
unfolding levels_from visit_level put_level
levels_from-nil def_cache edges zero depth visited = refl
levels_from-nil def_cache edges (suc left) depth visited = refl

if_nil :
    (xs : List String) (rest : List String → Impact)
    → rest [] ≡ []
    → (if is_empty xs then [] else rest xs) ≡ rest xs
if_nil [] rest e = sym e
if_nil (x ∷ xs) rest e = refl

one_more : (m n : ℕ) → m ≤ n → (m == n) ≡ false → suc m ≤ n
one_more m n le e = ground arith

no_names : (names : List String) → ((x : String) → str_elem x names ≡ true → ⊥) → names ≡ []
unfolding str_elem
no_names [] none_in = refl
no_names (x ∷ xs) none_in = absurd (none_in x (ap (λ b. b || str_elem x xs) (eq_refl x)))

level_at-here :
    (depth : ℕ) (items : List Item) (rest : Impact)
    → level_at depth rest ≡ []
    → level_at depth (put_level depth items rest) ≡ items
unfolding level_at put_level
level_at-here depth [] rest e = e
level_at-here depth (i ∷ is) rest e =
    let same : (depth == depth) ≡ true = ground arith in rw same refl

level_at-other :
    (d depth : ℕ) (items : List Item) (rest : Impact)
    → (depth == d) ≡ false
    → level_at d (put_level depth items rest) ≡ level_at d rest
unfolding level_at put_level
level_at-other d depth [] rest e = refl
level_at-other d depth (i ∷ is) rest e = rw e refl

module _ (def_cache : Dict (List Tag)) (edges : Edges) (seeds : List String) where
  -- What the traversal shows at a depth: the names at that distance, within the bounds.
  unfoldable pub Shown : ℕ → ℕ → ℕ → Impact → Type 0
  Shown first last depth impact =
      (names : List String) × (Distinct names
        × (((x : String)
              → str_elem x names ≡ true
                ↔ ((first ≤ depth) × ((depth ≤ last) × Distance edges seeds depth x)))
            × (level_at depth impact ≡ items_of_all def_cache names)))

  -- below the first depth there is nothing
  Shown-below :
      (first last depth : ℕ) (impact : Impact)
      → depth < first
      → Shown first last depth impact
      → level_at depth impact ≡ []
  unfolding Shown items_of_all
  Shown-below first last depth impact less (names, (distinct, (here, at))) =
      at
      ∙ ap (items_of_all def_cache)
          (no_names names (λ x h. let low = ((here x).0 h).0 in absurd (omega (arith, less, low))))

  module _ (first last : ℕ) (visited current : List String) (rest : Impact) (le : suc first ≤ last)
      (f : Frontier def_cache edges seeds first visited current)
      (shown : (e : ℕ) → Shown (suc (suc first)) last e rest) where
    here-Shown :
        Shown
          (suc first)
          last
          (suc first)
          (put_level (suc first) (level_of def_cache edges seeds visited current).level_items rest)
    unfolding Shown
    here-Shown =
        let l = level_of def_cache edges seeds visited current in
        let level = IsLevel-level_of def_cache edges seeds visited current in
        (
          l.next_level,
          (
            level.distinct,
            (
              λ x. (
                (λ h. (
                  omega arith,
                  (le, next-Distance def_cache edges seeds first visited current f x h),
                )),
                (λ (low, (high, d)).
                    Distance-next def_cache edges seeds first visited current f x d),
              ),
              level_at-here (suc first) l.level_items rest (
                    Shown-below (suc (suc first)) last (suc first) rest (omega arith)
                      (shown (suc first)))
                  ∙ level.items,
            ),
          ),
        )

  -- one more level in front
  Shown-put_level :
      (first last d : ℕ) (visited current : List String) (rest : Impact)
      → suc first ≤ last
      → Frontier def_cache edges seeds first visited current
      → ((e : ℕ) → Shown (suc (suc first)) last e rest)
      → Shown
          (suc first)
          last
          d
          (put_level (suc first) (level_of def_cache edges seeds visited current).level_items rest)
  unfolding Shown
  Shown-put_level first last d visited current rest le f shown =
      elim (Bool-cases (suc first == d)) [
        | inl same ↦
            let here : suc first ≡ d = ground (arith, same) in
            subst
              (λ n. Shown (suc first) last n (
                put_level (suc first) (level_of def_cache edges seeds visited current).level_items
                  rest))
              {x = suc first} {y = d} here (here-Shown first last visited current rest le f shown)
        | inr other ↦
            let (names, (distinct, (inside, at))) = shown d in
            (
              names,
              (
                distinct,
                (
                  λ x. (
                    (λ h. let (low, rest_of) = (inside x).0 h in (omega (arith, low), rest_of)),
                    (λ (low, more). (inside x).1 (one_more (suc first) d low other, more)),
                  ),
                  level_at-other d (suc first) _ rest other ∙ at,
                ),
              ),
            )
      ]

  levels_from-Shown :
      (left depth last d : ℕ) (visited current : List String)
      → depth + left ≡ last
      → Frontier def_cache edges seeds depth visited current
      → Shown (suc depth) last d (levels_from def_cache edges left (suc depth) visited current)
  unfolding levels_from level_of start Shown level_at items_of_all Distinct str_elem
  levels_from-Shown zero depth last d visited current e f = (
    [],
    (tt, (λ x. ((λ h. cc), (λ (low, (high, dist)). absurd (omega (arith, e, low, high)))), refl)),
  )
  levels_from-Shown (suc left) depth last d visited current e f =
      let l = level_of def_cache edges seeds visited current in
      rw
        (if_nil l.next_level (λ xs. levels_from def_cache edges left (suc (suc depth)) l.visited xs)
          (levels_from-nil def_cache edges left (suc (suc depth)) l.visited))
        (Shown-put_level depth last d visited current
          (levels_from def_cache edges left (suc (suc depth)) l.visited l.next_level)
          (omega (arith, e)) f
          (λ n.
            levels_from-Shown left (suc depth) last n l.visited l.next_level (omega (arith, e))
              (Frontier-step def_cache edges seeds depth visited current f)))

bfs-Shown :
    (def_cache : Dict (List Tag)) (edges : Edges) (seeds : List String) (max_depth depth : ℕ)
    → Shown def_cache edges seeds 1 max_depth depth (bfs def_cache edges seeds max_depth)
unfolding bfs
bfs-Shown def_cache edges seeds max_depth depth =
    levels_from-Shown def_cache edges seeds max_depth 0 max_depth depth seeds seeds (omega arith)
      (Frontier-seeds def_cache edges seeds)

-- At each depth from 1 to the greatest one, and at no other, the impact has the entries of exactly
-- the names for which that depth is the length of the shortest path of calls from the seeds, each
-- name once: upstream along the reversed edges, downstream along the edges.
pub bfs-Shortest :
    (def_cache : Dict (List Tag)) (edge_fwd edge_rev : Dict Edges) (seeds : List String)
    (max_depth depth : ℕ)
    → Shown def_cache
        (table "calls" edge_rev)
        seeds
        1
        max_depth
        depth
        (bfs_upstream def_cache seeds max_depth edge_rev)
      × Shown def_cache
          (table "calls" edge_fwd)
          seeds
          1
          max_depth
          depth
          (bfs_downstream def_cache seeds max_depth edge_fwd)
unfolding bfs_upstream bfs_downstream
bfs-Shortest def_cache edge_fwd edge_rev seeds max_depth depth = (
  bfs-Shown def_cache (table "calls" edge_rev) seeds max_depth depth,
  bfs-Shown def_cache (table "calls" edge_fwd) seeds max_depth depth,
)

-- ===== src/FileTree/Budget.antt =====
-- How many lines a tree has.
use Prim.Native.String.{◌++◌ as str_append}
use simple_claude_code_githu.Prelude.{
  ℕ, zero, suc, ◌+◌, ◌≤◌, ◌<◌, String, ◌≡◌, refl, inl, inr, Bool, true, ◌||◌, not, List, [], ◌∷◌,
  leb, length, length-append, Bool-cases, arith, leb→le, leb→gt, is_empty,
}
use simple_claude_code_githu.FileTree.{
  Entry, entry_name, file, directory, TreeState, add_line, add_entry, Walk, show_entry,
  walk_entries, walk, visible, sorted, iterdir, tree_state,
}

module _ (lower : String → String) (is_ignored : String → Bool → Bool) (max_entries : ℕ) where
  -- From one state to a later one: as many more lines as there are more entries, and where the
  -- budget is used up, one line more at most for each of some levels.
  record Grows (levels : ℕ) (st st' : TreeState) : Type 0 where
    within : st'.entry_count ≤ max_entries
    more : st.entry_count ≤ st'.entry_count
    exact :
        st'.entry_count < max_entries
        → length st'.lines + st.entry_count ≡ length st.lines + st'.entry_count
    bounded : length st'.lines + st.entry_count ≤ length st.lines + st'.entry_count + levels

  Budgeted : ℕ → Walk lower is_ignored max_entries → Type 0
  Budgeted levels walk_dir =
      (e : Entry) (prefix rel_prefix : String) (st : TreeState)
      → st.entry_count ≤ max_entries
      → Grows levels st (walk_dir e prefix rel_prefix st)

  still : (levels : ℕ) (st : TreeState) → st.entry_count ≤ max_entries → Grows levels st st
  still levels st l = record {
    within = l;
    more = omega arith;
    exact = λ _. refl;
    bounded = omega arith;
  }

  entry-Grows :
      (levels : ℕ) (line : String) (st : TreeState)
      → st.entry_count < max_entries
      → Grows levels st (add_entry line st)
  entry-Grows levels line st l =
      let longer = length-append st.lines (line ∷ []) in
      record {
        within = omega (arith, l);
        more = omega arith;
        exact = λ _. omega (arith, longer);
        bounded = omega (arith, longer);
      }

  -- after one more entry
  after_entry :
      (levels : ℕ) (line : String) (st st' : TreeState)
      → Grows levels (add_entry line st) st'
      → Grows levels st st'
  after_entry levels line st st' g =
      let longer = length-append st.lines (line ∷ []) in
      record {
        within = g.within;
        more = omega (arith, g.more);
        exact = λ l. omega (arith, longer, g.exact l);
        bounded = omega (arith, longer, g.bounded);
      }

  show_entry-Grows :
      (levels : ℕ) (walk_dir : Walk lower is_ignored max_entries)
      → Budgeted levels walk_dir
      → (e : Entry) (is_last : Bool) (prefix rel_prefix : String) (st : TreeState)
      → st.entry_count < max_entries
      → Grows levels st
          (show_entry lower is_ignored max_entries walk_dir e is_last prefix rel_prefix st)
  unfolding Budgeted
  show_entry-Grows levels walk_dir b (file name) is_last prefix rel_prefix st l =
      entry-Grows levels _ st l
  show_entry-Grows levels walk_dir b (directory name readable es) is_last prefix rel_prefix st l =
      after_entry levels _ st _ (b (directory name readable es) _ _ _ (omega (arith, l)))

  -- a loop that finds the budget used up
  full_loop :
      (walk_dir : Walk lower is_ignored max_entries) (es : List Entry) (prefix rel_prefix : String)
      (st : TreeState)
      → max_entries ≤ st.entry_count
      → ((walk_entries lower is_ignored max_entries walk_dir es prefix rel_prefix st).entry_count
          ≡ st.entry_count)
        × (length (walk_entries lower is_ignored max_entries walk_dir es prefix rel_prefix st).lines
            ≤ length st.lines + 1)
  unfolding walk_entries
  full_loop walk_dir [] prefix rel_prefix st l = (refl, omega arith)
  full_loop walk_dir (e ∷ es) prefix rel_prefix st l =
      let full : leb max_entries st.entry_count ≡ true = ground arith in
      rw full (refl, omega (arith, length-append st.lines (_ ∷ [])))

  join_full :
      (levels : ℕ) (st st₁ st₂ : TreeState)
      → Grows levels st st₁
      → max_entries ≤ st₁.entry_count
      → st₂.entry_count ≡ st₁.entry_count
      → length st₂.lines ≤ length st₁.lines + 1
      → Grows (suc levels) st st₂
  join_full levels st st₁ st₂ g l same one = record {
    within = omega (arith, g.within, same);
    more = omega (arith, g.more, same);
    exact = λ s. absurd (omega (arith, l, same, s));
    bounded = omega (arith, g.bounded, same, one);
  }

  join_open :
      (levels : ℕ) (st st₁ st₂ : TreeState)
      → Grows levels st st₁
      → st₁.entry_count < max_entries
      → Grows (suc levels) st₁ st₂
      → Grows (suc levels) st st₂
  join_open levels st st₁ st₂ g l h =
      let so_far = g.exact l in
      record {
        within = h.within;
        more = omega (arith, g.more, h.more);
        exact = λ s. omega (arith, so_far, h.exact s);
        bounded = omega (arith, so_far, h.bounded);
      }

  -- the state after the first of some entries
  abbrev shown :
      Walk lower is_ignored max_entries
      → Entry
      → List Entry
      → String
      → String
      → TreeState
      → TreeState
  shown walk_dir e es prefix rel_prefix st =
      show_entry lower is_ignored max_entries walk_dir e (is_empty es) prefix rel_prefix st

  add_line-Grows :
      (levels : ℕ) (line : String) (st : TreeState)
      → st.entry_count ≤ max_entries
      → max_entries ≤ st.entry_count
      → Grows (suc levels) st (add_line line st)
  add_line-Grows levels line st l full =
      join_full levels st st _ (still levels st l) full refl
        (omega (arith, length-append st.lines (line ∷ [])))

  walk_entries-Grows :
      (levels : ℕ) (walk_dir : Walk lower is_ignored max_entries)
      → Budgeted levels walk_dir
      → (es : List Entry) (prefix rel_prefix : String) (st : TreeState)
      → st.entry_count ≤ max_entries
      → Grows
          (suc levels)
          st
          (walk_entries lower is_ignored max_entries walk_dir es prefix rel_prefix st)
  unfolding walk_entries
  walk_entries-Grows levels walk_dir b [] prefix rel_prefix st l = still (suc levels) st l
  walk_entries-Grows levels walk_dir b (e ∷ es) prefix rel_prefix st l =
      elim (Bool-cases (leb max_entries st.entry_count)) [
        | inl full ↦ rw full (add_line-Grows levels _ st l (leb→le _ _ full))
        | inr room ↦
            let g =
              show_entry-Grows levels walk_dir b e (is_empty es) prefix rel_prefix st
                (leb→gt _ _ room) in
            rw room
              (elim (Bool-cases
                (leb max_entries (shown walk_dir e es prefix rel_prefix st).entry_count)) [
                  | inl used ↦
                      let (same, one) =
                        full_loop walk_dir es prefix rel_prefix
                          (shown walk_dir e es prefix rel_prefix st) (leb→le _ _ used) in
                      join_full levels st _ _ g (leb→le _ _ used) same one
                  | inr open_still ↦
                      join_open levels st _ _ g (leb→gt _ _ open_still)
                        (walk_entries-Grows levels walk_dir b es prefix rel_prefix _ g.within)
                ])
      ]

  walk-Grows : (levels : ℕ) → Budgeted levels (walk lower is_ignored max_entries levels)
  unfolding walk Budgeted
  walk-Grows zero e prefix rel_prefix st l = still 0 st l
  walk-Grows (suc levels) (file name) prefix rel_prefix st l = still (suc levels) st l
  walk-Grows (suc levels) (directory name readable es) prefix rel_prefix st l =
      elim (Bool-cases (leb max_entries st.entry_count || not readable)) [
        | inl stop ↦ rw stop (still (suc levels) st l)
        | inr goes ↦ rw goes (
            walk_entries-Grows levels _ (walk-Grows levels)
              (visible is_ignored rel_prefix (sorted lower (iterdir es))) prefix rel_prefix st l)
      ]

  abbrev pub tree : ℕ → Entry → TreeState
  tree max_depth repo = tree_state lower is_ignored max_entries max_depth repo

  tree-Grows :
      (max_depth : ℕ) (repo : Entry)
      → Grows max_depth
          (record { lines = str_append (entry_name repo) "/" ∷ []; entry_count = 0 })
          (tree max_depth repo)
  unfolding tree_state Budgeted
  tree-Grows max_depth repo = walk-Grows max_depth repo "" "" _ (omega arith)

  -- A tree lists at most `max_entries` entries, and has besides them at most one line for its root
  -- and one for each level of directories.
  pub tree_state-bounds :
      (max_depth : ℕ) (repo : Entry)
      → ((tree max_depth repo).entry_count ≤ max_entries)
        × (length (tree max_depth repo).lines ≤ 1 + (tree max_depth repo).entry_count + max_depth)
  tree_state-bounds max_depth repo =
      let g = tree-Grows max_depth repo in (g.within, omega (arith, g.bounded))

  -- A tree with fewer entries than `max_entries` has one line for each of them and one for its root, and
  -- so no note of a truncation.
  pub tree_state-exact :
      (max_depth : ℕ) (repo : Entry)
      → (tree max_depth repo).entry_count < max_entries
      → length (tree max_depth repo).lines ≡ 1 + (tree max_depth repo).entry_count
  tree_state-exact max_depth repo l = omega (arith, (tree-Grows max_depth repo).exact l)

-- ===== src/CodeGraph/DefinitionMap.antt =====
-- The end of `_build_definition_map` of shared/code_graph.py: the definitions that the queries and the
-- walk of the tree have found, in the order of their first bytes and each once. What they find is a
-- parameter.
use simple_claude_code_githu.Prelude.{
  ℕ, ◌≤◌, inl, inr, Bool, false, ◌&&◌, ◌||◌, List, [], ◌∷◌, leb, leb→le, leb→gt, str_eq, ◌==◌,
  if◌then◌else◌, All, Bool-cases, arith,
}
use simple_claude_code_githu.CodeGraph.Enclosing.{
  Span, DefEntry, SortedByStart, Tightest, find_enclosing_def, find_enclosing_def-Tightest,
}

-- `sorted(entries, key=lambda e: e[0])`, which keeps the order of equal keys
unfoldable insert_by_start : DefEntry → List DefEntry → List DefEntry
insert_by_start e [] = e ∷ []
insert_by_start e (d ∷ ds) =
    let rest = insert_by_start e ds in
    if leb e.span.start_byte d.span.start_byte then e ∷ d ∷ ds else d ∷ rest

unfoldable sort_by_start : List DefEntry → List DefEntry
unfolding insert_by_start
sort_by_start [] = []
sort_by_start (e ∷ es) = insert_by_start e (sort_by_start es)

-- the equality of the keys of `seen`
same_entry : DefEntry → DefEntry → Bool
same_entry a b =
    (a.span.start_byte == b.span.start_byte)
    && (a.span.end_byte == b.span.end_byte)
    && str_eq a.name b.name

unfoldable was_seen : DefEntry → List DefEntry → Bool
unfolding same_entry
was_seen e [] = false
was_seen e (s ∷ seen) = same_entry s e || was_seen e seen

unfoldable unique_entries : List DefEntry → List DefEntry → List DefEntry
unfolding was_seen
unique_entries seen [] = []
unique_entries seen (e ∷ es) =
    let skipped = unique_entries seen es in
    let kept = unique_entries (e ∷ seen) es in if was_seen e seen then skipped else e ∷ kept

pub definition_map : List DefEntry → List DefEntry
unfolding sort_by_start unique_entries
definition_map entries = unique_entries [] (sort_by_start entries)

After : ℕ → DefEntry → Type 0
After n e = n ≤ e.span.start_byte

All-insert :
    (n : ℕ) (e : DefEntry) (ds : List DefEntry)
    → After n e
    → All (After n) ds
    → All (After n) (insert_by_start e ds)
unfolding insert_by_start
All-insert n e [] here all = (here, tt)
All-insert n e (d ∷ ds) here (first, all) =
    elim (Bool-cases (leb e.span.start_byte d.span.start_byte)) [
      | inl le ↦ rw le (here, (first, all))
      | inr gt ↦ rw gt (first, All-insert n e ds here all)
    ]

All-later : (m n : ℕ) (ds : List DefEntry) → m ≤ n → All (After n) ds → All (After m) ds
unfolding After
All-later m n [] le all = tt
All-later m n (d ∷ ds) le (first, all) = (omega (arith, le, first), All-later m n ds le all)

insert-Sorted :
    (e : DefEntry) (ds : List DefEntry) → SortedByStart ds → SortedByStart (insert_by_start e ds)
unfolding insert_by_start SortedByStart After
insert-Sorted e [] sorted = (tt, tt)
insert-Sorted e (d ∷ ds) (first, sorted) =
    elim (Bool-cases (leb e.span.start_byte d.span.start_byte)) [
      | inl h ↦
          let le = leb→le e.span.start_byte d.span.start_byte h in
          rw h ((le, All-later e.span.start_byte d.span.start_byte ds le first), (first, sorted))
      | inr h ↦
          let gt = leb→gt e.span.start_byte d.span.start_byte h in
          rw h
            (All-insert d.span.start_byte e ds (omega (arith, gt)) first, insert-Sorted e ds sorted)
    ]

sort-Sorted : (es : List DefEntry) → SortedByStart (sort_by_start es)
unfolding sort_by_start SortedByStart
sort-Sorted [] = tt
sort-Sorted (e ∷ es) = insert-Sorted e (sort_by_start es) (sort-Sorted es)

All-unique :
    (n : ℕ) (seen es : List DefEntry) → All (After n) es → All (After n) (unique_entries seen es)
unfolding unique_entries
All-unique n seen [] all = tt
All-unique n seen (e ∷ es) (here, all) = elim (Bool-cases (was_seen e seen)) [
  | inl h ↦ rw h (All-unique n seen es all)
  | inr h ↦ rw h (here, All-unique n (e ∷ seen) es all)
]

unique-Sorted :
    (seen es : List DefEntry) → SortedByStart es → SortedByStart (unique_entries seen es)
unfolding unique_entries SortedByStart After
unique-Sorted seen [] sorted = tt
unique-Sorted seen (e ∷ es) (first, sorted) = elim (Bool-cases (was_seen e seen)) [
  | inl h ↦ rw h (unique-Sorted seen es sorted)
  | inr h ↦
      rw h (All-unique e.span.start_byte (e ∷ seen) es first, unique-Sorted (e ∷ seen) es sorted)
]

-- Whatever definitions were found in a file, and in whatever order, the name that is given for a
-- node is that of an entry of the map that contains the node, and no entry that contains it is
-- smaller; there is no name only if no entry contains it.
pub find_enclosing_def-smallest :
    (entries : List DefEntry) (node : Span)
    → Tightest node (definition_map entries) (find_enclosing_def (definition_map entries) node)
unfolding definition_map
find_enclosing_def-smallest entries node =
    find_enclosing_def-Tightest (definition_map entries) node
      (unique-Sorted [] (sort_by_start entries) (sort-Sorted entries))

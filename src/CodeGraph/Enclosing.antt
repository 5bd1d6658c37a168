-- ===== src/CodeGraph/Enclosing.antt =====
-- `_find_enclosing_def` of shared/code_graph.py: the definition around a node, among the definitions
-- of a file that are sorted by their first byte.
use simple_claude_code_githu.Prelude.{
  ℕ, suc, ◌-◌, ◌≤◌, ◌<◌, String, ◌≡◌, refl, sym, ap, ◌∙◌, ◌⊎◌, inl, inr, Bool, true, false, ◌&&◌,
  Option, none, some, List, [], ◌∷◌, leb, ltb, leb→gt, ltb→lt, ltb→ge, take, if◌then◌else◌, All,
  Bool-cases, arith,
}

-- An entry of the map, or a node: the first byte and the one after the last.
pub record Span : Type 0 where
  pub start_byte : ℕ
  pub end_byte : ℕ

pub record DefEntry : Type 0 where
  pub span : Span
  pub name : String

-- `bisect.bisect_right(starts, x)` of sorted starts
unfoldable pub bisect_right : List DefEntry → ℕ → ℕ
bisect_right [] x = 0
bisect_right (d ∷ ds) x =
    let rest = bisect_right ds x in if leb d.span.start_byte x then suc rest else 0

unfoldable pub contains_node : Span → DefEntry → Bool
contains_node node d = leb d.span.start_byte node.start_byte && leb node.end_byte d.span.end_byte

unfoldable pub size_of : DefEntry → ℕ
size_of d = d.span.end_byte - d.span.start_byte

-- `best_size` and `best_name`
abbrev pub Best : Type 0
Best = Option (ℕ × String)

abbrev pub better : DefEntry → Best → Best
unfolding size_of
better d none = some (size_of d, d.name)
better d (some (size, name)) =
    if ltb (size_of d) size then some (size_of d, d.name) else some (size, name)

-- The scan, from the last entry to the first.
unfoldable pub scan_back : Span → List DefEntry → Best
unfolding contains_node
scan_back node [] = none
scan_back node (d ∷ ds) =
    let best = scan_back node ds in if contains_node node d then better d best else best

abbrev best_name : Best → Option String
best_name none = none
best_name (some (size, name)) = some name

pub find_enclosing_def : List DefEntry → Span → Option String
unfolding bisect_right scan_back
find_enclosing_def def_map node =
    best_name (scan_back node (take (bisect_right def_map node.start_byte) def_map))

-- The entries are in the order of their first bytes.
unfoldable pub SortedByStart : List DefEntry → Type 0
SortedByStart [] = Unit
SortedByStart (d ∷ ds) = All (λ e. d.span.start_byte ≤ e.span.start_byte) ds × SortedByStart ds

-- An entry does not contain the node, or is at least as large as some size.
unfoldable pub NotTighter : Span → ℕ → DefEntry → Type 0
NotTighter node size d = (contains_node node d ≡ false) ⊎ (size ≤ size_of d)

unfoldable pub IsIn : DefEntry → List DefEntry → Type 0
IsIn d [] = ⊥
IsIn d (e ∷ es) = (d ≡ e) ⊎ IsIn d es

-- The entry that the name stands for: it contains the node, and none that does is tighter; without a
-- name, none contains the node.
unfoldable pub Tightest : Span → List DefEntry → Option String → Type 0
Tightest node ds none = All (λ d. contains_node node d ≡ false) ds
Tightest node ds (some n) =
    (d : DefEntry) × (IsIn d ds
      × ((d.name ≡ n) × ((contains_node node d ≡ true) × All (NotTighter node (size_of d)) ds)))

-- what the scan has found
unfoldable Found : Span → List DefEntry → Best → Type 0
Found node ds none = All (λ d. contains_node node d ≡ false) ds
Found node ds (some (size, n)) =
    (d : DefEntry) × (IsIn d ds
      × ((d.name ≡ n)
          × ((contains_node node d ≡ true)
              × ((size_of d ≡ size) × All (NotTighter node (size_of d)) ds))))

All-map :
    {P Q : DefEntry → Type 0}
    → ((d : DefEntry) → P d → Q d)
    → (ds : List DefEntry) → All P ds
    → All Q ds
All-map h [] all = tt
All-map h (d ∷ ds) (p, all) = (h d p, All-map h ds all)

Found-better :
    (node : Span) (d : DefEntry) (ds : List DefEntry) (best : Best)
    → contains_node node d ≡ true
    → Found node ds best
    → Found node (d ∷ ds) (better d best)
unfolding Found IsIn NotTighter size_of
Found-better node d ds none here all =
    (d, (inl refl, (refl, (here, (refl, (inr (omega arith), All-map (λ e f. inl f) ds all))))))
Found-better node d ds (some (size, n)) here (b, (among, (named, (around, (sized, all))))) =
    elim (Bool-cases (ltb (size_of d) size)) [
      | inl e ↦
          let less = ltb→lt (size_of d) size e in
          rw e (
            d,
            (
              inl refl,
              (
                refl,
                (
                  here,
                  (refl, (inr (omega arith), All-map (looser (omega (arith, less, sized))) ds all)),
                ),
              ),
            ),
          )
      | inr e ↦
          let more = ltb→ge (size_of d) size e in
          rw e (b, (inr among, (named, (around, (sized, (inr (omega (arith, more, sized)), all))))))
    ]
  where
    looser :
        {m k : ℕ}
        → m ≤ k
        → (e : DefEntry) → (contains_node node e ≡ false) ⊎ (k ≤ size_of e)
        → (contains_node node e ≡ false) ⊎ (m ≤ size_of e)
    looser le e (inl f) = inl f
    looser le e (inr f) = inr (omega (arith, le, f))

Found-passed :
    (node : Span) (d : DefEntry) (ds : List DefEntry) (best : Best)
    → contains_node node d ≡ false
    → Found node ds best
    → Found node (d ∷ ds) best
unfolding Found IsIn NotTighter
Found-passed node d ds none out all = (out, all)
Found-passed node d ds (some (size, n)) out (b, (among, (named, (around, (sized, all))))) =
    (b, (inr among, (named, (around, (sized, (inl out, all))))))

scan_back-Found : (node : Span) (ds : List DefEntry) → Found node ds (scan_back node ds)
unfolding Found scan_back
scan_back-Found node [] = tt
scan_back-Found node (d ∷ ds) = elim (Bool-cases (contains_node node d)) [
  | inl e ↦ rw e (Found-better node d ds (scan_back node ds) e (scan_back-Found node ds))
  | inr e ↦ rw e (Found-passed node d ds (scan_back node ds) e (scan_back-Found node ds))
]

Found-Tightest :
    (node : Span) (ds : List DefEntry) (best : Best)
    → Found node ds best
    → Tightest node ds (best_name best)
unfolding Found Tightest
Found-Tightest node ds none all = all
Found-Tightest node ds (some (size, n)) (b, (among, (named, (around, (sized, all))))) =
    (b, (among, (named, (around, all))))

starts_later :
    (node : Span) (d : DefEntry)
    → node.start_byte < d.span.start_byte
    → contains_node node d ≡ false
unfolding contains_node
starts_later node d l =
    let e : leb d.span.start_byte node.start_byte ≡ false = ground (arith, l) in rw e refl

scan_back-later :
    (node : Span) (s : ℕ) (ds : List DefEntry)
    → node.start_byte < s
    → All (λ e. s ≤ e.span.start_byte) ds
    → scan_back node ds ≡ none
unfolding scan_back
scan_back-later node s [] l all = refl
scan_back-later node s (d ∷ ds) l (le, all) =
    rw (starts_later node d (omega (arith, l, le))) (scan_back-later node s ds l all)

bisect_right-further :
    (d : DefEntry) (ds : List DefEntry) (x : ℕ)
    → leb d.span.start_byte x ≡ true
    → bisect_right (d ∷ ds) x ≡ suc (bisect_right ds x)
unfolding bisect_right
bisect_right-further d ds x e = rw e refl

-- what stands after the place that the search gives does not matter
scan_back-bisect :
    (node : Span) (ds : List DefEntry)
    → SortedByStart ds
    → scan_back node (take (bisect_right ds node.start_byte) ds) ≡ scan_back node ds
unfolding scan_back bisect_right SortedByStart
scan_back-bisect node [] sorted = refl
scan_back-bisect node (d ∷ ds) (first, sorted) =
    elim (Bool-cases (leb d.span.start_byte node.start_byte)) [
      | inl e ↦
          ap (λ n. scan_back node (take n (d ∷ ds))) (bisect_right-further d ds node.start_byte e)
          ∙ ap (λ best. if contains_node node d then better d best else best)
              (scan_back-bisect node ds sorted)
      | inr e ↦
          let l = leb→gt d.span.start_byte node.start_byte e in
          rw e (sym (scan_back-later node d.span.start_byte ds l first))
    ]

-- Among definitions in the order of their first bytes, the name is that of a definition that
-- contains the node, and none that contains it is smaller; there is no name only if none contains it.
pub find_enclosing_def-Tightest :
    (def_map : List DefEntry) (node : Span)
    → SortedByStart def_map
    → Tightest node def_map (find_enclosing_def def_map node)
unfolding find_enclosing_def
find_enclosing_def-Tightest def_map node sorted =
    rw (scan_back-bisect node def_map sorted)
      (Found-Tightest node def_map (scan_back node def_map) (scan_back-Found node def_map))

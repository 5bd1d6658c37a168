-- ===== src/RateLimit/Deque.antt =====
-- The deque of the rate limiter and the history of grants, measured against a window.
use simple_claude_code_githu.Prelude.{
  ℕ, ◌+◌, ◌≤◌, ◌<◌, ◌≡◌, refl, List, [], ◌∷◌, ◌++◌, arith, All, ltb, leb, if◌then◌else◌,
}
use simple_claude_code_githu.RateLimit.{drop_expired}

-- How many of the grants `h` are in the window that ends at `now`.
unfoldable pub alive : ℕ → ℕ → List ℕ → ℕ
alive window now [] = 0
alive window now (h ∷ hs) = (if ltb now (h + window) then 1 else 0) + alive window now hs

-- How many of them lie in `(t - window, t]`.
unfoldable pub in_window : ℕ → ℕ → List ℕ → ℕ
in_window window t [] = 0
in_window window t (h ∷ hs) =
    (if leb h t then (if ltb t (h + window) then 1 else 0) else 0) + in_window window t hs

module _ (window : ℕ) where
  pub alive-append :
      (now : ℕ) (xs ys : List ℕ)
      → alive window now (xs ++ ys) ≡ alive window now xs + alive window now ys
  unfolding alive
  alive-append now [] ys = omega arith
  alive-append now (x ∷ xs) ys = omega (arith, alive-append now xs ys)

  pub alive_antitone : (s t : ℕ) (xs : List ℕ) → s ≤ t → alive window t xs ≤ alive window s xs
  unfolding alive
  alive_antitone s t [] h = omega arith
  alive_antitone s t (x ∷ xs) h = ground (arith, alive_antitone s t xs)

  pub alive_none :
      (now last : ℕ) (xs : List ℕ)
      → All (λ x. x ≤ last) xs
      → last + window ≤ now
      → alive window now xs ≡ 0
  unfolding alive
  alive_none now last [] a h = refl
  alive_none now last (x ∷ xs) a h = ground (arith, alive_none now last xs a.1)

  pub in_window-append :
      (t : ℕ) (xs ys : List ℕ)
      → in_window window t (xs ++ ys) ≡ in_window window t xs + in_window window t ys
  unfolding in_window
  in_window-append t [] ys = omega arith
  in_window-append t (x ∷ xs) ys = omega (arith, in_window-append t xs ys)

  pub in_window-le-alive : (t : ℕ) (xs : List ℕ) → in_window window t xs ≤ alive window t xs
  unfolding in_window alive
  in_window-le-alive t [] = omega arith
  in_window-le-alive t (x ∷ xs) = ground (arith, in_window-le-alive t xs)

  pub drop-drop :
      (s t : ℕ) (q : List ℕ)
      → s ≤ t
      → drop_expired window t (drop_expired window s q) ≡ drop_expired window t q
  unfolding drop_expired
  drop-drop s t [] h = refl
  drop-drop s t (x ∷ q) h = ground (arith, drop-drop s t q)

  pub drop_all :
      (now last : ℕ) (q : List ℕ)
      → All (λ x. x ≤ last) q
      → last + window ≤ now
      → drop_expired window now q ≡ []
  unfolding drop_expired
  drop_all now last [] a h = refl
  drop_all now last (x ∷ q) a h = ground (arith, drop_all now last q a.1)

  pub drop_snoc :
      (now x : ℕ) (q : List ℕ)
      → now < x + window
      → drop_expired window now (q ++ x ∷ []) ≡ drop_expired window now q ++ x ∷ []
  unfolding drop_expired
  drop_snoc now x [] h = ground arith
  drop_snoc now x (y ∷ q) h = ground (arith, drop_snoc now x q)

  pub drop-All :
      (last now : ℕ) (q : List ℕ)
      → All (λ x. x ≤ last) q
      → All (λ x. x ≤ last) (drop_expired window now q)
  unfolding drop_expired
  drop-All last now [] a = tt
  drop-All last now (x ∷ q) a = ground (arith, drop-All last now q a.1)

pub All-mono : (m n : ℕ) (q : List ℕ) → m ≤ n → All (λ x. x ≤ m) q → All (λ x. x ≤ n) q
All-mono m n [] h a = tt
All-mono m n (x ∷ q) h a = (omega arith, All-mono m n q h a.1)

pub All-snoc : (n x : ℕ) (q : List ℕ) → x ≤ n → All (λ x. x ≤ n) q → All (λ x. x ≤ n) (q ++ x ∷ [])
All-snoc n x [] h a = (h, tt)
All-snoc n x (y ∷ q) h a = (a.0, All-snoc n x q h a.1)

-- ===== src/Prelude/Slices.antt =====
-- The first and the last entries of lists.
use simple_claude_code_githu.Prelude.{
  ℕ, zero, suc, ◌+◌, ◌≤◌, min, ◌≡◌, refl, ap, List, [], ◌∷◌, ◌++◌, length, take, arith,
}
use simple_claude_code_githu.Prelude.Lines.{drop}

module _ {A : Type 0} where
  pub take-all : (n : ℕ) (xs : List A) → length xs ≤ n → take n xs ≡ xs
  take-all zero [] l = refl
  take-all zero (x ∷ xs) l = absurd (omega (arith, l))
  take-all (suc n) [] l = refl
  take-all (suc n) (x ∷ xs) l = ap (λ ys. x ∷ ys) (take-all n xs (omega (arith, l)))

  pub length-take : (n : ℕ) (xs : List A) → length (take n xs) ≡ min n (length xs)
  length-take zero xs = omega arith
  length-take (suc n) [] = omega arith
  length-take (suc n) (x ∷ xs) = omega (arith, length-take n xs)

  pub take-add : (m n : ℕ) (xs : List A) → take (m + n) xs ≡ take m xs ++ take n (drop m xs)
  take-add zero n xs = let same : 0 + n ≡ n = omega arith in rw same refl
  take-add (suc m) zero [] = let same : suc m + 0 ≡ suc m = omega arith in rw same refl
  take-add (suc m) (suc n) [] =
      let same : suc m + suc n ≡ suc (m + suc n) = omega arith in rw same refl
  take-add (suc m) n (x ∷ xs) =
      let same : suc m + n ≡ suc (m + n) = omega arith in
      rw same (ap (λ ys. x ∷ ys) (take-add m n xs))

  pub drop-drop : (m n : ℕ) (xs : List A) → drop m (drop n xs) ≡ drop (n + m) xs
  drop-drop m zero xs = let same : 0 + m ≡ m = omega arith in rw same refl
  drop-drop zero (suc n) [] = let same : suc n + 0 ≡ suc n = omega arith in rw same refl
  drop-drop (suc m) (suc n) [] =
      let same : suc n + suc m ≡ suc (n + suc m) = omega arith in rw same refl
  drop-drop m (suc n) (x ∷ xs) =
      let same : suc n + m ≡ suc (n + m) = omega arith in rw same (drop-drop m n xs)

  pub take-take : (m n : ℕ) (xs : List A) → take m (take n xs) ≡ take (min m n) xs
  take-take zero n xs = let same : min 0 n ≡ 0 = omega arith in rw same refl
  take-take (suc m) zero xs = let same : min (suc m) 0 ≡ 0 = omega arith in rw same refl
  take-take (suc m) (suc n) [] =
      let same : min (suc m) (suc n) ≡ suc (min m n) = omega arith in rw same refl
  take-take (suc m) (suc n) (x ∷ xs) =
      let same : min (suc m) (suc n) ≡ suc (min m n) = omega arith in
      rw same (ap (λ ys. x ∷ ys) (take-take m n xs))

-- ===== src/CodeGraph/Diff/Numbers.antt =====
-- The numbers of a hunk's header, as git writes them and the parser reads them.
use Prim.Native.Char.{Char, code}
use Prim.Native.String.{◌++◌}
use text.Mathlib.TextLemmas.{nil-append, cons-append, append_assoc}
use simple_claude_code_githu.Prelude.{
  ℕ, zero, suc, ◌+◌, ◌-◌, ◌*◌, ◌/◌, ◌%◌, ◌<◌, String, ◌≡◌, refl, ap, ◌∙◌, inl, inr, true, some,
  arith, ltb, ltb→lt, ltb→ge, if◌then◌else◌, Bool-cases,
}
use simple_claude_code_githu.Webhook.{digit, digit_text, decimal_from, decimal}
use simple_claude_code_githu.CodeGraph.Diff.{is_digit, more_digits, number}

-- The text of a digit is one character, which the parser reads as that digit.
record DigitChar (d : ℕ) : Type 0 where
  letter : Char
  written : digit d ≡ String.◌∷◌ letter ""
  recognised : is_digit (code letter) ≡ true
  worth : code letter - 48 ≡ d

digit_char : (d : ℕ) → d < 10 → DigitChar d
unfolding digit_text
digit_char zero h = record { letter = "0"; written = refl; recognised = refl; worth = refl }
digit_char (suc zero) h = record { letter = "1"; written = refl; recognised = refl; worth = refl }
digit_char (suc (suc zero)) h = record {
  letter = "2";
  written = refl;
  recognised = refl;
  worth = refl;
}
digit_char (suc (suc (suc zero))) h = record {
  letter = "3";
  written = refl;
  recognised = refl;
  worth = refl;
}
digit_char (suc (suc (suc (suc zero)))) h = record {
  letter = "4";
  written = refl;
  recognised = refl;
  worth = refl;
}
digit_char (suc (suc (suc (suc (suc zero))))) h = record {
  letter = "5";
  written = refl;
  recognised = refl;
  worth = refl;
}
digit_char (suc (suc (suc (suc (suc (suc zero)))))) h = record {
  letter = "6";
  written = refl;
  recognised = refl;
  worth = refl;
}
digit_char (suc (suc (suc (suc (suc (suc (suc zero))))))) h = record {
  letter = "7";
  written = refl;
  recognised = refl;
  worth = refl;
}
digit_char (suc (suc (suc (suc (suc (suc (suc (suc zero)))))))) h = record {
  letter = "8";
  written = refl;
  recognised = refl;
  worth = refl;
}
digit_char (suc (suc (suc (suc (suc (suc (suc (suc (suc zero))))))))) h = record {
  letter = "9";
  written = refl;
  recognised = refl;
  worth = refl;
}
digit_char (suc (suc (suc (suc (suc (suc (suc (suc (suc (suc n)))))))))) h = absurd (omega arith)

-- a digit before some text
digit-append :
    (d : ℕ) (c : DigitChar d) (rest : String) → digit d ++ rest ≡ String.◌∷◌ c.letter rest
digit-append d c rest =
    ap (λ t. t ++ rest) c.written
    ∙ cons-append c.letter "" rest
    ∙ ap (λ t. String.◌∷◌ c.letter t) (nil-append rest)

more_digits-letter :
    (a d : ℕ) (c : DigitChar d) (rest : String)
    → more_digits a (String.◌∷◌ c.letter rest) ≡ more_digits (10 * a + d) rest
unfolding more_digits
more_digits-letter a d c rest = rw (c.recognised, c.worth) refl

number-letter :
    (d : ℕ) (c : DigitChar d) (rest : String)
    → number (String.◌∷◌ c.letter rest) ≡ some (more_digits 0 (String.◌∷◌ c.letter rest))
unfolding number more_digits
number-letter d c rest =
    rw (c.recognised, c.worth) (ap (λ k. some (more_digits k rest)) (omega arith))

more_digits-digit :
    (a d : ℕ) (rest : String)
    → d < 10
    → more_digits a (digit d ++ rest) ≡ more_digits (10 * a + d) rest
more_digits-digit a d rest h =
    ap (more_digits a) (digit-append d (digit_char d h) rest)
    ∙ more_digits-letter a d (digit_char d h) rest

number-digit :
    (d : ℕ) (rest : String)
    → d < 10
    → number (digit d ++ rest) ≡ some (more_digits 0 (digit d ++ rest))
number-digit d rest h =
    rw (digit-append d (digit_char d h) rest) (number-letter d (digit_char d h) rest)

-- the number whose digits are those of `a` and then those of `n`
shifted : ℕ → ℕ → ℕ → ℕ
shifted zero a n = a
shifted (suc fuel) a n =
    let more = 10 * shifted fuel a (n / 10) + n % 10 in if ltb n 10 then 10 * a + n else more

shifted-zero : (fuel n : ℕ) → n < fuel → shifted fuel 0 n ≡ n
unfolding shifted
shifted-zero zero n h = absurd (omega arith)
shifted-zero (suc fuel) n h = ground (arith, shifted-zero fuel (n / 10))

more_digits-decimal_from :
    (fuel a n : ℕ) (rest : String)
    → more_digits a (decimal_from fuel n ++ rest) ≡ more_digits (shifted fuel a n) rest
unfolding decimal_from shifted
more_digits-decimal_from zero a n rest = ap (more_digits a) (nil-append rest)
more_digits-decimal_from (suc fuel) a n rest = elim (Bool-cases (ltb n 10)) [
  | inl e ↦ rw e (more_digits-digit a n rest (ltb→lt n 10 e))
  | inr e ↦ rw e (
      ap (more_digits a) (append_assoc (decimal_from fuel (n / 10)) (digit (n % 10)) rest)
      ∙ more_digits-decimal_from fuel a (n / 10) (digit (n % 10) ++ rest)
      ∙ more_digits-digit (shifted fuel a (n / 10)) (n % 10) rest (omega arith))
]

number-decimal_from :
    (fuel n : ℕ) (rest : String)
    → n < fuel
    → number (decimal_from fuel n ++ rest) ≡ some (more_digits 0 (decimal_from fuel n ++ rest))
unfolding decimal_from
number-decimal_from zero n rest h = absurd (omega arith)
number-decimal_from (suc fuel) n rest h = elim (Bool-cases (ltb n 10)) [
  | inl e ↦ rw e (number-digit n rest (ltb→lt n 10 e))
  | inr e ↦
      rw (e, append_assoc (decimal_from fuel (n / 10)) (digit (n % 10)) rest)
        (number-decimal_from fuel (n / 10) (digit (n % 10) ++ rest) (omega (arith, ltb→ge n 10 e)))
]

-- A text at whose start no digit stands.
abbrev pub EndsNumber : String → Type 0
EndsNumber rest = (a : ℕ) → more_digits a rest ≡ (a, rest)

-- The decimal digits of a number, with no digit after them, are read as that number.
pub number-decimal :
    (n : ℕ) (rest : String) → EndsNumber rest → number (decimal n ++ rest) ≡ some (n, rest)
unfolding decimal
number-decimal n rest stop =
    number-decimal_from (suc n) n rest (omega arith)
    ∙ ap some (
        more_digits-decimal_from (suc n) 0 n rest
        ∙ ap (λ k. more_digits k rest) (shifted-zero (suc n) n (omega arith))
        ∙ stop n)

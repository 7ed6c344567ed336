-- ===== src/Publish/Digits.antt =====
-- The numbers in the texts of src/github-publish/pr-content.ts.
use aisdlc.Prelude.{
  ◌≡◌, arith, ap, ◌<◌, ◌+◌, ◌-◌, ◌*◌, ◌/◌, ◌%◌, ◌∙◌, ℕ, zero, suc, Bool-cases, inl, inr, [], ◌∷◌,
  leb,
}
use aisdlc.Text.{Text}
use aisdlc.GithubApp.Access.{decimal}
use aisdlc.Publish.Content.{digits, number_text}

-- The digits of a number, read as a decimal number, give the number back, in front of any text.
decimal-digits :
    (fuel n : ℕ) (rest : Text) → n < fuel → decimal 0 (digits fuel n rest) ≡ decimal n rest
unfolding decimal digits
decimal-digits zero n rest h = omega (arith, h)
decimal-digits (suc fuel) n rest h = elim (Bool-cases (leb 10 n)) [
  | inl more ↦
      let big : 9 < n = ground arith in
      let smaller : n / 10 < fuel = omega (arith, h, big) in
      let value : n / 10 * 10 + ((b'0' + n % 10) - b'0') ≡ n = omega arith in
      rw more (
        decimal-digits fuel (n / 10) ((b'0' + n % 10) ∷ rest) smaller
        ∙ ap (λ m. decimal m rest) value)
  | inr last ↦
      rw last
        (ap (λ m. decimal m rest) (let e : 0 * 10 + ((b'0' + n) - b'0') ≡ n = omega arith in e))
]

-- The text of a number is read back to the number.
pub decimal-number_text : (n : ℕ) → decimal 0 (number_text n) ≡ n
unfolding number_text decimal
decimal-number_text n = decimal-digits (n + 1) n [] (omega arith)

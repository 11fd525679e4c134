-- ===== src/Text/Decimal.antt =====
-- The printed decimal form determines the number.
use zombodb.Prelude.{
  ℕ, zero, suc, ◌+◌, ◌-◌, ◌*◌, ◌/◌, ◌%◌, ◌^◌, ◌<◌, ◌≡◌, ap, ◌∙◌, inl, inr, ltb, Bool-cases, [], ◌∷◌,
  arith,
}
use native.Mathlib.Nat.{pow-suc}
use zombodb.Text.{Text, digits_loop, decimal}

-- Reads decimal digits from the left.
unfoldable pub read_digits : ℕ → Text → ℕ
read_digits acc [] = acc
read_digits acc (c ∷ str) = read_digits (acc * 10 + (c - 48)) str

read_digits-digits_loop :
    (f n : ℕ) (acc : Text) → n < 10 ^ f → read_digits 0 (digits_loop f n acc) ≡ read_digits n acc
unfolding read_digits digits_loop
read_digits-digits_loop zero n acc h = let e : n ≡ 0 = omega arith in rw e
read_digits-digits_loop (suc f) n acc h = elim (Bool-cases (ltb n 10)) [
  | inl e ↦ rw e (ap (λ k. read_digits k acc) (ground arith))
  | inr e ↦ rw e (
      read_digits-digits_loop f (n / 10) ((48 + n % 10) ∷ acc) (omega (arith, pow-suc 10 f))
      ∙ ap (λ k. read_digits k acc) (omega arith))
]

-- `%lu` loses nothing: a number of up to twenty digits, so every uint64, is read back.
pub read_digits-decimal : (n : ℕ) → n < 10 ^ 20 → read_digits 0 (decimal n) ≡ n
unfolding decimal read_digits
read_digits-decimal n h = read_digits-digits_loop 20 n [] h

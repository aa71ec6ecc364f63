-- ===== src/Text/Decimal.antt =====
-- The decimal numbers of an error's location, and a reader of them.
use gv.Prelude.{
  ℕ, ap, zero, suc, ◌+◌, ◌-◌, ◌*◌, ◌/◌, ◌%◌, ◌<◌, ◌≡◌, [], ◌∷◌, arith, ltb, Bool-cases, inl, inr,
  ◌∙◌,
}
use gv.V8.{Text}
use gv.Text.{digits, decimal}

-- Reads digits from the left, as any reader of the location does.
abbrev read_from : ℕ → Text → ℕ
read_from acc [] = acc
read_from acc (c ∷ t) = read_from (acc * 10 + (c - b'0')) t

abbrev pub read : Text → ℕ
read t = read_from 0 t

digits-read : (fuel n : ℕ) (acc : Text) → n < fuel → read (digits fuel n acc) ≡ read_from n acc
unfolding digits
digits-read zero n acc h = absurd (omega arith)
digits-read (suc fuel) n acc h = elim (Bool-cases (ltb n 10)) [
  | inl small ↦ rw small (ap (λ k. read_from k acc) (omega arith))
  | inr large ↦ rw large (
      digits-read fuel (n / 10) ((b'0' + n % 10) ∷ acc) (ground arith)
      ∙ ap (λ k. read_from k acc) (omega arith))
]

-- Printing a number and reading it back gives the number.
pub read-decimal : (n : ℕ) → read (decimal n) ≡ n
unfolding decimal
read-decimal n = digits-read (suc n) n [] (omega arith)

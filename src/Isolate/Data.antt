-- ===== src/Isolate/Data.antt =====
-- SnapshotDataIsValid: which snapshot data is taken.
use gv.Prelude.{
  ℕ, zero, suc, ◌+◌, ◌≤◌, ◌≡◌, ◌↔◌, Bool, true, false, some, [], ◌∷◌, arith, refl, length, drop,
  ltb, Bool-cases, inl, inr,
}
use gv.Prelude.Int.{pos}
use gv.V8.{V8, Text}
use gv.Isolate.{snapshot_data_is_valid, word_of, word_is_valid}

has_word : (k : ℕ) (t : Text) → k + 4 ≤ length t → (word : ℕ) × (word_of (drop k t) ≡ some word)
has_word zero [] h = absurd (omega arith)
has_word zero (a ∷ []) h = absurd (omega arith)
has_word zero (a ∷ b ∷ []) h = absurd (omega arith)
has_word zero (a ∷ b ∷ c ∷ []) h = absurd (omega arith)
has_word zero (a ∷ b ∷ c ∷ d ∷ t) h = (_, refl)
has_word (suc k) [] h = absurd (omega arith)
has_word (suc k) (a ∷ t) h = has_word k t (omega arith)

-- At least eight bytes, whose second word is 0 or 1, and which V8 takes.
abbrev pub IsAcceptable : {E : Type 0} → V8 E → Text → ℕ → Type 0
IsAcceptable v t n =
    (8 ≤ n)
    × ((word : ℕ) × (word_of (drop 4 t) ≡ some word)
        × (word ≤ 1)
        × (v.startup_is_valid t (pos n) ≡ true))

module _ {E : Type 0} (v : V8 E) where
  -- For data that holds as many bytes as its length says: the test never reads beyond the data, and
  -- it accepts exactly the data of at least eight bytes whose word at offset 4 is 0 or 1 and which
  -- `StartupData::IsValid` accepts.
  pub snapshot_data_is_valid-IsAcceptable :
      (t : Text) (n : ℕ)
      → n ≤ length t
      → (b : Bool) × (snapshot_data_is_valid v (some t) (pos n) ≡ some b)
        × ((b ≡ true) ↔ IsAcceptable v t n)
  unfolding snapshot_data_is_valid
  snapshot_data_is_valid-IsAcceptable t n h = elim (Bool-cases (ltb n 8)) [
    | inl small ↦ (false, rw small refl, ((λ e. cc), λ (l, a). absurd (ground arith)))
    | inr large ↦
        let (word, found) = has_word 4 t (ground arith) in
        (
          word_is_valid v t (pos n) word,
          rw (large, found) refl,
          (
            (λ e. (ground arith, (word, found, ground arith, ground arith))),
            λ (l, (u, f, le, ok)). ground arith,
          ),
        )
  ]

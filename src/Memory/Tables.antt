-- ===== src/Memory/Tables.antt =====
-- The laws of the id tables of a context.
use gv.Prelude.{ℕ, ◌≡◌, refl, none, some, List, [], ◌∷◌, arith, ◌==◌, if◌then◌else◌}
use gv.Memory.{Ptr, lookup, insert, erase}

-- No key stands twice, as in any map.
abbrev pub Distinct : List (ℕ × Ptr) → Type 0
Distinct [] = Unit {0}
Distinct ((k, p) ∷ l) = (lookup k l ≡ none) × Distinct l

pub lookup-insert :
    (j k : ℕ) (p : Ptr) (l : List (ℕ × Ptr))
    → lookup j (insert k p l) ≡ (if k == j then some p else lookup j l)
lookup-insert j k p [] = refl
lookup-insert j k p ((i, q) ∷ l) = ground (arith, lookup-insert j k p l)

pub lookup-erase :
    (j k : ℕ) (l : List (ℕ × Ptr))
    → Distinct l
    → lookup j (erase k l) ≡ (if k == j then none else lookup j l)
lookup-erase j k [] d = ground arith
lookup-erase j k ((i, q) ∷ l) d = ground (arith, lookup-erase j k l d.1)

pub Distinct-insert : (k : ℕ) (p : Ptr) (l : List (ℕ × Ptr)) → Distinct l → Distinct (insert k p l)
Distinct-insert k p [] d = ground arith
Distinct-insert k p ((i, q) ∷ l) d =
    ground (arith, Distinct-insert k p l d.1, lookup-insert i k p l)

pub Distinct-erase : (k : ℕ) (l : List (ℕ × Ptr)) → Distinct l → Distinct (erase k l)
Distinct-erase k [] d = tt
Distinct-erase k ((i, q) ∷ l) d = ground (arith, Distinct-erase k l d.1, lookup-erase i k l d.1)

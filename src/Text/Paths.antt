-- ===== src/Text/Paths.antt =====
-- SharedLibraryDir: the directory that holds the shared library.
use gv.Prelude.{
  ℕ, suc, ◌+◌, ◌≡◌, refl, none, some, Option, [], ◌∷◌, ◌++◌, arith, Bool, false, ◌==◌, ◌||◌, length,
  ap, Bool-cases, inl, inr, take, ◌∙◌, ◌⊎◌,
}
use gv.V8.{Text}
use gv.Text.{rfind, rfind_from, or_here, before_slash, shared_library_dir, dot}

abbrev has : ℕ → Text → Bool
has c [] = false
has c (x ∷ t) = (x == c) || has c t

-- Whether the number is the position of the last `c`, for a text that starts at position `i`.
abbrev Last : ℕ → ℕ → Text → Option ℕ → Type 0
Last c i t none = has c t ≡ false
Last c i t (some j) =
    (before : Text) × (after : Text) × (t ≡ before ++ c ∷ after)
    × (has c after ≡ false)
    × (j ≡ i + length before)

Last-cons_found : (c i x j : ℕ) (t : Text) → Last c (suc i) t (some j) → Last c i (x ∷ t) (some j)
Last-cons_found c i x j t (before, after, split, rest, at) =
    (x ∷ before, after, ap (λ (r : Text). x ∷ r) split, rest, omega arith)

or_here-Last :
    (c i x : ℕ) (t : Text) (o : Option ℕ)
    → Last c (suc i) t o
    → Last c i (x ∷ t) (or_here o (x == c) i)
or_here-Last c i x t (some j) h = Last-cons_found c i x j t h
or_here-Last c i x t none h = elim (Bool-cases (x == c)) [
  | inl e ↦ rw e ([], t, ap (λ k. k ∷ t) (ground arith), h, omega arith)
  | inr n ↦ rw (n, n) h
]

rfind_from-Last : (c i : ℕ) (t : Text) → Last c i t (rfind_from c i t)
unfolding rfind_from
rfind_from-Last c i [] = refl
rfind_from-Last c i (x ∷ t) =
    or_here-Last c i x t (rfind_from c (suc i) t) (rfind_from-Last c (suc i) t)

take-length_append : (before after : Text) → take (length before) (before ++ after) ≡ before
take-length_append [] after = refl
take-length_append (x ∷ before) after = ap (λ (r : Text). x ∷ r) (take-length_append before after)

-- What the directory of a path is: `.` if there is no slash, and else what stands before the last.
abbrev pub IsDirOf : Text → Text → Type 0
IsDirOf path dir =
    ((has b'/' path ≡ false) × (dir ≡ dot))
    ⊎ ((file : Text) × (path ≡ dir ++ b'/' ∷ file) × (has b'/' file ≡ false))

before_slash-IsDirOf :
    (path : Text) (o : Option ℕ) → Last b'/' 0 path o → IsDirOf path (before_slash path o)
before_slash-IsDirOf path none h = inl (h, refl)
before_slash-IsDirOf path (some j) (before, after, split, rest, at) =
    inr (after, rw (at', cut) split, rest)
  where
    at' : j ≡ length before
    at' = omega arith

    cut : take (length before) path ≡ before
    cut = ap (take (length before)) split ∙ take-length_append before (b'/' ∷ after)

-- For a known path of the library, the directory is that of the path.
pub shared_library_dir-IsDirOf : (path : Text) → IsDirOf path (shared_library_dir (some path))
unfolding shared_library_dir
shared_library_dir-IsDirOf path =
    before_slash-IsDirOf path (rfind b'/' path) (rfind_from-Last b'/' 0 path)

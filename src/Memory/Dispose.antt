-- ===== src/Memory/Dispose.antt =====
-- GV8ContextDispose: what it does to the memory.
use gv.Prelude.{
  ℕ, ◌+◌, ◌≡◌, refl, none, some, List, [], ◌∷◌, arith, ◌==◌, if◌then◌else◌, update, Option-cases,
  Bool-cases, ap, ◌∙◌, Option, inl, inr, Bool, true, false, ◌||◌,
}
use native.Mathlib.Decide.{ℕ_discrete}
use gv.Memory.{Ptr, Gv8Ctx, Gv8Value, Memory, lookup, holds}
use gv.Memory.Tables.{Distinct}
use gv.Memory.Values.{dispose_values, context_dispose}
use gv.Memory.Invariant.{IsConsistent, Owned}

-- Whether the table leads to the wrapper.
abbrev pub has : Ptr → List (ℕ × Ptr) → Bool
has q [] = false
has q ((k, p) ∷ l) = (p == q) || has q l

has_of_lookup : (k : ℕ) (q : Ptr) (l : List (ℕ × Ptr)) → lookup k l ≡ some q → has q l ≡ true
has_of_lookup k q [] e = ground arith
has_of_lookup k q ((j, p) ∷ l) e = ground (arith, has_of_lookup k q l)

pub key_of_has :
    (q : Ptr) (l : List (ℕ × Ptr)) → Distinct l → has q l ≡ true → (k : ℕ) × (lookup k l ≡ some q)
key_of_has q [] d h = ground arith
key_of_has q ((j, p) ∷ l) d h = elim (ℕ_discrete p q) [
  | yes e ↦ (j, ground arith)
  | no n ↦ let (k, found) = key_of_has q l d.1 (ground arith) in (k, ground arith)
]

-- The table's wrappers are live, and each belongs to the context under its key.
abbrev AllOwned : Ptr → Memory → List (ℕ × Ptr) → Type 0
AllOwned p m l = (k : ℕ) (q : Ptr) → lookup k l ≡ some q → Owned (m.values q) k p

pub record Emptied (l : List (ℕ × Ptr)) (m m' : Memory) : Type 0 where
  pub next : m'.next ≡ m.next
  pub ctxs : m'.ctxs ≡ m.ctxs
  pub values : (q : Ptr) → m'.values q ≡ (if has q l then none else m.values q)
  pub isolates : m'.isolates ≡ m.isolates
  pub startups : m'.startups ≡ m.startups
  pub buffers : m'.buffers ≡ m.buffers

abbrev drop_first : Memory → Ptr → Gv8Value → Memory
drop_first m q v = record m { freed = m.freed + holds v.ptr; values = update m.values q none }

dispose_values_step :
    (k : ℕ) (q : Ptr) (l : List (ℕ × Ptr)) (m : Memory) (v : Gv8Value)
    → m.values q ≡ some v
    → dispose_values ((k, q) ∷ l) m ≡ dispose_values l (drop_first m q v)
unfolding dispose_values
dispose_values_step k q l m v e = ground arith

dispose_values-Emptied :
    (p : Ptr) (l : List (ℕ × Ptr)) (m : Memory)
    → Distinct l
    → AllOwned p m l
    → (m' : Memory) × (dispose_values l m ≡ some (tt, m')) × Emptied l m m'
unfolding dispose_values
dispose_values-Emptied p [] m d o = (
  m,
  refl,
  record {
    next = refl;
    ctxs = refl;
    values = λ q. refl;
    isolates = refl;
    startups = refl;
    buffers = refl;
  },
)
dispose_values-Emptied p ((k, q) ∷ l) m d o = elim (Option-cases (m.values q)) [
  | inl e ↦ absurd (ground (arith, o k q))
  | inr (v, e) ↦
      let (m', run, empty) =
        dispose_values-Emptied p l (drop_first m q v) d.1 (λ j r f. ground (arith, o k q, o j r)) in
      (
        m',
        dispose_values_step k q l m v e ∙ run,
        record {
          next = empty.next;
          ctxs = empty.ctxs;
          values = λ r. ground (arith, empty.values r);
          isolates = empty.isolates;
          startups = empty.startups;
          buffers = empty.buffers;
        },
      )
]

pub record Disposed (p : Ptr) (c : Gv8Ctx) (m m' : Memory) : Type 0 where
  pub next : m'.next ≡ m.next
  pub ctxs : (q : Ptr) → m'.ctxs q ≡ (if p == q then none else m.ctxs q)
  pub values : (q : Ptr) → m'.values q ≡ (if has q c.values then none else m.values q)
  pub isolates : m'.isolates ≡ m.isolates
  pub startups : m'.startups ≡ m.startups
  pub buffers : m'.buffers ≡ m.buffers

module _ {m : Memory} (i : IsConsistent m) (p : Ptr) {c : Gv8Ctx} (live : m.ctxs p ≡ some c) where
  emptied_ctx : Memory
  emptied_ctx = record m {
    freed = m.freed + holds c.ptr;
    ctxs = update m.ctxs p (some (record c { ptr = none }));
  }

  context_dispose_run :
      (m' : Memory)
      → dispose_values c.values emptied_ctx ≡ some (tt, m')
      → Emptied c.values emptied_ctx m'
      → context_dispose p m ≡ some (tt, record m' { ctxs = update m'.ctxs p none })
  unfolding context_dispose emptied_ctx
  context_dispose_run m' run empty =
      ground (arith, i.null_ctx, ap (λ (t : Ptr → Option Gv8Ctx). t p) empty.ctxs)

  Emptied-Disposed :
      (m' : Memory)
      → Emptied c.values emptied_ctx m'
      → Disposed p c m (record m' { ctxs = update m'.ctxs p none })
  unfolding emptied_ctx
  Emptied-Disposed m' empty = record {
    next = empty.next;
    ctxs = λ q. ground (arith, ap (λ (t : Ptr → Option Gv8Ctx). t q) empty.ctxs);
    values = empty.values;
    isolates = empty.isolates;
    startups = empty.startups;
    buffers = empty.buffers;
  }

  -- In a consistent memory the disposal of a live context succeeds. The context is gone, and so are
  -- exactly the wrappers of its table; every other context and wrapper, every isolate and every
  -- snapshot block is as it was.
  pub context_dispose-Disposed :
      (m' : Memory) × (context_dispose p m ≡ some (tt, m')) × Disposed p c m m'
  unfolding emptied_ctx
  context_dispose-Disposed =
      let (m', run, empty) =
        dispose_values-Emptied p c.values emptied_ctx (i.distinct p c live)
          (λ k q f. i.owned p c k q live f) in
      (
        record m' { ctxs = update m'.ctxs p none },
        context_dispose_run m' run empty,
        Emptied-Disposed m' empty,
      )

  pub Disposed-IsConsistent : {m' : Memory} → Disposed p c m m' → IsConsistent m'
  Disposed-IsConsistent {m'} d = record {
    distinct = λ q b e. ground (arith, i.distinct q b, d.ctxs q);
    in_range = λ q b k r e l. ground (arith, i.in_range q b k r, d.ctxs q);
    owned = λ q b k r e l. elim (Bool-cases (has r c.values)) [
      | inl h ↦
          let (j, found) = key_of_has r c.values (i.distinct p c live) h in
          absurd (ground (arith, d.ctxs q, i.owned q b k r, i.owned p c j r live found))
      | inr h ↦ ground (arith, d.ctxs q, d.values r, i.owned q b k r)
    ];
    listed = λ r v e n.
        ground (arith, d.values r, d.ctxs v.ctx, i.listed r v, has_of_lookup v.id r c.values);
    unused_ctx = λ q a. ground (arith, d.ctxs q, d.next, i.unused_ctx q);
    unused_value = λ q a. ground (arith, d.values q, d.next, i.unused_value q);
    null_ctx = ground (arith, d.ctxs 0, i.null_ctx);
    null_value = ground (arith, d.values 0, i.null_value);
    next_ne_null = ground (arith, d.next, i.next_ne_null);
  }

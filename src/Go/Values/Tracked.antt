-- ===== src/Go/Values/Tracked.antt =====
-- The values of a context and its table of live values.
use gv.Prelude.{
  ℕ, ◌≡◌, ◌≢◌, refl, true, false, Option, none, some, List, [], ◌∷◌, arith, ◌==◌, ◌||◌, not, ◌&&◌,
  update, Bool-cases, Option-cases, inl, inr, ◌⊎◌, subst, sym,
}
use gv.Memory.{Ptr}
use gv.Go.{Context, Value, Heap, Attempt, Alter, done, panics, nil_dereference}
use gv.Go.Values.{has, add, remove, invalidate}

pub has-add : (j k : ℕ) (l : List ℕ) → has j (add k l) ≡ ((k == j) || has j l)
has-add j k l = elim (Bool-cases (has k l)) [
  | inl e ↦ ground (arith, e)
  | inr e ↦ ground (arith, e)
]

pub has-remove : (j k : ℕ) (l : List ℕ) → has j (remove k l) ≡ (not (k == j) && has j l)
has-remove j k [] = ground arith
has-remove j k (i ∷ l) = ground (arith, has-remove j k l)

-- The table of the context has the value, and the context is open.
abbrev pub InLive : Ptr → Option (List Ptr) → Type 0
InLive v none = ⊥
InLive v (some l) = has v l ≡ true

abbrev pub Lists : Ptr → Option Context → Type 0
Lists v none = ⊥
Lists v (some c) = (c.closed ≡ false) × InLive v c.live_values

-- A value of a context that has its pointer and is not borrowed is in the context's table; `b` is a
-- value for which that is not asked.
pub record IsTrackedBut (b : Ptr) (g : Heap) : Type 0 where
  pub tracked :
      (v : Ptr) (x : Value)
      → v ≢ b
      → g.values v ≡ some x
      → x.ptr ≢ 0
      → x.borrowed ≡ false
      → x.ctx ≢ 0
      → Lists v (g.contexts x.ctx)
  pub null_value : g.values 0 ≡ none
  pub next_ne_null : g.next ≢ 0

-- No value is spared, as there is none at nil.
abbrev pub IsTracked : Heap → Type 0
IsTracked g = IsTrackedBut 0 g

-- The heap after a function, also one that panicked.
abbrev pub after : {A : Type 0} → Alter A → Heap → Heap
after c g = (c g).1

pub after_run :
    {A : Type 0} {b : Ptr} {o r : Attempt A × Heap}
    → o ≡ r
    → IsTrackedBut b r.1
    → IsTrackedBut b o.1
after_run {b} e p = subst (λ r. IsTrackedBut b r.1) (sym e) p

abbrev pub put_value : Heap → Ptr → Value → Heap
put_value g v x = record g { values = update g.values v (some x) }

abbrev pub put_context : Heap → Ptr → Context → Heap
put_context g p c = record g { contexts = update g.contexts p (some c) }

module _ {b : Ptr} {g : Heap} (i : IsTrackedBut b g) where
  -- A value that is nil needs no table.
  pub put_nil : (v : Ptr) (x : Value) → v ≢ 0 → x.ptr ≡ 0 → IsTrackedBut b (put_value g v x)
  put_nil v x n z = record {
    tracked = λ u y o e p. ground (arith, i.tracked u y o);
    null_value = ground (arith, i.null_value);
    next_ne_null = i.next_ne_null;
  }

  pub put_this : (x : Value) → b ≢ 0 → IsTrackedBut b (put_value g b x)
  put_this x n = record {
    tracked = λ u y o e p. ground (arith, i.tracked u y o);
    null_value = ground (arith, i.null_value);
    next_ne_null = i.next_ne_null;
  }

  -- A change of a context that keeps what it lists.
  pub put_lists :
      (p : Ptr) (c c' : Context)
      → g.contexts p ≡ some c
      → ((u : Ptr) → u ≢ b → Lists u (some c) → Lists u (some c'))
      → IsTrackedBut b (put_context g p c')
  put_lists p c c' h k = record {
    tracked = λ u y o e q r d. ground (arith, i.tracked u y o, k u o);
    null_value = i.null_value;
    next_ne_null = i.next_ne_null;
  }

  -- The value that was spared is in the table, or needs none.
  pub spare_none :
      (x : Value)
      → g.values b ≡ some x
      → (x.ptr ≡ 0) ⊎ (x.borrowed ≡ true) ⊎ Lists b (g.contexts x.ctx)
      → IsTracked g
  spare_none x h l = record {
    tracked = λ u y o e p r d. ground (arith, i.tracked u y);
    null_value = i.null_value;
    next_ne_null = i.next_ne_null;
  }

pub spare : (b : Ptr) {g : Heap} → IsTracked g → IsTrackedBut b g
spare b i = record {
  tracked = λ u y o e. ground (arith, i.tracked u y, i.null_value);
  null_value = i.null_value;
  next_ne_null = i.next_ne_null;
}

pub invalidate_here :
    (v : Ptr) (g : Heap) {x : Value}
    → v ≢ 0
    → g.values v ≡ some x
    → invalidate v g ≡ (done tt, put_value g v (record x { ptr = 0 }))
unfolding invalidate
invalidate_here v g n e = ground arith

invalidate_lem :
    (v : Ptr) (g : Heap)
    → (v ≡ 0) × (invalidate v g ≡ (done tt, g))
      ⊎ (v ≢ 0) × (g.values v ≡ none) × (invalidate v g ≡ (panics nil_dereference, g))
      ⊎ (x : Value) × (v ≢ 0)
        × (g.values v ≡ some x)
        × (invalidate v g ≡ (done tt, put_value g v (record x { ptr = 0 })))
unfolding invalidate
invalidate_lem v g = elim (Bool-cases (v == 0)) [
  | inl z ↦ inl (ground (arith, z), rw z refl)
  | inr z ↦ elim (Option-cases (g.values v)) [
    | inl e ↦ inr (inl (ground (arith, z), e, ground (arith, z)))
    | inr (x, e) ↦ inr (inr (x, ground (arith, z), e, invalidate_here v g (ground (arith, z)) e))
  ]
]

module _ {b : Ptr} {g : Heap} (i : IsTrackedBut b g) where
  pub invalidate-IsTracked : (v : Ptr) → IsTrackedBut b (after (invalidate v) g)
  invalidate-IsTracked v = elim (invalidate_lem v g) [
    | inl (_, e) ↦ after_run e i
    | inr (inl (_, _, e)) ↦ after_run e i
    | inr (inr (x, n, _, e)) ↦ after_run e (put_nil i v (record x { ptr = 0 }) n refl)
  ]

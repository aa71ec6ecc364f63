-- ===== src/Callback/Args.antt =====
-- HostFunctionCallback: the wrappers of its arguments, which it borrows and releases.
use gv.Prelude.{
  ℕ, zero, suc, ◌<◌, Option-cases, inl, inr, ◌+◌, ◌≤◌, ◌≡◌, ◌≢◌, none, some, Option, List, [], ◌∷◌,
  arith, length, refl,
}
use gv.Memory.{Ptr, Gv8Value, Memory, holds}
use gv.Memory.Values.{wrap_borrowed_value, value_release}
use gv.Memory.Wrap.{borrow_at}
use gv.Memory.Release.{release_borrowed, drop_at}
use gv.Run.{World, ok, ◌>>=◌}
use gv.V8.{Local}
use gv.Callback.{wrap_args, release_args}

-- The addresses from `a` on.
abbrev pub addresses : Ptr → ℕ → List Ptr
addresses a zero = []
addresses a (suc k) = a ∷ addresses (suc a) k

abbrev IsBorrowed : Option Gv8Value → Type 0
IsBorrowed none = ⊥
IsBorrowed (some v) = (v.id ≡ 0) × (holds v.ptr ≡ 1)

-- `k` borrowed wrappers were made, at the addresses from `m.next` on.
pub record Borrows (k : ℕ) (m m' : Memory) : Type 0 where
  pub fresh : (q : Ptr) → m.next ≤ q → q < k + m.next → IsBorrowed (m'.values q)
  pub below : (q : Ptr) → q < m.next → m'.values q ≡ m.values q
  pub above : (q : Ptr) → k + m.next ≤ q → m'.values q ≡ m.values q
  pub ctxs : m'.ctxs ≡ m.ctxs
  pub made : m'.made ≡ k + m.made
  pub freed : m'.freed ≡ m.freed
  pub next : m'.next ≡ k + m.next

-- The `k` wrappers from `a` on were released.
pub record Releases (a : Ptr) (k : ℕ) (m m' : Memory) : Type 0 where
  pub gone : (q : Ptr) → a ≤ q → q < k + a → m'.values q ≡ none
  pub below : (q : Ptr) → q < a → m'.values q ≡ m.values q
  pub above : (q : Ptr) → k + a ≤ q → m'.values q ≡ m.values q
  pub ctxs : m'.ctxs ≡ m.ctxs
  pub made : m'.made ≡ m.made
  pub freed : m'.freed ≡ k + m.freed
  pub next : m'.next ≡ m.next

module _ {E : Type 0} (ctx iso : Ptr) where
  wrap_args_step :
      (h : Local) (args : List Local) (argv : List Ptr) (w w' : World E)
      → wrap_args ctx iso args (record w { mem = borrow_at w.mem ctx iso h }) ≡ ok argv w'
      → wrap_args ctx iso (h ∷ args) w ≡ ok (w.mem.next ∷ argv) w'
  unfolding wrap_args ◌>>=◌ wrap_borrowed_value
  wrap_args_step h args argv w w' e = rw e refl

  pub wrap_args-Borrows :
      (args : List Local) (w : World E)
      → (w' : World E) × (wrap_args ctx iso args w ≡ ok (addresses w.mem.next (length args)) w')
        × (w'.engine ≡ w.engine)
        × Borrows (length args) w.mem w'.mem
  unfolding wrap_args ◌>>=◌
  wrap_args-Borrows [] w = (
    w,
    refl,
    refl,
    record {
      fresh = λ q a b. absurd (omega arith);
      below = λ q a. refl;
      above = λ q a. refl;
      ctxs = refl;
      made = omega arith;
      freed = refl;
      next = omega arith;
    },
  )
  wrap_args-Borrows (h ∷ args) w =
      let (w', run, same, b) =
        wrap_args-Borrows args (record w { mem = borrow_at w.mem ctx iso h }) in
      (
        w',
        wrap_args_step h args (addresses (suc w.mem.next) (length args)) w w' run,
        same,
        record {
          fresh = λ q x y. ground (arith, b.fresh q, b.below q);
          below = λ q x. ground (arith, b.below q);
          above = λ q x. ground (arith, b.above q);
          ctxs = b.ctxs;
          made = omega (arith, b.made);
          freed = omega (arith, b.freed);
          next = omega (arith, b.next);
        },
      )

  release_args_step :
      (a : Ptr) (argv : List Ptr) (v : Gv8Value) (w w' : World E)
      → value_release a w.mem ≡ some (tt, drop_at w.mem a v)
      → release_args argv (record w { mem = drop_at w.mem a v }) ≡ ok tt w'
      → release_args (a ∷ argv) w ≡ ok tt w'
  unfolding release_args ◌>>=◌
  release_args_step a argv v w w' r e = rw r e

  pub release_args-Releases :
      (k : ℕ) (a : Ptr) (w : World E)
      → a ≢ 0
      → ((q : Ptr) → a ≤ q → q < k + a → IsBorrowed (w.mem.values q))
      → (w' : World E) × (release_args (addresses a k) w ≡ ok tt w')
        × (w'.engine ≡ w.engine)
        × Releases a k w.mem w'.mem
  unfolding release_args ◌>>=◌
  release_args-Releases zero a w n f = (
    w,
    refl,
    refl,
    record {
      gone = λ q x y. absurd (omega arith);
      below = λ q x. refl;
      above = λ q x. refl;
      ctxs = refl;
      made = refl;
      freed = omega arith;
      next = refl;
    },
  )
  release_args-Releases (suc k) a w n f = elim (Option-cases (w.mem.values a)) [
    | inl e ↦ absurd (ground (arith, f a))
    | inr (v, e) ↦
        let (w', run, same, r) =
          release_args-Releases k (suc a) (record w { mem = drop_at w.mem a v }) (omega arith)
            (λ q x y. ground (arith, f q)) in
        (
          w',
          release_args_step a (addresses (suc a) k) v w w'
              (release_borrowed w.mem a e n (ground (arith, f a))) run,
          same,
          record {
            gone = λ q x y. ground (arith, r.gone q, r.below q);
            below = λ q x. ground (arith, r.below q);
            above = λ q x. ground (arith, r.above q);
            ctxs = r.ctxs;
            made = r.made;
            freed = ground (arith, r.freed, f a);
            next = r.next;
          },
        )
  ]

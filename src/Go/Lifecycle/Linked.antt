-- ===== src/Go/Lifecycle/Linked.antt =====
-- The pointers of the Go side against the memory of C.
pub mod Closing
pub mod Fresh
pub mod Making
pub mod NewValue
pub mod Opening
pub mod Releasing
pub mod Sessions
use gv.Prelude.{
  ℕ, ◌≡◌, ◌≢◌, refl, sym, ◌∙◌, Bool, true, false, Option, none, some, List, arith, ◌==◌,
  if◌then◌else◌, update, Option-cases, Bool-cases, inl, inr, ==_refl,
}
use native.Mathlib.Decide.{ℕ_discrete}
use gv.Memory.{Ptr, Memory, Gv8Ctx, Gv8Value}
use gv.Memory.Invariant.{IsConsistent}
use gv.Go.{Context, Value, Heap}
use gv.Go.Values.Tracked.{IsTracked}
use gv.Go.Lifecycle.{keys}
use gv.Go.Lifecycle.Wiped.{IsStored}

-- A value that is owned through a context.
abbrev pub IsOwned : Value → Type 0
IsOwned x = (x.ptr ≢ 0) × (x.borrowed ≡ false) × (x.ctx ≢ 0)

-- The wrapper is there, and the context of C that it is in.
abbrev pub WrapperOf : Option Gv8Value → Ptr → Type 0
WrapperOf none p = ⊥
WrapperOf (some a) p = a.ctx ≡ p

-- No map has a key that is not the address of a value.
abbrev pub AllStored : Heap → Type 0
AllStored g = (c : Ptr) (y : Context) → g.contexts c ≡ some y → IsStored g (keys y.live_values)

-- Every owned value has a wrapper, in the C context of its context, and shares it with no other; every
-- open context has a C context, and shares it with no other.
pub record IsLinked (g : Heap) (m : Memory) : Type 0 where
  pub tracked : IsTracked g
  pub stored : AllStored g
  pub consistent : IsConsistent m
  pub wrapped :
      (v : Ptr) (x : Value) (y : Context)
      → g.values v ≡ some x
      → IsOwned x
      → g.contexts x.ctx ≡ some y
      → WrapperOf (m.values x.ptr) y.ptr
  pub apart :
      (v u : Ptr) (x z : Value)
      → g.values v ≡ some x
      → g.values u ≡ some z
      → IsOwned x
      → IsOwned z
      → x.ptr ≡ z.ptr
      → v ≡ u
  pub live :
      (c : Ptr) (y : Context)
      → g.contexts c ≡ some y
      → y.closed ≡ false
      → (y.ptr ≢ 0) × (m.ctxs y.ptr ≢ none)
  pub contexts_apart :
      (c d : Ptr) (y z : Context)
      → g.contexts c ≡ some y
      → g.contexts d ≡ some z
      → y.closed ≡ false
      → z.closed ≡ false
      → y.ptr ≡ z.ptr
      → c ≡ d

-- The context of an owned value is there and open.
pub owner :
    {g : Heap} (v : Ptr) (x : Value)
    → IsTracked g
    → g.values v ≡ some x
    → IsOwned x
    → (y : Context) × (g.contexts x.ctx ≡ some y) × (y.closed ≡ false)
owner {g} v x t e (p, b, c) = elim (Option-cases (g.contexts x.ctx)) [
  | inl n ↦ ground (arith, t.tracked v x, t.null_value, n)
  | inr (y, h) ↦ (y, h, ground (arith, t.tracked v x, t.null_value, h))
]

pub same_end :
    {o : Option (Unit {0} × Memory)} {m n : Memory} → o ≡ some (tt, m) → o ≡ some (tt, n) → m ≡ n
same_end p q = ground arith

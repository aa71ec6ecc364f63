-- ===== src/Go/Guards/Valid.antt =====
-- An operation on a valid value, from its check to the end.
use gv.Prelude.{ℕ, suc, ◌-◌, ◌≡◌, ◌≢◌, refl, true, false, some, arith, ne→==, ==_refl}
use gv.Memory.{Ptr}
use gv.Run.{World, ok}
use gv.Go.{Context, Isolate, Value, Heap, Native, Go, done}
use gv.Go.Access.{Gate, leave_gate}
use gv.Go.Enter.Lent.{Admits, entered, put_gate, must_enter_lem, leave_lem}
use gv.Go.Values.{valid, is_closed}
use gv.Go.Guards as Guards
use gv.Go.Guards.{if_valid}

pub valid_lem :
    (p : Ptr) (x : Value) (c : Context) (g : Heap)
    → p ≢ 0
    → g.values p ≡ some x
    → x.ptr ≢ 0
    → x.ctx ≢ 0
    → g.contexts x.ctx ≡ some c
    → c.closed ≡ false
    → c.ptr ≢ 0
    → valid p g ≡ (done true, g)
unfolding valid is_closed
valid_lem p x c g n e k d h o q =
    rw (ne→== p 0 n, e, ne→== x.ptr 0 k, ne→== x.ctx 0 d, h, o, ne→== c.ptr 0 q) refl

-- A heap that only its isolates and locks tell from another.
abbrev pub inside : {E : Type 0} → World (Native E) → Ptr → Isolate → Gate → World (Native E)
inside w iso i gate = record w { engine = record w.engine { go = entered w.engine.go iso i gate } }

-- The world after that, once the isolate was left.
abbrev pub outside :
    {E : Type 0} → World (Native E) → Ptr → Isolate → Gate → Gate → World (Native E)
outside w iso i gate free = record w {
  engine = record w.engine {
    go = record (put_gate (entered w.engine.go iso i gate) iso (record i { gate = gate }) free) {
      locks = w.engine.go.locks;
    };
  };
}

module _ {E A : Type 0} (p : Ptr) (x : Value) (c : Context) (i : Isolate) (gate free : Gate)
    (otherwise a : A) (body : Value → Context → Go E A) (w : World (Native E)) where
  -- A body that changes nothing, run for a valid value of an isolate that the thread may enter.
  pub if_valid-reads :
      p ≢ 0
      → w.engine.go.values p ≡ some x
      → x.ptr ≢ 0
      → x.ctx ≢ 0
      → w.engine.go.contexts x.ctx ≡ some c
      → c.closed ≡ false
      → c.ptr ≢ 0
      → Admits w.engine.go c.iso i gate
      → leave_gate w.engine.go.thread gate ≡ some free
      → body x c (inside w c.iso i gate) ≡ ok (done a) (inside w c.iso i gate)
      → if_valid p otherwise body w ≡ ok (done a) (outside w c.iso i gate free)
  unfolding if_valid Guards.entered gv.Go.◌>>=◌ gv.Go.deferring
  if_valid-reads n e k d h o q t f b =
      rw
        (
          valid_lem p x c w.engine.go n e k d h o q,
          e,
          h,
          must_enter_lem t,
          b,
          leave_lem (entered w.engine.go c.iso i gate) c.iso (record i { gate = gate }) free
              (ground (arith, ==_refl c.iso)) f,
          minus_one w.engine.go.locks,
        )
        refl
    where
      minus_one : (n : ℕ) → suc n - 1 ≡ n
      minus_one n = omega arith

-- ===== src/Go/Host/Asked.antt =====
-- Object of the receiver, and the entry of the isolate around it.
use gv.Prelude.{
  ◌≡◌, ◌≢◌, refl, sym, ◌∙◌, ap, subst, Bool, true, false, not, some, List, if◌then◌else◌, ne→==,
  inl, inr, ◌⊎◌,
}
use gv.Prelude.Int.{ℤ, pos, ◌==ℤ◌}
use gv.Memory.{Ptr}
use gv.Run.{World, ok}
use gv.Go.{Context, Isolate, Value, Heap, Native, Attempt, done}
use gv.Go.Access.{Gate, enter_gate, leave_gate}
use gv.Go.Enter.Lent.{Admits}
use gv.Go.Guards.Valid.{inside, outside, if_valid-reads}
use gv.Go.Host.{HostCalls, object_of, is_object, asks_object}
use gv.Go.Host.Lent.{Lends}

-- Object of a valid value, of which C says whether it is an object: the value or nil.
pub object_lem :
    {E : Type 0} (calls : HostCalls (Native E)) (p : Ptr) (x : Value) (c : Context) (i : Isolate)
    (gate free : Gate) (r : ℤ) (w : World (Native E))
    → p ≢ 0
    → w.engine.go.values p ≡ some x
    → x.ptr ≢ 0
    → x.ctx ≢ 0
    → w.engine.go.contexts x.ctx ≡ some c
    → c.closed ≡ false
    → c.ptr ≢ 0
    → Admits w.engine.go c.iso i gate
    → leave_gate w.engine.go.thread gate ≡ some free
    → calls.value_is_object x.ptr (inside w c.iso i gate) ≡ ok r (inside w c.iso i gate)
    → object_of calls p w
      ≡ ok (done (if not (r ==ℤ pos 0) then p else 0)) (outside w c.iso i gate free)
unfolding object_of is_object gv.Go.◌>>=◌
object_lem calls p x c i gate free r w n e k d h o q t f b =
    rw
      (
        ne→== p 0 n,
        if_valid-reads p x c i gate free false (not (r ==ℤ pos 0)) (asks_object calls) w n e k d h o
            q t f (rw b refl),
      )
      refl

pub Lends-Admits :
    {g g' : Heap} {l : List Ptr} {iso : Ptr} {i : Isolate} {gate : Gate}
    → Lends g g' l
    → Admits g iso i gate
    → Admits g' iso i gate
Lends-Admits {iso} {i} {gate} k a = record {
  iso_ne_null = a.iso_ne_null;
  here = ap (λ f. f iso) k.isolates ∙ a.here;
  ptr_ne_null = a.ptr_ne_null;
  admitted = subst (λ t. enter_gate t i.gate ≡ some gate) (sym k.thread) a.admitted;
}

pub one_of : (b : Bool) (p : Ptr) → ((if b then p else 0) ≡ p) ⊎ ((if b then p else 0) ≡ 0)
one_of true p = inl refl
one_of false p = inr refl

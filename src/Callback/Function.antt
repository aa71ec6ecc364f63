-- ===== src/Callback/Function.antt =====
-- HostFunctionCallback: what a call of a host function leaves behind.
use gv.Prelude.{ℕ, suc, ◌+◌, ◌≤◌, ◌≡◌, ◌≢◌, none, some, Option, List, arith, length, ◌∙◌, refl, ap}
use gv.Prelude.Int.{ℤ, pos}
use gv.Memory.{Ptr, null, Gv8Ctx, Memory, EmbedderSlots}
use gv.Memory.Values.{wrap_borrowed_value, value_release}
use gv.Memory.Objects.{embedder_ctx}
use gv.Memory.Wrap.{borrow_at, borrowed}
use gv.Memory.Release.{release_borrowed, drop_at}
use gv.Run.{World, ok, ◌>>=◌}
use gv.V8.{V8, Host, Local}
use gv.Callback.{wrap_args, release_args, host_function_callback, handle_if}
use gv.Callback.Args.{addresses, Borrows, wrap_args-Borrows, release_args-Releases}

-- `n` handles were made and dropped; every wrapper and context is as before.
pub record Returned (n : ℕ) (m m' : Memory) : Type 0 where
  pub values : (q : Ptr) → m'.values q ≡ m.values q
  pub ctxs : m'.ctxs ≡ m.ctxs
  pub made : m'.made ≡ n + m.made
  pub freed : m'.freed ≡ n + m.freed
  pub next : m'.next ≡ n + m.next

-- A host whose functions return nothing and leave the program's memory alone.
pub record Silent {E : Type 0} (host : Host E) : Type 0 where
  pub answer :
      (ref id argc : ℤ) (recv : Ptr) (argv : List Ptr) (w : World E)
      → (e : E) × (host.function_callback ref id recv argc argv w
          ≡ (record { found = null; error_value = null }, record w { engine = e }))

module _ {E : Type 0} (v : V8 E) (host : Host E) (silent : Silent host) where
  callback_run :
      (iso : Ptr) (this : Local) (args : List Local) (id : ℤ) (w u x w' : World E)
      (s : EmbedderSlots) (c : Gv8Ctx) (argv : List Ptr)
      → w.mem.embedder (v.current_context iso w.engine) ≡ some s
      → wrap_args s.slot2 iso args (record w { mem = borrow_at w.mem s.slot2 iso this }) ≡ ok argv u
      → u.mem.ctxs s.slot2 ≡ some c
      → host.function_callback c.ref id w.mem.next (pos (length args)) argv u
        ≡ (record { found = null; error_value = null }, x)
      → value_release w.mem.next x.mem
        ≡ some (tt, drop_at x.mem w.mem.next (borrowed s.slot2 iso this))
      → release_args argv (record x { mem = drop_at x.mem w.mem.next (borrowed s.slot2 iso this) })
        ≡ ok tt w'
      → host_function_callback v host iso this args id w ≡ ok none w'
  unfolding host_function_callback ◌>>=◌ embedder_ctx wrap_borrowed_value handle_if
  callback_run iso this args id w u x w' s c argv e1 e2 e3 e4 e5 e6 =
      rw (e1, e2, e3, e4, e5, e6) refl

  -- A call of a host function that returns nothing and leaves the program's memory alone, from a
  -- context whose embedder slot leads to a live wrapper, in a memory whose addresses from `next` on,
  -- which is not null, hold no value: HostFunctionCallback ends without undefined behaviour and sets
  -- no return value; it makes and drops one handle for the receiver and one for each argument, and
  -- every value wrapper and context is as it was.
  pub host_function_callback-Returned :
      (iso : Ptr) (this : Local) (args : List Local) (id : ℤ) (w : World E) (s : EmbedderSlots)
      (c : Gv8Ctx)
      → w.mem.embedder (v.current_context iso w.engine) ≡ some s
      → w.mem.ctxs s.slot2 ≡ some c
      → w.mem.next ≢ 0
      → ((q : Ptr) → w.mem.next ≤ q → w.mem.values q ≡ none)
      → (w' : World E) × (host_function_callback v host iso this args id w ≡ ok none w')
        × Returned (suc (length args)) w.mem w'.mem
  host_function_callback-Returned iso this args id w s c slot live n unused =
      let (u, wraps, same, b) =
        wrap_args-Borrows s.slot2 iso args (record w { mem = borrow_at w.mem s.slot2 iso this }) in
      let (e, answer) =
        silent.answer c.ref id (pos (length args)) w.mem.next
          (addresses (suc w.mem.next) (length args)) u in
      let recv = ap_recv u b in
      let (w', releases, same', r) =
        release_args-Releases s.slot2 iso (length args) (suc w.mem.next)
          (record { engine = e; mem = drop_at u.mem w.mem.next (borrowed s.slot2 iso this) })
          (omega arith) (λ q x y. ground (arith, b.fresh q)) in
      (
        w',
        callback_run iso this args id w u (record u { engine = e }) w' s c
            (addresses (suc w.mem.next) (length args)) slot wraps
            (ap (λ (t : Ptr → Option Gv8Ctx). t s.slot2) b.ctxs ∙ live) answer
            (release_borrowed u.mem w.mem.next recv n refl) releases,
        record {
          values =
              λ q. ground (arith, b.below q, b.above q, r.gone q, r.below q, r.above q, unused q);
          ctxs = r.ctxs ∙ b.ctxs;
          made = omega (arith, r.made, b.made);
          freed = omega (arith, r.freed, b.freed);
          next = omega (arith, r.next, b.next);
        },
      )
    where
      ap_recv :
          (u : World E)
          → Borrows (length args) (borrow_at w.mem s.slot2 iso this) u.mem
          → u.mem.values w.mem.next ≡ some (borrowed s.slot2 iso this)
      ap_recv u b = ground (arith, b.below w.mem.next)

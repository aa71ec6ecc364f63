-- ===== src/Isolate/Dispose.antt =====
-- GV8IsolateDispose: what is left of an isolate.
use gv.Prelude.{
  ◌≡◌, ◌≢◌, none, some, Option, refl, ◌==◌, if◌then◌else◌, update, ne→==, ==_refl, ap, ◌∙◌, subst,
  sym, ◌⊎◌, inl, inr,
}
use gv.Memory.{Ptr, null, Memory, Gv8Ctx, IsolateSlots}
use gv.Memory.Invariant.{IsConsistent}
use gv.Memory.Dispose.{has, context_dispose-Disposed}
use gv.Memory.Values.{context_dispose}
use gv.Memory.Objects.{delete_isolate_slots, delete_startup, delete_buffer}
use gv.Run.{World, ok, ◌>>=◌}
use gv.V8.{V8}
use gv.Isolate.{isolate_dispose, internal_context}

-- A block that is there, or a null pointer.
abbrev IsBlock : {A : Type 0} → (Ptr → Option A) → Ptr → Type 0
IsBlock {A} blocks p = (p ≡ null) ⊎ ((p ≢ null) × ((a : A) × (blocks p ≡ some a)))

delete_startup_lem :
    (m : Memory) (p : Ptr)
    → IsBlock m.startups p
    → (m' : Memory) × (delete_startup p m ≡ some (tt, m'))
      × (m' ≡ record m { startups = m'.startups })
      × ((p ≢ null) → m'.startups p ≡ none)
unfolding delete_startup
delete_startup_lem m p (inl e) = (m, rw (e) refl, refl, λ n. absurd (n e))
delete_startup_lem m p (inr (n, (a, e))) = (
  record m { startups = update m.startups p none },
  rw (ne→== p 0 n, e) refl,
  refl,
  λ k. rw (==_refl p) refl,
)

delete_buffer_lem :
    (m : Memory) (p : Ptr)
    → IsBlock m.buffers p
    → (m' : Memory) × (delete_buffer p m ≡ some (tt, m'))
      × (m' ≡ record m { buffers = m'.buffers })
      × ((p ≢ null) → m'.buffers p ≡ none)
unfolding delete_buffer
delete_buffer_lem m p (inl e) = (m, rw (e) refl, refl, λ n. absurd (n e))
delete_buffer_lem m p (inr (n, (a, e))) = (
  record m { buffers = update m.buffers p none },
  rw (ne→== p 0 n, e) refl,
  refl,
  λ k. rw (==_refl p) refl,
)

-- The isolate, its internal context with the wrappers of its table, and its snapshot are gone; every
-- other context and wrapper is as it was.
pub record Gone (iso : Ptr) (s : IsolateSlots) (c : Gv8Ctx) (m m' : Memory) : Type 0 where
  pub isolate : m'.isolates iso ≡ none
  pub ctxs : (q : Ptr) → m'.ctxs q ≡ (if s.data0 == q then none else m.ctxs q)
  pub values : (q : Ptr) → m'.values q ≡ (if has q c.values then none else m.values q)
  pub blob : c.snapshot_blob ≢ null → m'.startups c.snapshot_blob ≡ none
  pub bytes : c.snapshot_data ≢ null → m'.buffers c.snapshot_data ≡ none

module _ {E : Type 0} (v : V8 E) (iso : Ptr) (w : World E) (s : IsolateSlots) (c : Gv8Ctx)
    (i : IsConsistent w.mem) (n : iso ≢ null) (live : w.mem.isolates iso ≡ some s)
    (found : w.mem.ctxs s.data0 ≡ some c) where
  dispose_run :
      (m a b : Memory)
      → context_dispose s.data0 w.mem ≡ some (tt, m)
      → m.isolates iso ≡ some s
      → delete_startup c.snapshot_blob (record m { isolates = update m.isolates iso none })
        ≡ some (tt, a)
      → delete_buffer c.snapshot_data a ≡ some (tt, b)
      → isolate_dispose v iso w
        ≡ ok tt (record { engine = v.isolate_dispose iso w.engine; mem = b })
  unfolding isolate_dispose internal_context ◌>>=◌ delete_isolate_slots
  dispose_run m a b e1 e2 e3 e4 = rw (ne→== iso 0 n, live, found, e1, e2, e3, e4) refl

  -- In a consistent memory, for a live isolate whose internal context is live and whose snapshot
  -- blocks are live or null: GV8IsolateDispose ends without undefined behaviour, and afterwards the
  -- isolate, its internal context, exactly the values of this context, and the snapshot blocks are
  -- gone; every other context and value is as it was.
  pub isolate_dispose-Gone :
      IsBlock w.mem.startups c.snapshot_blob
      → IsBlock w.mem.buffers c.snapshot_data
      → (w' : World E) × (isolate_dispose v iso w ≡ ok tt w') × Gone iso s c w.mem w'.mem
  isolate_dispose-Gone blob bytes =
      let (m, run, d) = context_dispose-Disposed i s.data0 found in
      let m1 = record m { isolates = update m.isolates iso none } in
      let (a, run_a, same_a, gone_a) =
        delete_startup_lem m1 c.snapshot_blob
          (subst (λ t. IsBlock t c.snapshot_blob) (sym d.startups) blob) in
      let (b, run_b, same_b, gone_b) = delete_buffer_lem a c.snapshot_data (
        subst (λ t. IsBlock t c.snapshot_data)
          (sym (ap (λ (x : Memory). x.buffers) same_a ∙ d.buffers)) bytes) in
      (
        record { engine = v.isolate_dispose iso w.engine; mem = b },
        dispose_run m a b run (ap (λ (t : Ptr → Option IsolateSlots). t iso) d.isolates ∙ live)
            run_a run_b,
        record {
          isolate =
              ap (λ (t : Memory). t.isolates iso) same_b
              ∙ ap (λ (t : Memory). t.isolates iso) same_a
              ∙ rw (==_refl iso) refl;
          ctxs = λ q.
              ap (λ (t : Memory). t.ctxs q) same_b
              ∙ ap (λ (t : Memory). t.ctxs q) same_a
              ∙ d.ctxs q;
          values = λ q.
              ap (λ (t : Memory). t.values q) same_b
              ∙ ap (λ (t : Memory). t.values q) same_a
              ∙ d.values q;
          blob = λ k. ap (λ (t : Memory). t.startups c.snapshot_blob) same_b ∙ gone_a k;
          bytes = λ k. gone_b k;
        },
      )

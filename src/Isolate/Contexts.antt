-- ===== src/Isolate/Contexts.antt =====
-- GV8NewContext and InternalCompileContext.
use gv.Prelude.{
  suc, ◌+◌, ◌≡◌, ◌≢◌, none, some, [], arith, refl, update, ==_refl, Option-cases, inl, inr,
}
use gv.Prelude.Int.{ℤ}
use gv.Memory.{Ptr, null, Memory, IsolateSlots, Gv8Ctx}
use gv.Memory.Objects.{set_embedder_ref, set_embedder_ctx, set_ctx_ptr, embedder_ctx}
use gv.Memory.Values.{new_ctx}
use gv.Run.{World, ok, ◌>>=◌}
use gv.V8.{V8, Local}
use gv.Scope.{iso_scope, ctx_scope}
use gv.Isolate.{new_context, internal_compile_context, internal_context}

-- The wrapper of a new V8 context, of which no value was wrapped yet.
abbrev pub fresh_ctx : Ptr → ℤ → Local → Gv8Ctx
fresh_ctx iso ref h = record {
  iso = iso;
  ptr = some h;
  ref = ref;
  values = [];
  next_value_id = 0;
  snapshot_blob = null;
  snapshot_data = null;
}

-- The memory with the wrapper.
abbrev with_ctx : Memory → Local → Ptr → ℤ → Memory
with_ctx m h iso ref = record m {
  next = suc m.next;
  made = m.made + 1;
  freed = m.freed + 0;
  ctxs =
      update (update m.ctxs m.next (some (record (fresh_ctx iso ref 0) { ptr = none }))) m.next
        (some (fresh_ctx iso ref h));
  embedder =
      update (update m.embedder h (some (record { slot1 = ref; slot2 = null }))) h
        (some (record { slot1 = ref; slot2 = m.next }));
}

-- The memory in which the internal context has a context of V8.
abbrev with_ptr : Memory → Ptr → Gv8Ctx → Local → Memory
with_ptr m p c h = record m {
  made = m.made + 1;
  freed = m.freed + 0;
  ctxs = update m.ctxs p (some (record c { ptr = some h }));
}

module _ {E : Type 0} (v : V8 E) where
  -- In a live isolate: GV8NewContext returns a new wrapper that holds the context that V8 made and
  -- the given ref, with an empty table; the context's embedder slot leads the callbacks back to this
  -- wrapper, operations on the wrapper work in that context, and no other wrapper of a context and
  -- no value has changed.
  pub new_context-embedder_ctx :
      (iso : Ptr) (ref : ℤ) (w : World E) (s : IsolateSlots)
      → w.mem.isolates iso ≡ some s
      → (h : Local) × (w' : World E) × (new_context v iso ref w ≡ ok w.mem.next w')
        × ((h, w'.engine) ≡ v.context_new iso w.engine)
        × (w'.mem.ctxs w.mem.next ≡ some (fresh_ctx iso ref h))
        × (embedder_ctx h w'.mem ≡ some (w.mem.next, w'.mem))
        × (ctx_scope w.mem.next w' ≡ ok (record { iso = iso; local_ctx = h }) w')
        × ((p : Ptr) → p ≢ w.mem.next → w'.mem.ctxs p ≡ w.mem.ctxs p)
        × (w'.mem.values ≡ w.mem.values)
  unfolding new_context iso_scope ◌>>=◌ set_embedder_ref set_embedder_ctx set_ctx_ptr embedder_ctx
      new_ctx ctx_scope
  new_context-embedder_ctx iso ref w s live =
      let (h, e) = v.context_new iso w.engine in
      (
        h,
        record { engine = e; mem = with_ctx w.mem h iso ref },
        rw (live, ==_refl w.mem.next, ==_refl h) refl,
        refl,
        ground arith,
        rw (==_refl h) refl,
        rw (==_refl w.mem.next, live) refl,
        λ p n. ground arith,
        refl,
      )

  -- Where the internal context of an isolate is live: InternalCompileContext gives a context of V8,
  -- and when it is asked again it gives the same one and changes nothing.
  pub internal_compile_context-internal_compile_context :
      (iso : Ptr) (w : World E) (s : IsolateSlots) (c : Gv8Ctx)
      → w.mem.isolates iso ≡ some s
      → w.mem.ctxs s.data0 ≡ some c
      → (h : Local) × (w' : World E) × (internal_compile_context v iso w ≡ ok h w')
        × (internal_compile_context v iso w' ≡ ok h w')
  unfolding internal_compile_context internal_context set_ctx_ptr ◌>>=◌
  internal_compile_context-internal_compile_context iso w s c live has = elim (Option-cases c.ptr) [
    | inl e ↦
        let (h, x) = v.context_new iso w.engine in
        (
          h,
          record { engine = x; mem = with_ptr w.mem s.data0 c h },
          rw (live, has, e, has, ==_refl s.data0, e) refl,
          rw (live, ==_refl s.data0, ==_refl s.data0) refl,
        )
    | inr (h, e) ↦ (h, w, rw (live, has, e, has, e) refl, rw (live, has, e, has, e) refl)
  ]

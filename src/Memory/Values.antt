-- ===== src/Memory/Values.antt =====
-- internal/gv8.cc: trackValue, wrapValue, wrapBorrowedValue, GV8ValueRelease, GV8ContextDispose,
-- and the part of GV8NewContext that builds a gv8_ctx.
use gv.Prelude.{
  ℕ, suc, ◌+◌, Option, none, some, List, [], ◌∷◌, Bool, true, false, ◌&&◌, not, ◌==◌, if◌then◌else◌,
}
use gv.Prelude
use gv.Prelude.Int.{ℤ}
use gv.Memory.{
  Ptr, null, Persistent, Gv8Value, Mem, pure, ◌>>=◌, ◌>>◌, insert, erase, allocate, reset, load_ctx,
  store_ctx, load_value, store_value, new_value, delete_value, delete_ctx,
}

-- `value->id = ++ctx->next_value_id; ctx->values[value->id] = value;`
register : Ptr → Ptr → Gv8Value → Mem Ptr
register ctx value v = do
  c ← load_ctx ctx
  store_value value (record v { id = suc c.next_value_id })
  store_ctx ctx (record c {
    next_value_id = suc c.next_value_id;
    values = insert (suc c.next_value_id) value c.values;
  })
  pure value

-- Gives an untracked wrapper the next id of its context, and enters it in the context's table.
track_value : Ptr → Ptr → Mem Ptr
unfolding register
track_value ctx value = do
  v ← load_value value
  if v.id == 0 then register ctx value v else pure value

unfoldable pub wrap_value : Ptr → Ptr → ℕ → Mem Ptr
unfolding track_value
wrap_value ctx iso value = do
  wrap ← new_value (record { id = 0; ctx = ctx; iso = iso; ptr = some value })
  track_value ctx wrap

unfoldable pub wrap_borrowed_value : Ptr → Ptr → ℕ → Mem Ptr
wrap_borrowed_value ctx iso value =
    new_value (record { id = 0; ctx = ctx; iso = iso; ptr = some value })

-- `ctx->values.erase(value->id)`, where the wrapper is tracked.
untrack : Gv8Value → Mem (Unit {0})
untrack v =
    if not (v.ctx == null) && not (v.id == 0)
    then (do c ← load_ctx v.ctx; store_ctx v.ctx (record c { values = erase v.id c.values }))
    else pure tt

unfoldable pub value_release : Ptr → Mem (Unit {0})
unfolding untrack
value_release value =
    if value == null
    then pure tt
    else do v ← load_value value; untrack v; reset v.ptr; delete_value value

-- The loop of GV8ContextDispose.
unfoldable pub dispose_values : List (ℕ × Ptr) → Mem (Unit {0})
dispose_values [] = pure tt
dispose_values ((id, value) ∷ rest) = do
  v ← load_value value
  reset v.ptr
  delete_value value
  dispose_values rest

unfoldable pub context_dispose : Ptr → Mem (Unit {0})
unfolding dispose_values
context_dispose ctx = if ctx == null then pure tt else do
  c ← load_ctx ctx
  reset c.ptr
  store_ctx ctx (record c { ptr = none })
  dispose_values c.values
  delete_ctx ctx

-- `new gv8_ctx`, with the fields that the two callers set.
unfoldable pub new_ctx : Ptr → ℤ → Persistent → Mem Ptr
new_ctx iso ref context = do
  p ← allocate
  (λ m. some (
    tt,
    record m {
      ctxs = Prelude.update m.ctxs p (
          some (record {
            iso = iso;
            ptr = context;
            ref = ref;
            values = [];
            next_value_id = 0;
            snapshot_blob = null;
            snapshot_data = null;
          }));
    },
  ))
  pure p

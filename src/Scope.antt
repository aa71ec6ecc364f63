-- ===== src/Scope.antt =====
-- internal/gv8.cc: ISO_SCOPE, CTX_SCOPE and the like. The scopes are undone by destructors, so that
-- what is left of them is what they read: the isolate, and the context of a wrapper.
pub mod Keeps
pub mod Live
pub mod Objects
use gv.Prelude.{ℕ, Option, none, some, if◌then◌else◌, ◌==◌}
use mathlib.Core.Option
use gv.Memory.{
  Ptr, null, Mem, Gv8Ctx, Gv8Value, Gv8UnboundScript, Gv8Module, Gv8SnapshotBuilder, IsolateSlots,
  load_ctx, load_value,
}
use gv.Memory.Values.{wrap_value}
use gv.Run.{Cmd, pure, memory, get, ◌>>=◌, ◌>>◌}
use gv.V8.{Local}

abbrev pub load_isolate : Ptr → Mem IsolateSlots
load_isolate p m = Option.map (λ s. (s, m)) (m.isolates p)

abbrev pub load_script : Ptr → Mem Gv8UnboundScript
load_script p m = Option.map (λ s. (s, m)) (m.scripts p)

abbrev pub load_module : Ptr → Mem Gv8Module
load_module p m = Option.map (λ s. (s, m)) (m.modules p)

abbrev pub load_builder : Ptr → Mem Gv8SnapshotBuilder
load_builder p m = Option.map (λ s. (s, m)) (m.builders p)

-- The isolate and the local context that an operation works in.
pub record Scope : Type 0 where
  pub iso : Ptr
  pub local_ctx : Local

module _ {E : Type 0} where
  -- ISO_SCOPE: a null isolate or one that was disposed of is undefined behaviour.
  unfoldable pub iso_scope : Ptr → Cmd E (Unit {0})
  iso_scope iso = do _ ← memory (load_isolate iso); pure tt

  -- CTX_SCOPE
  unfoldable pub ctx_scope : Ptr → Cmd E Scope
  unfolding iso_scope
  ctx_scope ctx_ptr = do
    c ← memory (load_ctx ctx_ptr)
    iso_scope c.iso
    local_ctx ← get c.ptr
    pure (record { iso = c.iso; local_ctx = local_ctx })

  -- `iso = value_ptr->iso; ISO_SCOPE(iso)`
  pub value_iso_scope : Ptr → Cmd E Ptr
  unfolding iso_scope
  value_iso_scope value_ptr = do v ← memory (load_value value_ptr); iso_scope v.iso; pure v.iso

  -- The same, and `local_ctx = value_ptr->ctx->ptr.Get(iso)`.
  pub value_scope : Ptr → Cmd E Scope
  unfolding value_iso_scope
  value_scope value_ptr = do
    iso ← value_iso_scope value_ptr
    v ← memory (load_value value_ptr)
    c ← memory (load_ctx v.ctx)
    local_ctx ← get c.ptr
    pure (record { iso = iso; local_ctx = local_ctx })

  -- `value_ptr->ptr.Get(iso)`
  unfoldable pub handle_of : Ptr → Cmd E Local
  handle_of value_ptr = do v ← memory (load_value value_ptr); get v.ptr

  -- `wrapValue(value_ptr->ctx, iso, result)`, which reads the wrapper anew.
  unfoldable pub wrap_beside : Ptr → Ptr → Local → Cmd E Ptr
  wrap_beside value_ptr iso result = do
    v ← memory (load_value value_ptr)
    memory (wrap_value v.ctx iso result)

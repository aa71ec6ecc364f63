-- ===== src/Scope/Objects.antt =====
-- Rules for the changes of the objects other than contexts' tables and wrappers.
use gv.Prelude.{ℕ, some, List, arith, Option-cases, inl, inr}
use gv.Prelude.Int.{ℤ}
use gv.Memory.{Ptr, Persistent, Memory}
use gv.Memory.Objects.{
  set_default_allocator, get_default_allocator, new_isolate_slots, set_data0, set_data1,
  set_import_hook, set_reject_hook, delete_isolate_slots, set_embedder_ref, set_embedder_ctx,
  embedder_ctx, new_script, delete_script, new_module, delete_module, leave_module, new_builder,
  set_builder_ctx, set_built, delete_builder, new_buffer, new_startup, delete_buffer,
  delete_startup, set_ctx_ptr, set_ctx_snapshot,
}
use gv.Memory.Steps.{edits}
use gv.Run.Keeps.{MemKeeps}
use gv.V8.Reentry.{Stable}
use gv.Scope.Keeps.{MemKeeps-Elsewhere}

module _ {P : Memory → Type 0} (stable : Stable P) where
  pub MemKeeps-set_default_allocator : (p : Ptr) → MemKeeps P (set_default_allocator p)
  unfolding set_default_allocator
  MemKeeps-set_default_allocator p = MemKeeps-Elsewhere stable _ (λ m m' r e. ground arith)

  pub MemKeeps-get_default_allocator : MemKeeps P get_default_allocator
  unfolding get_default_allocator
  MemKeeps-get_default_allocator = MemKeeps-Elsewhere stable _ (λ m m' r e. ground arith)

  pub MemKeeps-new_isolate_slots : MemKeeps P new_isolate_slots
  unfolding new_isolate_slots
  MemKeeps-new_isolate_slots = MemKeeps-Elsewhere stable _ (λ m m' r e. ground arith)

  pub MemKeeps-set_data0 : (iso p : Ptr) → MemKeeps P (set_data0 iso p)
  unfolding set_data0
  MemKeeps-set_data0 iso p = MemKeeps-Elsewhere stable _ (λ m m' r e. ground arith)

  pub MemKeeps-set_data1 : (iso : Ptr) (ref : ℤ) → MemKeeps P (set_data1 iso ref)
  unfolding set_data1
  MemKeeps-set_data1 iso ref = MemKeeps-Elsewhere stable _ (λ m m' r e. ground arith)

  pub MemKeeps-set_import_hook : (iso : Ptr) → MemKeeps P (set_import_hook iso)
  unfolding set_import_hook
  MemKeeps-set_import_hook iso = MemKeeps-Elsewhere stable _ (λ m m' r e. ground arith)

  pub MemKeeps-set_reject_hook : (iso : Ptr) → MemKeeps P (set_reject_hook iso)
  unfolding set_reject_hook
  MemKeeps-set_reject_hook iso = MemKeeps-Elsewhere stable _ (λ m m' r e. ground arith)

  pub MemKeeps-delete_isolate_slots : (p : Ptr) → MemKeeps P (delete_isolate_slots p)
  unfolding delete_isolate_slots
  MemKeeps-delete_isolate_slots p = MemKeeps-Elsewhere stable _ (λ m m' r e. ground arith)

  pub MemKeeps-set_embedder_ref : (ctx : ℕ) (ref : ℤ) → MemKeeps P (set_embedder_ref ctx ref)
  unfolding set_embedder_ref
  MemKeeps-set_embedder_ref ctx ref = MemKeeps-Elsewhere stable _ (λ m m' r e. ground arith)

  pub MemKeeps-set_embedder_ctx : (ctx : ℕ) (p : Ptr) → MemKeeps P (set_embedder_ctx ctx p)
  unfolding set_embedder_ctx
  MemKeeps-set_embedder_ctx ctx p = MemKeeps-Elsewhere stable _ (λ m m' r e. ground arith)

  pub MemKeeps-embedder_ctx : (ctx : ℕ) → MemKeeps P (embedder_ctx ctx)
  unfolding embedder_ctx
  MemKeeps-embedder_ctx ctx = MemKeeps-Elsewhere stable _ (λ m m' r e. ground arith)

  pub MemKeeps-new_script : (iso : Ptr) (h : ℕ) → MemKeeps P (new_script iso h)
  unfolding new_script
  MemKeeps-new_script iso h = MemKeeps-Elsewhere stable _ (λ m m' r e. ground arith)

  pub MemKeeps-delete_script : (p : Ptr) → MemKeeps P (delete_script p)
  unfolding delete_script
  MemKeeps-delete_script p = MemKeeps-Elsewhere stable _ (λ m m' r e. ground arith)

  pub MemKeeps-new_module : (iso : Ptr) (h : ℕ) → MemKeeps P (new_module iso h)
  unfolding new_module
  MemKeeps-new_module iso h = MemKeeps-Elsewhere stable _ (λ m m' r e. ground arith)

  pub MemKeeps-delete_module : (p : Ptr) → MemKeeps P (delete_module p)
  unfolding delete_module
  MemKeeps-delete_module p = MemKeeps-Elsewhere stable _ (λ m m' r e. ground arith)

  pub MemKeeps-leave_module : (p : Ptr) → MemKeeps P (leave_module p)
  unfolding leave_module
  MemKeeps-leave_module p = MemKeeps-Elsewhere stable _ (λ m m' r e. ground arith)

  pub MemKeeps-new_builder : (creator : ℕ) (iso : Ptr) → MemKeeps P (new_builder creator iso)
  unfolding new_builder
  MemKeeps-new_builder creator iso = MemKeeps-Elsewhere stable _ (λ m m' r e. ground arith)

  pub MemKeeps-set_builder_ctx : (p : Ptr) (h : Persistent) → MemKeeps P (set_builder_ctx p h)
  unfolding set_builder_ctx
  MemKeeps-set_builder_ctx p h = MemKeeps-Elsewhere stable _ (λ m m' r e. ground arith)

  pub MemKeeps-set_built : (p : Ptr) → MemKeeps P (set_built p)
  unfolding set_built
  MemKeeps-set_built p = MemKeeps-Elsewhere stable _ (λ m m' r e. ground arith)

  pub MemKeeps-delete_builder : (p : Ptr) → MemKeeps P (delete_builder p)
  unfolding delete_builder
  MemKeeps-delete_builder p = MemKeeps-Elsewhere stable _ (λ m m' r e. ground arith)

  pub MemKeeps-new_buffer : (bytes : List ℕ) → MemKeeps P (new_buffer bytes)
  unfolding new_buffer
  MemKeeps-new_buffer bytes = MemKeeps-Elsewhere stable _ (λ m m' r e. ground arith)

  pub MemKeeps-new_startup : (bytes : Ptr) (size : ℤ) → MemKeeps P (new_startup bytes size)
  unfolding new_startup
  MemKeeps-new_startup bytes size = MemKeeps-Elsewhere stable _ (λ m m' r e. ground arith)

  pub MemKeeps-delete_buffer : (p : Ptr) → MemKeeps P (delete_buffer p)
  unfolding delete_buffer
  MemKeeps-delete_buffer p = MemKeeps-Elsewhere stable _ (λ m m' r e. ground arith)

  pub MemKeeps-delete_startup : (p : Ptr) → MemKeeps P (delete_startup p)
  unfolding delete_startup
  MemKeeps-delete_startup p = MemKeeps-Elsewhere stable _ (λ m m' r e. ground arith)

  pub MemKeeps-set_ctx_ptr : (p : Ptr) (h : ℕ) → MemKeeps P (set_ctx_ptr p h)
  unfolding set_ctx_ptr
  MemKeeps-set_ctx_ptr p h = record {
    at = λ m m' r e k. elim (Option-cases (m.ctxs p)) [
      | inl dead ↦ ground arith
      | inr (c, live) ↦ stable.step m m' (edits p c (record c { ptr = some h }) (ground arith)) k
    ];
  }

  pub MemKeeps-set_ctx_snapshot : (p blob bytes : Ptr) → MemKeeps P (set_ctx_snapshot p blob bytes)
  unfolding set_ctx_snapshot
  MemKeeps-set_ctx_snapshot p blob bytes = record {
    at = λ m m' r e k. elim (Option-cases (m.ctxs p)) [
      | inl dead ↦ ground arith
      | inr (c, live) ↦
          stable.step m m'
            (edits p c (record c { snapshot_blob = blob; snapshot_data = bytes }) (ground arith)) k
    ];
  }

pub ruleset object_rules = (
  MemKeeps-set_default_allocator, MemKeeps-get_default_allocator, MemKeeps-new_isolate_slots,
  MemKeeps-set_data0, MemKeeps-set_data1, MemKeeps-set_import_hook, MemKeeps-set_reject_hook,
  MemKeeps-delete_isolate_slots, MemKeeps-set_embedder_ref, MemKeeps-set_embedder_ctx,
  MemKeeps-embedder_ctx, MemKeeps-new_script, MemKeeps-delete_script, MemKeeps-new_module,
  MemKeeps-delete_module, MemKeeps-leave_module, MemKeeps-new_builder, MemKeeps-set_builder_ctx,
  MemKeeps-set_built, MemKeeps-delete_builder, MemKeeps-new_buffer, MemKeeps-new_startup,
  MemKeeps-delete_buffer, MemKeeps-delete_startup, MemKeeps-set_ctx_ptr, MemKeeps-set_ctx_snapshot,
)

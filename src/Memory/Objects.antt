-- ===== src/Memory/Objects.antt =====
-- The other objects of the program's memory: isolates' slots, scripts, modules, builders, snapshot
-- blocks, and the embedder slots of V8's contexts.
use gv.Prelude
use gv.Prelude.{ℕ, zero, suc, ◌+◌, Option, none, some, List, Bool, true, false, if◌then◌else◌, ◌==◌}
use mathlib.Core.Option
use gv.Prelude.Int.{ℤ, pos}
use gv.Memory.{Ptr, null, Persistent, holds, Gv8Ctx, IsolateSlots, Mem}

unfoldable pub set_default_allocator : Ptr → Mem (Unit {0})
set_default_allocator p m = some (tt, record m { default_allocator = p })

unfoldable pub get_default_allocator : Mem Ptr
get_default_allocator m = some (m.default_allocator, m)

-- The object of a new isolate, whose slots are empty.
unfoldable pub new_isolate_slots : Mem Ptr
new_isolate_slots m = some (
  m.next,
  record m {
    next = suc m.next;
    isolates =
        Prelude.update m.isolates m.next
          (some (record { data0 = null; data1 = pos 0; import_hook = false; reject_hook = false }));
  },
)

abbrev edit_isolate : (IsolateSlots → IsolateSlots) → Ptr → Mem (Unit {0})
edit_isolate f p m =
    Option.map (λ s. (tt, record m { isolates = Prelude.update m.isolates p (some (f s)) }))
      (m.isolates p)

-- `SetData(0, p)`, `SetData(1, ref)` and the setters of the two callbacks.
unfoldable pub set_data0 : Ptr → Ptr → Mem (Unit {0})
set_data0 iso p = edit_isolate (λ s. record s { data0 = p }) iso

unfoldable pub set_data1 : Ptr → ℤ → Mem (Unit {0})
set_data1 iso ref = edit_isolate (λ s. record s { data1 = ref }) iso

unfoldable pub set_import_hook : Ptr → Mem (Unit {0})
set_import_hook iso = edit_isolate (λ s. record s { import_hook = true }) iso

unfoldable pub set_reject_hook : Ptr → Mem (Unit {0})
set_reject_hook iso = edit_isolate (λ s. record s { reject_hook = true }) iso

unfoldable pub delete_isolate_slots : Ptr → Mem (Unit {0})
delete_isolate_slots p m =
    Option.map (λ s. (tt, record m { isolates = Prelude.update m.isolates p none })) (m.isolates p)

-- `SetEmbedderDataV2(1, …)` and `SetEmbedderDataV2(2, …)`
unfoldable pub set_embedder_ref : ℕ → ℤ → Mem (Unit {0})
set_embedder_ref ctx ref m = some (
  tt,
  record m {
    embedder = Prelude.update m.embedder ctx (some (record { slot1 = ref; slot2 = null }));
  },
)

unfoldable pub set_embedder_ctx : ℕ → Ptr → Mem (Unit {0})
set_embedder_ctx ctx p m =
    Option.map
      (λ s.
        (tt, record m { embedder = Prelude.update m.embedder ctx (some (record s { slot2 = p })) }))
      (m.embedder ctx)

-- `GetEmbedderDataV2(2)` as a gv8_ctx pointer.
unfoldable pub embedder_ctx : ℕ → Mem Ptr
embedder_ctx ctx m = Option.map (λ s. (s.slot2, m)) (m.embedder ctx)

abbrev edit_ctx : (Gv8Ctx → Gv8Ctx) → Ptr → Mem (Unit {0})
edit_ctx f p m =
    Option.map (λ c. (tt, record m { ctxs = Prelude.update m.ctxs p (some (f c)) })) (m.ctxs p)

-- `ctx->ptr.Reset(iso, h)`
unfoldable pub set_ctx_ptr : Ptr → ℕ → Mem (Unit {0})
set_ctx_ptr p h m =
    Option.map
      (λ c. (
        tt,
        record m {
          made = m.made + 1;
          freed = m.freed + holds c.ptr;
          ctxs = Prelude.update m.ctxs p (some (record c { ptr = some h }));
        },
      ))
      (m.ctxs p)

unfoldable pub set_ctx_snapshot : Ptr → Ptr → Ptr → Mem (Unit {0})
set_ctx_snapshot p blob bytes =
    edit_ctx (λ c. record c { snapshot_blob = blob; snapshot_data = bytes }) p

-- `new` with a handle set, and `ptr.Reset(); delete`.
unfoldable pub new_script : Ptr → ℕ → Mem Ptr
new_script iso h m = some (
  m.next,
  record m {
    next = suc m.next;
    made = m.made + 1;
    scripts = Prelude.update m.scripts m.next (some (record { iso = iso; ptr = some h }));
  },
)

unfoldable pub delete_script : Ptr → Mem (Unit {0})
delete_script p m =
    Option.map
      (λ s.
        (tt, record m { freed = m.freed + holds s.ptr; scripts = Prelude.update m.scripts p none }))
      (m.scripts p)

unfoldable pub new_module : Ptr → ℕ → Mem Ptr
new_module iso h m = some (
  m.next,
  record m {
    next = suc m.next;
    made = m.made + 1;
    modules = Prelude.update m.modules m.next (some (record { iso = iso; ptr = some h }));
  },
)

unfoldable pub delete_module : Ptr → Mem (Unit {0})
delete_module p m =
    Option.map
      (λ s.
        (tt, record m { freed = m.freed + holds s.ptr; modules = Prelude.update m.modules p none }))
      (m.modules p)

-- A gv8_module on the stack goes out of scope: its Persistent is not reset by the destructor.
unfoldable pub leave_module : Ptr → Mem (Unit {0})
leave_module p m =
    Option.map (λ s. (tt, record m { modules = Prelude.update m.modules p none })) (m.modules p)

unfoldable pub new_builder : ℕ → Ptr → Mem Ptr
new_builder creator iso m = some (
  m.next,
  record m {
    next = suc m.next;
    builders =
        Prelude.update m.builders m.next
          (some (record { creator = creator; iso = iso; ctx = none; built = false }));
  },
)

-- `builder->ctx.Reset(iso, ctx)`, `builder->ctx.Reset()` and `builder->built = true`.
unfoldable pub set_builder_ctx : Ptr → Persistent → Mem (Unit {0})
set_builder_ctx p h m =
    Option.map
      (λ b. (
        tt,
        record m {
          made = m.made + holds h;
          freed = m.freed + holds b.ctx;
          builders = Prelude.update m.builders p (some (record b { ctx = h }));
        },
      ))
      (m.builders p)

unfoldable pub set_built : Ptr → Mem (Unit {0})
set_built p m =
    Option.map
      (λ b. (
        tt,
        record m { builders = Prelude.update m.builders p (some (record b { built = true })) },
      ))
      (m.builders p)

unfoldable pub delete_builder : Ptr → Mem (Unit {0})
delete_builder p m =
    Option.map (λ b. (tt, record m { builders = Prelude.update m.builders p none })) (m.builders p)

-- `new char[length]` with its bytes, `new StartupData`, and `delete` of a pointer that may be null.
unfoldable pub new_buffer : List ℕ → Mem Ptr
new_buffer bytes m =
    some (
      m.next,
      record m { next = suc m.next; buffers = Prelude.update m.buffers m.next (some bytes) },
    )

unfoldable pub new_startup : Ptr → ℤ → Mem Ptr
new_startup bytes size m = some (
  m.next,
  record m {
    next = suc m.next;
    startups = Prelude.update m.startups m.next (some (record { bytes = bytes; raw_size = size }));
  },
)

unfoldable pub delete_buffer : Ptr → Mem (Unit {0})
delete_buffer p m =
    if p == null
    then some (tt, m)
    else Option.map (λ b. (tt, record m { buffers = Prelude.update m.buffers p none }))
        (m.buffers p)

unfoldable pub delete_startup : Ptr → Mem (Unit {0})
delete_startup p m =
    if p == null
    then some (tt, m)
    else Option.map (λ b. (tt, record m { startups = Prelude.update m.startups p none }))
        (m.startups p)

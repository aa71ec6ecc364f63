-- ===== src/Isolate.antt =====
-- internal/gv8.cc: GV8Init, the life of an isolate and of a context, and the calls on an isolate.
pub mod Contexts
pub mod Data
pub mod Dispose
pub mod Keeps
pub mod Start
use gv.Prelude.{
  ℕ, zero, suc, ◌+◌, ◌*◌, Bool, true, false, not, ◌&&◌, ◌||◌, Option, none, some, List, [], ◌∷◌,
  ◌++◌, if◌then◌else◌, ◌==◌, ltb, length, take, drop,
}
use gv.Prelude.Int.{ℤ, pos, negsuc, pos_part, is_positive}
use gv.Memory.{Ptr, null, Persistent, load_ctx}
use gv.Memory.Values.{new_ctx, context_dispose}
use gv.Memory.Objects.{
  set_default_allocator, get_default_allocator, new_isolate_slots, set_data0, set_data1,
  set_import_hook, set_reject_hook, delete_isolate_slots, set_embedder_ref, set_embedder_ctx,
  set_ctx_ptr, set_ctx_snapshot, new_buffer, new_startup, delete_buffer, delete_startup,
}
use gv.Run.{Cmd, pure, asks, engine, enter, memory, get, ◌>>=◌, ◌>>◌}
use gv.V8.{
  V8, Text, CString, Local, CreateParams, HeapStatistics, MemoryPressureLevel, none_level, moderate,
  critical,
}
use gv.Text.{shared_library_dir, codes}
use gv.Scope.{iso_scope, load_isolate}
use gv.Results.{flag}
use gv.Creation.{copy_bytes}

-- A change of V8's state with no result.
abbrev pub tell : {E : Type 0} → (E → E) → Cmd E (Unit {0})
tell f = engine (λ e. (tt, f e))

-- `memcpy(&word, data + 4, sizeof word)` of a little-endian uint32_t; `none` beyond the data.
abbrev pub word_of : List ℕ → Option ℕ
word_of (a ∷ b ∷ c ∷ d ∷ rest) = some (a + 256 * (b + 256 * (c + 256 * d)))
word_of _ = none

abbrev int_lt : ℤ → ℕ → Bool
int_lt (pos n) k = ltb n k
int_lt (negsuc n) k = true

-- ConfigureHeap
abbrev pub configure_heap : CreateParams → ℕ → ℕ → CreateParams
configure_heap params initial_heap_size max_heap_size =
    if ltb 0 initial_heap_size || ltb 0 max_heap_size
    then record params { heap_size = some (initial_heap_size, max_heap_size) }
    else params

abbrev or_true : {A : Type 0} → Option A → Bool
or_true none = true
or_true (some a) = false

pub default_params : {E : Type 0} → Cmd E CreateParams
default_params = do
  allocator ← memory get_default_allocator
  pure (record { array_buffer_allocator = allocator; heap_size = none; snapshot_blob = null })

-- `iso->GetData(0)`
pub internal_context : {E : Type 0} → Ptr → Cmd E Ptr
internal_context iso = do s ← memory (load_isolate iso); pure s.data0

-- GV8IsolateSetObserverRef
unfoldable pub isolate_set_observer_ref : {E : Type 0} → Ptr → ℤ → Cmd E (Unit {0})
isolate_set_observer_ref iso ref = if iso == null then pure tt else memory (set_data1 iso ref)

module _ {E : Type 0} (v : V8 E) where
  -- The test of the rehashability word, and `StartupData::IsValid`.
  abbrev pub word_is_valid : Text → ℤ → ℕ → Bool
  word_is_valid t length word =
      if not (word == 0) && not (word == 1) then false else v.startup_is_valid t length

  abbrev checked_word : Text → ℤ → Option ℕ → Option Bool
  checked_word t length none = none
  checked_word t length (some word) = some (word_is_valid t length word)

  -- SnapshotDataIsValid; `none` is a read beyond the data.
  pub snapshot_data_is_valid : CString → ℤ → Option Bool
  snapshot_data_is_valid none length = some false
  snapshot_data_is_valid (some t) length =
      if int_lt length 8 then some false else checked_word t length (word_of (drop 4 t))

  -- GV8Init; the argument is what `dladdr` finds.
  pub init : CString → Cmd E (Unit {0})
  init dli_fname = do
    tell (v.initialize_icu (shared_library_dir dli_fname ++ codes "/icudtl.dat"))
    tell v.initialize_platform
    tell v.initialize
    allocator ← engine v.new_default_allocator
    memory (set_default_allocator allocator)

  -- The new context of the isolate, for `ctx->ptr.Reset(iso, Context::New(iso))`.
  pub create_context : Ptr → Ptr → Cmd E (Unit {0})
  create_context iso ctx = do context ← engine (v.context_new iso); memory (set_ctx_ptr ctx context)

  -- InitializeGV8Isolate
  unfoldable pub initialize_gv8_isolate : Ptr → Bool → Cmd E (Unit {0})
  unfolding create_context
  initialize_gv8_isolate iso create_internal_context = do
    memory (set_import_hook iso)
    iso_scope iso
    internal ← memory (new_ctx iso (pos 0) none)
    if create_internal_context then create_context iso internal else pure tt
    memory (set_data0 iso internal)
    memory (set_reject_hook iso)

  -- InternalCompileContext
  pub internal_compile_context : Ptr → Cmd E Local
  unfolding internal_context create_context
  internal_compile_context iso = do
    internal ← internal_context iso
    c ← memory (load_ctx internal)
    if or_true c.ptr then create_context iso internal else pure tt
    c' ← memory (load_ctx internal)
    get c'.ptr

  -- `Isolate::New`, which gives a null pointer where it fails.
  pub isolate_new : CreateParams → Cmd E Ptr
  isolate_new params = do
    made ← engine (v.isolate_new params)
    if made then memory new_isolate_slots else pure null

  -- GV8NewIsolate
  unfoldable pub new_isolate : Cmd E Ptr
  unfolding default_params isolate_new
  new_isolate = do
    params ← default_params
    iso ← isolate_new params
    initialize_gv8_isolate iso true
    pure iso

  -- GV8NewIsolateWithHeapLimit
  pub new_isolate_with_heap_limit : ℕ → ℕ → Cmd E Ptr
  unfolding default_params isolate_new
  new_isolate_with_heap_limit initial_heap_size max_heap_size = do
    params ← default_params
    iso ← isolate_new (configure_heap params initial_heap_size max_heap_size)
    initialize_gv8_isolate iso true
    pure iso

  -- From `Isolate::New` on, with the snapshot's two blocks, which may be null.
  pub start_isolate : CreateParams → Ptr → Ptr → Cmd E Ptr
  unfolding isolate_new
  start_isolate params snapshot snapshot_data = do
    iso ← isolate_new (record params { snapshot_blob = snapshot })
    if iso == null
        then (do memory (delete_startup snapshot); memory (delete_buffer snapshot_data); pure null)
        else (do
          initialize_gv8_isolate iso false
          internal ← internal_context iso
          memory (set_ctx_snapshot internal snapshot snapshot_data)
          pure iso)

  pub start_from_snapshot : CreateParams → Text → ℤ → Cmd E Ptr
  unfolding start_isolate
  start_from_snapshot params t length = do
    valid ← get (snapshot_data_is_valid (some t) length)
    if valid
        then (do
          copy ← get (copy_bytes t (pos_part length))
          snapshot_data ← memory (new_buffer copy)
          snapshot ← memory (new_startup snapshot_data length)
          start_isolate params snapshot snapshot_data)
        else pure null

  -- `data != nullptr && length > 0`
  pub start_with_data : CreateParams → CString → ℤ → Cmd E Ptr
  unfolding start_from_snapshot
  start_with_data params none length = start_isolate params null null
  start_with_data params (some t) length =
      if is_positive length
      then start_from_snapshot params t length
      else start_isolate params null null

  -- GV8NewIsolateWithSnapshot
  pub new_isolate_with_snapshot : CString → ℤ → ℕ → ℕ → Cmd E Ptr
  unfolding default_params start_with_data
  new_isolate_with_snapshot bytes length initial_heap_size max_heap_size = do
    params ← default_params
    start_with_data (configure_heap params initial_heap_size max_heap_size) bytes length

  -- GV8IsolateDispose
  pub isolate_dispose : Ptr → Cmd E (Unit {0})
  isolate_dispose iso = if iso == null then pure tt else do
    internal ← internal_context iso
    c ← memory (load_ctx internal)
    memory (context_dispose internal)
    tell (v.isolate_dispose iso)
    memory (delete_isolate_slots iso)
    memory (delete_startup c.snapshot_blob)
    memory (delete_buffer c.snapshot_data)

  -- GV8NewContext
  unfoldable pub new_context : Ptr → ℤ → Cmd E Ptr
  new_context iso ref = do
    iso_scope iso
    ctx ← engine (v.context_new iso)
    memory (set_embedder_ref ctx ref)
    wrap ← memory (new_ctx iso ref none)
    memory (set_ctx_ptr wrap ctx)
    memory (set_embedder_ctx ctx wrap)
    pure wrap

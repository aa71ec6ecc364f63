-- ===== src/Go/Scripts.antt =====
-- script.go: compileUnboundScript, Release and Run; snapshot.go: NewSnapshotBuilder, RunScript, Build and
-- Release. The functions of gv8.h that they call are parameters.
use gv.Prelude.{Bool, true, Option, none, some, if◌then◌else◌, ◌==◌}
use gv.Prelude.Int.{ℤ}
use gv.Prelude.Bytes.{bytes}
use gv.Memory.{Ptr, null}
use gv.Run.{Cmd}
use gv.V8.{V8, Text, RtnError}
use gv.Results.{RtnValue, RtnPtr, RtnData}
use gv.Script as Script
use gv.Snapshot as Snapshot
use gv.Go.{
  GoError, UnboundScript, SnapshotBuilder, Alter, Native, Go, pure, calls, heap, ◌>>=◌, ◌>>◌,
}
use gv.Go.Objects as Objects
use gv.Go.Objects.{
  isolate_at, context_at, script_at, builder_at, write_script, write_builder, allocate,
}
use gv.Go.Results.{User, new_js_error, observe_js_error, value_result}
use gv.Go.Functions.{ensure_open}
use gv.Go.Guards.{Fallible, refused, js_message, unless_error, entered, entering}
use gv.Go.Methods.{TextOrError, no_text, bytes_of, data_result}
use gv.Go.Modules.{ScriptOrigin}
use gv.Go.Isolates.{IsolateCalls, initialize}

pub record ScriptCalls (N : Type 0) : Type 0 where
  pub compile_unbound_script : Ptr → Text → Text → ℤ → ℤ → Cmd N RtnPtr
  pub unbound_script_release : Ptr → Cmd N (Unit {0})
  pub unbound_script_run : Ptr → Ptr → Cmd N RtnValue
  pub new_snapshot_builder : Cmd N Ptr
  pub snapshot_builder_run_script : Ptr → Text → Text → ℤ → ℤ → Cmd N RtnError
  pub snapshot_builder_build : Ptr → Cmd N RtnData
  pub snapshot_builder_release : Ptr → Cmd N (Unit {0})

pub script_calls : {N : Type 0} → V8 N → ScriptCalls N
script_calls v = record {
  compile_unbound_script = Script.compile_unbound_script v;
  unbound_script_release = Script.unbound_script_release;
  unbound_script_run = Script.unbound_script_run v;
  new_snapshot_builder = Snapshot.new_snapshot_builder v;
  snapshot_builder_run_script = Snapshot.snapshot_builder_run_script v;
  snapshot_builder_build = Snapshot.snapshot_builder_build v;
  snapshot_builder_release = Snapshot.snapshot_builder_release v;
}

abbrev invalid_script : GoError
invalid_script = js_message (bytes "gv8: script is no longer valid")

-- invalidSnapshotBuilderError
abbrev invalid_snapshot_builder : GoError
invalid_snapshot_builder = js_message (bytes "gv8: snapshot builder is no longer valid")

abbrev new_script : UnboundScript → Alter Ptr
new_script x = Objects.◌>>=◌ allocate (λ p. Objects.◌>>◌ (write_script p x) (Objects.pure p))

abbrev new_builder : SnapshotBuilder → Alter Ptr
new_builder x = Objects.◌>>=◌ allocate (λ p. Objects.◌>>◌ (write_builder p x) (Objects.pure p))

-- `s == nil || s.ptr == nil`, and the same of a builder
unfoldable pub is_released : Ptr → Alter Bool
is_released s =
    if s == null
    then Objects.pure true
    else Objects.◌>>=◌ (script_at s) (λ x. Objects.pure (x.ptr == null))

unfoldable pub is_spent : Ptr → Alter Bool
is_spent b =
    if b == null
    then Objects.pure true
    else Objects.◌>>=◌ (builder_at b) (λ x. Objects.pure (x.ptr == null))

module _ {E : Type 0} (user : User E) (v : ScriptCalls (Native E)) where
  -- compileUnboundScript
  unfoldable pub compile_unbound_script : Ptr → Text → ScriptOrigin → Go E Fallible
  compile_unbound_script iso source origin = entering iso refused (do
    i ← heap (isolate_at iso)
    rtn ← calls (
        v.compile_unbound_script i.ptr source origin.resource_name origin.line_offset
          origin.column_offset)
    if rtn.ptr == null
        then (do
          observe_js_error user iso (new_js_error rtn.error)
          pure (null, new_js_error rtn.error))
        else (do p ← heap (new_script (record { ptr = rtn.ptr; iso = iso })); pure (p, none)))

  -- Release of an UnboundScript
  unfoldable pub release_script : Ptr → Go E (Unit {0})
  release_script s = do
    gone ← heap (is_released s)
    if gone then pure tt else do
      x ← heap (script_at s)
      entered x.iso (do
        calls (v.unbound_script_release x.ptr)
        heap (write_script s (record x { ptr = null })))

  -- Run
  unfoldable pub run : Ptr → Ptr → Go E Fallible
  run s ctx = do
    gone ← heap (is_released s)
    if gone then refused invalid_script else do
      err ← heap (ensure_open ctx)
      unless_error err refused (do
        c ← heap (context_at ctx)
        entering c.iso refused (do
          y ← heap (context_at ctx)
          x ← heap (script_at s)
          rtn ← calls (v.unbound_script_run y.ptr x.ptr)
          value_result user ctx rtn))

module _ {E : Type 0} (i : IsolateCalls (Native E)) (v : ScriptCalls (Native E)) where
  -- NewSnapshotBuilder
  unfoldable pub new_snapshot_builder : Go E Ptr
  new_snapshot_builder = do
    initialize i
    p ← calls v.new_snapshot_builder
    heap (new_builder (record { ptr = p }))

  -- RunScript of a builder
  unfoldable pub run_script : Ptr → Text → ScriptOrigin → Go E (Option GoError)
  run_script b source origin = do
    spent ← heap (is_spent b)
    if spent then pure (some invalid_snapshot_builder) else do
      x ← heap (builder_at b)
      rtn ← calls (
          v.snapshot_builder_run_script x.ptr source origin.resource_name origin.line_offset
            origin.column_offset)
      pure (new_js_error rtn)

  -- Build
  unfoldable pub build : Ptr → Go E TextOrError
  build b = do
    spent ← heap (is_spent b)
    if spent then pure (no_text invalid_snapshot_builder) else do
      x ← heap (builder_at b)
      rtn ← calls (v.snapshot_builder_build x.ptr)
      data_result bytes_of rtn

  -- Release of a builder
  unfoldable pub release_builder : Ptr → Go E (Unit {0})
  release_builder b = do
    spent ← heap (is_spent b)
    if spent then pure tt else do
      x ← heap (builder_at b)
      calls (v.snapshot_builder_release x.ptr)
      heap (write_builder b (record x { ptr = null }))

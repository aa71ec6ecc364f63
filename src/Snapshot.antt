-- ===== src/Snapshot.antt =====
-- internal/gv8.cc: GV8NewSnapshotBuilder to GV8SnapshotBuilderBuild.
pub mod OneShot
pub mod Keeps
use gv.Prelude.{ℕ, Bool, true, false, not, ◌||◌, Option, none, some, if◌then◌else◌, ◌==◌}
use gv.Prelude.Int.{ℤ, pos_part, is_positive}
use gv.Memory.{Ptr, null, Gv8SnapshotBuilder}
use gv.Memory.Objects.{new_builder, set_builder_ctx, set_built, delete_builder}
use gv.Run.{Cmd, pure, engine, enter, memory, asks, get, ◌>>=◌, ◌>>◌}
use gv.V8.{V8, Text, CString, Local, Try, returned, threw, RtnError, Blob}
use gv.Text.{copy_string, codes}
use gv.Errors.{empty_error, exception_error, string_checked, make_origin}
use gv.Scope.{load_builder}
use gv.Results.{RtnData, rtn_data_error}
use gv.Creation.{copy_bytes}
use gv.Isolate.{tell, default_params, snapshot_data_is_valid}

abbrev error_of : Text → RtnError
error_of t = record empty_error { msg = copy_string t }

abbrev pub no_longer_valid : RtnError
no_longer_valid = error_of (codes "gv8: snapshot builder is no longer valid")

abbrev pub creation_failed : RtnError
creation_failed = error_of (codes "gv8: snapshot creation failed")

abbrev pub invalid_data : RtnError
invalid_data = error_of (codes "gv8: invalid snapshot data")

module _ {E : Type 0} (v : V8 E) where
  -- GV8NewSnapshotBuilder
  pub new_snapshot_builder : Cmd E Ptr
  new_snapshot_builder = do
    params ← default_params
    creator ← engine (v.creator_new params)
    iso ← asks (v.creator_isolate creator)
    builder ← memory (new_builder creator iso)
    ctx ← engine (v.context_new iso)
    memory (set_builder_ctx builder (some ctx))
    pure builder

  -- GV8SnapshotBuilderRelease
  pub snapshot_builder_release : Ptr → Cmd E (Unit {0})
  snapshot_builder_release builder = if builder == null then pure tt else do
    b ← memory (load_builder builder)
    if not (b.iso == null) then memory (set_builder_ctx builder none) else pure tt
    tell (v.creator_delete b.creator)
    memory (delete_builder builder)

  abbrev pub boot_error : Ptr → Local → Try Local → Cmd E RtnError
  boot_error iso ctx (returned h) = pure empty_error
  boot_error iso ctx (threw c) = exception_error v iso ctx c

  pub run_boot : Ptr → Local → Try Local → Cmd E RtnError
  run_boot iso ctx (threw c) = exception_error v iso ctx c
  run_boot iso ctx (returned script) = do
    result ← enter (v.script_run ctx script)
    boot_error iso ctx result

  pub boot_script : Gv8SnapshotBuilder → Text → Text → ℤ → ℤ → Cmd E RtnError
  unfolding run_boot
  boot_script b source resource_name line_offset column_offset = do
    local_ctx ← get b.ctx
    src ← string_checked v b.iso source
    origin ← make_origin v b.iso resource_name line_offset column_offset false
    script ← engine (v.compile local_ctx src origin)
    run_boot b.iso local_ctx script

  -- GV8SnapshotBuilderRunScript
  pub snapshot_builder_run_script : Ptr → Text → Text → ℤ → ℤ → Cmd E RtnError
  unfolding boot_script
  snapshot_builder_run_script builder source resource_name line_offset column_offset =
      if builder == null then pure no_longer_valid else do
        b ← memory (load_builder builder)
        if b.built
            then pure no_longer_valid
            else boot_script b source resource_name line_offset column_offset

  -- The tests of the blob, and its copy.
  pub copy_blob : Text → ℤ → Cmd E RtnData
  copy_blob t raw_size = do
    valid ← get (snapshot_data_is_valid v (some t) raw_size)
    if valid
        then (do
          copy ← get (copy_bytes t (pos_part raw_size))
          pure (record { bytes = some copy; length = raw_size; error = empty_error }))
        else pure (rtn_data_error invalid_data)

  pub blob_bytes : ℤ → CString → Cmd E RtnData
  unfolding copy_blob
  blob_bytes raw_size none = pure (rtn_data_error creation_failed)
  blob_bytes raw_size (some t) =
      if is_positive raw_size then copy_blob t raw_size else pure (rtn_data_error creation_failed)

  pub build_blob : Ptr → Gv8SnapshotBuilder → Cmd E RtnData
  unfolding blob_bytes
  build_blob builder b = do
    local_ctx ← get b.ctx
    tell (v.set_default_context b.creator local_ctx)
    memory (set_builder_ctx builder none)
    blob ← engine (v.create_blob b.creator)
    memory (set_built builder)
    blob_bytes blob.raw_size blob.bytes

  -- GV8SnapshotBuilderBuild
  pub snapshot_builder_build : Ptr → Cmd E RtnData
  unfolding build_blob
  snapshot_builder_build builder =
      if builder == null then pure (rtn_data_error no_longer_valid) else do
        b ← memory (load_builder builder)
        if b.built then pure (rtn_data_error no_longer_valid) else build_blob builder b

-- ===== src/Snapshot/Keeps.antt =====
-- Rules for invariants of the memory: snapshot builders.
use gv.Prelude.{none, some}
use gv.Prelude.Int.{ℤ}
use gv.Memory.{Ptr, Memory, Gv8SnapshotBuilder}
use gv.Run.Keeps.{Keeps, Keeps-bind, Keeps-enter}
use gv.V8.{V8, Text, CString, Local, Try, returned, threw}
use gv.V8.Reentry.{V8Keeps, Stable}
use gv.Scope.Keeps.{scope_rules}
use gv.Scope.Objects.{object_rules}
use gv.Results.Keeps.{result_rules}
use gv.Isolate.Keeps.{Keeps-default_params}
use gv.Snapshot.{
  new_snapshot_builder, snapshot_builder_release, boot_error, run_boot, boot_script,
  snapshot_builder_run_script, copy_blob, blob_bytes, build_blob, snapshot_builder_build,
}

module _ {E : Type 0} {P : Memory → Type 0} (v : V8 E) (stable : Stable P) where
  pub Keeps-new_snapshot_builder : Keeps P (new_snapshot_builder v)
  unfolding new_snapshot_builder
  Keeps-new_snapshot_builder = search (scope_rules, object_rules, Keeps-default_params) depth 24

  pub Keeps-snapshot_builder_release : (p : Ptr) → Keeps P (snapshot_builder_release v p)
  unfolding snapshot_builder_release
  Keeps-snapshot_builder_release p = search (scope_rules, object_rules) depth 24

  Keeps-copy_blob : (t : Text) (n : ℤ) → Keeps P (copy_blob v t n)
  unfolding copy_blob
  Keeps-copy_blob t n = search (scope_rules, object_rules) depth 24

  Keeps-blob_bytes : (n : ℤ) (t : CString) → Keeps P (blob_bytes v n t)
  unfolding blob_bytes
  Keeps-blob_bytes n none = search scope_rules
  Keeps-blob_bytes n (some t) = search (scope_rules, Keeps-copy_blob) depth 12

  Keeps-build_blob : (p : Ptr) (b : Gv8SnapshotBuilder) → Keeps P (build_blob v p b)
  unfolding build_blob
  Keeps-build_blob p b = search (scope_rules, object_rules, Keeps-blob_bytes) depth 24

  pub Keeps-snapshot_builder_build : (p : Ptr) → Keeps P (snapshot_builder_build v p)
  unfolding snapshot_builder_build
  Keeps-snapshot_builder_build p = search (scope_rules, Keeps-build_blob) depth 24

module _ {E : Type 0} {v : V8 E} {P : Memory → Type 0} (stable : Stable P) (k : V8Keeps v P) where
  Keeps-boot_error : (iso : Ptr) (ctx : Local) (t : Try Local) → Keeps P (boot_error v iso ctx t)
  Keeps-boot_error iso ctx (threw c) = search result_rules
  Keeps-boot_error iso ctx (returned h) = search result_rules

  Keeps-run_boot : (iso : Ptr) (ctx : Local) (t : Try Local) → Keeps P (run_boot v iso ctx t)
  unfolding run_boot
  Keeps-run_boot iso ctx (threw c) = search (result_rules) depth 24
  Keeps-run_boot iso ctx (returned h) =
      Keeps-bind _ _ (Keeps-enter _ (k.run ctx h)) (Keeps-boot_error iso ctx)

  Keeps-boot_script :
      (b : Gv8SnapshotBuilder) (t n : Text) (l c : ℤ) → Keeps P (boot_script v b t n l c)
  unfolding boot_script
  Keeps-boot_script b t n l c = search (result_rules, Keeps-run_boot) depth 24

  pub Keeps-snapshot_builder_run_script :
      (p : Ptr) (t n : Text) (l c : ℤ) → Keeps P (snapshot_builder_run_script v p t n l c)
  unfolding snapshot_builder_run_script
  Keeps-snapshot_builder_run_script p t n l c = search (result_rules, Keeps-boot_script) depth 24

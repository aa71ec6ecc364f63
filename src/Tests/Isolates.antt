-- ===== src/Tests/Isolates.antt =====
-- Isolates, contexts and snapshots.
use gv.Prelude.{ℕ, ◌≡◌, ◌≢◌, ◌↔◌, refl, Bool, true, false, some, List, [], ◌∷◌, arith, inr}
use gv.Prelude.Int.{pos}
use gv.Memory.Objects.{embedder_ctx}
use gv.Run.{World, ok}
use gv.V8.{V8, CreateParams}
use gv.Scope.{ctx_scope}
use gv.Results.{RtnData}
use gv.Isolate.{new_context, new_isolate_with_snapshot, isolate_dispose, snapshot_data_is_valid}
use gv.Isolate.Contexts.{fresh_ctx, new_context-embedder_ctx}
use gv.Isolate.Data.{IsAcceptable, snapshot_data_is_valid-IsAcceptable}
use gv.Isolate.Dispose.{Gone, isolate_dispose-Gone}
use gv.Isolate.Start.{SameObjects, HasRoom, new_isolate_with_snapshot-SameObjects}
use gv.Snapshot.{snapshot_builder_build}
use gv.Snapshot.OneShot.{IsOutcome, IsSpent, snapshot_builder_build-IsSpent}
use gv.Tests.Engine.{Toy, toy}
use gv.Tests.Ready.{slots, internal, ready_memory, ready, ready-IsConsistent}

abbrev blob_data : List ℕ
blob_data = 0 ∷ 0 ∷ 0 ∷ 0 ∷ 1 ∷ 0 ∷ 0 ∷ 0 ∷ []

snapshot_data_is_valid-IsAcceptable_example :
    (b : Bool) × (snapshot_data_is_valid toy (some blob_data) (pos 8) ≡ some b)
    × ((b ≡ true) ↔ IsAcceptable toy blob_data 8)
snapshot_data_is_valid-IsAcceptable_example =
    snapshot_data_is_valid-IsAcceptable toy blob_data 8 (omega arith)

-- An engine that makes no isolate.
abbrev full : V8 Toy
full = record toy { isolate_new = λ params e. (false, e) }

ready-HasRoom : HasRoom ready_memory
ready-HasRoom = record {
  next_ne_null = omega arith;
  startups = λ q a. ground arith;
  buffers = λ q a. ground arith;
}

new_isolate_with_snapshot-SameObjects_example :
    (snapshot_data_is_valid full (some blob_data) (pos 8) ≡ some false
      → new_isolate_with_snapshot full (some blob_data) (pos 8) 0 0 ready ≡ ok 0 ready)
    × (((params : CreateParams) → (full.isolate_new params ready.engine).0 ≡ false)
        → (w' : World Toy) × (new_isolate_with_snapshot full (some blob_data) (pos 8) 0 0 ready
            ≡ ok 0 w')
          × SameObjects ready_memory w'.mem)
new_isolate_with_snapshot-SameObjects_example =
    new_isolate_with_snapshot-SameObjects full blob_data 8 (omega arith) (omega arith) 0 0 ready
      ready-HasRoom

new_context-embedder_ctx_example :
    (h : ℕ) × (w' : World Toy) × (new_context toy 1 (pos 6) ready ≡ ok 9 w')
    × ((h, w'.engine) ≡ toy.context_new 1 ready.engine)
    × (w'.mem.ctxs 9 ≡ some (fresh_ctx 1 (pos 6) h))
    × (embedder_ctx h w'.mem ≡ some (9, w'.mem))
    × (ctx_scope 9 w' ≡ ok (record { iso = 1; local_ctx = h }) w')
    × ((p : ℕ) → p ≢ 9 → w'.mem.ctxs p ≡ ready_memory.ctxs p)
    × (w'.mem.values ≡ ready_memory.values)
new_context-embedder_ctx_example = new_context-embedder_ctx toy 1 (pos 6) ready slots refl

isolate_dispose-Gone_example :
    (w' : World Toy) × (isolate_dispose toy 1 ready ≡ ok tt w')
    × Gone 1 slots internal ready_memory w'.mem
isolate_dispose-Gone_example =
    isolate_dispose-Gone toy 1 ready slots internal ready-IsConsistent (omega arith) refl refl
      (inr (omega arith, (_, refl))) (inr (omega arith, (_, refl)))

snapshot_builder_build-IsSpent_example :
    (r : RtnData) × (w' : World Toy) × (snapshot_builder_build toy 5 ready ≡ ok r w')
    × IsOutcome toy (pos 8) (some blob_data) r
    × (w'.mem.freed ≡ 1)
    × IsSpent toy 5 w'
snapshot_builder_build-IsSpent_example =
    snapshot_builder_build-IsSpent toy 5 9 1 3 ready (omega arith) refl (omega arith)

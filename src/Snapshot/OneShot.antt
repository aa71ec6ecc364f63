-- ===== src/Snapshot/OneShot.antt =====
-- GV8SnapshotBuilderBuild: the state that a builder is left in.
use gv.Prelude.{
  ℕ, ◌≡◌, ◌≢◌, true, false, none, some, Option, arith, update, refl, ap, ◌∙◌, length, take, ◌⊎◌,
  inl, inr, ◌≤◌, ◌+◌, suc, ltb, Bool-cases, le→leb, ne→==, ==_refl,
}
use gv.Prelude.Int.{ℤ, pos, negsuc, pos_part, is_positive}
use gv.Memory.{Ptr, Gv8SnapshotBuilder}
use gv.Memory.Objects.{set_builder_ctx, set_built}
use gv.Run.{World, ok, ◌>>=◌}
use gv.V8.{V8, Text, CString, Local, Blob}
use gv.Results.{RtnData, rtn_data_error}
use gv.Errors.{empty_error}
use gv.Isolate.{snapshot_data_is_valid}
use gv.Isolate.Data.{snapshot_data_is_valid-IsAcceptable}
use mathlib.Core.Option
use gv.Snapshot.{
  no_longer_valid, snapshot_builder_build, snapshot_builder_run_script, build_blob, blob_bytes,
  copy_blob, invalid_data, creation_failed,
}

abbrev IsBuilt : Option Gv8SnapshotBuilder → Type 0
IsBuilt none = ⊥
IsBuilt (some b) = b.built ≡ true

-- The blob holds as many bytes as it says.
abbrev IsWhole : CString → ℤ → Type 0
IsWhole none n = Unit {0}
IsWhole (some t) n = pos_part n ≤ length t

-- A blob that is given: V8 made it, it is not empty, and it holds snapshot data that this V8 accepts.
abbrev pub IsGiven : {E : Type 0} → V8 E → ℤ → CString → Type 0
IsGiven v n none = ⊥
IsGiven v n (some t) = (is_positive n ≡ true) × (snapshot_data_is_valid v (some t) n ≡ some true)

-- A build's result: where the blob is given, all its bytes, as many as it says, and no error; else an
-- error and no bytes.
abbrev pub IsOutcome : {E : Type 0} → V8 E → ℤ → CString → RtnData → Type 0
IsOutcome v n blob r =
    (IsGiven v n blob
      × (r.error ≡ empty_error)
      × (r.length ≡ n)
      × (r.bytes ≡ Option.map (take (pos_part n)) blob))
    ⊎ ((¬ (IsGiven v n blob)) × (r.bytes ≡ none) × (r.length ≡ pos 0) × (r.error.msg ≢ none))

-- What a builder that has given its snapshot says to every further request.
abbrev pub IsSpent : {E : Type 0} → V8 E → Ptr → World E → Type 0
IsSpent v builder w =
    (snapshot_builder_build v builder w ≡ ok (rtn_data_error no_longer_valid) w)
    × ((source name : Text) (line column : ℤ)
        → snapshot_builder_run_script v builder source name line column w ≡ ok no_longer_valid w)

module _ {E : Type 0} (v : V8 E) where
  built-IsSpent :
      (builder : Ptr) (b : Gv8SnapshotBuilder) (w : World E)
      → w.mem.builders builder ≡ some b
      → b.built ≡ true
      → IsSpent v builder w
  unfolding snapshot_builder_build snapshot_builder_run_script ◌>>=◌
  built-IsSpent builder b w e d = (ground arith, λ source name line column. ground arith)

  copy_blob-IsOutcome :
      (n : ℕ) (t : Text) (w : World E)
      → n ≤ length t
      → is_positive (pos n) ≡ true
      → (r : RtnData) × (copy_blob v t (pos n) w ≡ ok r w) × IsOutcome v (pos n) (some t) r
  unfolding copy_blob ◌>>=◌
  copy_blob-IsOutcome n t w h p =
      let (b, valid, acceptable) = snapshot_data_is_valid-IsAcceptable v t n h in
      elim (Bool-cases b) [
        | inl good ↦ (
          record { bytes = some (take n t); length = pos n; error = empty_error },
          rw (valid, good, le→leb n (length t) h) refl,
          inl ((p, valid ∙ ap some good), refl, refl, refl),
        )
        | inr bad ↦ (
          rtn_data_error invalid_data,
          rw (valid, bad) refl,
          inr ((λ e. ground (arith, valid, bad, e.1)), refl, refl, λ e. cc),
        )
      ]

  blob_bytes-IsOutcome :
      (n : ℤ) (t : CString) (w : World E)
      → IsWhole t n
      → (r : RtnData) × (blob_bytes v n t w ≡ ok r w) × IsOutcome v n t r
  unfolding blob_bytes ◌>>=◌
  blob_bytes-IsOutcome n none w h =
      (rtn_data_error creation_failed, refl, inr ((λ e. e), refl, refl, λ e. cc))
  blob_bytes-IsOutcome (negsuc n) (some t) w h =
      (rtn_data_error creation_failed, refl, inr ((λ e. ground (arith, e.0)), refl, refl, λ e. cc))
  blob_bytes-IsOutcome (pos n) (some t) w h = elim (Bool-cases (ltb 0 n)) [
    | inl e ↦ let (r, run, outcome) = copy_blob-IsOutcome n t w h e in (r, rw e run, outcome)
    | inr e ↦ (
      rtn_data_error creation_failed,
      rw e refl,
      inr ((λ k. ground (arith, e, k.0)), refl, refl, λ k. cc),
    )
  ]

  -- A builder as GV8NewSnapshotBuilder leaves it.
  abbrev unbuilt : ℕ → Ptr → Local → Gv8SnapshotBuilder
  unbuilt creator iso ctx = record { creator = creator; iso = iso; ctx = some ctx; built = false }

  -- The blob of the builder's context.
  abbrev blob_of : ℕ → Local → World E → Blob × E
  blob_of creator ctx w = v.create_blob creator (v.set_default_context creator ctx w.engine)

  -- The world after the steps of the build, its builder spent.
  abbrev spent : Ptr → ℕ → Ptr → Local → World E → World E
  spent builder creator iso ctx w = record {
    engine = (blob_of creator ctx w).1;
    mem = record w.mem {
      made = w.mem.made + 0;
      freed = w.mem.freed + 1;
      builders =
          update
            (update w.mem.builders builder
              (some (record { creator = creator; iso = iso; ctx = none; built = false })))
            builder (some (record { creator = creator; iso = iso; ctx = none; built = true }));
    };
  }

  module _ (builder : Ptr) (creator : ℕ) (iso : Ptr) (ctx : Local) (w : World E) (n : builder ≢ 0)
      (live : w.mem.builders builder ≡ some (unbuilt creator iso ctx)) where
    build_run :
        (r : RtnData)
        → blob_bytes v
            (blob_of creator ctx w).0.raw_size
            (blob_of creator ctx w).0.bytes
            (spent builder creator iso ctx w)
          ≡ ok r (spent builder creator iso ctx w)
        → snapshot_builder_build v builder w ≡ ok r (spent builder creator iso ctx w)
    unfolding snapshot_builder_build build_blob ◌>>=◌ set_builder_ctx set_built
    build_run r run = rw (ne→== builder 0 n, live, live, ==_refl builder, run) refl

    -- For a live builder that has its context and was not built, where the blob that V8 creates
    -- holds as many bytes as it says: the build has a result; it is all the bytes of the blob, and its
    -- length, where V8 made one that is not empty and that this V8 accepts as snapshot data, and else an
    -- error alone; the builder's handle is dropped; and every further build or script of this builder answers
    -- that the builder is no longer valid, and changes nothing.
    pub snapshot_builder_build-IsSpent :
        IsWhole (blob_of creator ctx w).0.bytes (blob_of creator ctx w).0.raw_size
        → (r : RtnData) × (w' : World E) × (snapshot_builder_build v builder w ≡ ok r w')
          × IsOutcome v (blob_of creator ctx w).0.raw_size (blob_of creator ctx w).0.bytes r
          × (w'.mem.freed ≡ suc w.mem.freed)
          × IsSpent v builder w'
    snapshot_builder_build-IsSpent whole =
        let (r, run, outcome) =
          blob_bytes-IsOutcome (blob_of creator ctx w).0.raw_size (blob_of creator ctx w).0.bytes
            (spent builder creator iso ctx w) whole in
        (
          r,
          spent builder creator iso ctx w,
          build_run r run,
          outcome,
          omega arith,
          built-IsSpent builder (record { creator = creator; iso = iso; ctx = none; built = true })
              (spent builder creator iso ctx w) (ground arith) refl,
        )

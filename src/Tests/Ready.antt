-- ===== src/Tests/Ready.antt =====
-- A process at work: an isolate from a snapshot, a context with one value, and a snapshot builder.
use gv.Prelude.{refl, true, false, none, some, [], ◌∷◌, arith, update}
use gv.Prelude.Int.{pos}
use gv.Memory.{Memory, Gv8Ctx, Gv8Value, IsolateSlots, null}
use gv.Memory.Invariant.{IsConsistent}
use gv.Run.{World}
use gv.Scope.{Scope}
use gv.Scope.Live.{IsLive, IsLiveCtx}
use gv.Tests.Engine.{Toy, start_memory}

abbrev pub slots : IsolateSlots
slots = record { data0 = 2; data1 = pos 0; import_hook = true; reject_hook = true }

abbrev pub internal : Gv8Ctx
internal = record {
  iso = 1;
  ptr = none;
  ref = pos 0;
  values = [];
  next_value_id = 0;
  snapshot_blob = 6;
  snapshot_data = 7;
}

abbrev pub page : Gv8Ctx
page = record {
  iso = 1;
  ptr = some 3;
  ref = pos 5;
  values = (1, 4) ∷ [];
  next_value_id = 1;
  snapshot_blob = null;
  snapshot_data = null;
}

abbrev pub answer : Gv8Value
answer = record { id = 1; ctx = 3; iso = 1; ptr = some 4 }

abbrev pub ready_memory : Memory
ready_memory = record start_memory {
  next = 9;
  isolates = update (λ p. none) 1 (some slots);
  ctxs = update (update (λ p. none) 2 (some internal)) 3 (some page);
  values = update (λ p. none) 4 (some answer);
  builders =
      update (λ p. none) 5 (some (record { creator = 9; iso = 1; ctx = some 3; built = false }));
  startups = update (λ p. none) 6 (some (record { bytes = 7; raw_size = pos 1 }));
  buffers = update (λ p. none) 7 (some (0 ∷ []));
  embedder = update (λ p. none) 3 (some (record { slot1 = pos 5; slot2 = 3 }));
}

abbrev pub ready : World Toy
ready = record { engine = record { next = 5; kinds = λ h. 7; bytes = λ h. [] }; mem = ready_memory }

abbrev pub page_scope : Scope
page_scope = record { iso = 1; local_ctx = 3 }

abbrev pub page-IsLiveCtx : IsLiveCtx ready_memory 3 page page_scope
page-IsLiveCtx = record {
  slots = slots;
  found = refl;
  found_iso = refl;
  iso = refl;
  local_ctx = refl;
}

abbrev pub answer-IsLive : IsLive ready_memory 4 page_scope 4
answer-IsLive = record {
  value = answer;
  ctx = page;
  slots = slots;
  found = refl;
  found_ctx = refl;
  found_iso = refl;
  iso = refl;
  local_ctx = refl;
  handle = refl;
}

pub ready-IsConsistent : IsConsistent ready_memory
ready-IsConsistent = record {
  distinct = λ p c e. ground arith;
  in_range = λ p c k q e l. ground arith;
  owned = λ p c k q e l. ground arith;
  listed = λ q v e n. ground arith;
  unused_ctx = λ p a. ground arith;
  unused_value = λ p a. ground arith;
  null_ctx = refl;
  null_value = refl;
  next_ne_null = omega arith;
}

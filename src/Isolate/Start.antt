-- ===== src/Isolate/Start.antt =====
-- GV8NewIsolateWithSnapshot where it gives no isolate.
use gv.Prelude.{
  ℕ, suc, ◌≤◌, ◌<◌, ◌≡◌, ◌≢◌, true, false, none, some, arith, refl, length, take, update, lt→ltb,
  le→leb, ne→==, ==_refl, Bool-cases, inl, inr, ap, ◌∙◌,
}
use gv.Prelude.Int.{pos}
use gv.Memory.{Ptr, null, Memory}
use gv.Memory.Objects.{
  get_default_allocator, new_buffer, new_startup, delete_buffer, delete_startup,
}
use gv.Run.{World, ok, ◌>>=◌}
use gv.V8.{V8, Text, CreateParams}
use gv.Isolate.{
  new_isolate_with_snapshot, start_with_data, start_from_snapshot, start_isolate, isolate_new,
  default_params, configure_heap, snapshot_data_is_valid,
}
use gv.Isolate.Data.{snapshot_data_is_valid-IsAcceptable}

-- The same objects; only addresses were used up.
pub record SameObjects (m m' : Memory) : Type 0 where
  pub isolates : m'.isolates ≡ m.isolates
  pub ctxs : m'.ctxs ≡ m.ctxs
  pub values : m'.values ≡ m.values
  pub startups : (q : Ptr) → m'.startups q ≡ m.startups q
  pub buffers : (q : Ptr) → m'.buffers q ≡ m.buffers q

-- From `next` on, which is not null, there is no snapshot block.
pub record HasRoom (m : Memory) : Type 0 where
  pub next_ne_null : m.next ≢ 0
  pub startups : (q : Ptr) → m.next ≤ q → m.startups q ≡ none
  pub buffers : (q : Ptr) → m.next ≤ q → m.buffers q ≡ none

module _ {E : Type 0} (v : V8 E) (t : Text) (n : ℕ) (whole : n ≤ length t) (given : 0 < n) where
  rejected_run :
      (params : CreateParams) (w : World E)
      → snapshot_data_is_valid v (some t) (pos n) ≡ some false
      → start_with_data v params (some t) (pos n) w ≡ ok null w
  unfolding start_with_data start_from_snapshot ◌>>=◌
  rejected_run params w e = rw (lt→ltb 0 n given, e) refl

  abbrev allotted : Memory → Memory
  allotted m = record m {
    next = suc (suc m.next);
    buffers = update m.buffers m.next (some (take n t));
    startups = update m.startups (suc m.next) (some (record { bytes = m.next; raw_size = pos n }));
  }

  abbrev cleared : Memory → Memory
  cleared m = record m {
    next = suc (suc m.next);
    buffers = update (update m.buffers m.next (some (take n t))) m.next none;
    startups =
        update (update m.startups (suc m.next) (some (record { bytes = m.next; raw_size = pos n })))
          (suc m.next) none;
  }

  failed_run :
      (params : CreateParams) (w : World E)
      → w.mem.next ≢ 0
      → snapshot_data_is_valid v (some t) (pos n) ≡ some true
      → (v.isolate_new (record params { snapshot_blob = suc w.mem.next }) w.engine).0 ≡ false
      → start_with_data v params (some t) (pos n) w
        ≡ ok null (record {
          engine = (v.isolate_new (record params { snapshot_blob = suc w.mem.next }) w.engine).1;
          mem = cleared w.mem;
        })
  unfolding start_with_data start_from_snapshot start_isolate isolate_new ◌>>=◌ new_buffer
      new_startup delete_buffer delete_startup
  failed_run params w n0 valid fails =
      rw
        (
          lt→ltb 0 n given,
          valid,
          le→leb n (length t) whole,
          fails,
          ne→== (suc w.mem.next) 0 (λ z. omega arith),
          ==_refl (suc w.mem.next),
          ne→== w.mem.next 0 n0,
          ==_refl w.mem.next,
        )
        refl

  cleared-SameObjects : (m : Memory) → HasRoom m → SameObjects m (cleared m)
  cleared-SameObjects m r = record {
    isolates = refl;
    ctxs = refl;
    values = refl;
    startups = λ q. ground (arith, r.startups q);
    buffers = λ q. ground (arith, r.buffers q);
  }

  abbrev given_params : World E → ℕ → ℕ → CreateParams
  given_params w initial_heap_size max_heap_size =
      configure_heap
        (record {
          array_buffer_allocator = w.mem.default_allocator;
          heap_size = none;
          snapshot_blob = null;
        })
        initial_heap_size max_heap_size

  -- For data of a positive length that holds as many bytes as that, in a memory whose addresses from
  -- `next` on, which is not null, hold no snapshot block: if SnapshotDataIsValid refuses the data,
  -- GV8NewIsolateWithSnapshot returns null and changes nothing, whatever the heap sizes. If V8 makes
  -- no isolate, it returns null, and the isolates, contexts, values, snapshot blocks and copies of
  -- data are as they were.
  pub new_isolate_with_snapshot-SameObjects :
      (initial_heap_size max_heap_size : ℕ) (w : World E)
      → HasRoom w.mem
      → (snapshot_data_is_valid v (some t) (pos n) ≡ some false
          → new_isolate_with_snapshot v (some t) (pos n) initial_heap_size max_heap_size w
            ≡ ok null w)
        × (((params : CreateParams) → (v.isolate_new params w.engine).0 ≡ false)
            → (w' : World E) × (new_isolate_with_snapshot v
                  (some t)
                  (pos n)
                  initial_heap_size
                  max_heap_size
                  w
                ≡ ok null w')
              × SameObjects w.mem w'.mem)
  unfolding new_isolate_with_snapshot default_params get_default_allocator ◌>>=◌
  new_isolate_with_snapshot-SameObjects initial_heap_size max_heap_size w r = (
    λ invalid. rejected_run params w invalid,
    λ fails.
        let (b, valid, acceptable) = snapshot_data_is_valid-IsAcceptable v t n whole in
        elim (Bool-cases b) [
          | inl good ↦ (
            _,
            failed_run params w r.next_ne_null (valid ∙ ap some good)
                (fails (record params { snapshot_blob = suc w.mem.next })),
            cleared-SameObjects w.mem r,
          )
          | inr bad ↦ (
            w,
            rejected_run params w (valid ∙ ap some bad),
            record {
              isolates = refl;
              ctxs = refl;
              values = refl;
              startups = λ q. refl;
              buffers = λ q. refl;
            },
          )
        ],
  )
    where
      params : CreateParams
      params = given_params w initial_heap_size max_heap_size

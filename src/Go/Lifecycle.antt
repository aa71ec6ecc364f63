-- ===== src/Go/Lifecycle.antt =====
-- context.go: NewContext and Close; value.go: Release. What they do on both sides.
pub mod Close
pub mod Linked
pub mod Release
pub mod Wiped
use gv.Prelude.{ℕ, ◌||◌, true, false, Option, none, some, List, [], if◌then◌else◌, ◌==◌}
use gv.Prelude.Int.{ℤ, int_of}
use gv.Memory.{Ptr, null}
use gv.Memory.Values as MemValues
use gv.Run
use gv.Run.{Cmd, memory}
use gv.Go.{
  Context, Value, Heap, Alter, Native, Go, pure, panic, calls, heap, deferring, ◌>>=◌, ◌>>◌,
}
use gv.Go.Objects as Objects
use gv.Go.Objects.{context_at, value_at, isolate_at, write_context, write_value, allocate}
use gv.Go.Refs.{next_context_ref, set_context, delete_context, unregister_hosts}
use gv.Go.Enter.{must_enter, leave, nil_isolate}
use gv.Go.Values.{untrack_value, invalidate_all}

-- The keys of a map, which can be nil.
abbrev pub keys : Option (List ℕ) → List ℕ
keys none = []
keys (some l) = l

-- Close between Lock and Unlock.
abbrev pub emptied : Context → Context
emptied x = record x {
  closed = true;
  host_fn_ids = none;
  live_values = none;
  module_resolvers_by_script = none;
  module_resolvers_by_name = none;
}

-- Close up to the call of C.
unfoldable pub close_tables : Ptr → Context → Alter (Unit {0})
unfolding invalidate_all
close_tables c x = Objects.◌>>◌ (write_context c (emptied x)) (
    Objects.◌>>◌ (invalidate_all (keys x.live_values))
      (Objects.◌>>◌ (unregister_hosts (keys x.host_fn_ids)) (delete_context x.ref)))

-- The object that NewContext makes.
abbrev pub opened : ℕ → Ptr → Ptr → Context
opened ref iso p = record {
  ref = ref;
  ptr = p;
  iso = iso;
  closed = false;
  host_fn_ids = some [];
  live_values = some [];
  module_resolvers_by_script = some [];
  module_resolvers_by_name = some [];
}

abbrev pub new_record : Context → Alter Ptr
new_record c =
    Objects.◌>>=◌ allocate (λ ctx.
      Objects.◌>>◌ (write_context ctx c) (Objects.◌>>◌ (set_context ctx) (Objects.pure ctx)))

module _ {E : Type 0} where
  -- Close
  unfoldable pub close : Ptr → Go E (Unit {0})
  unfolding ◌>>=◌ Run.◌>>=◌
  close c = if c == null then pure tt else do
    x ← heap (context_at c)
    if (x.ptr == null) || x.closed then pure tt else do
      heap (close_tables c x)
      calls (memory (MemValues.context_dispose x.ptr))
      y ← heap (context_at c)
      heap (write_context c (record y { ptr = null }))

  -- The end of Release.
  abbrev pub release_native : Ptr → Value → Go E (Unit {0})
  release_native v x = do
    calls (memory (MemValues.value_release x.ptr))
    heap (write_value v (record x { ptr = null }))

  abbrev pub release_owned : Ptr → Value → Go E (Unit {0})
  release_owned v x = do
    heap (untrack_value x.ctx v)
    c ← heap (context_at x.ctx)
    heap (must_enter c.iso)
    deferring (heap (leave c.iso)) (release_native v x)

  -- Release
  unfoldable pub release : Ptr → Go E (Unit {0})
  unfolding ◌>>=◌ Run.◌>>=◌ deferring
  release v = if v == null then pure tt else do
    x ← heap (value_at v)
    if x.ptr == null
        then pure tt
        else if x.borrowed
        then heap (write_value v (record x { ptr = null }))
        else if x.ctx == null
        then release_native v x
        else release_owned v x

  -- NewContext; `make` is GV8NewContext.
  unfoldable pub new_context : (Ptr → ℤ → Cmd (Native E) Ptr) → Ptr → Go E Ptr
  unfolding ◌>>=◌ Run.◌>>=◌
  new_context make iso = if iso == null then panic nil_isolate else do
    ref ← heap next_context_ref
    i ← heap (isolate_at iso)
    p ← calls (make i.ptr (int_of ref))
    heap (new_record (opened ref iso p))

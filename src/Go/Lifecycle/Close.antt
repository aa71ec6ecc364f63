-- ===== src/Go/Lifecycle/Close.antt =====
-- Close: what becomes of the values of the context.
use gv.Prelude.{
  ◌≡◌, ◌≢◌, refl, false, Option, none, some, arith, ◌==◌, ◌||◌, update, sym, ◌∙◌, ne→==, ==_refl,
}
use gv.Memory.{Ptr, Memory}
use gv.Memory.Values as MemValues
use gv.Run.{World, ok}
use gv.Go.{Context, Value, Heap, Native, done}
use gv.Go.Refs.{delete_ref, unregister_host_functions, delete_context, unregister_hosts}
use gv.Go.Values.{has}
use gv.Go.Values.Tracked.{IsTracked, put_context}
use gv.Go.Lifecycle.{close, close_tables, keys, emptied}
use gv.Go.Lifecycle.Wiped.{
  IsStored, IsWiped, invalidate_all-IsWiped, wiped_nil, unwiped, stays_wiped,
}

-- The heap at the end of Close.
abbrev pub shut : Context → Context
shut x = record (emptied x) { ptr = 0 }

abbrev closed_tables : Heap → Ptr → Context → (Ptr → Option Value) → Heap
closed_tables g c x values = record g {
  contexts = update g.contexts c (some (emptied x));
  values = values;
  host_fn_refs = unregister_host_functions (keys x.host_fn_ids) g.host_fn_refs;
  ctx_refs = delete_ref x.ref g.ctx_refs;
}

close_tables_lem :
    (g : Heap) (c : Ptr) (x : Context)
    → IsStored g (keys x.live_values)
    → (values : Ptr → Option Value) × (close_tables c x g ≡ (done tt, closed_tables g c x values))
      × IsWiped g (keys x.live_values) values
unfolding close_tables unregister_hosts delete_context
close_tables_lem g c x s =
    let (values, r, k) =
      invalidate_all-IsWiped (keys x.live_values) (put_context g c (emptied x)) s in
    (values, rw r refl, k)

-- What Close promises: the memory of C is without the context, the context is closed and without a
-- pointer, each of its owned values is nil, and what is not in its table is as it was.
pub record IsClosed {E : Type 0} (c : Ptr) (x : Context) (w w' : World (Native E)) : Type 0 where
  pub disposed : MemValues.context_dispose x.ptr w.mem ≡ some (tt, w'.mem)
  pub shut : w'.engine.go.contexts c ≡ some (shut x)
  pub nil :
      (v : Ptr) (y : Value)
      → w'.engine.go.values v ≡ some y
      → y.ctx ≡ c
      → y.borrowed ≡ false
      → y.ptr ≡ 0
  pub same :
      (v : Ptr) (y : Value)
      → w'.engine.go.values v ≡ some y
      → y.ptr ≢ 0
      → w.engine.go.values v ≡ some y
  pub stays : (v : Ptr) → w.engine.go.values v ≢ none → w'.engine.go.values v ≢ none
  pub others : (d : Ptr) → d ≢ c → w'.engine.go.contexts d ≡ w.engine.go.contexts d
  pub spared :
      (v : Ptr) → has v (keys x.live_values) ≡ false → w'.engine.go.values v ≡ w.engine.go.values v
  pub kept : IsTracked w'.engine.go
  pub again : close c w' ≡ ok (done tt) w'

is_open : (x : Context) → x.ptr ≢ 0 → x.closed ≡ false → ((x.ptr == 0) || x.closed) ≡ false
is_open x p o = ground (arith, o)

close_nil :
    {E : Type 0} (c : Ptr) (x : Context) (w : World (Native E))
    → c ≢ 0
    → w.engine.go.contexts c ≡ some x
    → x.ptr ≡ 0
    → close c w ≡ ok (done tt) w
unfolding close
close_nil c x w n h p = rw (ne→== c 0 n, h, p) refl

module _ {E : Type 0} (c : Ptr) (x : Context) (w : World (Native E)) (m : Memory) where
  abbrev finished : (Ptr → Option Value) → World (Native E)
  finished values = record {
    engine = record {
      v8 = w.engine.v8;
      go = put_context (closed_tables w.engine.go c x values) c (shut x);
    };
    mem = m;
  }

  close_lem :
      (values : Ptr → Option Value)
      → c ≢ 0
      → w.engine.go.contexts c ≡ some x
      → x.ptr ≢ 0
      → x.closed ≡ false
      → close_tables c x w.engine.go ≡ (done tt, closed_tables w.engine.go c x values)
      → MemValues.context_dispose x.ptr w.mem ≡ some (tt, m)
      → close c w ≡ ok (done tt) (finished values)
  unfolding close
  close_lem values n h p o r d = rw (ne→== c 0 n, h, is_open x p o, r, d, ==_refl c) refl

-- Close of an open context of a heap whose owned values are all in their contexts' tables, where the
-- C context can be disposed of: it ends without a panic or a fault, having disposed of the C context once;
-- the context is closed and nil, every value of it that is not borrowed is nil, the values that were
-- not in its table and the other contexts are as they were, owned values are still all in their
-- contexts' tables, and a second Close changes nothing.
pub close-IsClosed :
    {E : Type 0} (c : Ptr) (x : Context) (w : World (Native E)) {m : Memory}
    → IsTracked w.engine.go
    → IsStored w.engine.go (keys x.live_values)
    → c ≢ 0
    → w.engine.go.contexts c ≡ some x
    → x.ptr ≢ 0
    → x.closed ≡ false
    → MemValues.context_dispose x.ptr w.mem ≡ some (tt, m)
    → (w' : World (Native E)) × (close c w ≡ ok (done tt) w') × IsClosed c x w w'
close-IsClosed c x w {m} i s n h p o d =
    let (values, r, k) = close_tables_lem w.engine.go c x s in
    (
      finished c x w m values,
      close_lem c x w m values n h p o r d,
      record {
        disposed = d;
        shut = ground (arith, ==_refl c);
        nil = λ v y e a b. wiped_nil i h n v y (sym (k v) ∙ e) a b;
        same = λ v y e a.
            unwiped (has v (keys x.live_values)) (w.engine.go.values v) y (sym (k v) ∙ e) a;
        stays = λ v a. stays_wiped (has v (keys x.live_values)) (w.engine.go.values v) a (k v);
        others = λ q e. ground arith;
        spared = λ v e. ground (arith, k v);
        kept = record {
          tracked = λ v y f e a b q.
              let t = λ (z : y.ctx ≡ c). a (wiped_nil i h n v y (sym (k v) ∙ e) z b) in
              let u =
                unwiped (has v (keys x.live_values)) (w.engine.go.values v) y (sym (k v) ∙ e) a in
              ground (arith, t, i.tracked v y f u a b q);
          null_value = ground (arith, k 0, i.null_value);
          next_ne_null = i.next_ne_null;
        };
        again = close_nil c (shut x) (finished c x w m values) n (ground (arith, ==_refl c)) refl;
      },
    )

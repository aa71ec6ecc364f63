-- ===== src/Go/Lifecycle/Release.antt =====
-- Release of an owned value of a context.
use gv.Prelude.{
  true, update, ℕ, suc, ◌-◌, ◌≡◌, ◌≢◌, refl, false, Option, none, some, List, arith, subst, inl,
  ne→==, ==_refl,
}
use native.Mathlib.Decide.{ℕ_discrete}
use gv.Memory.{Ptr, Memory}
use gv.Memory.Values as MemValues
use gv.Run.{World, ok}
use gv.Go.{Context, Isolate, Value, Heap, Native, done}
use gv.Go.Access.{Gate, leave_gate}
use gv.Go.Enter.Lent.{Admits, entered, put_gate, must_enter_lem, leave_lem, leave_gate-enter_gate}
use gv.Go.Values.{has, remove, untrack_value}
use gv.Go.Values.Tracked.{
  IsTracked, Lists, InLive, put_value, put_context, put_this, put_lists, spare, spare_none,
  has-remove,
}
use gv.Go.Lifecycle.{release, keys}

untrack_lem :
    (d v : Ptr) (g : Heap) (c : Context) (l : List Ptr)
    → d ≢ 0
    → v ≢ 0
    → g.contexts d ≡ some c
    → c.live_values ≡ some l
    → untrack_value d v g
      ≡ (done tt, put_context g d (record c { live_values = some (remove v l) }))
unfolding untrack_value
untrack_lem d v g c l n m h e = ground arith

minus_one : (n : ℕ) → suc n - 1 ≡ n
minus_one n = omega arith

abbrev pub owned : Ptr → Ptr → Value
owned p d = record { ptr = p; ctx = d; borrowed = false }

module _ {E : Type 0} (v p d : Ptr) (c : Context) (l : List Ptr) (i : Isolate) (gate free : Gate)
    (w : World (Native E)) (m : Memory) where
  abbrev pub unlisted : Heap
  unlisted = put_context w.engine.go d (record c { live_values = some (remove v l) })

  abbrev dropped : Heap
  dropped = put_value (entered unlisted c.iso i gate) v (owned 0 d)

  abbrev pub final : World (Native E)
  final = record {
    engine = record {
      v8 = w.engine.v8;
      go = record (put_gate dropped c.iso (record i { gate = gate }) free) {
        locks = w.engine.go.locks;
      };
    };
    mem = m;
  }

  pub release_lem :
      v ≢ 0
      → p ≢ 0
      → d ≢ 0
      → w.engine.go.values v ≡ some (owned p d)
      → w.engine.go.contexts d ≡ some c
      → c.live_values ≡ some l
      → Admits unlisted c.iso i gate
      → leave_gate w.engine.go.thread gate ≡ some free
      → MemValues.value_release p w.mem ≡ some (tt, m)
      → release v w ≡ ok (done tt) final
  unfolding release
  release_lem n q k e h t a f r =
      rw
        (
          ne→== v 0 n,
          e,
          ne→== p 0 q,
          ne→== d 0 k,
          untrack_lem d v w.engine.go c l k n h t,
          ==_refl d,
          must_enter_lem a,
          r,
          leave_lem dropped c.iso (record i { gate = gate }) free (ground (arith, ==_refl c.iso)) f,
          minus_one w.engine.go.locks,
        )
        refl

-- The context before, of which at most a value was taken from the table.
abbrev pub Before : Heap → Ptr → Context → Type 0
Before g q z =
    (y : Context) × (g.contexts q ≡ some y)
    × (z.ptr ≡ y.ptr)
    × (z.closed ≡ y.closed)
    × ((u : Ptr) → has u (keys z.live_values) ≡ true → has u (keys y.live_values) ≡ true)

removed-Before :
    (g : Heap) (d v q : Ptr) (c z : Context) (l : List Ptr)
    → g.contexts d ≡ some c
    → c.live_values ≡ some l
    → update g.contexts d (some (record c { live_values = some (remove v l) })) q ≡ some z
    → Before g q z
removed-Before g d v q c z l h t e = elim (ℕ_discrete d q) [
  | yes f ↦ (
    c,
    ground (arith, f),
    ground (arith, f),
    ground (arith, f),
    λ u r. ground (arith, has-remove u v l, f),
  )
  | no n ↦ (z, ground arith, refl, refl, λ u r. r)
]

-- What Release promises of an owned value: the wrapper of C is released, the value is nil, the depth
-- of its isolate and the locks of the thread are as they were, and so is every other value.
pub record IsReleased {E : Type 0} (v p iso : Ptr) (i : Isolate) (w w' : World (Native E))
    : Type 0 where
  pub freed : MemValues.value_release p w.mem ≡ some (tt, w'.mem)
  pub nil : (y : Value) → w'.engine.go.values v ≡ some y → y.ptr ≡ 0
  pub others : (u : Ptr) → u ≢ v → w'.engine.go.values u ≡ w.engine.go.values u
  pub free :
      (k : Gate) × (k.depth ≡ i.gate.depth)
      × (w'.engine.go.isolates iso ≡ some (record i { gate = k }))
  pub stays : w'.engine.go.values v ≢ none
  pub contexts : (q : Ptr) (z : Context) → w'.engine.go.contexts q ≡ some z → Before w.engine.go q z
  pub unlocked : w'.engine.go.locks ≡ w.engine.go.locks
  pub kept : IsTracked w'.engine.go
  pub again : release v w' ≡ ok (done tt) w'

release_nil :
    {E : Type 0} (v : Ptr) (x : Value) (w : World (Native E))
    → v ≢ 0
    → w.engine.go.values v ≡ some x
    → x.ptr ≡ 0
    → release v w ≡ ok (done tt) w
unfolding release
release_nil v x w n h p = rw (ne→== v 0 n, h, p) refl

module _ {g : Heap} {v d : Ptr} {c : Context} {l : List Ptr} where
  final-IsTracked :
      IsTracked g
      → v ≢ 0
      → g.contexts d ≡ some c
      → c.live_values ≡ some l
      → IsTracked
          (put_value (put_context g d (record c { live_values = some (remove v l) })) v (owned 0 d))
  final-IsTracked i n h t =
      spare_none
        (put_this
          (put_lists (spare v i) d c (record c { live_values = some (remove v l) }) h
            (λ u k s. ground (arith, s, t, has-remove u v l)))
          (owned 0 d) n)
        (owned 0 d) (ground (arith, ==_refl v)) (inl refl)

pub has_table : (v : Ptr) (o : Option (List Ptr)) → InLive v o → (l : List Ptr) × (o ≡ some l)
has_table v none e = elim e [ ]
has_table v (some l) e = (l, refl)

pub put_context-Admits :
    {g : Heap} {iso : Ptr} {i : Isolate} {gate : Gate} (d : Ptr) (c : Context)
    → Admits g iso i gate
    → Admits (put_context g d c) iso i gate
put_context-Admits d c a = record {
  iso_ne_null = a.iso_ne_null;
  here = a.here;
  ptr_ne_null = a.ptr_ne_null;
  admitted = a.admitted;
}

-- Release of an owned value of a context, in a heap whose owned values are all in their contexts'
-- tables, by a thread that may enter the isolate, where the C wrapper can be released: it ends without a
-- panic or a fault, having released that wrapper once; the value is nil and no other has changed, owned
-- values are still all in their contexts' tables, the isolate is as deep in use as before, the thread is
-- locked as often, and a second Release changes nothing.
pub release-IsReleased :
    {E : Type 0} (v p d : Ptr) (c : Context) (i : Isolate) (gate : Gate) (w : World (Native E))
    {m : Memory}
    → IsTracked w.engine.go
    → w.engine.go.values v ≡ some (owned p d)
    → p ≢ 0
    → d ≢ 0
    → w.engine.go.contexts d ≡ some c
    → Admits w.engine.go c.iso i gate
    → MemValues.value_release p w.mem ≡ some (tt, m)
    → (w' : World (Native E)) × (release v w ≡ ok (done tt) w') × IsReleased v p c.iso i w w'
release-IsReleased v p d c i gate w {m} t e q k h a r =
    let n : v ≢ 0 = λ z. ground (arith, t.null_value) in
    let listed = subst (Lists v) h (t.tracked v (owned p d) n e q refl k) in
    let (l, live) = has_table v c.live_values listed.1 in
    let (free, f, depth, _) = leave_gate-enter_gate w.engine.go.thread i.gate gate a.admitted in
    let j = final-IsTracked t n h live in
    let w' = final v p d c l i gate free w m in
    (
      w',
      release_lem v p d c l i gate free w m n q k e h live (put_context-Admits d _ a) f r,
      record {
        freed = r;
        nil = λ y u. ground (arith, ==_refl v);
        others = λ u o. ground arith;
        free = (free, depth, ground (arith, ==_refl c.iso));
        stays = λ z. ground (arith, ==_refl v);
        contexts = λ q z o. removed-Before w.engine.go d v q c z l h live o;
        unlocked = refl;
        kept = record {
          tracked = j.tracked;
          null_value = j.null_value;
          next_ne_null = j.next_ne_null;
        };
        again = release_nil v (owned 0 d) w' n (ground (arith, ==_refl v)) refl;
      },
    )

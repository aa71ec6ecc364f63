-- ===== src/Memory/Release.antt =====
-- GV8ValueRelease: what it does to the memory.
use gv.Prelude.{
  ℕ, ◌+◌, ◌≡◌, ◌≢◌, refl, ap, ==_refl, none, some, arith, update, Option-cases, inl, inr,
}
use native.Mathlib.Decide.{ℕ_discrete}
use gv.Memory.{Ptr, Gv8Ctx, Gv8Value, Memory, lookup, erase, holds}
use gv.Memory.Tables.{lookup-erase, Distinct-erase}
use gv.Memory.Values.{value_release}
use gv.Memory.Invariant.{IsConsistent}

abbrev delist : Gv8Ctx → ℕ → Gv8Ctx
delist c k = record c { values = erase k c.values }

abbrev pub drop_at : Memory → Ptr → Gv8Value → Memory
drop_at m q v = record m { freed = m.freed + holds v.ptr; values = update m.values q none }

abbrev pub untrack_at : Memory → Gv8Value → Gv8Ctx → Memory
untrack_at m v c = record m { ctxs = update m.ctxs v.ctx (some (delist c v.id)) }

module _ (m : Memory) (q : Ptr) {v : Gv8Value} (live : m.values q ≡ some v) where
  pub release_borrowed : q ≢ 0 → v.id ≡ 0 → value_release q m ≡ some (tt, drop_at m q v)
  unfolding value_release
  release_borrowed n e = ground arith

  pub release_tracked :
      (c : Gv8Ctx)
      → q ≢ 0
      → v.id ≢ 0
      → v.ctx ≢ 0
      → m.ctxs v.ctx ≡ some c
      → value_release q m ≡ some (tt, drop_at (untrack_at m v c) q v)
  unfolding value_release
  release_tracked c n e d h = ground arith

pub release_dangling : (m : Memory) (q : Ptr) → q ≢ 0 → m.values q ≡ none → value_release q m ≡ none
unfolding value_release
release_dangling m q n e = ground arith

module _ {m : Memory} (i : IsConsistent m) (q : Ptr) {v : Gv8Value}
    (live : m.values q ≡ some v) where
  borrowed-IsConsistent : v.id ≡ 0 → IsConsistent (drop_at m q v)
  borrowed-IsConsistent z = record {
    distinct = i.distinct;
    in_range = i.in_range;
    owned = λ p c k r e l. ground (arith, i.owned p c k r e l, i.in_range p c k r e l);
    listed = λ r w e n. ground (arith, i.listed r w);
    unused_ctx = i.unused_ctx;
    unused_value = λ p a. ground (arith, i.unused_value p);
    null_ctx = i.null_ctx;
    null_value = ground (arith, i.null_value);
    next_ne_null = i.next_ne_null;
  }

  module _ (c : Gv8Ctx) (here : m.ctxs v.ctx ≡ some c) (t : v.id ≢ 0) where
    entry : lookup v.id c.values ≡ some q
    entry = ground (arith, i.listed q v live t)

    tracked-IsConsistent : IsConsistent (drop_at (untrack_at m v c) q v)
    tracked-IsConsistent = record {
      distinct = λ p d e.
          ground (arith, i.distinct p d, i.distinct v.ctx c here, Distinct-erase v.id c.values);
      in_range = λ p d k r e l. ground (
        arith,
        i.in_range p d k r,
        i.in_range v.ctx c k r here,
        lookup-erase k v.id c.values (i.distinct v.ctx c here),
      );
      owned = λ p d k r e l. ground (
        arith,
        i.owned p d k r,
        i.owned v.ctx c k r here,
        lookup-erase k v.id c.values (i.distinct v.ctx c here),
      );
      listed = λ r w e n.
          ground
            (arith, i.listed r w, entry, lookup-erase w.id v.id c.values (i.distinct v.ctx c here));
      unused_ctx = λ p a. ground (arith, i.unused_ctx p, i.unused_ctx v.ctx);
      unused_value = λ p a. ground (arith, i.unused_value p);
      null_ctx = ground (arith, i.null_ctx);
      null_value = ground (arith, i.null_value);
      next_ne_null = i.next_ne_null;
    }

-- A context that a wrapper was taken from is what it was, but for its table.
delisted :
    (m : Memory) (v : Gv8Value) (d : Gv8Ctx)
    → m.ctxs v.ctx ≡ some d
    → (p : Ptr) (c : Gv8Ctx) → m.ctxs p ≡ some c
    → (c' : Gv8Ctx) × ((untrack_at m v d).ctxs p ≡ some c') × (c'.iso ≡ c.iso) × (c'.ptr ≡ c.ptr)
delisted m v d e p c f = elim (ℕ_discrete p v.ctx) [
  | yes z ↦
      let same : d ≡ c = ground (arith, z, e, f) in
      (
        delist d v.id,
        ground (arith, z, ==_refl p),
        ap (λ (x : Gv8Ctx). x.iso) same,
        ap (λ (x : Gv8Ctx). x.ptr) same,
      )
  | no n ↦ (c, ground (arith, f), refl, refl)
]

-- The wrapper is gone, no other has changed, and the isolates and contexts are what they were, but for
-- the table of one; to release it again is undefined behaviour.
pub record Released (m : Memory) (q : Ptr) (m' : Memory) : Type 0 where
  pub gone : m'.values q ≡ none
  pub others : (r : Ptr) → r ≢ q → m'.values r ≡ m.values r
  pub again : value_release q m' ≡ none
  pub consistent : IsConsistent m'
  pub isolates : m'.isolates ≡ m.isolates
  pub ctxs :
      (p : Ptr) (c : Gv8Ctx)
      → m.ctxs p ≡ some c
      → (c' : Gv8Ctx) × (m'.ctxs p ≡ some c') × (c'.iso ≡ c.iso) × (c'.ptr ≡ c.ptr)

-- In a consistent memory the release of a live wrapper succeeds: the wrapper is gone, every other
-- wrapper is as it was, the memory is consistent, and a second release is undefined behaviour.
pub value_release-live :
    {m : Memory} (i : IsConsistent m) (q : Ptr) {v : Gv8Value}
    → m.values q ≡ some v
    → (m' : Memory) × (value_release q m ≡ some (tt, m')) × Released m q m'
value_release-live {m} i q {v} live = elim (ℕ_discrete v.id 0) [
  | yes z ↦ (
    drop_at m q v,
    release_borrowed m q live (ground (arith, i.null_value)) z,
    record {
      gone = ground arith;
      others = λ r n. ground arith;
      again = release_dangling (drop_at m q v) q (ground (arith, i.null_value)) (ground arith);
      consistent = borrowed-IsConsistent i q live z;
      isolates = refl;
      ctxs = λ p c e. (c, e, refl, refl);
    },
  )
  | no t ↦ elim (Option-cases (m.ctxs v.ctx)) [
    | inl e ↦ absurd (ground (arith, i.listed q v live t))
    | inr (c, e) ↦ (
      drop_at (untrack_at m v c) q v,
      release_tracked m q live c (ground (arith, i.null_value)) t (ground (arith, i.null_ctx)) e,
      record {
        gone = ground arith;
        others = λ r n. ground arith;
        again =
            release_dangling (drop_at (untrack_at m v c) q v) q (ground (arith, i.null_value))
              (ground arith);
        consistent = tracked-IsConsistent i q live c e t;
        isolates = refl;
        ctxs = delisted m v c e;
      },
    )
  ]
]

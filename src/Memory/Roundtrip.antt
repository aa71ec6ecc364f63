-- ===== src/Memory/Roundtrip.antt =====
-- wrapValue and then GV8ValueRelease: what a value that comes and goes leaves behind.
use gv.Prelude.{ℕ, suc, ◌≡◌, none, some, Option, arith, Option-cases, inl, inr}
use gv.Memory.{Ptr, Gv8Ctx, Memory, lookup, insert}
use gv.Memory.Tables.{lookup-insert, lookup-erase, Distinct-insert}
use gv.Memory.Values.{wrap_value, value_release}
use gv.Memory.Wrap.{wrap_lem, wrap_at, enlist, tracked}
use gv.Memory.Release.{release_tracked, untrack_at, drop_at}
use gv.Memory.Invariant.{IsConsistent}

-- The context's table under every id, and what the table of a dead context is.
abbrev pub entry : ℕ → Option Gv8Ctx → Option Ptr
entry k none = none
entry k (some c) = lookup k c.values

-- One handle was made and dropped; no wrapper and no table is other than before.
pub record Restored (m m' : Memory) : Type 0 where
  pub values : (q : Ptr) → m'.values q ≡ m.values q
  pub entries : (p : Ptr) (k : ℕ) → entry k (m'.ctxs p) ≡ entry k (m.ctxs p)
  pub made : m'.made ≡ suc m.made
  pub freed : m'.freed ≡ suc m.freed

module _ {m : Memory} (i : IsConsistent m) (ctx iso : Ptr) (h : ℕ) {c : Gv8Ctx}
    (live : m.ctxs ctx ≡ some c) where
  wrapped : Memory
  wrapped = wrap_at m ctx c iso h

  released : Memory
  released =
      drop_at (untrack_at wrapped (tracked c ctx iso h) (enlist c m.next)) m.next
        (tracked c ctx iso h)

  new_wrapper : wrapped.values m.next ≡ some (tracked c ctx iso h)
  unfolding wrapped
  new_wrapper = ground arith

  new_table : wrapped.ctxs ctx ≡ some (enlist c m.next)
  unfolding wrapped
  new_table = ground arith

  fresh_id : lookup (suc c.next_value_id) c.values ≡ none
  fresh_id = elim (Option-cases (lookup (suc c.next_value_id) c.values)) [
    | inl e ↦ e
    | inr (q, e) ↦ absurd (ground (arith, i.in_range ctx c (suc c.next_value_id) q live e))
  ]

  released-Restored : Restored m released
  unfolding released wrapped
  released-Restored = record {
    values = λ q. ground (arith, i.unused_value q);
    entries = λ p k. ground (
      arith,
      fresh_id,
      live,
      i.distinct ctx c live,
      Distinct-insert (suc c.next_value_id) m.next c.values,
      lookup-insert k (suc c.next_value_id) m.next c.values,
      lookup-erase k (suc c.next_value_id) (insert (suc c.next_value_id) m.next c.values),
    );
    made = omega arith;
    freed = omega arith;
  }

  -- A value that is wrapped in a live context of a consistent memory and then released: both
  -- succeed, one handle is made and one dropped, and every wrapper and every table entry of every
  -- context is as it was.
  pub value_release-wrap_value :
      (m' : Memory) × (m'' : Memory) × (wrap_value ctx iso h m ≡ some (m.next, m'))
      × (m'.values m.next ≡ some (tracked c ctx iso h))
      × (entry (suc c.next_value_id) (m'.ctxs ctx) ≡ some m.next)
      × (value_release m.next m' ≡ some (tt, m''))
      × Restored m m''
  unfolding wrapped released
  value_release-wrap_value = (
    wrapped,
    released,
    wrap_lem m ctx iso h c live,
    new_wrapper,
    ground (
      arith,
      new_table,
      lookup-insert (suc c.next_value_id) (suc c.next_value_id) m.next c.values,
    ),
    release_tracked wrapped m.next new_wrapper (enlist c m.next) i.next_ne_null (λ e. omega arith)
        (λ e. ground (arith, i.null_ctx)) new_table,
    released-Restored,
  )

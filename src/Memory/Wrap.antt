-- ===== src/Memory/Wrap.antt =====
-- What wrapValue does to the memory, as one equation.
use gv.Prelude.{ℕ, suc, ◌+◌, ◌≡◌, refl, none, some, arith, update}
use gv.Memory.{Ptr, Gv8Ctx, Gv8Value, Memory, insert}
use gv.Memory.Values.{wrap_value, wrap_borrowed_value}

abbrev pub tracked : Gv8Ctx → Ptr → Ptr → ℕ → Gv8Value
tracked c ctx iso h = record { id = suc c.next_value_id; ctx = ctx; iso = iso; ptr = some h }

abbrev pub borrowed : Ptr → Ptr → ℕ → Gv8Value
borrowed ctx iso h = record { id = 0; ctx = ctx; iso = iso; ptr = some h }

abbrev pub enlist : Gv8Ctx → Ptr → Gv8Ctx
enlist c p = record c {
  next_value_id = suc c.next_value_id;
  values = insert (suc c.next_value_id) p c.values;
}

abbrev pub borrow_at : Memory → Ptr → Ptr → ℕ → Memory
borrow_at m ctx iso h = record m {
  next = suc m.next;
  made = m.made + 1;
  freed = m.freed + 0;
  values = update m.values m.next (some (borrowed ctx iso h));
}

abbrev pub wrap_at : Memory → Ptr → Gv8Ctx → Ptr → ℕ → Memory
wrap_at m ctx c iso h = record m {
  next = suc m.next;
  made = m.made + 1;
  freed = m.freed + 0;
  ctxs = update m.ctxs ctx (some (enlist c m.next));
  values =
      update (update m.values m.next (some (borrowed ctx iso h))) m.next
        (some (tracked c ctx iso h));
}

pub borrow_lem :
    (m : Memory) (ctx iso : Ptr) (h : ℕ)
    → wrap_borrowed_value ctx iso h m ≡ some (m.next, borrow_at m ctx iso h)
unfolding wrap_borrowed_value
borrow_lem m ctx iso h = refl

pub wrap_lem :
    (m : Memory) (ctx iso : Ptr) (h : ℕ) (c : Gv8Ctx)
    → m.ctxs ctx ≡ some c
    → wrap_value ctx iso h m ≡ some (m.next, wrap_at m ctx c iso h)
unfolding wrap_value
wrap_lem m ctx iso h c e = ground arith

pub wrap_dangling :
    (m : Memory) (ctx iso : Ptr) (h : ℕ) → m.ctxs ctx ≡ none → wrap_value ctx iso h m ≡ none
unfolding wrap_value
wrap_dangling m ctx iso h e = ground arith

-- ===== src/Go/Access.antt =====
-- isolate.go: the owner of an isolate, and how enter and leave change it. The two functions hold the
-- isolate's mutex while they do, so that each is one step.
pub mod Threads
use gv.Prelude.{
  ℕ, suc, ◌+◌, ◌-◌, Bool, true, false, not, ◌||◌, Option, none, some, if◌then◌else◌, ◌==◌,
}

-- `ownerThread` and `depth`
pub record Gate : Type 0 where
  pub owner_thread : ℕ
  pub depth : ℕ

abbrev pub open_gate : Gate
open_gate = record { owner_thread = 0; depth = 0 }

-- The part of `enter` between Lock and Unlock; `none` where another thread is the owner.
unfoldable pub enter_gate : ℕ → Gate → Option Gate
enter_gate thread_id g =
    if g.depth == 0
    then some (record { owner_thread = thread_id; depth = 1 })
    else (if not (g.owner_thread == thread_id)
        then none
        else some (record g { depth = g.depth + 1 }))

abbrev release_owner : Gate → Gate
release_owner g = if g.depth == 0 then record g { owner_thread = 0 } else g

-- The part of `leave` between Lock and Unlock; `none` where it panics.
unfoldable pub leave_gate : ℕ → Gate → Option Gate
leave_gate thread_id g =
    if g.depth == 0 || not (g.owner_thread == thread_id)
    then none
    else some (release_owner (record g { depth = g.depth - 1 }))

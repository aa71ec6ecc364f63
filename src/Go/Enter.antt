-- ===== src/Go/Enter.antt =====
-- isolate.go: enter, mustEnter and leave. All that they do to the isolate, its owner and depth, is
-- done between Lock and Unlock of its mutex.
pub mod Lent
use gv.Prelude.{ℕ, suc, ◌-◌, Option, none, some, if◌then◌else◌, ◌==◌}
use gv.Prelude.Bytes.{bytes}
use gv.Memory.{Ptr, null}
use gv.Go.{GoError, plain, Isolate, Heap, done, panics, Alter}
use gv.Go.Access.{Gate, enter_gate, leave_gate}
use gv.Go.Objects.{
  pure, panic, ◌>>=◌, ◌>>◌, isolate_at, write_isolate, lock_os_thread, unlock_os_thread,
}

abbrev pub nil_isolate : GoError
nil_isolate = plain (bytes "gv8: nil isolate")

abbrev pub in_use : GoError
in_use = plain (bytes "gv8: isolate is already in use; callers must externally synchronize access")

abbrev pub not_owner : GoError
not_owner = plain (bytes "gv8: isolate access released from non-owner thread")

-- `uintptr(C.GV8CurrentThreadID())`
abbrev thread_id : Alter ℕ
thread_id g = (done g.thread, g)

abbrev gate_entered : Ptr → Isolate → Option Gate → Alter (Option GoError)
gate_entered iso i none = do unlock_os_thread; pure (some in_use)
gate_entered iso i (some gate) = do write_isolate iso (record i { gate = gate }); pure none

abbrev enter_open : Ptr → Isolate → Alter (Option GoError)
enter_open iso i = do lock_os_thread; t ← thread_id; gate_entered iso i (enter_gate t i.gate)

-- enter: its error, if any; the release function that comes without one is `leave`.
unfoldable pub enter : Ptr → Alter (Option GoError)
enter iso =
    if iso == null
    then pure (some nil_isolate)
    else do i ← isolate_at iso; if i.ptr == null then pure (some nil_isolate) else enter_open iso i

abbrev or_panic : Option GoError → Alter (Unit {0})
or_panic none = pure tt
or_panic (some e) = panic e

-- mustEnter
unfoldable pub must_enter : Ptr → Alter (Unit {0})
must_enter iso = do err ← enter iso; or_panic err

abbrev gate_left : Ptr → Isolate → Option Gate → Alter (Unit {0})
gate_left iso i none = panic not_owner
gate_left iso i (some gate) = do write_isolate iso (record i { gate = gate }); unlock_os_thread

unfoldable pub leave : Ptr → Alter (Unit {0})
leave iso = do t ← thread_id; i ← isolate_at iso; gate_left iso i (leave_gate t i.gate)

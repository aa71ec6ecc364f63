-- ===== src/Go/Await.antt =====
-- promise.go: State, Result and Await; isolate.go: PerformMicrotaskCheckpoint and
-- IsExecutionTerminating; value.go: StringValue. What Await waits for is a parameter: the context's Done
-- and Err, the pump, and the timer.
pub mod Rounds
use gv.Prelude.{
  ℕ, zero, suc, Bool, true, false, not, ◌||◌, Option, none, some, List, [], ◌∷◌, ◌++◌, take,
  if◌then◌else◌, ◌==◌,
}
use gv.Prelude.Int.{ℤ, pos, pos_part, ◌==ℤ◌}
use gv.Prelude.Bytes.{bytes}
use gv.Memory.{Ptr, null}
use gv.Run.{Cmd}
use gv.V8.{V8, Text, CString}
use gv.Results.{RtnData}
use gv.Control as Control
use gv.Promise as Promise
use gv.Values as Values
use gv.Go.{
  JsError, GoError, js, plain, Value, Context, Heap, done, Alter, Native, Go, pure, calls, heap,
  deferring, ◌>>=◌, ◌>>◌,
}
use gv.Go.Objects as Objects
use gv.Go.Objects.{isolate_at, context_at, value_at}
use gv.Go.Enter.{must_enter, leave}
use gv.Go.Values.{valid, new_value}
use gv.Go.Results.{new_js_error}

-- What the caller gives to Await, and the timer of a millisecond. `done` is the check of Done without
-- waiting and `sleep` the wait for Done or the timer; both give the context's error, if it is done.
pub record Deadline (E : Type 0) : Type 0 where
  pub done_now : Go E (Option GoError)
  pub sleep : Go E (Option GoError)

pub record Waiting (E : Type 0) : Type 0 where
  pub deadline : Option (Deadline E)
  pub pump : Option (Go E (Option GoError))
  pub timer : Go E (Unit {0})

-- The functions of gv8.h that promises need.
pub record PromiseCalls (N : Type 0) : Type 0 where
  pub perform_microtask_checkpoint : Ptr → Cmd N (Unit {0})
  pub promise_state : Ptr → Cmd N ℤ
  pub promise_result : Ptr → Cmd N Ptr
  pub value_to_string : Ptr → Cmd N RtnData

pub promise_calls : {N : Type 0} → V8 N → PromiseCalls N
promise_calls v = record {
  perform_microtask_checkpoint = Control.isolate_perform_microtask_checkpoint v;
  promise_state = Promise.promise_state v;
  promise_result = Promise.promise_result v;
  value_to_string = Values.value_to_string v;
}

-- How a turn of the loop of Await ends.
pub data Turn : Type 0 where
  again : Turn
  settled : Turn
  returns : GoError → Turn

abbrev message : Text → GoError
message t = js (record { message = t; location = []; stack = [] })

abbrev invalid_value : GoError
invalid_value = message (bytes "gv8: value is no longer valid")

-- `p.ctx.iso`, or nil where `p.ctx` is.
abbrev iso_of : Ptr → Alter Ptr
iso_of ctx =
    if ctx == null
    then Objects.pure null
    else Objects.◌>>=◌ (context_at ctx) (λ c. Objects.pure c.iso)

abbrev go_string_n : CString → ℤ → Text
go_string_n none n = []
go_string_n (some t) n = take (pos_part n) t

-- `release := iso.mustEnter(); defer release()`
abbrev entered : {E A : Type 0} → Ptr → Go E A → Go E A
entered iso body = do heap (must_enter iso); deferring (heap (leave iso)) body

module _ {E : Type 0} (v : PromiseCalls (Native E)) where
  -- PerformMicrotaskCheckpoint
  unfoldable pub perform_microtask_checkpoint : Ptr → Go E (Unit {0})
  perform_microtask_checkpoint iso = if iso == null then pure tt else do
    i ← heap (isolate_at iso)
    if i.ptr == null then pure tt else entered iso (calls (v.perform_microtask_checkpoint i.ptr))

  -- IsExecutionTerminating
  unfoldable pub is_execution_terminating : Ptr → Go E Bool
  is_execution_terminating iso =
      if iso == null
      then pure false
      else do i ← heap (isolate_at iso); pure (if i.ptr == null then false else i.terminating)

  -- State; 0 is pending
  unfoldable pub state : Ptr → Go E ℤ
  state p = do
    ok ← heap (valid p)
    if not ok then pure (pos 0) else do
      x ← heap (value_at p)
      c ← heap (context_at x.ctx)
      entered c.iso (calls (v.promise_state x.ptr))

  -- Result
  unfoldable pub result : Ptr → Go E Ptr
  result p = do
    ok ← heap (valid p)
    if not ok then pure null else do
      x ← heap (value_at p)
      c ← heap (context_at x.ctx)
      entered c.iso (do q ← calls (v.promise_result x.ptr); heap (new_value x.ctx q))

  abbrev string_of : CString → RtnData → Text × Option GoError
  string_of none rtn = (go_string_n rtn.bytes rtn.length, none)
  string_of (some msg) rtn = ([], new_js_error rtn.error)

  -- StringValue
  unfoldable pub string_value : Ptr → Go E (Text × Option GoError)
  string_value p = do
    ok ← heap (valid p)
    if not ok then pure ([], some invalid_value) else do
      x ← heap (value_at p)
      c ← heap (context_at x.ctx)
      entered c.iso (do rtn ← calls (v.value_to_string x.ptr); pure (string_of rtn.error.msg rtn))

  abbrev ended : Option GoError → Turn
  ended none = again
  ended (some err) = returns err

  -- The pump, or the wait.
  abbrev wait_turn : Option (Deadline E) → Go E (Unit {0}) → Go E Turn
  wait_turn none timer = do timer; pure again
  wait_turn (some deadline) timer = do err ← deadline.sleep; pure (ended err)

  abbrev pump_turn : Waiting E → Option (Go E (Option GoError)) → Go E Turn
  pump_turn waiting none = wait_turn waiting.deadline waiting.timer
  pump_turn waiting (some pump) = do err ← pump; pure (ended err)

  abbrev check_done : Option (Deadline E) → Go E (Option GoError)
  check_done none = pure none
  check_done (some deadline) = deadline.done_now

  abbrev unless_done : Option GoError → Go E Turn → Go E Turn
  unless_done none rest = rest
  unless_done (some err) rest = pure (returns err)

  -- One turn of the loop.
  unfoldable pub turn : Waiting E → Ptr → Go E Turn
  turn waiting p = do
    ok ← heap (valid p)
    if not ok then pure (returns invalid_value) else do
      x ← heap (value_at p)
      iso ← heap (iso_of x.ctx)
      perform_microtask_checkpoint iso
      s ← state p
      if not (s ==ℤ pos 0) then pure settled else do
        terminating ← is_execution_terminating iso
        if terminating then pure (returns (message (bytes "gv8: execution terminated"))) else do
          err ← check_done waiting.deadline
          unless_done err (pump_turn waiting waiting.pump)

  -- The loop, on fuel: `none` where the fuel is out, or the error that it returns, if any.
  abbrev pub go_on : Go E (Option (Option GoError)) → Turn → Go E (Option (Option GoError))
  go_on rest again = rest
  go_on rest settled = pure (some none)
  go_on rest (returns err) = pure (some (some err))

  unfoldable pub loop : ℕ → Waiting E → Ptr → Go E (Option (Option GoError))
  unfolding ◌>>=◌
  loop zero waiting p = pure none
  loop (suc n) waiting p = let rest = loop n waiting p in do t ← turn waiting p; go_on rest t

  abbrev rejection : Text → Option GoError → GoError
  rejection t (some err) = message (bytes "promise rejected")
  rejection [] none = message (bytes "promise rejected")
  rejection (b ∷ t) none = message (bytes "promise rejected: " ++ b ∷ t)

  abbrev rejected : Ptr → Go E (Ptr × Option GoError)
  rejected p = do
    r ← result p
    if r == null
        then pure (null, some (message (bytes "promise rejected")))
        else do s ← string_value r; pure (null, some (rejection s.0 s.1))

  -- The end of Await, after the loop was left.
  unfoldable pub settle : Ptr → Go E (Ptr × Option GoError)
  settle p = do
    s ← state p
    if s ==ℤ pos 1
        then (do r ← result p; pure (r, none))
        else if s ==ℤ pos 2
        then rejected p
        else pure (null, some (plain (bytes "promise did not settle")))

  abbrev left : Ptr → Option (Option GoError) → Go E (Option (Ptr × Option GoError))
  left p none = pure none
  left p (some none) = do r ← settle p; pure (some r)
  left p (some (some err)) = pure (some (null, some err))

  -- Await, on fuel
  unfoldable pub await : ℕ → Waiting E → Ptr → Go E (Option (Ptr × Option GoError))
  unfolding loop settle
  await n waiting p =
      if p == null then pure (some (null, some (plain (bytes "gv8: nil promise")))) else do
        ok ← heap (valid p)
        if not ok then pure (some (null, some invalid_value)) else do r ← loop n waiting p; left p r

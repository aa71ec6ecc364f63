-- ===== src/Lib.antt =====
-- gv8, a Go binding of the V8 JavaScript engine: the C++ side, internal/gv8.cc, its interface, gv8.h,
-- and the core of the Go side.
--
-- The program. The Go side calls the functions of gv8.h. Each of them enters an isolate and, most of
-- them, a context, calls V8, and wraps what V8 gives in structs that the Go side holds by pointer: a
-- gv8_ctx for a context, a gv8_value for a value, a gv8_unbound_script, a gv8_module, a
-- gv8_snapshot_builder. A gv8_ctx keeps a table from ids to the gv8_values that are tracked in it,
-- and deletes these when it is disposed of; borrowed values, the arguments of a host function, are in
-- no table. V8 in turn calls four functions of the program, which call the Go side: the resolver of
-- modules, the one of dynamic imports, host functions, and the observer of rejected promises.
--
-- The model. A command is a function of the world, which is the state of V8 (a type E that the
-- program does not see) and the memory of gv8.cc; it ends with a result, with a fault, which is
-- undefined behaviour such as a read through a dangling pointer, or with an abort, by which V8 ends
-- the process. V8 and the Go side are parameters, the records V8 and Host: their calls are functions
-- of the state, and those that can run user code may change the whole world.
--
-- The files. Function names are those of gv8.cc without GV8, in snake case.
--   Memory, Memory/Values, Memory/Objects: the structs, the tables, trackValue, wrapValue,
--     wrapBorrowedValue, GV8ValueRelease, GV8ContextDispose; the slots of isolates and contexts.
--     The other files of Memory/ hold what is proved of them.
--   Run: the world and the commands; Run/Keeps: commands that keep a property of the memory.
--   V8, V8/Reentry: what is taken from V8 and from the Go side.
--   Text: CopyString, SharedLibraryDir, std::ostringstream.
--   Scope: ISO_SCOPE and CTX_SCOPE. Errors: ExceptionError, ErrorFromMessage, NewError, MakeOrigin.
--   Results: the result structs of gv8.h.
--   Isolate: GV8Init to GV8IsolateDispose, and GV8NewContext. Control: GV8IsolatePerform... to
--     GV8IsolateGetHeapStatistics. Creation: GV8ContextGlobal to GV8NewUint8ArrayCopy.
--   Script: scripts and modules. Values: GV8ValueRetain to GV8ValueLen. Object: GV8ObjectGet to
--     GV8ObjectCallMethod, and JSON. Promise, Snapshot, Callback: the rest.
--   Api: the interface as a whole; a session is any sequence of its functions and of the callbacks.
--   Go: the objects and tables of the Go side, and its commands: a command of the world whose state of
--     V8 is a pair with the Go heap, ending with its results or with a panic. Go/Objects: functions of
--     the Go side alone. Go/Access: the owner and the depth of an isolate, which enter and leave
--     change under its mutex; Go/Enter: enter, mustEnter, leave (isolate.go). Go/Refs: the tables of
--     isolates, contexts and host functions (isolate.go, context.go, host.go). Go/Values: newValue,
--     invalidate, valid, trackValue, untrackValue and their kin (value.go, context.go).
--     Go/Lifecycle: NewContext, Close and Release; Go/Lifecycle/Linked: the pointers that the Go side
--     holds against the memory of C, operation by operation and over sessions. Go/Resolvers: the
--     tables of module resolvers of a context (context.go). Go/Functions: NewFunction (host.go).
--     Go/Results: newJSError, valueResult (result.go). Go/Await: State, Result and Await (promise.go).
--     Go/Guards: the checks and the entry of the isolate that stand around a call of C, as shapes that
--     the functions are written in. Go/Creation: primitives.go. Go/Methods: the methods of values,
--     objects, functions and contexts, JSON, and resolvers (value.go, context.go, promise.go).
--     Go/Arguments: materializeValue, materializeArgs, cArgv; Go/Host: handoffHostValue and
--     gv8FunctionCallback (host.go). Go/Modules: module.go and its callbacks. Go/Scripts: script.go,
--     snapshot.go. Go/Globals: global.go. Go/Isolates: NewIsolateWithOptions to HeapStatistics, the
--     handlers, gv8PromiseRejectCallback (isolate.go), and initialize (cgo.go).
--   Prelude: names, tests, lists and signed numbers. Tests: a small engine, and runs against it.
-- A file Keeps.antt beside a component holds the rules by which its commands keep a property.
--
-- Choices. A pointer is a number and 0 is null; no address is given out twice, so that a dangling
-- pointer is seen. Ids count from 1, as in the program, and are not bounded: a `long` is not
-- exhausted. A C string is a list of bytes, or nothing where it may be null; a double is its bit
-- pattern. An `int` made of a wider number wraps at 32 bits. The digits of a number are computed on
-- fuel, one more than the number, which is more than the number of its digits. A count of made and of
-- dropped handles stands for V8's table of persistent handles.
--
-- In Go a panic keeps what was written before it; a function under a mutex is one step; a map is a
-- list of its keys, walked in that list's order; counters of type int do not wrap, and where one is
-- passed to C as an int it is cut to 32 bits. The loop of Await is on fuel, as it waits for what is
-- outside: with more fuel than it makes turns, the fuel does not matter. The pump, the deadline and
-- the timer of Await, and the handlers, host functions and resolvers of the user are parameters. So are
-- the functions of gv8.h that the Go side calls, a record for each component, such as CreationCalls; a
-- function beside it, such as creation_calls, fills it with the functions of Creation, Values and so on.
--
-- Not modelled: TerminateOnContextDone, a goroutine that waits for a context, and AsJSError, which unwraps
-- errors of other packages; methods that only return a field; V8 itself; locks and V8's stacks of scopes,
-- which destructors undo; the garbage collectors; malloc that fails, and the memory of the texts and bytes
-- that are returned, which the caller frees; the build.
pub mod Prelude
pub mod Memory
pub mod Run
pub mod V8
pub mod Text
pub mod Scope
pub mod Errors
pub mod Results
pub mod Creation
pub mod Values
pub mod Object
pub mod Promise
pub mod Isolate
pub mod Control
pub mod Script
pub mod Snapshot
pub mod Callback
pub mod Api
pub mod Go
mod Tests

-- ===== src/Callback/Resolve.antt =====
-- ResolveModuleCallback: the handle of the referrer.
use gv.Prelude.{suc, ◌+◌, ◌≡◌, none, some, refl, arith, update, ==_refl}
use gv.Memory.{Ptr, null, Memory, Gv8Ctx, EmbedderSlots}
use gv.Memory.Objects.{embedder_ctx, new_module, leave_module}
use gv.Run.{World, ok, ◌>>=◌}
use gv.V8.{V8, Host, CString, Text, Local, Try, value_of}
use gv.Errors.{utf8_value}
use gv.Callback.{resolve_module_callback, found_module}

-- The memory with a handle of the referrer.
abbrev referring : Memory → Ptr → Local → Memory
referring m iso referrer = record m {
  next = suc m.next;
  made = m.made + 1;
  modules = update m.modules m.next (some (record { iso = iso; ptr = some referrer }));
}

module _ {E : Type 0} (v : V8 E) (host : Host E) where
  -- Where the Go side finds no module, and neither it nor the reading of the specifier changes the
  -- memory: ResolveModuleCallback ends with no module, and one more handle was made than dropped,
  -- although every gv8_module is as it was; the handle of the referrer is never dropped.
  pub resolve_module_callback-made :
      (context specifier referrer : Local) (w : World E) (s : EmbedderSlots) (c : Gv8Ctx)
      (spec : Try Text) (read : E)
      → w.mem.embedder context ≡ some s
      → w.mem.ctxs s.slot2 ≡ some c
      → w.mem.modules w.mem.next ≡ none
      → v.utf8_value (v.current_isolate w.engine) specifier w ≡ (spec, record w { engine = read })
      → ((t : CString) (p : Ptr) (x : World E)
          → (e : E) × (host.resolve_module c.ref t p x
              ≡ (record { found = null; error_value = null }, record x { engine = e })))
      → (w' : World E) × (resolve_module_callback v host context specifier referrer w ≡ ok none w')
        × (w'.mem.made ≡ suc w.mem.made)
        × (w'.mem.freed ≡ w.mem.freed)
        × ((q : Ptr) → w'.mem.modules q ≡ w.mem.modules q)
  unfolding resolve_module_callback ◌>>=◌ embedder_ctx new_module leave_module utf8_value
      found_module
  resolve_module_callback-made context specifier referrer w s c spec read slot live unused reads
        finds =
      let m = referring w.mem (v.current_isolate w.engine) referrer in
      let (y, nothing) = finds (value_of spec) w.mem.next (record { engine = read; mem = m }) in
      (
        record { engine = y; mem = record m { modules = update m.modules w.mem.next none } },
        rw (reads, slot, live, nothing, ==_refl w.mem.next) refl,
        omega arith,
        refl,
        λ q. ground arith,
      )

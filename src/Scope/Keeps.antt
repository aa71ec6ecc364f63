-- ===== src/Scope/Keeps.antt =====
-- Rules for the commands that read, and for the primitive changes.
use gv.Prelude.{◌≡◌, some, arith, subst}
use gv.Prelude.Int.{ℤ}
use gv.Memory.{Ptr, Memory, Mem, Persistent, load_ctx, load_value}
use gv.Memory.Values.{wrap_value, wrap_borrowed_value, value_release, context_dispose, new_ctx}
use gv.Memory.Steps.{wraps, borrows, releases, disposes, creates, elsewhere, Elsewhere}
use gv.Run.Keeps.{Keeps, MemKeeps, keeps_rules}
use gv.V8.{Local}
use gv.V8.Reentry.{Stable}
use gv.Scope.{
  load_isolate, load_script, load_module, load_builder, iso_scope, ctx_scope, value_iso_scope,
  value_scope, handle_of, wrap_beside,
}

module _ {P : Memory → Type 0} where
  pub MemKeeps-load_ctx : (p : Ptr) → MemKeeps P (load_ctx p)
  MemKeeps-load_ctx p = record { at = λ m m' a e h. subst P (ground arith) h }

  pub MemKeeps-load_value : (p : Ptr) → MemKeeps P (load_value p)
  MemKeeps-load_value p = record { at = λ m m' a e h. subst P (ground arith) h }

  pub MemKeeps-load_isolate : (p : Ptr) → MemKeeps P (load_isolate p)
  MemKeeps-load_isolate p = record { at = λ m m' a e h. subst P (ground arith) h }

  pub MemKeeps-load_script : (p : Ptr) → MemKeeps P (load_script p)
  MemKeeps-load_script p = record { at = λ m m' a e h. subst P (ground arith) h }

  pub MemKeeps-load_module : (p : Ptr) → MemKeeps P (load_module p)
  MemKeeps-load_module p = record { at = λ m m' a e h. subst P (ground arith) h }

  pub MemKeeps-load_builder : (p : Ptr) → MemKeeps P (load_builder p)
  MemKeeps-load_builder p = record { at = λ m m' a e h. subst P (ground arith) h }

pub ruleset load_rules = (
  MemKeeps-load_ctx, MemKeeps-load_value, MemKeeps-load_isolate, MemKeeps-load_script,
  MemKeeps-load_module, MemKeeps-load_builder,
)

module _ {P : Memory → Type 0} (stable : Stable P) where
  pub MemKeeps-wrap_value : (ctx iso : Ptr) (h : Local) → MemKeeps P (wrap_value ctx iso h)
  MemKeeps-wrap_value ctx iso h = record {
    at = λ m m' p e k. stable.step m m' (wraps ctx iso h p e) k;
  }

  pub MemKeeps-wrap_borrowed_value :
      (ctx iso : Ptr) (h : Local) → MemKeeps P (wrap_borrowed_value ctx iso h)
  MemKeeps-wrap_borrowed_value ctx iso h = record {
    at = λ m m' p e k. stable.step m m' (borrows ctx iso h p e) k;
  }

  pub MemKeeps-value_release : (q : Ptr) → MemKeeps P (value_release q)
  MemKeeps-value_release q = record { at = λ m m' a e k. stable.step m m' (releases q e) k }

  pub MemKeeps-context_dispose : (p : Ptr) → MemKeeps P (context_dispose p)
  MemKeeps-context_dispose p = record { at = λ m m' a e k. stable.step m m' (disposes p e) k }

  pub MemKeeps-new_ctx :
      (iso : Ptr) (ref : ℤ) (context : Persistent) → MemKeeps P (new_ctx iso ref context)
  MemKeeps-new_ctx iso ref context = record {
    at = λ m m' p e k. stable.step m m' (creates iso ref context p e) k;
  }

  pub MemKeeps-Elsewhere :
      {A : Type 0} (c : Mem A)
      → ((m m' : Memory) (a : A) → c m ≡ some (a, m') → Elsewhere m m')
      → MemKeeps P c
  MemKeeps-Elsewhere c far = record {
    at = λ m m' a e k. stable.step m m' (elsewhere (far m m' a e)) k;
  }

module _ {E : Type 0} {P : Memory → Type 0} where
  pub Keeps-iso_scope : (iso : Ptr) → Keeps {E = E} P (iso_scope iso)
  unfolding iso_scope
  Keeps-iso_scope iso = search (keeps_rules, load_rules) depth 12

  pub Keeps-ctx_scope : (p : Ptr) → Keeps {E = E} P (ctx_scope p)
  unfolding ctx_scope
  Keeps-ctx_scope p = search (keeps_rules, load_rules, Keeps-iso_scope) depth 12

  pub Keeps-value_iso_scope : (p : Ptr) → Keeps {E = E} P (value_iso_scope p)
  unfolding value_iso_scope
  Keeps-value_iso_scope p = search (keeps_rules, load_rules, Keeps-iso_scope) depth 12

  pub Keeps-value_scope : (p : Ptr) → Keeps {E = E} P (value_scope p)
  unfolding value_scope
  Keeps-value_scope p = search (keeps_rules, load_rules, Keeps-value_iso_scope) depth 12

  pub Keeps-handle_of : (p : Ptr) → Keeps {E = E} P (handle_of p)
  unfolding handle_of
  Keeps-handle_of p = search (keeps_rules, load_rules) depth 12

  pub Keeps-wrap_beside :
      (p iso : Ptr) (h : Local) → Stable P → Keeps {E = E} P (wrap_beside p iso h)
  unfolding wrap_beside
  Keeps-wrap_beside p iso h s = search (keeps_rules, load_rules, MemKeeps-wrap_value) depth 12

pub ruleset scope_rules = (
  keeps_rules, load_rules, Keeps-iso_scope, Keeps-ctx_scope, Keeps-value_iso_scope,
  Keeps-value_scope, Keeps-handle_of, Keeps-wrap_beside, MemKeeps-wrap_value,
  MemKeeps-wrap_borrowed_value, MemKeeps-value_release, MemKeeps-context_dispose, MemKeeps-new_ctx,
)

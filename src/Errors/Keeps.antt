-- ===== src/Errors/Keeps.antt =====
-- Rules for invariants of the memory: the making of errors.
use gv.Prelude.{Bool, Option, none, some}
use gv.Prelude.Int.{ℤ}
use gv.Memory.{Ptr, Memory}
use gv.Run.Keeps.{Keeps}
use gv.V8.{V8, Text, CString, Local, Message, Caught, RtnError}
use gv.V8.Reentry.{V8Keeps}
use gv.Scope.Keeps.{scope_rules}
use gv.Errors.{
  utf8_value, string_checked, copy_location, copy_value, exception_error, read_stack,
  error_of_value, message_text, add_message, error_from_message, new_error, make_origin,
}

module _ {E : Type 0} {v : V8 E} {P : Memory → Type 0} (k : V8Keeps v P) where
  pub Keeps-utf8_value : (iso : Ptr) (o : Option Local) → Keeps P (utf8_value v iso o)
  unfolding utf8_value
  Keeps-utf8_value iso none = search scope_rules
  Keeps-utf8_value iso (some h) = search (scope_rules, k.utf8) depth 8

  pub Keeps-copy_location : (iso : Ptr) (o : Option Message) → Keeps P (copy_location v iso o)
  unfolding copy_location
  Keeps-copy_location iso none = search scope_rules
  Keeps-copy_location iso (some msg) = search (scope_rules, Keeps-utf8_value) depth 12

  pub Keeps-copy_value : (iso : Ptr) (o : Option Local) → Keeps P (copy_value v iso o)
  unfolding copy_value
  Keeps-copy_value iso none = search scope_rules
  Keeps-copy_value iso (some h) = search (scope_rules, Keeps-utf8_value) depth 12

  pub Keeps-exception_error :
      (iso : Ptr) (ctx : Local) (c : Caught) → Keeps P (exception_error v iso ctx c)
  unfolding exception_error
  Keeps-exception_error iso ctx c =
      search (scope_rules, Keeps-utf8_value, Keeps-copy_location, Keeps-copy_value, k.stack) depth
        16

module _ {E : Type 0} {P : Memory → Type 0} (v : V8 E) where
  pub Keeps-string_checked : (iso : Ptr) (t : Text) → Keeps P (string_checked v iso t)
  unfolding string_checked
  Keeps-string_checked iso t = search scope_rules depth 12

  pub Keeps-new_error : (iso : Ptr) (t : Text) → Keeps P (new_error v iso t)
  unfolding new_error
  Keeps-new_error iso t = search (scope_rules, Keeps-string_checked) depth 12

  pub Keeps-make_origin :
      (iso : Ptr) (t : Text) (l c : ℤ) (b : Bool) → Keeps P (make_origin v iso t l c b)
  unfolding make_origin
  Keeps-make_origin iso t l c b = search (scope_rules, Keeps-string_checked) depth 12

module _ {E : Type 0} {v : V8 E} {P : Memory → Type 0} (k : V8Keeps v P) where
  pub Keeps-read_stack : (iso : Ptr) (ctx value : Local) → Keeps P (read_stack v iso ctx value)
  unfolding read_stack
  Keeps-read_stack iso ctx value =
      search (scope_rules, Keeps-string_checked, Keeps-copy_value k, k.get) depth 16

  pub Keeps-error_of_value :
      (iso : Ptr) (ctx : Local) (o : Option Local) → Keeps P (error_of_value v iso ctx o)
  unfolding error_of_value
  Keeps-error_of_value iso ctx none = search scope_rules
  Keeps-error_of_value iso ctx (some h) =
      search (scope_rules, Keeps-utf8_value k, Keeps-read_stack) depth 16

  pub Keeps-message_text :
      (iso : Ptr) (msg : Message) (t : CString) → Keeps P (message_text v iso msg t)
  unfolding message_text
  Keeps-message_text iso msg (some t) = search scope_rules
  Keeps-message_text iso msg none = search (scope_rules, Keeps-utf8_value k) depth 12

  pub Keeps-add_message :
      (iso : Ptr) (o : Option Message) (e : RtnError) → Keeps P (add_message v iso o e)
  unfolding add_message
  Keeps-add_message iso none e = search scope_rules
  Keeps-add_message iso (some msg) e =
      search (scope_rules, Keeps-copy_location k, Keeps-message_text) depth 12

  pub Keeps-error_from_message :
      (iso : Ptr) (ctx : Local) (o : Option Message) (h : Option Local)
      → Keeps P (error_from_message v iso ctx o h)
  unfolding error_from_message
  Keeps-error_from_message iso ctx o h =
      search (scope_rules, Keeps-error_of_value, Keeps-add_message) depth 12

pub ruleset error_rules = (
  Keeps-utf8_value, Keeps-copy_value, Keeps-exception_error, Keeps-string_checked, Keeps-new_error,
  Keeps-make_origin, Keeps-error_from_message,
)

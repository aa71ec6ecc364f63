-- ===== src/Go/Arguments/Cleaned.antt =====
-- materializeArgs as a whole: what becomes of the values that it makes.
use gv.Prelude.{◌≡◌, ◌≢◌, refl, sym, subst, ap, ◌∙◌, none, some, List, [], ◌∷◌, ◌++◌}
use gv.Memory.{Ptr}
use gv.Run.{World, ok}
use gv.Go.{GoError, Native, Go, done}
use gv.Go.Results.{User}
use gv.V8.{V8}
use gv.Go.Arguments.Lawful.{IsQuiet, creation_calls-Creates}
use gv.Go.Creation.{CreationCalls, creation_calls}
use gv.Go.Arguments.{
  Any, Materialized, Arguments, no_arguments, release_all, materialize_value, materialize_from,
  materialize_args,
}
use gv.Go.Arguments.Released.{Temporaries}
use gv.Go.Arguments.Gathered.{
  Working, Gathered, IsRestored, Gathered-same, Gathered-nil, Gathered-new, Gathered-IsRestored,
  Gathered-first,
}
use gv.Go.Arguments.Promises.{Creates}
use gv.Go.Arguments.Steps.{AreSound, IsFor, AreFor, Step, stored, new, silent, failed, value-Step}

-- What materializeArgs has in the end: all values, and a cleanup; or an error, and nothing else, with
-- everything restored.
data Finished {E : Type 0} (ctx : Ptr) (first w' : World (Native E)) (args : List Ptr)
    (values : List Any) : Arguments → Type 0 where
  all_made :
      (all rest cleanups : List Ptr)
      → all ≡ args ++ rest
      → AreFor values rest
      → Gathered ctx first cleanups w'
      → Finished ctx first w' args values (record { args = all; cleanups = cleanups; err = none })
  given_up :
      (err : GoError)
      → IsRestored ctx first w'
      → Finished ctx first w' args values (no_arguments (some err))

append_nil : (l : List Ptr) → l ++ [] ≡ l
append_nil [] = refl
append_nil (x ∷ l) = ap (λ t. x ∷ t) (append_nil l)

append_one : (l : List Ptr) (x : Ptr) (t : List Ptr) → (l ++ x ∷ []) ++ t ≡ l ++ x ∷ t
append_one [] x t = refl
append_one (y ∷ l) x t = ap (λ r. y ∷ r) (append_one l x t)

more :
    {E : Type 0} {ctx : Ptr} {first w' : World (Native E)} {args : List Ptr} {values : List Any}
    {r : Arguments} (a : Any) (x : Ptr)
    → IsFor a x
    → Finished ctx first w' (args ++ x ∷ []) values r
    → Finished ctx first w' args (a ∷ values) r
more {args} a x i (all_made all rest cleanups e k g) =
    all_made all (x ∷ rest) cleanups (e ∙ append_one args x rest) (i, k) g
more a x i (given_up err g) = given_up err g

module _ {E : Type 0} (user : User E) (c : CreationCalls (Native E)) (ctx : Ptr)
    (ctx_ne_null : ctx ≢ 0) (s : Creates user ctx c) (first : World (Native E)) where
  abbrev Ends : List Ptr → List Ptr → World (Native E) → List Any → Type 0
  Ends args cleanups w values =
      (w' : World (Native E)) × (r : Arguments) × (materialize_from user c ctx args cleanups values
          w
        ≡ ok (done r) w')
      × Finished ctx first w' args values r

  abbrev Follows : List Any → Type 0
  Follows values =
      (args cleanups : List Ptr) (w : World (Native E))
      → Gathered ctx first cleanups w
      → Ends args cleanups w values

  by-Step :
      (a : Any) (values : List Any)
      → Follows values
      → (args cleanups : List Ptr) (w w' : World (Native E)) (m : Materialized)
      → Gathered ctx first cleanups w
      → materialize_value user c ctx a w ≡ ok (done m) w'
      → Step ctx w w' m
      → IsFor a m.next
      → Ends args cleanups w (a ∷ values)
  unfolding materialize_from gv.Go.◌>>=◌ gv.Go.pure
  by-Step a values next args cleanups w w' m g run (stored p k e) i =
      let g' =
        subst (λ l. Gathered ctx first l w') (sym (append_nil cleanups)) (Gathered-same g k e) in
      let (w2, r, run', f) = next (args ++ p ∷ []) (cleanups ++ []) w' g' in
      (w2, r, rw (run, run') refl, more a p i f)
  by-Step a values next args cleanups w w' m g run (new k) i =
      let p = w.engine.go.next in
      let (w2, r, run', f) = next (args ++ p ∷ []) (cleanups ++ p ∷ []) w' (Gathered-new g k) in
      (w2, r, rw (run, run') refl, more a p i f)
  by-Step a values next args cleanups w w' m g run (silent k e) i =
      let (w2, r, run', f) =
        next (args ++ 0 ∷ []) (cleanups ++ 0 ∷ []) w' (Gathered-nil (Gathered-same g k e)) in
      (w2, r, rw (run, run') refl, more a 0 i f)
  by-Step a values next args cleanups w w' m g run (failed _ err h k e) i =
      let (w2, run', q) = Gathered-IsRestored (Gathered-same g k e) ctx_ne_null in
      (w2, no_arguments (some err), rw (run, h, run') refl, given_up err q)

  from_ends : (values : List Any) → AreSound values → Follows values
  unfolding materialize_from gv.Go.pure
  from_ends [] i args cleanups w g =
      (w, _, refl, all_made args [] cleanups (sym (append_nil args)) tt g)
  from_ends (a ∷ values) (i, j) args cleanups w g =
      let (w', m, run, e, k) = value-Step user c ctx ctx_ne_null s a i w g.working in
      by-Step a values (from_ends values j) args cleanups w w' m g run e k

-- What materializeArgs returns: the values that the Go values stand for, and temporaries whose cleanup
-- restores what there was; or an error alone, with all restored already.
pub data Materializes {E : Type 0} (ctx : Ptr) (values : List Any) (w w' : World (Native E))
    : Arguments → Type 0 where
  made_all :
      (args cleanups : List Ptr)
      → AreFor values args
      → Temporaries ctx w' cleanups
      → (w2 : World (Native E)) × (release_all cleanups w' ≡ ok (done tt) w2) × IsRestored ctx w w2
      → Materializes ctx values w w' (record { args = args; cleanups = cleanups; err = none })
  gave_up :
      (err : GoError) → IsRestored ctx w w' → Materializes ctx values w w' (no_arguments (some err))

finished_Materializes :
    {E : Type 0} {ctx : Ptr} {values : List Any} {w w' : World (Native E)} {r : Arguments}
    → ctx ≢ 0
    → Finished ctx w w' [] values r
    → Materializes ctx values w w' r
finished_Materializes {values} n (all_made all rest cleanups e k g) =
    made_all all cleanups (subst (AreFor values) (sym e) k) g.temporaries (Gathered-IsRestored g n)
finished_Materializes n (given_up err q) = gave_up err q

-- The same for any functions of gv8.h that keep the promise.
materialize_args_end :
    {E : Type 0} (user : User E) (c : CreationCalls (Native E)) (ctx : Ptr) (values : List Any)
    (w : World (Native E))
    → ctx ≢ 0
    → Creates user ctx c
    → AreSound values
    → Working ctx w
    → (w' : World (Native E)) × (r : Arguments) × (materialize_args user c ctx values w
        ≡ ok (done r) w')
      × Materializes ctx values w w' r
unfolding materialize_args
materialize_args_end user c ctx values w n s i k =
    let (w', r, run, f) = from_ends user c ctx n s w values i [] [] w (Gathered-first k) in
    (w', r, run, finished_Materializes n f)

-- materializeArgs of Go values without a nil Object, Function or Promise, with the functions of gv8.h, in
-- an open context that can be used and that C can work in, of an isolate without an exception handler, in a
-- V8 that makes numbers, strings and buffers without a call back into the program, as it does where it
-- throws for a text that is too long: it ends without a panic or a fault. It returns an argument for each
-- value, and a cleanup of values that are different and owned, or nil, which releases them without a panic
-- or a fault; or an error alone, after such a cleanup. After the cleanup the wrappers of C are what they were
-- before materializeArgs, every value that was owned then is, and the context can be used on.
pub materialize_args-Materializes :
    {E : Type 0} (user : User E) (v : V8 (Native E)) (ctx : Ptr) (values : List Any)
    (w : World (Native E))
    → ctx ≢ 0
    → IsQuiet v
    → AreSound values
    → Working ctx w
    → (w' : World (Native E)) × (r : Arguments) × (materialize_args user
          (creation_calls v)
          ctx
          values
          w
        ≡ ok (done r) w')
      × Materializes ctx values w w' r
materialize_args-Materializes user v ctx values w n q i k =
    materialize_args_end user (creation_calls v) ctx values w n
      (creation_calls-Creates user ctx v q) i k

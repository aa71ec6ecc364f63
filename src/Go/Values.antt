-- ===== src/Go/Values.antt =====
-- value.go and context.go: how values are made and follow their context. A map that serves as a set
-- is the list of its keys.
pub mod Made
pub mod Tracked
use gv.Prelude.{
  ℕ, Bool, true, false, not, ◌&&◌, ◌||◌, Option, none, some, List, [], ◌∷◌, if◌then◌else◌, ◌==◌,
}
use gv.Memory.{Ptr, null}
use gv.Go.{Context, Value, Heap, done, Alter}
use gv.Go.Objects.{pure, ◌>>=◌, ◌>>◌, context_at, value_at, write_context, write_value, allocate}
use gv.Go.Refs.{unregister_hosts}

abbrev pub has : ℕ → List ℕ → Bool
has k [] = false
has k (j ∷ l) = (j == k) || has k l

abbrev pub add : ℕ → List ℕ → List ℕ
add k l = if has k l then l else k ∷ l

abbrev pub remove : ℕ → List ℕ → List ℕ
remove k [] = []
remove k (j ∷ l) = let rest = remove k l in if j == k then rest else j ∷ rest

-- invalidate
unfoldable pub invalidate : Ptr → Alter (Unit {0})
invalidate v =
    if v == null then pure tt else do x ← value_at v; write_value v (record x { ptr = null })

abbrev keep_live : Ptr → Ptr → Context → Option (List Ptr) → Alter (Unit {0})
keep_live c v x none = invalidate v
keep_live c v x (some l) = write_context c (record x { live_values = some (add v l) })

-- trackValue
unfoldable pub track_value : Ptr → Ptr → Alter (Unit {0})
unfolding invalidate
track_value c v =
    if (c == null) || (v == null)
    then pure tt
    else do x ← context_at c; if x.closed then invalidate v else keep_live c v x x.live_values

abbrev forget_live : Ptr → Ptr → Context → Option (List Ptr) → Alter (Unit {0})
forget_live c v x none = pure tt
forget_live c v x (some l) = write_context c (record x { live_values = some (remove v l) })

-- untrackValue
unfoldable pub untrack_value : Ptr → Ptr → Alter (Unit {0})
untrack_value c v =
    if (c == null) || (v == null)
    then pure tt
    else do x ← context_at c; forget_live c v x x.live_values

abbrev new_object : Value → Alter Ptr
new_object x = do v ← allocate; write_value v x; pure v

-- newValue
unfoldable pub new_value : Ptr → Ptr → Alter Ptr
unfolding track_value
new_value c p = if p == null then pure null else do
  v ← new_object (record { ptr = p; ctx = c; borrowed = false })
  (if c == null then pure tt else track_value c v)
  pure v

-- newBorrowedValue
unfoldable pub new_borrowed_value : Ptr → Ptr → Alter Ptr
new_borrowed_value c p =
    if p == null then pure null else new_object (record { ptr = p; ctx = c; borrowed = true })

-- isClosed
unfoldable pub is_closed : Ptr → Alter Bool
is_closed c =
    if c == null then pure true else do x ← context_at c; pure (x.closed || (x.ptr == null))

abbrev not_closed : Ptr → Alter Bool
unfolding is_closed
not_closed c = do b ← is_closed c; pure (not b)

-- valid
unfoldable pub valid : Ptr → Alter Bool
unfolding is_closed
valid v = if v == null then pure false else do
  x ← value_at v
  if x.ptr == null then pure false else (if x.ctx == null then pure true else not_closed x.ctx)

abbrev keep_host : Ptr → ℕ → Context → Option (List ℕ) → Alter (Unit {0})
keep_host c id x none = unregister_hosts (id ∷ [])
keep_host c id x (some l) = write_context c (record x { host_fn_ids = some (add id l) })

-- trackHostFunction
unfoldable pub track_host_function : Ptr → ℕ → Alter (Unit {0})
track_host_function c id = if (c == null) || (id == 0) then pure tt else do
  x ← context_at c
  if x.closed then unregister_hosts (id ∷ []) else keep_host c id x x.host_fn_ids

-- The loop of Close over the live values.
unfoldable pub invalidate_all : List Ptr → Alter (Unit {0})
unfolding invalidate
invalidate_all [] = pure tt
invalidate_all (v ∷ l) = do invalidate v; invalidate_all l

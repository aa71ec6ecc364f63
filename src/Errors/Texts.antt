-- ===== src/Errors/Texts.antt =====
-- ExceptionError and the `"origin:line:column"` of an error: what a caller can read of them.
use gv.Prelude.{
  ◌⊎◌, inl, inr, arith, Option-cases, ℕ, suc, ◌≡◌, ◌↔◌, Bool, none, some, Option, [], ◌∷◌, ◌++◌,
  refl, ap,
}
use gv.Prelude.Int.{pos}
use gv.Memory.{Ptr}
use gv.Run.{World, Run, ok, fault, ◌>>=◌}
use gv.V8.{V8, Text, CString, Local, Message, Caught, returned, threw, value_of, RtnError}
use gv.Text.{copy_string, copy_utf8, put_int, decimal}
use gv.Text.Decimal.{read, read-decimal}
use gv.Scope.{Scope}
use gv.Results.{error_result}
use gv.Errors.{empty_error, format_location, exception_error, utf8_value, copy_location, copy_value}

append-cons : (l : Text) (y : ℕ) (c : Text) → (l ++ (y ∷ [])) ++ c ≡ l ++ y ∷ c
append-cons [] y c = refl
append-cons (x ∷ l) y c = ap (λ (t : Text). x ∷ t) (append-cons l y c)

-- What three writes to the stream leave, put together.
joined : (o l c : Text) (x y : ℕ) → (((o ++ (x ∷ [])) ++ l) ++ (y ∷ [])) ++ c ≡ o ++ x ∷ l ++ y ∷ c
joined [] l c x y = ap (λ (t : Text). x ∷ t) (append-cons l y c)
joined (z ∷ o) l c x y = ap (λ (t : Text). z ∷ t) (joined o l c x y)

-- A message whose line and start column are known, and not negative, and an origin: the location is the
-- origin, a colon, a text that reads as the line, a colon, and a text that reads as the column plus one.
pub format_location-read :
    (origin : Text) (msg : Message) (line column : ℕ)
    → msg.line_number ≡ some (pos line)
    → msg.start_column ≡ some (pos column)
    → (l : Text) × (c : Text) × (format_location origin msg ≡ origin ++ b':' ∷ l ++ b':' ∷ c)
      × (read l ≡ line)
      × (read c ≡ suc column)
unfolding format_location put_int
format_location-read origin msg line column e f = (
  decimal line,
  decimal (suc column),
  rw (e, f) (joined origin (decimal line) (decimal (suc column)) b':' b':'),
  read-decimal line,
  read-decimal (suc column),
)

-- A text that CopyString leaves null.
abbrev pub IsSilent : Option Text → Type 0
IsSilent none = Unit {0}
IsSilent (some []) = Unit {0}
IsSilent (some (c ∷ t)) = ⊥

copy_utf8-IsSilent : (t : Option Text) → (copy_utf8 t ≡ none) ↔ IsSilent t
unfolding copy_utf8
copy_utf8-IsSilent none = (λ e. tt, λ s. refl)
copy_utf8-IsSilent (some []) = (λ e. tt, λ s. refl)
copy_utf8-IsSilent (some (c ∷ t)) = (λ e. cc, λ s. absurd s)

abbrev pub caught : Local → Option Message → Caught
caught h msg = record { exception = some h; message = msg }

module _ {E : Type 0} (v : V8 E) where
  abbrev origin_of : Ptr → Option Local → World E → Option Text
  origin_of iso none w = none
  origin_of iso (some r) w = value_of (v.utf8_value iso r w).0

  utf8_value_total :
      (iso : Ptr) (o : Option Local) (w : World E)
      → (t : Option Text) × (w' : World E) × (utf8_value v iso o w ≡ ok t w')
  unfolding utf8_value ◌>>=◌
  utf8_value_total iso none w = (none, w, refl)
  utf8_value_total iso (some h) w = (_, _, refl)

  -- What V8 gives for the origin of a message is a null text.
  abbrev pub ReadsNull : Ptr → Option Message → World E → Type 0
  ReadsNull iso none w = ⊥
  ReadsNull iso (some msg) w = origin_of iso msg.resource_name w ≡ none

  copy_location_run :
      (iso : Ptr) (o : Option Message) (w : World E)
      → (ReadsNull iso o w × (copy_location v iso o w ≡ fault))
        ⊎ ((¬ (ReadsNull iso o w))
            × ((t : CString) × (w' : World E) × (copy_location v iso o w ≡ ok t w')))
  unfolding copy_location utf8_value ◌>>=◌
  copy_location_run iso none w = inr (λ e. e, (none, w, refl))
  copy_location_run iso (some msg) w = elim (Option-cases msg.resource_name) [
    | inl z ↦ inl (rw z refl, rw z refl)
    | inr (r, z) ↦ elim (Option-cases (value_of (v.utf8_value iso r w).0)) [
      | inl q ↦ inl (rw (z, q) refl, rw (z, q) refl)
      | inr (t, q) ↦ inr (
        (λ e. ground (arith, z, q, e)),
        (copy_string (format_location t msg), (v.utf8_value iso r w).1, rw (z, q) refl),
      )
    ]
  ]

  copy_value_total :
      (iso : Ptr) (o : Option Local) (w : World E)
      → (t : CString) × (w' : World E) × (copy_value v iso o w ≡ ok t w')
  unfolding copy_value ◌>>=◌ utf8_value
  copy_value_total iso none w = (none, w, refl)
  copy_value_total iso (some h) w = (_, _, refl)

  -- How an error ends that is made of the exception h: in undefined behaviour exactly where the origin
  -- of the message is a null text, and else in an error whose message is the text of h.
  abbrev Ends : Ptr → Local → Option Message → World E → Run E RtnError → Type 0
  Ends iso h msg w o =
      (ReadsNull iso msg (v.utf8_value iso h w).1 × (o ≡ fault))
      ⊎ ((¬ (ReadsNull iso msg (v.utf8_value iso h w).1))
          × ((e : RtnError) × (w' : World E) × (o ≡ ok e w')
              × (e.msg ≡ copy_utf8 (value_of (v.utf8_value iso h w).0))))

  exception_error-Ends :
      (iso : Ptr) (ctx h : Local) (msg : Option Message) (w : World E)
      → Ends iso h msg w (exception_error v iso ctx (caught h msg) w)
  unfolding exception_error utf8_value ◌>>=◌ copy_location copy_value
  exception_error-Ends iso ctx h msg w =
      let (utf8, w1) = v.utf8_value iso h w in
      elim (copy_location_run iso msg w1) [
        | inl (n, run) ↦ inl (n, rw run refl)
        | inr (n, (location, w2, run)) ↦
            let (stack, w3) = v.stack_trace ctx (caught h msg) w2 in
            let (stack_text, w4, stack_run) = copy_value_total iso stack w3 in
            inr (
              n,
              (
                record { msg = copy_utf8 (value_of utf8); location = location; stack = stack_text },
                w4,
                rw (run, stack_run) refl,
                refl,
              ),
            )
      ]

  -- What an operation that returns only an error makes of the exception h, as above, with when the message
  -- is null.
  abbrev pub IsReported : Ptr → Local → Option Message → World E → Run E RtnError → Type 0
  IsReported iso h msg w o =
      (ReadsNull iso msg (v.utf8_value iso h w).1 × (o ≡ fault))
      ⊎ ((¬ (ReadsNull iso msg (v.utf8_value iso h w).1))
          × ((e : RtnError) × (w' : World E) × (o ≡ ok e w')
              × ((e.msg ≡ none) ↔ IsSilent (value_of (v.utf8_value iso h w).0))))

  Ends-IsReported :
      (iso : Ptr) (h : Local) (msg : Option Message) (w : World E) (o : Run E RtnError)
      → Ends iso h msg w o
      → IsReported iso h msg w o
  Ends-IsReported iso h msg w o (inl k) = inl k
  Ends-IsReported iso h msg w o (inr (n, (e, w', run, text))) =
      inr (n, (e, w', run, rw text (copy_utf8-IsSilent (value_of (v.utf8_value iso h w).0))))

  -- A call of V8 that ends in an exception h, in an operation that returns only an error: where there is a
  -- message whose origin has no text, the operation reads through null, which is undefined behaviour;
  -- else it ends without undefined behaviour, and the error's message is null exactly where the text of h
  -- is missing or empty. After a call that succeeds, the error is the empty one and the world is
  -- unchanged.
  pub error_result-IsSilent :
      (s : Scope) (h : Local) (msg : Option Message) (w : World E)
      → IsReported s.iso h msg w (error_result v s (threw (caught h msg)) w)
        × ((b : Bool) → error_result v s (returned b) w ≡ ok empty_error w)
  unfolding error_result ◌>>=◌
  error_result-IsSilent s h msg w =
      (Ends-IsReported s.iso h msg w _ (exception_error-Ends s.iso s.local_ctx h msg w), λ b. refl)

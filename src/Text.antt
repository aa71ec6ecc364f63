-- ===== src/Text.antt =====
-- internal/gv8.cc: CopyString, SharedLibraryDir, and what the code uses of std::ostringstream and
-- of std::string.
pub mod Decimal
pub mod Paths
use Prim.Native.Char.{code}
use Prim.Native.String.{String}
use gv.Prelude
use gv.Prelude.{
  ℕ, zero, suc, ◌+◌, ◌/◌, ◌%◌, Bool, true, false, Option, none, some, List, [], ◌∷◌, ◌++◌, ltb,
  ◌==◌, leb, if◌then◌else◌, ◌-◌, take,
}
use gv.Prelude.Int.{ℤ, pos, negsuc}
use gv.V8.{Text, CString}

-- The bytes of a text of the program.
abbrev pub codes : String → Text
codes String.[] = []
codes (String.◌∷◌ c s) = code c ∷ codes s

-- CopyString of a std::string.
abbrev pub copy_string : Text → CString
copy_string t = some t

-- CopyString of a String::Utf8Value, which holds no bytes where the conversion failed.
unfoldable pub copy_utf8 : Option Text → CString
copy_utf8 none = none
copy_utf8 (some []) = none
copy_utf8 (some (c ∷ t)) = some (c ∷ t)

-- `length()` of a String::Utf8Value.
abbrev pub utf8_length : Option Text → ℕ
utf8_length none = 0
utf8_length (some t) = Prelude.length t

-- std::ostringstream, by what was written to it. It takes no null `const char*`, which is undefined
-- behaviour.
abbrev pub Stream : Type 0
Stream = Text

abbrev pub put : Text → Stream → Stream
put t s = s ++ t

-- The digits of a number in base ten, before those of `acc`.
pub digits : ℕ → ℕ → Text → Text
digits zero n acc = acc
digits (suc fuel) n acc =
    let rest = digits fuel (n / 10) ((b'0' + n % 10) ∷ acc) in
    if ltb n 10 then (b'0' + n) ∷ acc else rest

pub decimal : ℕ → Text
unfolding digits
decimal n = digits (suc n) n []

-- `sb << i` for an `int`.
unfoldable pub put_int : ℤ → Stream → Stream
unfolding decimal
put_int (pos n) s = put (decimal n) s
put_int (negsuc n) s = put (b'-' ∷ decimal (suc n)) s

-- The position found in the rest of a text, or else this one if it fits.
abbrev pub or_here : Option ℕ → Bool → ℕ → Option ℕ
or_here (some j) fits i = some j
or_here none fits i = if fits then some i else none

-- `path.rfind('/')`; `none` is `npos`.
pub rfind_from : ℕ → ℕ → Text → Option ℕ
rfind_from c i [] = none
rfind_from c i (x ∷ t) = or_here (rfind_from c (suc i) t) (x == c) i

pub rfind : ℕ → Text → Option ℕ
unfolding rfind_from
rfind c t = rfind_from c 0 t

abbrev pub dot : Text
dot = b'.' ∷ []

abbrev pub before_slash : Text → Option ℕ → Text
before_slash path none = dot
before_slash path (some slash) = take slash path

-- SharedLibraryDir; the argument is `info.dli_fname`, and `none` where `dladdr` fails or leaves it null.
pub shared_library_dir : CString → Text
unfolding rfind
shared_library_dir none = dot
shared_library_dir (some path) = before_slash path (rfind b'/' path)

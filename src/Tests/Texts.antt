-- ===== src/Tests/Texts.antt =====
-- Paths, numbers, locations and errors.
use gv.Prelude.{◌≡◌, refl, Bool, some, ◌∷◌, ◌++◌}
use gv.Prelude.Int.{pos}
use gv.Run.{ok}
use gv.V8.{Text, Message, threw, returned}
use gv.Text.{codes, shared_library_dir}
use gv.Text.Paths.{IsDirOf, shared_library_dir-IsDirOf}
use gv.Text.Decimal.{read}
use gv.Errors.{format_location, empty_error}
use gv.Errors.Texts.{caught, IsReported, format_location-read, error_result-IsSilent}
use gv.Results.{error_result}
use gv.Tests.Engine.{toy}
use gv.Tests.Ready.{ready, page_scope}

shared_library_dir-IsDirOf_example :
    IsDirOf (codes "/usr/lib/libgv8.so") (shared_library_dir (some (codes "/usr/lib/libgv8.so")))
shared_library_dir-IsDirOf_example = shared_library_dir-IsDirOf (codes "/usr/lib/libgv8.so")

abbrev message : Message
message = record {
  resource_name = some 3;
  line_number = some (pos 12);
  start_column = some (pos 4);
  text = 1;
}

format_location-read_example :
    (l : Text) × (c : Text) × (format_location (codes "a.js") message
      ≡ codes "a.js" ++ b':' ∷ l ++ b':' ∷ c)
    × (read l ≡ 12)
    × (read c ≡ 5)
format_location-read_example = format_location-read (codes "a.js") message 12 4 refl refl

-- The exception 2 has an empty text, and a message without an origin.
error_result-IsSilent_example :
    IsReported toy 1 2
      (some message)
      ready
      (error_result toy page_scope (threw (caught 2 (some message))) ready)
    × ((b : Bool) → error_result toy page_scope (returned b) ready ≡ ok empty_error ready)
error_result-IsSilent_example = error_result-IsSilent toy page_scope 2 (some message) ready

-- ===== src/JsonPath/Tests.antt =====
-- Runs of the path operations at concrete paths.
use pjs.Prelude.{◌≡◌, ◌≢◌, refl, [], ◌∷◌, none, some, arith}
use pjs.Prelude.Text.{codes, len}
use pjs.Outcome.{ok}
use pjs.Words.{scan, parse_usize}
use pjs.JsonPath.{
  JsonPath, key, index, contains, validate_key, display, from_str, take_key, take_index,
  parse_segment, parse_loop,
}
use pjs.JsonPath.Keys.{IsValid}
use pjs.JsonPath.Parse.{from_str-total}
use pjs.JsonPath.RoundTrip.{from_str-display}

abbrev users : JsonPath
users = record { segments = key (codes "users") ∷ [] }

-- `$.users[12].name`
abbrev name : JsonPath
name = record { segments = key (codes "users") ∷ index 12 ∷ key (codes "name") ∷ [] }

name-IsValid : IsValid name
unfolding validate_key contains
name-IsValid = (refl, (omega arith, (refl, tt)))

from_str-display_example : from_str (display name) ≡ some (ok name)
from_str-display_example = from_str-display name name-IsValid

from_str-total_example : from_str (codes "$.a..b[") ≢ none
from_str-total_example = from_str-total (codes "$.a..b[")

-- The closing bracket may be missing at the end of the text.
unterminated :
    from_str (codes "$.a[0") ≡ some (ok (record { segments = key (codes "a") ∷ index 0 ∷ [] }))
unfolding from_str parse_loop parse_segment take_key take_index parse_usize scan validate_key
    contains len
unterminated = refl

abbrev first : JsonPath
first = record { segments = key (codes "users") ∷ key (codes "first") ∷ [] }

-- ===== src/Heuristic.antt =====
-- crates/pjs-domain/src/services/priority.rs: the priority of a value at a path.
pub mod Laws
mod Tests
use pjs.Prelude.{
  ℕ, ◌+◌, ◌≤◌, List, [], ◌∷◌, ◌++◌, Bool, true, false, Option, none, some, leb, ltb, ◌==◌, ◌&&◌,
  ◌||◌, if◌then◌else◌, list_beq, text_eq,
}
use pjs.Prelude.Map.{insert, lookup}
use pjs.Prelude.Text.{Text, codes, len}
use pjs.Priority.{Priority, critical, high, medium, low, background, increase_by, decrease_by}
use pjs.JsonPath.{JsonPath, PathSegment, key, index, depth, last, last_segment}
use pjs.JsonData.{
  JsonData, null, bool, integer, float, string, array, object, count_items, count_fields,
}

pub record PriorityHeuristicConfig : Type 0 where
  pub critical_fields : List Text
  pub high_fields : List Text
  pub medium_fields : List Text
  pub low_fields : List Text
  pub background_fields : List Text
  pub large_array_threshold : ℕ
  pub mid_array_threshold : ℕ
  pub large_string_threshold : ℕ
  pub small_string_threshold : ℕ
  pub large_object_threshold : ℕ
  pub overrides : List (Text × Priority)

abbrev pub default_config : PriorityHeuristicConfig
default_config = record {
  critical_fields =
      codes "id"
      ∷ codes "uuid"
      ∷ codes "status"
      ∷ codes "state"
      ∷ codes "error"
      ∷ codes "type"
      ∷ codes "kind"
      ∷ [];
  high_fields =
      codes "name"
      ∷ codes "title"
      ∷ codes "label"
      ∷ codes "email"
      ∷ codes "username"
      ∷ codes "description"
      ∷ codes "message"
      ∷ [];
  medium_fields = codes "content" ∷ codes "body" ∷ codes "value" ∷ codes "data" ∷ [];
  low_fields = codes "created_at" ∷ codes "updated_at" ∷ codes "version" ∷ codes "metadata" ∷ [];
  background_fields =
      codes "analytics"
      ∷ codes "debug"
      ∷ codes "trace"
      ∷ codes "logs"
      ∷ codes "history"
      ∷ codes "comments"
      ∷ codes "reviews"
      ∷ [];
  large_array_threshold = 100;
  mid_array_threshold = 10;
  large_string_threshold = 1000;
  small_string_threshold = 50;
  large_object_threshold = 10;
  overrides = [];
}

-- `iter().any(|v| v == value)`.
contains : List Text → Text → Bool
contains [] t = false
contains (f ∷ fs) t = list_beq f t || contains fs t

unfoldable pub push_unique : List Text → Text → List Text
unfolding contains
push_unique dest t = if contains dest t then dest else dest ++ t ∷ []

unfoldable pub add_critical_field : PriorityHeuristicConfig → Text → PriorityHeuristicConfig
add_critical_field c t = record c { critical_fields = push_unique c.critical_fields t }

unfoldable pub add_high_field : PriorityHeuristicConfig → Text → PriorityHeuristicConfig
add_high_field c t = record c { high_fields = push_unique c.high_fields t }

unfoldable pub add_medium_field : PriorityHeuristicConfig → Text → PriorityHeuristicConfig
add_medium_field c t = record c { medium_fields = push_unique c.medium_fields t }

unfoldable pub add_low_field : PriorityHeuristicConfig → Text → PriorityHeuristicConfig
add_low_field c t = record c { low_fields = push_unique c.low_fields t }

unfoldable pub add_background_field : PriorityHeuristicConfig → Text → PriorityHeuristicConfig
add_background_field c t = record c { background_fields = push_unique c.background_fields t }

unfoldable pub add_override : PriorityHeuristicConfig → Text → Priority → PriorityHeuristicConfig
add_override c t p = record c { overrides = insert t p c.overrides }

-- `to_ascii_lowercase`, character by character.
abbrev pub lower_char : ℕ → ℕ
lower_char c = if leb b'A' c && leb c b'Z' then c + 32 else c

unfoldable pub to_ascii_lowercase : Text → Text
to_ascii_lowercase [] = []
to_ascii_lowercase (c ∷ s) = lower_char c ∷ to_ascii_lowercase s

unfoldable pub eq_ignore_ascii_case : Text → Text → Bool
unfolding to_ascii_lowercase
eq_ignore_ascii_case a b = list_beq (to_ascii_lowercase a) (to_ascii_lowercase b)

unfoldable pub matches_lower : List Text → Text → Bool
matches_lower [] lower_key = false
matches_lower (f ∷ fs) lower_key = eq_ignore_ascii_case f lower_key || matches_lower fs lower_key

-- The early returns for the lower-case key.
unfoldable pub tier_of : PriorityHeuristicConfig → Text → Option Priority
tier_of c lower =
    if matches_lower c.critical_fields lower
    then some critical
    else if matches_lower c.high_fields lower
    then some high
    else if matches_lower c.medium_fields lower
    then some medium
    else if matches_lower c.low_fields lower
    then some low
    else if matches_lower c.background_fields lower
    then some background
    else none

unfoldable pub key_priority : PriorityHeuristicConfig → Text → Option Priority
key_priority c k = elim (lookup k c.overrides) [
  | some p ↦ some p
  | none ↦ tier_of c (to_ascii_lowercase k)
]

unfoldable pub by_depth : ℕ → Priority → Priority
by_depth d p =
    if leb d 1
    then increase_by p 20
    else if d == 2
    then increase_by p 10
    else if ltb 5 d
    then decrease_by p 10
    else p

unfoldable pub by_shape : PriorityHeuristicConfig → JsonData → Priority → Priority
by_shape c (string s) p =
    if ltb c.large_string_threshold (len s)
    then decrease_by p 20
    else if ltb (len s) c.small_string_threshold
    then increase_by p 5
    else p
by_shape c (array a) p =
    if ltb c.large_array_threshold (count_items a)
    then decrease_by p 40
    else if ltb c.mid_array_threshold (count_items a)
    then decrease_by p 15
    else p
by_shape c (object o) p =
    if ltb c.large_object_threshold (count_fields o) then decrease_by p 10 else p
by_shape c _ p = p

abbrev pub key_of : Option PathSegment → Option Text
key_of (some (key k)) = some k
key_of _ = none

unfoldable pub fallback : PriorityHeuristicConfig → JsonPath → JsonData → Priority
unfolding by_depth by_shape
fallback c p v = by_shape c v (by_depth (depth p) medium)

abbrev pub or_else : Option Priority → Priority → Priority
or_else none d = d
or_else (some p) d = p

abbrev pub key_tier : PriorityHeuristicConfig → Option Text → Option Priority
key_tier c none = none
key_tier c (some k) = key_priority c k

unfoldable pub compute_priority : PriorityHeuristicConfig → JsonPath → JsonData → Priority
compute_priority c p v = or_else (key_tier c (key_of (last_segment p))) (fallback c p v)

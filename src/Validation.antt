-- ===== src/Validation.antt =====
-- crates/pjs-core/src/domain/services/validation_service.rs: `ValidationService`, built with the feature
-- `schema-validation`. An error keeps its variant and its path. `left` is the number of levels left,
-- `max_depth + 1 - depth`: the source's `depth > max_depth` is `left` at zero. A compiled pattern is the
-- function that tells what it matches; the cache of patterns is the module Cache, which answers what the
-- compiler answers.
pub mod Meaning
mod Leaves
mod Uniqueness
pub mod Nested
pub mod Cache
pub mod Types
mod Tests
use pjs.Prelude.{
  ℕ, zero, suc, ◌+◌, ◌-◌, min, Bool, true, false, not, ◌&&◌, ◌||◌, Option, none, some, List, [],
  ◌∷◌, ◌++◌, ltb, leb, ◌==◌, if◌then◌else◌, list_beq, length, is_some, is_empty,
}
use pjs.Prelude.Text.{Text, codes, len}
use pjs.Prelude.Int.{ℤ, pos, negsuc}
use pjs.Prelude.Result.{Result, ok, err, ◌>>◌, is_ok, require}
use pjs.Words.{to_text}
use pjs.F64.{Float, is_nan, is_infinite}
use pjs.JsonData.{JsonData, Items, nil, cons, Fields, end, field, count_items, find}
use pjs.JsonData.Equality.{json_eq, hash}
use pjs.Schema.{ItemSchema, unchecked, each, Schema, Schemas, Properties, find_property}

-- What the service uses of `f64`, of `HashSet` and of the crate regex. `compares` tells whether a hash set
-- calls `==` on two items that feed its hasher these numbers.
pub record Host : Type 0 where
  pub of_int : ℤ → ℕ
  pub float_lt : ℕ → ℕ → Bool
  pub float_eq : ℕ → ℕ → Bool
  pub compares : List ℕ → List ℕ → Bool
  pub compile : Text → Option (Text → Bool)

pub data SchemaValidationError : Type 0 where
  type_mismatch missing_required out_of_range string_length_constraint :
      Text → SchemaValidationError
  pattern_mismatch invalid_pattern pattern_too_long : Text → SchemaValidationError
  array_size_constraint duplicate_items invalid_enum_value : Text → SchemaValidationError
  additional_property_not_allowed no_matching_one_of : Text → SchemaValidationError
  all_of_failure : Text → (failures : List ℕ) → SchemaValidationError

abbrev pub Outcome : Type 0
Outcome = Result SchemaValidationError (Unit {0})

pub record ValidationService : Type 0 where
  pub max_depth : ℕ
  pub max_pattern_length : ℕ

abbrev pub new : ValidationService
new = record { max_depth = 32; max_pattern_length = 1024 }

abbrev pub with_max_depth : ValidationService → ℕ → ValidationService
with_max_depth v n = record v { max_depth = n }

abbrev pub with_max_pattern_length : ValidationService → ℕ → ValidationService
with_max_pattern_length v n = record v { max_pattern_length = min n 8192 }

abbrev pub int_ltb : ℤ → ℤ → Bool
int_ltb (pos a) (pos b) = ltb a b
int_ltb (pos a) (negsuc b) = false
int_ltb (negsuc a) (pos b) = true
int_ltb (negsuc a) (negsuc b) = ltb b a

-- `if let Some(bound) = bound && value < bound`, for the two bounds of a range.
module _ {A : Type 0} (lt : A → A → Bool) where
  unfoldable pub below_minimum : Option A → A → Bool
  below_minimum none v = false
  below_minimum (some low) v = lt v low

  unfoldable pub above_maximum : Option A → A → Bool
  above_maximum none v = false
  above_maximum (some high) v = lt high v

  unfoldable pub in_range : Option A → Option A → A → SchemaValidationError → Outcome
  unfolding below_minimum above_maximum
  in_range low high v e =
      if below_minimum low v then err e else if above_maximum high v then err e else ok tt

unfoldable pub validate_null : JsonData → Text → Outcome
validate_null JsonData.null path = ok tt
validate_null d path = err (type_mismatch path)

unfoldable pub validate_boolean : JsonData → Text → Outcome
validate_boolean (JsonData.bool b) path = ok tt
validate_boolean d path = err (type_mismatch path)

unfoldable pub validate_integer : JsonData → Text → Option ℤ → Option ℤ → Outcome
unfolding in_range
validate_integer (JsonData.integer v) path low high =
    in_range int_ltb low high v (out_of_range path)
validate_integer d path low high = err (type_mismatch path)

unfoldable pub finite_in_range : Host → ℕ → Text → Option ℕ → Option ℕ → Outcome
unfolding in_range is_nan is_infinite
finite_in_range h v path low high =
    if is_nan v || is_infinite v
    then err (type_mismatch path)
    else in_range h.float_lt low high v (out_of_range path)

unfoldable pub validate_number : Host → JsonData → Text → Option ℕ → Option ℕ → Outcome
unfolding finite_in_range
validate_number h (JsonData.float v) path low high = finite_in_range h v path low high
validate_number h (JsonData.integer i) path low high = finite_in_range h (h.of_int i) path low high
validate_number h d path low high = err (type_mismatch path)

abbrev pub one_of_values : Text → List Text → Bool
one_of_values s [] = false
one_of_values s (v ∷ vs) = list_beq v s || one_of_values s vs

abbrev pub is_allowed : Option (List Text) → Text → Bool
is_allowed none s = true
is_allowed (some vs) s = one_of_values s vs

abbrev pub matched : Option (Text → Bool) → Text → Text → Outcome
matched none s path = err (invalid_pattern path)
matched (some matches) s path = require (matches s) (pattern_mismatch path) (ok tt)

unfoldable pub validate_pattern : Host → ValidationService → Option Text → Text → Text → Outcome
validate_pattern h v none s path = ok tt
validate_pattern h v (some pat) s path =
    if ltb v.max_pattern_length (len pat)
    then err (pattern_too_long path)
    else matched (h.compile pat) s path

unfoldable pub validate_string :
    Host
    → ValidationService
    → JsonData
    → Text
    → Option ℕ
    → Option ℕ
    → Option Text
    → Option (List Text)
    → Outcome
unfolding in_range validate_pattern
validate_string h v (JsonData.string s) path low high pattern allowed = do
  in_range ltb low high (length s) (string_length_constraint path)
  require (is_allowed allowed s) (invalid_enum_value path) (validate_pattern h v pattern s path)
validate_string h v d path low high pattern allowed = err (type_mismatch path)

-- Two items that a hash set takes for one.
unfoldable pub same_item : Host → JsonData → JsonData → Bool
unfolding hash json_eq
same_item h d e = h.compares (hash d) (hash e) && json_eq h.float_eq d e

-- The set of the items seen so far.
abbrev pub seen_before : Host → JsonData → Items → Bool
seen_before h d nil = false
seen_before h d (cons e seen) = same_item h d e || seen_before h d seen

unfoldable pub all_unique : Host → Items → Items → Bool
all_unique h seen nil = true
all_unique h seen (cons d rest) = not (seen_before h d seen) && all_unique h (cons d seen) rest

abbrev pub item_path : Text → ℕ → Text
item_path path i = path ++ b'[' ∷ (to_text i ++ b']' ∷ [])

abbrev pub Check : Type 0
Check = JsonData → Schema → Text → Outcome

unfoldable pub validate_items : Check → Schema → Items → Text → ℕ → Outcome
validate_items check s nil path i = ok tt
validate_items check s (cons d rest) path i = do
  check d s (item_path path i)
  validate_items check s rest path (suc i)

abbrev pub each_item : Check → ItemSchema → Items → Text → Outcome
each_item check unchecked a path = ok tt
each_item check (each s) a path = validate_items check s a path 0

unfoldable pub validate_array :
    Host → Check → JsonData → Text → ItemSchema → Option ℕ → Option ℕ → Bool → Outcome
unfolding in_range all_unique validate_items
validate_array h check (JsonData.array a) path items low high unique = do
  in_range ltb low high (count_items a) (array_size_constraint path)
  require (not unique || all_unique h nil a) (duplicate_items path) (each_item check items a path)
validate_array h check d path items low high unique = err (type_mismatch path)

unfoldable pub has_all : List Text → Fields → Bool
has_all [] o = true
has_all (k ∷ ks) o = is_some (find k o) && has_all ks o

unfoldable pub validate_property : Check → Option Schema → JsonData → Text → Text → Bool → Outcome
validate_property check (some s) d k path additional = check d s (path ++ b'/' ∷ k)
validate_property check none d k path additional =
    require additional (additional_property_not_allowed path) (ok tt)

unfoldable pub validate_fields : Check → Properties → Bool → Fields → Text → Outcome
unfolding validate_property
validate_fields check ps additional end path = ok tt
validate_fields check ps additional (field k d rest) path = do
  validate_property check (find_property k ps) d k path additional
  validate_fields check ps additional rest path

unfoldable pub validate_object : Check → JsonData → Text → Properties → List Text → Bool → Outcome
unfolding has_all validate_fields
validate_object check (JsonData.object o) path ps req additional =
    require (has_all req o) (missing_required path) (validate_fields check ps additional o path)
validate_object check d path ps req additional = err (type_mismatch path)

-- The loop of `oneOf` with the number of matches so far: it ends at the second.
unfoldable pub one_of_loop : Check → JsonData → Text → Schemas → ℕ → Outcome
one_of_loop check d path Schemas.nil n = require (n == 1) (no_matching_one_of path) (ok tt)
one_of_loop check d path (Schemas.cons s ss) n =
    let hit = is_ok (check d s path) in
    let matches = n + (if hit then 1 else 0) in
    let rest = one_of_loop check d path ss matches in
    if hit && ltb 1 matches then err (no_matching_one_of path) else rest

abbrev pub validate_one_of : Check → JsonData → Text → Schemas → Outcome
validate_one_of check d path ss = one_of_loop check d path ss 0

-- The indices of the schemas of `allOf` that fail.
unfoldable pub failures_from : Check → JsonData → Text → Schemas → ℕ → List ℕ
failures_from check d path Schemas.nil i = []
failures_from check d path (Schemas.cons s ss) i =
    let rest = failures_from check d path ss (suc i) in
    if is_ok (check d s path) then rest else i ∷ rest

unfoldable pub validate_all_of : Check → JsonData → Text → Schemas → Outcome
unfolding failures_from
validate_all_of check d path ss =
    let failures = failures_from check d path ss 0 in
    require (is_empty failures) (all_of_failure path failures) (ok tt)

unfoldable pub validate_with_depth : Host → ValidationService → ℕ → Check
unfolding validate_null validate_boolean validate_integer validate_number validate_string
    validate_array validate_object one_of_loop validate_all_of
validate_with_depth h v zero d s path = err (type_mismatch path)
validate_with_depth h v (suc left) d Schema.any path = ok tt
validate_with_depth h v (suc left) d Schema.null path = validate_null d path
validate_with_depth h v (suc left) d Schema.boolean path = validate_boolean d path
validate_with_depth h v (suc left) d (Schema.integer low high) path =
    validate_integer d path low high
validate_with_depth h v (suc left) d (Schema.number low high) path =
    validate_number h d path low high
validate_with_depth h v (suc left) d (Schema.string low high pattern allowed) path =
    validate_string h v d path low high pattern allowed
validate_with_depth h v (suc left) d (Schema.array items low high unique) path =
    validate_array h (validate_with_depth h v left) d path items low high unique
validate_with_depth h v (suc left) d (Schema.object ps req additional) path =
    validate_object (validate_with_depth h v left) d path ps req additional
validate_with_depth h v (suc left) d (Schema.one_of ss) path =
    validate_one_of (validate_with_depth h v left) d path ss
validate_with_depth h v (suc left) d (Schema.all_of ss) path =
    validate_all_of (validate_with_depth h v left) d path ss

abbrev pub validate : Host → ValidationService → Check
validate h v d s path = validate_with_depth h v (suc v.max_depth) d s path

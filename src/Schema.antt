-- ===== src/Schema.antt =====
-- crates/pjs-domain/src/value_objects/schema.rs: `Schema`, `SchemaType` and their operations. The map of the
-- properties is its entries in an order of iteration; the sums of costs are exact.
use pjs.Prelude.{
  ℕ, suc, ◌+◌, ◌*◌, max, Bool, true, false, ◌&&◌, ◌||◌, Option, none, some, List, if◌then◌else◌,
  list_beq,
}
use pjs.Prelude.Text.{Text}
use pjs.Prelude.Int.{ℤ}

-- `allowed` of a string is the list of its values, bounds of numbers are `i64` or the bits of `f64`.
mutual
  pub data Schema : Type 0 where
    string :
        (min_length max_length : Option ℕ) (pattern : Option Text)
        (allowed_values : Option (List Text))
        → Schema
    integer : (minimum maximum : Option ℤ) → Schema
    number : (minimum maximum : Option ℕ) → Schema
    boolean : Schema
    null : Schema
    array : (items : ItemSchema) (min_items max_items : Option ℕ) (unique_items : Bool) → Schema
    object :
        (properties : Properties) (required : List Text) (additional_properties : Bool) → Schema
    one_of : Schemas → Schema
    all_of : Schemas → Schema
    any : Schema

  -- The schema of all items of an array, if there is one.
  pub data ItemSchema : Type 0 where
    unchecked : ItemSchema
    each : Schema → ItemSchema

  pub data Schemas : Type 0 where
    nil : Schemas
    cons : Schema → Schemas → Schemas

  pub data Properties : Type 0 where
    end : Properties
    property : Text → Schema → Properties → Properties

pub data SchemaType : Type 0 where
  string_type integer_type number_type boolean_type null_type array_type object_type : SchemaType

unfoldable mutual
  pub allows_type : Schema → SchemaType → Bool
  allows_type (string low high p values) string_type = true
  allows_type (integer low high) integer_type = true
  allows_type (number low high) number_type = true
  allows_type boolean boolean_type = true
  allows_type null null_type = true
  allows_type (array items low high unique) array_type = true
  allows_type (object ps req more) object_type = true
  allows_type any t = true
  allows_type (one_of ss) t = any_allows ss t
  allows_type (all_of ss) t = all_allow ss t
  allows_type _ _ = false

  pub any_allows : Schemas → SchemaType → Bool
  any_allows nil t = false
  any_allows (cons s ss) t = allows_type s t || any_allows ss t

  pub all_allow : Schemas → SchemaType → Bool
  all_allow nil t = true
  all_allow (cons s ss) t = allows_type s t && all_allow ss t

abbrev pub count_schemas : Schemas → ℕ
count_schemas nil = 0
count_schemas (cons s ss) = suc (count_schemas ss)

abbrev pub string_cost : Option Text → ℕ
string_cost none = 10
string_cost (some p) = 50

unfoldable mutual
  pub validation_cost : Schema → ℕ
  validation_cost null = 1
  validation_cost boolean = 1
  validation_cost any = 1
  validation_cost (integer low high) = 5
  validation_cost (number low high) = 5
  validation_cost (string low high p values) = string_cost p
  validation_cost (array unchecked low high unique) = 10 + 1
  validation_cost (array (each s) low high unique) = 10 + validation_cost s
  validation_cost (object ps req more) = 20 + properties_cost ps
  validation_cost (one_of ss) = 30 + highest_cost ss * count_schemas ss
  validation_cost (all_of ss) = 20 + total_cost ss

  pub properties_cost : Properties → ℕ
  properties_cost end = 0
  properties_cost (property k s ps) = validation_cost s + properties_cost ps

  pub highest_cost : Schemas → ℕ
  highest_cost nil = 0
  highest_cost (cons s ss) = max (validation_cost s) (highest_cost ss)

  pub total_cost : Schemas → ℕ
  total_cost nil = 0
  total_cost (cons s ss) = validation_cost s + total_cost ss

-- `Schema::string`, `integer`, `number`, `array` and `object`.
abbrev pub string_schema : Option ℕ → Option ℕ → Schema
string_schema low high = string low high none none

abbrev pub integer_schema : Option ℤ → Option ℤ → Schema
integer_schema low high = integer low high

abbrev pub number_schema : Option ℕ → Option ℕ → Schema
number_schema low high = number low high

abbrev pub array_schema : Option Schema → Schema
array_schema none = array unchecked none none false
array_schema (some s) = array (each s) none none false

abbrev pub object_schema : Properties → List Text → Schema
object_schema ps req = object ps req true

-- `From<&Schema> for SchemaType`.
unfoldable pub type_of : Schema → SchemaType
type_of (string low high p values) = string_type
type_of (integer low high) = integer_type
type_of (number low high) = number_type
type_of boolean = boolean_type
type_of null = null_type
type_of (array items low high unique) = array_type
type_of (object ps req more) = object_type
type_of any = object_type
type_of (one_of ss) = object_type
type_of (all_of ss) = object_type

-- `HashMap::get` of the properties.
unfoldable pub find_property : Text → Properties → Option Schema
find_property k end = none
find_property k (property j s ps) = if list_beq j k then some s else find_property k ps

-- ===== src/Validation/Types.antt =====
-- What `Schema::allows_type` says of the documents that a schema accepts.
use pjs.Prelude.{◌≤◌, ◌≡◌, refl, arith, Bool, true, false, ◌&&◌, ◌||◌, inl, inr}
use pjs.Prelude.Text.{Text}
use pjs.Prelude.Result.{is_ok}
use pjs.JsonData.{JsonData}
use pjs.Schema.{
  Schema, Schemas, SchemaType, allows_type, any_allows, all_allow, string_type, integer_type,
  number_type, boolean_type, null_type, array_type, object_type,
}
use pjs.Validation.{Host, ValidationService, validate}
use pjs.Validation.Meaning.{Valid, AllValid, ExactlyOne, height}
use pjs.Validation.Nested.{validate_iff}

abbrev pub json_type : JsonData → SchemaType
json_type JsonData.null = null_type
json_type (JsonData.bool b) = boolean_type
json_type (JsonData.integer i) = integer_type
json_type (JsonData.float f) = number_type
json_type (JsonData.string s) = string_type
json_type (JsonData.array a) = array_type
json_type (JsonData.object o) = object_type

abbrev pub is_integer : JsonData → Bool
is_integer (JsonData.integer i) = true
is_integer _ = false

||_left : (a b : Bool) → a ≡ true → (a || b) ≡ true
||_left a b e = ground arith

||_right : (a b : Bool) → b ≡ true → (a || b) ≡ true
||_right a b e = ground arith

&&_both : (a b : Bool) → a ≡ true → b ≡ true → (a && b) ≡ true
&&_both a b e f = ground arith

module _ (h : Host) (v : ValidationService) where
  mutual
    unfolding Valid allows_type

    allows_type-Valid :
        (s : Schema) (d : JsonData)
        → is_integer d ≡ false
        → Valid h v s d
        → allows_type s (json_type d) ≡ true
    allows_type-Valid Schema.any d other valid = refl
    allows_type-Valid Schema.null d other valid = ground arith
    allows_type-Valid Schema.boolean d other valid = ground arith
    allows_type-Valid (Schema.integer low high) d other valid = ground arith
    allows_type-Valid (Schema.number low high) d other valid = ground arith
    allows_type-Valid (Schema.string low high p vs) d other valid = ground arith
    allows_type-Valid (Schema.array items low high unique) d other valid = ground arith
    allows_type-Valid (Schema.object ps req more) d other valid = ground arith
    allows_type-Valid (Schema.one_of ss) d other valid = any_allows-ExactlyOne ss d other valid
    allows_type-Valid (Schema.all_of ss) d other valid = all_allow-AllValid ss d other valid

    any_allows-ExactlyOne :
        (ss : Schemas) (d : JsonData)
        → is_integer d ≡ false
        → ExactlyOne h v ss d
        → any_allows ss (json_type d) ≡ true
    any_allows-ExactlyOne Schemas.nil d other valid = absurd valid
    any_allows-ExactlyOne (Schemas.cons s ss) d other valid = elim valid [
      | inl (one, nothing) ↦
          ||_left (allows_type s (json_type d)) _ (allows_type-Valid s d other one)
      | inr (invalid, one) ↦
          ||_right (allows_type s (json_type d)) _ (any_allows-ExactlyOne ss d other one)
    ]

    all_allow-AllValid :
        (ss : Schemas) (d : JsonData)
        → is_integer d ≡ false
        → AllValid h v ss d
        → all_allow ss (json_type d) ≡ true
    all_allow-AllValid Schemas.nil d other valid = refl
    all_allow-AllValid (Schemas.cons s ss) d other valid =
        &&_both _ _ (allows_type-Valid s d other valid.0) (all_allow-AllValid ss d other valid.1)

-- A schema allows the type of every document that the validator accepts for it, if the document is not an
-- integer and the schema is nested no deeper than the service allows. An integer is left out, since it is
-- also a valid number.
pub validate-allows_type :
    (h : Host) (v : ValidationService) (d : JsonData) (s : Schema) (path : Text)
    → height s ≤ v.max_depth
    → is_integer d ≡ false
    → is_ok (validate h v d s path) ≡ true
    → allows_type s (json_type d) ≡ true
validate-allows_type h v d s path low other accepted =
    allows_type-Valid h v s d other ((validate_iff h v d s path low).0 accepted)

-- ===== src/Validation/Tests.antt =====
-- The validator on concrete schemas and documents.
use pjs.Prelude.{
  ◌≤◌, ◌≡◌, ◌↔◌, refl, arith, true, ltb, none, some, [], ◌∷◌, length, text_eq, is_empty, ◌==◌,
  list_beq,
}
use pjs.Prelude.Text.{codes}
use pjs.Prelude.Int.{pos}
use pjs.Prelude.Result.{ok, is_ok}
use pjs.JsonData.{JsonData, end, field, find}
use pjs.Schema.{
  Schema, Schemas, Properties, find_property, allows_type, integer_schema, object_schema,
}
use pjs.Validation.{Host, new, with_max_depth, validate, validate_with_depth}
use pjs.Validation.Meaning.{Valid, height}
use pjs.Validation.Nested.{validate_iff}
use pjs.Validation.Types.{json_type, validate-allows_type}
use pjs.Validation.Cache.{
  after_patterns, cached_regex, cached_regex-compile, max_regex_cache_entries,
}

-- A host whose hash sets compare what hashes alike, that knows no float but zero and compiles every pattern to
-- a test for the empty text.
abbrev small_host : Host
small_host = record {
  of_int = λ i. 0;
  float_lt = λ a b. ltb a b;
  float_eq = λ a b. a == b;
  compares = list_beq;
  compile = λ pat. some (λ s. is_empty s);
}

abbrev person : Schema
person =
    object_schema
      (Properties.property (codes "age") (integer_schema (some (pos 0)) none) Properties.end)
      (codes "age" ∷ [])

abbrev document : JsonData
document = JsonData.object (field (codes "age") (JsonData.integer (pos 3)) end)

accepted : validate small_host new document person [] ≡ ok tt
unfolding validate_with_depth find find_property
accepted = refl

-- A document that two schemas of `oneOf` mean is accepted when one of them is nested too deep to be checked.
one_too_deep :
    validate small_host
      (with_max_depth new 1)
      document
      (Schema.one_of (
        Schemas.cons Schema.any
          (Schemas.cons (Schema.all_of (Schemas.cons Schema.any Schemas.nil)) Schemas.nil)))
      []
    ≡ ok tt
unfolding validate_with_depth
one_too_deep = refl

validate_iff_example :
    (is_ok (validate small_host new document person []) ≡ true)
    ↔ Valid small_host new person document
unfolding height
validate_iff_example = validate_iff small_host new document person [] (omega arith)

validate-allows_type_example : allows_type person (json_type document) ≡ true
unfolding height validate_with_depth find find_property
validate-allows_type_example =
    validate-allows_type small_host new document person [] (omega arith) refl refl

cached_regex-compile_example :
    let cache = after_patterns small_host [] (codes "a" ∷ codes "b" ∷ []) in
    ((cached_regex small_host cache (codes "a")).1 ≡ small_host.compile (codes "a"))
    × (length cache ≤ max_regex_cache_entries)
    × (length (cached_regex small_host cache (codes "a")).0 ≤ max_regex_cache_entries)
cached_regex-compile_example =
    cached_regex-compile small_host (codes "a" ∷ codes "b" ∷ []) (codes "a")

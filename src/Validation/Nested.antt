-- ===== src/Validation/Nested.antt =====
-- The checks that call the validator on other schemas, and the validator itself.
use pjs.Prelude.{
  ℕ, zero, suc, ◌≤◌, ◌<◌, ◌≡◌, ◌↔◌, arith, Bool, true, not, ◌||◌, Option, List, ◌∷◌, ◌++◌, ltb,
  Bool-cases, inl, inr, list_beq, is_empty,
}
use pjs.Prelude.Text.{Text}
use pjs.Prelude.Result.{ok, is_ok, require, is_ok-require}
use pjs.JsonData.{JsonData, Items, nil, cons, Fields, end, field, count_items}
use pjs.Schema.{ItemSchema, unchecked, each, Schema, Schemas, Properties, find_property}
use pjs.Validation.{
  Host, ValidationService, SchemaValidationError, Check, in_range, all_unique, item_path,
  validate_items, each_item, validate_array, has_all, validate_property, validate_fields,
  validate_object, one_of_loop, failures_from, validate_all_of, validate_with_depth, validate,
}
use pjs.Validation.Meaning.{
  NatLe, IsArray, IsObject, AllItems, AllFields, Valid, ValidItems, ValidProperty, AllValid,
  NoneValid, ExactlyOne, height, height_of_all, height_of_items, height_of_properties,
}
use pjs.Validation.Uniqueness.{unique_iff, has_all_iff}
use pjs.Validation.Leaves.{
  >>_iff, require_iff, in_range_iff, ltb_iff, validate_null_iff, validate_boolean_iff,
  validate_integer_iff, validate_number_iff, validate_string_iff,
}

-- `check` decides the meaning of every schema of less than a height.
abbrev pub IsExact : Host → ValidationService → Check → ℕ → Type 0
IsExact h v check n =
    (s : Schema) (d : JsonData) (path : Text)
    → height s < n
    → (is_ok (check d s path) ≡ true) ↔ Valid h v s d

module _ (h : Host) (v : ValidationService) (check : Check) (n : ℕ)
    (exact : IsExact h v check n) where
  validate_items_iff :
      (s : Schema) (a : Items) (path : Text) (i : ℕ)
      → height s < n
      → (is_ok (validate_items check s a path i) ≡ true) ↔ AllItems (λ d. Valid h v s d) a
  unfolding validate_items
  validate_items_iff s nil path i low = ground arith
  validate_items_iff s (cons d rest) path i low =
      >>_iff (check d s (item_path path i)) (validate_items check s rest path (suc i))
        (exact s d (item_path path i) low) (validate_items_iff s rest path (suc i) low)

  each_item_iff :
      (items : ItemSchema) (a : Items) (path : Text)
      → height_of_items items < n
      → (is_ok (each_item check items a path) ≡ true) ↔ ValidItems h v items a
  unfolding Valid height
  each_item_iff unchecked a path low = ground arith
  each_item_iff (each s) a path low = validate_items_iff s a path 0 low

  validate_property_iff :
      (ps : Properties) (additional : Bool) (k : Text) (d : JsonData) (path : Text)
      → height_of_properties ps < n
      → (is_ok (validate_property check (find_property k ps) d k path additional) ≡ true)
        ↔ ValidProperty h v ps additional k d
  unfolding Valid height validate_property find_property
  validate_property_iff Properties.end additional k d path low = ground arith
  validate_property_iff (Properties.property j s ps) additional k d path low =
      elim (Bool-cases (list_beq j k)) [
        | inl hit ↦ rw hit (exact s d (path ++ b'/' ∷ k) (omega (arith, low)))
        | inr miss ↦ rw miss (validate_property_iff ps additional k d path (omega (arith, low)))
      ]

  validate_fields_iff :
      (ps : Properties) (additional : Bool) (o : Fields) (path : Text)
      → height_of_properties ps < n
      → (is_ok (validate_fields check ps additional o path) ≡ true)
        ↔ AllFields (λ k e. ValidProperty h v ps additional k e) o
  unfolding validate_fields
  validate_fields_iff ps additional end path low = ground arith
  validate_fields_iff ps additional (field k d rest) path low =
      >>_iff (validate_property check (find_property k ps) d k path additional)
        (validate_fields check ps additional rest path)
        (validate_property_iff ps additional k d path low)
        (validate_fields_iff ps additional rest path low)

  validate_array_iff :
      (items : ItemSchema) (low high : Option ℕ) (unique : Bool) (d : JsonData) (path : Text)
      → height_of_items items < n
      → (is_ok (validate_array h check d path items low high unique) ≡ true)
        ↔ IsArray h (λ a. ValidItems h v items a) low high unique d
  unfolding validate_array
  validate_array_iff items low high unique JsonData.null path below = ground arith
  validate_array_iff items low high unique (JsonData.bool b) path below = ground arith
  validate_array_iff items low high unique (JsonData.integer i) path below = ground arith
  validate_array_iff items low high unique (JsonData.float f) path below = ground arith
  validate_array_iff items low high unique (JsonData.string s) path below = ground arith
  validate_array_iff items low high unique (JsonData.array a) path below =
      let size = SchemaValidationError.array_size_constraint path in
      let duplicate = SchemaValidationError.duplicate_items path in
      let distinct = not unique || all_unique h nil a in
      >>_iff (in_range ltb low high (count_items a) size)
        (require distinct duplicate (each_item check items a path))
        (in_range_iff ltb NatLe ltb_iff low high (count_items a) size)
        (require_iff distinct duplicate (each_item check items a path) (unique_iff h unique a)
          (each_item_iff items a path below))
  validate_array_iff items low high unique (JsonData.object o) path below = ground arith

  validate_object_iff :
      (ps : Properties) (req : List Text) (additional : Bool) (d : JsonData) (path : Text)
      → height_of_properties ps < n
      → (is_ok (validate_object check d path ps req additional) ≡ true)
        ↔ IsObject (λ o. AllFields (λ k e. ValidProperty h v ps additional k e) o) req d
  unfolding validate_object
  validate_object_iff ps req additional JsonData.null path below = ground arith
  validate_object_iff ps req additional (JsonData.bool b) path below = ground arith
  validate_object_iff ps req additional (JsonData.integer i) path below = ground arith
  validate_object_iff ps req additional (JsonData.float f) path below = ground arith
  validate_object_iff ps req additional (JsonData.string s) path below = ground arith
  validate_object_iff ps req additional (JsonData.array a) path below = ground arith
  validate_object_iff ps req additional (JsonData.object o) path below =
      require_iff (has_all req o) (SchemaValidationError.missing_required path)
        (validate_fields check ps additional o path) (has_all_iff req o)
        (validate_fields_iff ps additional o path below)

  -- After one match, the loop succeeds when none of the rest matches.
  one_of_loop_none :
      (d : JsonData) (path : Text) (ss : Schemas)
      → height_of_all ss < n
      → (is_ok (one_of_loop check d path ss 1) ≡ true) ↔ NoneValid h v ss d
  unfolding one_of_loop Valid height
  one_of_loop_none d path Schemas.nil below = ground arith
  one_of_loop_none d path (Schemas.cons s ss) below =
      let here = exact s d path (omega (arith, below)) in
      let rest = one_of_loop_none d path ss (omega (arith, below)) in
      elim (Bool-cases (is_ok (check d s path))) [
        | inl hit ↦ rw hit (λ e. absurd (cc e), λ p. absurd (p.0 (here.0 hit)))
        | inr miss ↦
            rw miss (λ e. (λ valid. absurd (cc (here.1 valid, miss)), rest.0 e), λ p. rest.1 p.1)
      ]

  one_of_loop_iff :
      (d : JsonData) (path : Text) (ss : Schemas)
      → height_of_all ss < n
      → (is_ok (one_of_loop check d path ss 0) ≡ true) ↔ ExactlyOne h v ss d
  unfolding one_of_loop Valid height
  one_of_loop_iff d path Schemas.nil below = ground arith
  one_of_loop_iff d path (Schemas.cons s ss) below =
      let here = exact s d path (omega (arith, below)) in
      let none_more = one_of_loop_none d path ss (omega (arith, below)) in
      let rest = one_of_loop_iff d path ss (omega (arith, below)) in
      elim (Bool-cases (is_ok (check d s path))) [
        | inl hit ↦ rw hit (
          λ e. inl (here.0 hit, none_more.0 e),
          λ p. elim p [
            | inl (valid, nothing) ↦ none_more.1 nothing
            | inr (invalid, one) ↦ absurd (invalid (here.0 hit))
          ],
        )
        | inr miss ↦ rw miss (
          λ e. inr (λ valid. absurd (cc (here.1 valid, miss)), rest.0 e),
          λ p. elim p [
            | inl (valid, nothing) ↦ absurd (cc (here.1 valid, miss))
            | inr (invalid, one) ↦ rest.1 one
          ],
        )
      ]

  failures_from_iff :
      (d : JsonData) (path : Text) (ss : Schemas) (i : ℕ)
      → height_of_all ss < n
      → (is_empty (failures_from check d path ss i) ≡ true) ↔ AllValid h v ss d
  unfolding failures_from Valid height
  failures_from_iff d path Schemas.nil i below = ground arith
  failures_from_iff d path (Schemas.cons s ss) i below =
      let here = exact s d path (omega (arith, below)) in
      let rest = failures_from_iff d path ss (suc i) (omega (arith, below)) in
      elim (Bool-cases (is_ok (check d s path))) [
        | inl hit ↦ rw hit (λ e. (here.0 hit, rest.0 e), λ p. rest.1 p.1)
        | inr miss ↦ rw miss (λ e. absurd (cc e), λ p. absurd (cc (here.1 p.0, miss)))
      ]

  validate_all_of_iff :
      (d : JsonData) (path : Text) (ss : Schemas)
      → height_of_all ss < n
      → (is_ok (validate_all_of check d path ss) ≡ true) ↔ AllValid h v ss d
  unfolding validate_all_of
  validate_all_of_iff d path ss below = ground (
    arith,
    failures_from_iff d path ss 0 below,
    is_ok-require {0} (is_empty (failures_from check d path ss 0))
        (SchemaValidationError.all_of_failure path (failures_from check d path ss 0)) (ok tt),
  )

pub validate_with_depth_iff :
    (h : Host) (v : ValidationService) (left : ℕ) → IsExact h v (validate_with_depth h v left) left
unfolding validate_with_depth Valid height
validate_with_depth_iff h v zero s d path low = absurd (omega arith)
validate_with_depth_iff h v (suc left) Schema.any d path low = ground arith
validate_with_depth_iff h v (suc left) Schema.null d path low = validate_null_iff d path
validate_with_depth_iff h v (suc left) Schema.boolean d path low = validate_boolean_iff d path
validate_with_depth_iff h v (suc left) (Schema.integer a b) d path low =
    validate_integer_iff d path a b
validate_with_depth_iff h v (suc left) (Schema.number a b) d path low =
    validate_number_iff h d path a b
validate_with_depth_iff h v (suc left) (Schema.string a b p vs) d path low =
    validate_string_iff h v d path a b p vs
validate_with_depth_iff h v (suc left) (Schema.array items a b unique) d path low =
    validate_array_iff h v (validate_with_depth h v left) left (validate_with_depth_iff h v left)
      items a b unique d path (omega (arith, low))
validate_with_depth_iff h v (suc left) (Schema.object ps req additional) d path low =
    validate_object_iff h v (validate_with_depth h v left) left (validate_with_depth_iff h v left)
      ps req additional d path (omega (arith, low))
validate_with_depth_iff h v (suc left) (Schema.one_of ss) d path low =
    one_of_loop_iff h v (validate_with_depth h v left) left (validate_with_depth_iff h v left) d
      path ss (omega (arith, low))
validate_with_depth_iff h v (suc left) (Schema.all_of ss) d path low =
    validate_all_of_iff h v (validate_with_depth h v left) left (validate_with_depth_iff h v left) d
      path ss (omega (arith, low))

-- For every schema that is nested no deeper than the service allows, the validator succeeds on exactly
-- the documents that the schema means, at any path: the bounds, patterns and values of its leaves, all
-- items, no two of them equal where they must be unique, the required, known and additional properties,
-- exactly one of `oneOf` and all of `allOf`. Two items that are equal but that the hash set does not compare,
-- since they hash apart, pass for two.
pub validate_iff :
    (h : Host) (v : ValidationService) (d : JsonData) (s : Schema) (path : Text)
    → height s ≤ v.max_depth
    → (is_ok (validate h v d s path) ≡ true) ↔ Valid h v s d
validate_iff h v d s path low =
    validate_with_depth_iff h v (suc v.max_depth) s d path (omega (arith, low))

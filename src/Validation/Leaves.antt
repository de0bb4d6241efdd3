-- ===== src/Validation/Leaves.antt =====
-- The checks that look at no other schema: each succeeds exactly on the values that the schema means.
use pjs.Prelude.{
  ℕ, ◌≡◌, ◌↔◌, refl, arith, Bool, true, false, Option, none, some, List, [], ◌∷◌, list_beq_iff, ltb,
  Bool-cases, inl, inr, ltb→lt, not-ltb→le, length,
}
use pjs.Prelude.Text.{Text, len}
use pjs.Prelude.Int.{ℤ, pos, negsuc}
use pjs.Prelude.Result.{ok, err, ◌>>◌, is_ok, require}
use pjs.JsonData.{JsonData}
use pjs.Validation.{
  Host, ValidationService, Outcome, SchemaValidationError, in_range, int_ltb, one_of_values,
  is_allowed, validate_null, validate_boolean, validate_integer, finite_in_range, validate_number,
  matched, validate_pattern, validate_string,
}
use pjs.Validation.Meaning.{
  IsWithin, IntLe, NatLe, FloatLe, IsOneOf, IsAllowed, IsNull, IsBoolean, IsInteger, IsFinite,
  IsNumber, IsMatch, IsText,
}

-- A chain succeeds exactly when each of its steps does.
pub >>_iff :
    {P Q : Type 0} (step rest : Outcome)
    → (is_ok step ≡ true) ↔ P
    → (is_ok rest ≡ true) ↔ Q
    → (is_ok (step >> rest) ≡ true) ↔ (P × Q)
>>_iff (ok u) rest p q = (λ e. (p.0 refl, q.0 e), λ both. q.1 both.1)
>>_iff (err e) rest p q = (λ e. absurd (cc e), λ both. p.1 both.0)

pub require_iff :
    {P Q : Type 0} (test : Bool) (e : SchemaValidationError) (rest : Outcome)
    → (test ≡ true) ↔ P
    → (is_ok rest ≡ true) ↔ Q
    → (is_ok (require test e rest) ≡ true) ↔ (P × Q)
require_iff true e rest p q = (λ done. (p.0 refl, q.0 done), λ both. q.1 both.1)
require_iff false e rest p q = (λ done. absurd (cc done), λ both. absurd (cc (p.1 both.0)))

-- A test on a range decides it in the order that the comparison decides.
pub in_range_iff :
    {A : Type 0} (lt : A → A → Bool) (Le : A → A → Type 0)
    → ((a b : A) → (lt b a ≡ false) ↔ Le a b)
    → (low high : Option A) (v : A) (e : SchemaValidationError)
    → (is_ok (in_range lt low high v e) ≡ true) ↔ IsWithin Le low high v
unfolding in_range
in_range_iff lt Le le_iff none none v e = ground arith
in_range_iff lt Le le_iff (some low) none v e = ground (arith, le_iff low v)
in_range_iff lt Le le_iff none (some high) v e = ground (arith, le_iff v high)
in_range_iff lt Le le_iff (some low) (some high) v e = ground (arith, le_iff low v, le_iff v high)

int_ltb_iff : (a b : ℤ) → (int_ltb b a ≡ false) ↔ IntLe a b
int_ltb_iff (pos a) (pos b) = ground arith
int_ltb_iff (pos a) (negsuc b) = ground arith
int_ltb_iff (negsuc a) (pos b) = ground arith
int_ltb_iff (negsuc a) (negsuc b) = ground arith

pub ltb_iff : (a b : ℕ) → (ltb b a ≡ false) ↔ NatLe a b
ltb_iff a b = ground arith

float_lt_iff : (h : Host) (a b : ℕ) → (h.float_lt b a ≡ false) ↔ FloatLe h a b
float_lt_iff h a b = (λ e. e, λ e. e)

one_of_values_iff : (s : Text) (vs : List Text) → (one_of_values s vs ≡ true) ↔ IsOneOf s vs
one_of_values_iff s [] = ground arith
one_of_values_iff s (v ∷ vs) = ground (arith, list_beq_iff v s, one_of_values_iff s vs)

is_allowed_iff :
    (allowed : Option (List Text)) (s : Text) → (is_allowed allowed s ≡ true) ↔ IsAllowed allowed s
is_allowed_iff none s = ground arith
is_allowed_iff (some vs) s = one_of_values_iff s vs

pub validate_null_iff :
    (d : JsonData) (path : Text) → (is_ok (validate_null d path) ≡ true) ↔ IsNull d
unfolding validate_null
validate_null_iff JsonData.null path = ground arith
validate_null_iff (JsonData.bool b) path = ground arith
validate_null_iff (JsonData.integer i) path = ground arith
validate_null_iff (JsonData.float f) path = ground arith
validate_null_iff (JsonData.string s) path = ground arith
validate_null_iff (JsonData.array a) path = ground arith
validate_null_iff (JsonData.object o) path = ground arith

pub validate_boolean_iff :
    (d : JsonData) (path : Text) → (is_ok (validate_boolean d path) ≡ true) ↔ IsBoolean d
unfolding validate_boolean
validate_boolean_iff JsonData.null path = ground arith
validate_boolean_iff (JsonData.bool b) path = ground arith
validate_boolean_iff (JsonData.integer i) path = ground arith
validate_boolean_iff (JsonData.float f) path = ground arith
validate_boolean_iff (JsonData.string s) path = ground arith
validate_boolean_iff (JsonData.array a) path = ground arith
validate_boolean_iff (JsonData.object o) path = ground arith

pub validate_integer_iff :
    (d : JsonData) (path : Text) (low high : Option ℤ)
    → (is_ok (validate_integer d path low high) ≡ true) ↔ IsInteger low high d
unfolding validate_integer
validate_integer_iff JsonData.null path low high = ground arith
validate_integer_iff (JsonData.bool b) path low high = ground arith
validate_integer_iff (JsonData.integer i) path low high =
    in_range_iff int_ltb IntLe int_ltb_iff low high i _
validate_integer_iff (JsonData.float f) path low high = ground arith
validate_integer_iff (JsonData.string s) path low high = ground arith
validate_integer_iff (JsonData.array a) path low high = ground arith
validate_integer_iff (JsonData.object o) path low high = ground arith

finite_in_range_iff :
    (h : Host) (v : ℕ) (path : Text) (low high : Option ℕ)
    → (is_ok (finite_in_range h v path low high) ≡ true) ↔ IsFinite h low high v
unfolding finite_in_range
finite_in_range_iff h v path low high = ground (
  arith,
  in_range_iff h.float_lt (FloatLe h) (float_lt_iff h) low high v
      (SchemaValidationError.out_of_range path),
)

pub validate_number_iff :
    (h : Host) (d : JsonData) (path : Text) (low high : Option ℕ)
    → (is_ok (validate_number h d path low high) ≡ true) ↔ IsNumber h low high d
unfolding validate_number
validate_number_iff h JsonData.null path low high = ground arith
validate_number_iff h (JsonData.bool b) path low high = ground arith
validate_number_iff h (JsonData.integer i) path low high =
    finite_in_range_iff h (h.of_int i) path low high
validate_number_iff h (JsonData.float f) path low high = finite_in_range_iff h f path low high
validate_number_iff h (JsonData.string s) path low high = ground arith
validate_number_iff h (JsonData.array a) path low high = ground arith
validate_number_iff h (JsonData.object o) path low high = ground arith

matched_iff :
    (r : Option (Text → Bool)) (s path : Text)
    → (is_ok (matched r s path) ≡ true)
      ↔ ((matches : Text → Bool) × (r ≡ some matches) × (matches s ≡ true))
matched_iff none s path = (λ e. absurd (cc), λ p. absurd (cc (p.1)))
matched_iff (some m) s path = elim (Bool-cases (m s)) [
  | inl hit ↦ rw hit (λ e. (m, refl, hit), λ p. refl)
  | inr miss ↦ rw miss (λ e. absurd (cc e), λ p. absurd (cc (p.1, p.2, miss)))
]

validate_pattern_iff :
    (h : Host) (v : ValidationService) (pattern : Option Text) (s path : Text)
    → (is_ok (validate_pattern h v pattern s path) ≡ true) ↔ IsMatch h v pattern s
unfolding validate_pattern
validate_pattern_iff h v none s path = ground arith
validate_pattern_iff h v (some pat) s path =
    elim (Bool-cases (ltb v.max_pattern_length (len pat))) [
      | inl long ↦ rw long (
        λ e. absurd (cc e),
        λ p. absurd (omega (arith, p.0, ltb→lt v.max_pattern_length (len pat) long)),
      )
      | inr fits ↦
          let m = matched_iff (h.compile pat) s path in
          rw fits (λ e. (not-ltb→le v.max_pattern_length (len pat) fits, m.0 e), λ p. m.1 p.1)
    ]

pub validate_string_iff :
    (h : Host) (v : ValidationService) (d : JsonData) (path : Text) (low high : Option ℕ)
    (pattern : Option Text) (allowed : Option (List Text))
    → (is_ok (validate_string h v d path low high pattern allowed) ≡ true)
      ↔ IsText h v low high pattern allowed d
unfolding validate_string
validate_string_iff h v JsonData.null path low high pattern allowed = ground arith
validate_string_iff h v (JsonData.bool b) path low high pattern allowed = ground arith
validate_string_iff h v (JsonData.integer i) path low high pattern allowed = ground arith
validate_string_iff h v (JsonData.float f) path low high pattern allowed = ground arith
validate_string_iff h v (JsonData.string s) path low high pattern allowed =
    >>_iff (in_range ltb low high (length s) (SchemaValidationError.string_length_constraint path))
      (require (is_allowed allowed s) (SchemaValidationError.invalid_enum_value path)
        (validate_pattern h v pattern s path))
      (in_range_iff ltb NatLe ltb_iff low high (length s)
        (SchemaValidationError.string_length_constraint path))
      (require_iff (is_allowed allowed s) (SchemaValidationError.invalid_enum_value path)
        (validate_pattern h v pattern s path) (is_allowed_iff allowed s)
        (validate_pattern_iff h v pattern s path))
validate_string_iff h v (JsonData.array a) path low high pattern allowed = ground arith
validate_string_iff h v (JsonData.object o) path low high pattern allowed = ground arith

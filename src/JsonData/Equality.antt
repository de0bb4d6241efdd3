-- ===== src/JsonData/Equality.antt =====
-- crates/pjs-domain/src/value_objects/json_data.rs: the derived `PartialEq` and the `Hash` of a JSON value.
-- What a value feeds a hasher is a list of numbers, a text by its characters; `==` on `f64` is a parameter.
pub mod Laws
use pjs.Prelude.{
  ℕ, ◌-◌, ◌^◌, List, [], ◌∷◌, ◌++◌, Bool, true, false, ◌&&◌, none, some, ◌==◌, length, list_beq,
  if◌then◌else◌,
}
use pjs.Prelude.Sort.By.{sort_by}
use pjs.Prelude.Text.{Text, text_le}
use pjs.Prelude.Int.{ℤ, pos, negsuc}
use pjs.JsonData.{
  JsonData, null, bool, integer, float, string, array, object, Items, nil, cons, Fields, end, field,
  count_items, count_fields, find,
}

abbrev pub bool_eq : Bool → Bool → Bool
bool_eq true b = b
bool_eq false true = false
bool_eq false false = true

abbrev pub int_eq : ℤ → ℤ → Bool
int_eq (pos a) (pos b) = a == b
int_eq (negsuc a) (negsuc b) = a == b
int_eq _ _ = false

-- Two objects are equal when they have as many entries, and each of the first is in the second.
unfoldable mutual
  unfolding find count_fields

  pub json_eq : (ℕ → ℕ → Bool) → JsonData → JsonData → Bool
  json_eq float_eq null null = true
  json_eq float_eq (bool a) (bool b) = bool_eq a b
  json_eq float_eq (integer a) (integer b) = int_eq a b
  json_eq float_eq (float a) (float b) = float_eq a b
  json_eq float_eq (string a) (string b) = list_beq a b
  json_eq float_eq (array a) (array b) = items_eq float_eq a b
  json_eq float_eq (object a) (object b) =
      (count_fields a == count_fields b) && entries_in float_eq a b
  json_eq float_eq _ _ = false

  pub items_eq : (ℕ → ℕ → Bool) → Items → Items → Bool
  items_eq float_eq nil nil = true
  items_eq float_eq (cons v a) (cons w b) = json_eq float_eq v w && items_eq float_eq a b
  items_eq float_eq _ _ = false

  pub entries_in : (ℕ → ℕ → Bool) → Fields → Fields → Bool
  entries_in float_eq end b = true
  entries_in float_eq (field k v rest) b =
      elim (find k b) [ none ↦ false | some w ↦ json_eq float_eq v w ] && entries_in float_eq rest b

abbrev pub bool_fed : Bool → List ℕ
bool_fed b = (if b then 1 else 0) ∷ []

-- An `i64` in two's complement.
abbrev pub int_fed : ℤ → List ℕ
int_fed (pos n) = n ∷ []
int_fed (negsuc n) = (2 ^ 64 - 1 - n) ∷ []

-- The end of a string is marked by what is in no string: the source feeds the byte 0xff after its UTF-8.
abbrev pub text_fed : Text → List ℕ
text_fed s = s ++ 0x110000 ∷ []

-- The pairs sorted by their keys.
abbrev pub pairs_fed : List (Text × List ℕ) → List ℕ
pairs_fed [] = []
pairs_fed ((k, fed) ∷ rest) = text_fed k ++ (fed ++ pairs_fed rest)

unfoldable mutual
  unfolding sort_by count_items

  pub hash : JsonData → List ℕ
  hash null = 0 ∷ []
  hash (bool b) = 1 ∷ bool_fed b
  hash (integer i) = 2 ∷ int_fed i
  hash (float f) = 3 ∷ f ∷ []
  hash (string s) = 4 ∷ text_fed s
  hash (array a) = 5 ∷ count_items a ∷ hash_items a
  hash (object o) =
      let pairs = hash_fields o in
      6 ∷ length pairs ∷ pairs_fed (sort_by (λ p q. text_le p.0 q.0) pairs)

  pub hash_items : Items → List ℕ
  hash_items nil = []
  hash_items (cons v rest) = hash v ++ hash_items rest

  pub hash_fields : Fields → List (Text × List ℕ)
  hash_fields end = []
  hash_fields (field k v rest) = (k, hash v) ∷ hash_fields rest

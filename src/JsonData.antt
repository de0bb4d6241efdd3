-- ===== src/JsonData.antt =====
-- crates/pjs-domain/src/value_objects/json_data.rs: the JSON value, its accessors and its text. An
-- `i64` is an integer, an `f64` its bit pattern, a `HashMap` its entries in an order of iteration.
pub mod Paths
mod Tests
pub mod Deserialize
pub mod Equality
use pjs.Prelude.{
  ℕ, suc, ◌+◌, ◌*◌, List, [], ◌∷◌, ◌++◌, Bool, true, false, Option, none, some, ◌==◌, ◌||◌,
  if◌then◌else◌, list_beq,
}
use pjs.Prelude.Text.{Text, codes, len}
use pjs.Prelude.Int.{ℤ, pos, negsuc}
use pjs.Outcome.{DomainResult, ok, err, invalid_input}
use pjs.Words.{to_text}
use pjs.F64.{Float, is_nan, is_infinite}

mutual
  pub data JsonData : Type 0 where
    null : JsonData
    bool : Bool → JsonData
    integer : ℤ → JsonData
    float : ℕ → JsonData
    string : Text → JsonData
    array : Items → JsonData
    object : Fields → JsonData

  pub data Items : Type 0 where
    nil : Items
    cons : JsonData → Items → Items

  pub data Fields : Type 0 where
    end : Fields
    field : Text → JsonData → Fields → Fields

-- The constructor `float` of the source, which refuses what JSON has no text for.
unfoldable pub new_float : ℕ → DomainResult JsonData
unfolding is_nan is_infinite
new_float bits = if is_nan bits || is_infinite bits then err invalid_input else ok (float bits)

abbrev pub is_string : JsonData → Bool
is_string (string s) = true
is_string _ = false

abbrev pub is_array : JsonData → Bool
is_array (array a) = true
is_array _ = false

abbrev pub is_object : JsonData → Bool
is_object (object o) = true
is_object _ = false

unfoldable pub count_items : Items → ℕ
count_items nil = 0
count_items (cons v rest) = suc (count_items rest)

unfoldable pub count_fields : Fields → ℕ
count_fields end = 0
count_fields (field k v rest) = suc (count_fields rest)

unfoldable pub find : Text → Fields → Option JsonData
find k end = none
find k (field j v rest) = if list_beq j k then some v else find k rest

unfoldable pub insert : Text → JsonData → Fields → Fields
insert k v end = field k v end
insert k v (field j w rest) = if list_beq j k then field j v rest else field j w (insert k v rest)

unfoldable pub get : Text → JsonData → Option JsonData
unfolding find
get k (object o) = find k o
get k _ = none

unfoldable mutual
  pub memory_size : JsonData → ℕ
  memory_size null = 1
  memory_size (bool b) = 1
  memory_size (integer i) = 8
  memory_size (float f) = 8
  memory_size (string s) = len s * 2
  memory_size (array a) = 8 + items_size a
  memory_size (object o) = 16 + fields_size o

  pub items_size : Items → ℕ
  items_size nil = 0
  items_size (cons v rest) = memory_size v + items_size rest

  pub fields_size : Fields → ℕ
  fields_size end = 0
  fields_size (field k v rest) = len k * 2 + memory_size v + fields_size rest

abbrev pub bool_text : Bool → Text
bool_text true = codes "true"
bool_text false = codes "false"

abbrev pub int_text : ℤ → Text
int_text (pos n) = to_text n
int_text (negsuc n) = b'-' ∷ to_text (suc n)

abbrev pub quoted : Text → Text
quoted s = b'"' ∷ (s ++ b'"' ∷ [])

-- `Display`. The first item or entry has no comma before it.
unfoldable mutual
  pub display : Float → JsonData → Text
  display h null = codes "null"
  display h (bool b) = bool_text b
  display h (integer i) = int_text i
  display h (float f) = h.display f
  display h (string s) = quoted s
  display h (array a) = b'[' ∷ (display_items h [] a ++ b']' ∷ [])
  display h (object o) = b'{' ∷ (display_fields h [] o ++ b'}' ∷ [])

  pub display_items : Float → Text → Items → Text
  display_items h before nil = []
  display_items h before (cons v rest) = before ++ (display h v ++ display_items h (codes ",") rest)

  pub display_fields : Float → Text → Fields → Text
  display_fields h before end = []
  display_fields h before (field k v rest) =
      before ++ (quoted k ++ b':' ∷ (display h v ++ display_fields h (codes ",") rest))

into_first : ℕ → List Text → List Text
into_first c [] = (c ∷ []) ∷ []
into_first c (p ∷ ps) = (c ∷ p) ∷ ps

-- `str::split('.')`: there is always a first part.
unfoldable pub split : Text → List Text
unfolding into_first
split [] = [] ∷ []
split (c ∷ s) = if c == b'.' then [] ∷ split s else into_first c (split s)

unfoldable pub path_parts : List Text → JsonData → Option JsonData
path_parts [] d = some d
path_parts (k ∷ ks) (object o) = elim (find k o) [ none ↦ none | some v ↦ path_parts ks v ]
path_parts (k ∷ ks) _ = none

unfoldable pub path : Text → JsonData → Option JsonData
unfolding path_parts split
path s d = path_parts (split s) d

abbrev pub child_or_new : Option JsonData → JsonData
child_or_new none = object end
child_or_new (some v) = v

-- The new value and the answer. A missing object on the way is created, and the write at the end of
-- the path is made through references, so each level holds the changed child.
unfoldable pub set_parts : List Text → JsonData → JsonData → JsonData × Bool
set_parts [] v d = (d, false)
set_parts (k ∷ []) v (object o) = (object (insert k v o), true)
set_parts (k ∷ j ∷ ks) v (object o) =
    let (child, done) = set_parts (j ∷ ks) v (child_or_new (find k o)) in
    (object (insert k child o), done)
set_parts (k ∷ ks) v d = (d, false)

unfoldable pub set_path : Text → JsonData → JsonData → JsonData × Bool
unfolding set_parts split
set_path s v d = set_parts (split s) v d

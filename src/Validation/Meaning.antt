-- ===== src/Validation/Meaning.antt =====
-- What a schema means, without the path, the error or the depth of the validator: a predicate by recursion
-- on the schema.
use pjs.Prelude.{
  ℕ, suc, ◌≤◌, max, ◌≡◌, ◌⊎◌, Bool, true, false, ◌||◌, Option, none, some, List, [], ◌∷◌,
  if◌then◌else◌, list_beq, length,
}
use pjs.Prelude.Text.{Text, len}
use pjs.Prelude.Int.{ℤ, pos, negsuc}
use pjs.F64.{is_nan, is_infinite}
use pjs.JsonData.{JsonData, Items, nil, cons, Fields, end, field, count_items}
use pjs.JsonData.Equality.{hash}
use pjs.JsonData.Equality.Laws.{Equal}
use pjs.Schema.{ItemSchema, unchecked, each, Schema, Schemas, Properties}
use pjs.Validation.{Host, ValidationService}

-- Within the bounds that there are.
abbrev pub IsAbove : {A : Type 0} → (A → A → Type 0) → Option A → A → Type 0
IsAbove Le none v = Unit
IsAbove Le (some low) v = Le low v

abbrev pub IsBelow : {A : Type 0} → (A → A → Type 0) → Option A → A → Type 0
IsBelow Le none v = Unit
IsBelow Le (some high) v = Le v high

abbrev pub IsWithin : {A : Type 0} → (A → A → Type 0) → Option A → Option A → A → Type 0
IsWithin Le low high v = IsAbove Le low v × IsBelow Le high v

-- The orders of integers, lengths and floats; a float that is not less is within.
abbrev pub IntLe : ℤ → ℤ → Type 0
IntLe (pos a) (pos b) = a ≤ b
IntLe (pos a) (negsuc b) = ⊥
IntLe (negsuc a) (pos b) = Unit
IntLe (negsuc a) (negsuc b) = b ≤ a

abbrev pub NatLe : ℕ → ℕ → Type 0
NatLe a b = a ≤ b

abbrev pub FloatLe : Host → ℕ → ℕ → Type 0
FloatLe h a b = h.float_lt b a ≡ false

abbrev pub IsNull : JsonData → Type 0
IsNull JsonData.null = Unit
IsNull _ = ⊥

abbrev pub IsBoolean : JsonData → Type 0
IsBoolean (JsonData.bool b) = Unit
IsBoolean _ = ⊥

abbrev pub IsInteger : Option ℤ → Option ℤ → JsonData → Type 0
IsInteger low high (JsonData.integer i) = IsWithin IntLe low high i
IsInteger low high _ = ⊥

-- An integer is a number as well.
abbrev pub IsFinite : Host → Option ℕ → Option ℕ → ℕ → Type 0
IsFinite h low high v = ((is_nan v || is_infinite v) ≡ false) × IsWithin (FloatLe h) low high v

abbrev pub IsNumber : Host → Option ℕ → Option ℕ → JsonData → Type 0
IsNumber h low high (JsonData.float v) = IsFinite h low high v
IsNumber h low high (JsonData.integer i) = IsFinite h low high (h.of_int i)
IsNumber h low high _ = ⊥

abbrev pub IsMatch : Host → ValidationService → Option Text → Text → Type 0
IsMatch h v none s = Unit
IsMatch h v (some pat) s =
    (len pat ≤ v.max_pattern_length)
    × ((matches : Text → Bool) × (h.compile pat ≡ some matches) × (matches s ≡ true))

abbrev pub IsOneOf : Text → List Text → Type 0
IsOneOf s [] = ⊥
IsOneOf s (v ∷ vs) = (v ≡ s) ⊎ IsOneOf s vs

abbrev pub IsAllowed : Option (List Text) → Text → Type 0
IsAllowed none s = Unit
IsAllowed (some vs) s = IsOneOf s vs

abbrev pub IsText :
    Host
    → ValidationService
    → Option ℕ
    → Option ℕ
    → Option Text
    → Option (List Text)
    → JsonData
    → Type 0
IsText h v low high pattern allowed (JsonData.string s) =
    IsWithin NatLe low high (length s) × (IsAllowed allowed s × IsMatch h v pattern s)
IsText h v low high pattern allowed _ = ⊥

abbrev pub AllItems : (JsonData → Type 0) → Items → Type 0
AllItems P nil = Unit
AllItems P (cons d rest) = P d × AllItems P rest

abbrev pub AllFields : (Text → JsonData → Type 0) → Fields → Type 0
AllFields P end = Unit
AllFields P (field k d rest) = P k d × AllFields P rest

-- Two items that a hash set takes for one: they are equal, and it compares them.
abbrev pub IsSame : Host → JsonData → JsonData → Type 0
IsSame h d e = (h.compares (hash d) (hash e) ≡ true) × Equal h.float_eq d e

abbrev pub Distinct : Host → Items → Type 0
Distinct h nil = Unit
Distinct h (cons e rest) = AllItems (λ d. IsSame h d e → ⊥) rest × Distinct h rest

abbrev pub DistinctIf : Bool → Host → Items → Type 0
DistinctIf true h a = Distinct h a
DistinctIf false h a = Unit

abbrev pub HasKey : Text → Fields → Type 0
HasKey k end = ⊥
HasKey k (field j d rest) = (j ≡ k) ⊎ HasKey k rest

abbrev pub HasKeys : List Text → Fields → Type 0
HasKeys [] o = Unit
HasKeys (k ∷ ks) o = HasKey k o × HasKeys ks o

abbrev pub IsArray : Host → (Items → Type 0) → Option ℕ → Option ℕ → Bool → JsonData → Type 0
IsArray h P low high unique (JsonData.array a) =
    IsWithin NatLe low high (count_items a) × (DistinctIf unique h a × P a)
IsArray h P low high unique _ = ⊥

abbrev pub IsObject : (Fields → Type 0) → List Text → JsonData → Type 0
IsObject P req (JsonData.object o) = HasKeys req o × P o
IsObject P req _ = ⊥

module _ (h : Host) (v : ValidationService) where
  unfoldable mutual
    pub Valid : Schema → JsonData → Type 0
    Valid Schema.any d = Unit
    Valid Schema.null d = IsNull d
    Valid Schema.boolean d = IsBoolean d
    Valid (Schema.integer low high) d = IsInteger low high d
    Valid (Schema.number low high) d = IsNumber h low high d
    Valid (Schema.string low high pattern allowed) d = IsText h v low high pattern allowed d
    Valid (Schema.array items low high unique) d =
        IsArray h (λ a. ValidItems items a) low high unique d
    Valid (Schema.object ps req additional) d =
        IsObject (λ o. AllFields (λ k e. ValidProperty ps additional k e) o) req d
    Valid (Schema.one_of ss) d = ExactlyOne ss d
    Valid (Schema.all_of ss) d = AllValid ss d

    pub ValidItems : ItemSchema → Items → Type 0
    ValidItems unchecked a = Unit
    ValidItems (each s) a = AllItems (λ d. Valid s d) a

    -- The first schema of the key; with none, whether more properties are allowed.
    pub ValidProperty : Properties → Bool → Text → JsonData → Type 0
    ValidProperty Properties.end additional k d = additional ≡ true
    ValidProperty (Properties.property j s ps) additional k d =
        if list_beq j k then Valid s d else ValidProperty ps additional k d

    pub AllValid : Schemas → JsonData → Type 0
    AllValid Schemas.nil d = Unit
    AllValid (Schemas.cons s ss) d = Valid s d × AllValid ss d

    pub NoneValid : Schemas → JsonData → Type 0
    NoneValid Schemas.nil d = Unit
    NoneValid (Schemas.cons s ss) d = (Valid s d → ⊥) × NoneValid ss d

    pub ExactlyOne : Schemas → JsonData → Type 0
    ExactlyOne Schemas.nil d = ⊥
    ExactlyOne (Schemas.cons s ss) d =
        (Valid s d × NoneValid ss d) ⊎ ((Valid s d → ⊥) × ExactlyOne ss d)

-- How deep the schemas within a schema go.
unfoldable mutual
  pub height : Schema → ℕ
  height (Schema.array items low high unique) = suc (height_of_items items)
  height (Schema.object ps req additional) = suc (height_of_properties ps)
  height (Schema.one_of ss) = suc (height_of_all ss)
  height (Schema.all_of ss) = suc (height_of_all ss)
  height _ = 0

  pub height_of_all : Schemas → ℕ
  height_of_all Schemas.nil = 0
  height_of_all (Schemas.cons s ss) = max (height s) (height_of_all ss)

  pub height_of_properties : Properties → ℕ
  height_of_properties Properties.end = 0
  height_of_properties (Properties.property k s ps) = max (height s) (height_of_properties ps)

  pub height_of_items : ItemSchema → ℕ
  height_of_items unchecked = 0
  height_of_items (each s) = height s

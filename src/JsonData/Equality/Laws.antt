-- ===== src/JsonData/Equality/Laws.antt =====
-- What the equality of JSON values decides.
use pjs.Prelude.{
  ℕ, ◌≡◌, ◌↔◌, refl, arith, Bool, true, false, some, ◌==◌, ==_iff, list_beq_iff, inl, inr,
  Option-cases, subst, ◌&&◌,
}
use pjs.Prelude.Int.{ℤ, pos, negsuc}
use pjs.JsonData.{
  JsonData, null, bool, integer, float, string, array, object, Items, nil, cons, Fields, end, field,
  count_fields, find,
}
use pjs.JsonData.Equality.{bool_eq, int_eq, json_eq, items_eq, entries_in}

-- Equal values: of one kind, with equal parts; the entries of an object in any order.
module _ (float_eq : ℕ → ℕ → Bool) where
  unfoldable mutual
    unfolding find count_fields

    pub Equal : JsonData → JsonData → Type 0
    Equal null null = Unit
    Equal (bool a) (bool b) = a ≡ b
    Equal (integer a) (integer b) = a ≡ b
    Equal (float a) (float b) = float_eq a b ≡ true
    Equal (string a) (string b) = a ≡ b
    Equal (array a) (array b) = EqualItems a b
    Equal (object a) (object b) = (count_fields a ≡ count_fields b) × EntriesIn a b
    Equal _ _ = ⊥

    pub EqualItems : Items → Items → Type 0
    EqualItems nil nil = Unit
    EqualItems (cons v a) (cons w b) = Equal v w × EqualItems a b
    EqualItems _ _ = ⊥

    pub EntriesIn : Fields → Fields → Type 0
    EntriesIn end b = Unit
    EntriesIn (field k v rest) b =
        ((w : JsonData) × (find k b ≡ some w) × Equal v w) × EntriesIn rest b

  bool_eq_iff : (a b : Bool) → (bool_eq a b ≡ true) ↔ (a ≡ b)
  bool_eq_iff true b = ground arith
  bool_eq_iff false true = ground arith
  bool_eq_iff false false = ground arith

  int_eq_iff : (a b : ℤ) → (int_eq a b ≡ true) ↔ (a ≡ b)
  int_eq_iff (pos a) (pos b) = ground (arith, ==_iff a b)
  int_eq_iff (pos a) (negsuc b) = ground arith
  int_eq_iff (negsuc a) (pos b) = ground arith
  int_eq_iff (negsuc a) (negsuc b) = ground (arith, ==_iff a b)

  &&_iff :
      {P Q : Type 0} (a b : Bool) → (a ≡ true) ↔ P → (b ≡ true) ↔ Q → ((a && b) ≡ true) ↔ (P × Q)
  &&_iff true b p q = (λ e. (p.0 refl, q.0 e), λ both. q.1 both.1)
  &&_iff false b p q = (λ e. absurd (cc e), λ both. absurd (cc (p.1 both.0)))

  Equal-found : (v w u : JsonData) → some w ≡ some u → Equal v u → Equal v w
  Equal-found v w u e same = let f : u ≡ w = cc in subst (Equal v) f same

  mutual
    unfolding json_eq Equal

    pub json_eq_iff : (v w : JsonData) → (json_eq float_eq v w ≡ true) ↔ Equal v w
    json_eq_iff null null = ground arith
    json_eq_iff (bool a) (bool b) = bool_eq_iff a b
    json_eq_iff (integer a) (integer b) = int_eq_iff a b
    json_eq_iff (float a) (float b) = ground arith
    json_eq_iff (string a) (string b) = list_beq_iff a b
    json_eq_iff (array a) (array b) = items_eq_iff a b
    json_eq_iff (object a) (object b) =
        &&_iff (count_fields a == count_fields b) (entries_in float_eq a b)
          (==_iff (count_fields a) (count_fields b)) (entries_in_iff a b)
    json_eq_iff _ _ = (λ e. absurd (cc e), λ no. absurd no)

    items_eq_iff : (a b : Items) → (items_eq float_eq a b ≡ true) ↔ EqualItems a b
    items_eq_iff nil nil = ground arith
    items_eq_iff (cons v a) (cons w b) =
        &&_iff (json_eq float_eq v w) (items_eq float_eq a b) (json_eq_iff v w) (items_eq_iff a b)
    items_eq_iff _ _ = (λ e. absurd (cc e), λ no. absurd no)

    entries_in_iff : (a b : Fields) → (entries_in float_eq a b ≡ true) ↔ EntriesIn a b
    entries_in_iff end b = ground arith
    entries_in_iff (field k v rest) b = elim (Option-cases (find k b)) [
      | inl gone ↦ rw gone (λ e. absurd (cc e), λ p. absurd (cc (p.0.1)))
      | inr (w, found) ↦
          let here = json_eq_iff v w in
          rw found (
            &&_iff (json_eq float_eq v w) (entries_in float_eq rest b)
              (λ e. (w, refl, here.0 e), λ p. here.1 (Equal-found v w p.0 p.1 p.2))
              (entries_in_iff rest b))
    ]

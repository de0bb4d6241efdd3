-- ===== src/Validation/Uniqueness.antt =====
-- What the service asks of all items of an array, and of the keys of an object.
use pjs.Prelude.{
  ◌≡◌, ◌↔◌, refl, arith, Bool, true, false, not, ◌||◌, List, [], ◌∷◌, Bool-cases, inl, inr,
  list_beq_iff, is_some,
}
use pjs.Prelude.Text.{Text}
use pjs.JsonData.{JsonData, Items, nil, cons, Fields, end, field, find}
use pjs.JsonData.Equality.{json_eq, hash}
use pjs.JsonData.Equality.Laws.{json_eq_iff}
use pjs.Validation.{Host, same_item, seen_before, all_unique, has_all}
use pjs.Validation.Meaning.{AllItems, IsSame, Distinct, DistinctIf, HasKey, HasKeys}

same_item_iff : (h : Host) (d e : JsonData) → (same_item h d e ≡ false) ↔ (IsSame h d e → ⊥)
unfolding same_item
same_item_iff h d e =
    let equal = json_eq_iff h.float_eq d e in
    elim (Bool-cases (h.compares (hash d) (hash e))) [
      | inl compared ↦ elim (Bool-cases (json_eq h.float_eq d e)) [
        | inl hit ↦
            rw (compared, hit) (λ e. absurd (cc e), λ apart. absurd (apart (refl, equal.0 hit)))
        | inr miss ↦ rw (compared, miss) (λ e same. cc (equal.1 same.1, miss), λ apart. refl)
      ]
      | inr unseen ↦ rw unseen (λ e same. cc (same.0), λ apart. refl)
    ]

both_false : (a b : Bool) → ((a || b) ≡ false) ↔ ((a ≡ false) × (b ≡ false))
both_false a b = ground arith

-- No item is among those seen before.
abbrev Unseen : Host → Items → Items → Type 0
Unseen h seen a = AllItems (λ d. seen_before h d seen ≡ false) a

Unseen-cons :
    (h : Host) (e : JsonData) (seen a : Items)
    → Unseen h (cons e seen) a ↔ (AllItems (λ d. IsSame h d e → ⊥) a × Unseen h seen a)
Unseen-cons h e seen nil = (λ u. (tt, tt), λ u. tt)
Unseen-cons h e seen (cons d rest) =
    let more = Unseen-cons h e seen rest in
    let here = both_false (same_item h d e) (seen_before h d seen) in
    let apart = same_item_iff h d e in
    (
      λ u. ((apart.0 (here.0 u.0).0, (more.0 u.1).0), ((here.0 u.0).1, (more.0 u.1).1)),
      λ p. (here.1 (apart.1 p.0.0, p.1.0), more.1 (p.0.1, p.1.1)),
    )

all_unique_iff :
    (h : Host) (seen a : Items) → (all_unique h seen a ≡ true) ↔ (Unseen h seen a × Distinct h a)
unfolding all_unique
all_unique_iff h seen nil = (λ e. (tt, tt), λ p. refl)
all_unique_iff h seen (cons d rest) =
    let more = all_unique_iff h (cons d seen) rest in
    let apart = Unseen-cons h d seen rest in
    elim (Bool-cases (seen_before h d seen)) [
      | inl twice ↦ rw twice (λ e. absurd (cc e), λ p. absurd (cc (p.0.0)))
      | inr new ↦ rw new (
        λ e. ((refl, (apart.0 (more.0 e).0).1), ((apart.0 (more.0 e).0).0, (more.0 e).1)),
        λ p. more.1 (apart.1 (p.1.0, p.0.1), p.1.1),
      )
    ]

Unseen-nil : (h : Host) (a : Items) → Unseen h nil a
Unseen-nil h nil = tt
Unseen-nil h (cons d rest) = (refl, Unseen-nil h rest)

pub unique_iff :
    (h : Host) (unique : Bool) (a : Items)
    → ((not unique || all_unique h nil a) ≡ true) ↔ DistinctIf unique h a
unique_iff h true a =
    let all = all_unique_iff h nil a in (λ e. (all.0 e).1, λ p. all.1 (Unseen-nil h a, p))
unique_iff h false a = (λ e. tt, λ p. refl)

find_iff : (k : Text) (o : Fields) → (is_some (find k o) ≡ true) ↔ HasKey k o
unfolding find
find_iff k end = ground arith
find_iff k (field j d rest) = ground (arith, list_beq_iff j k, find_iff k rest)

pub has_all_iff : (ks : List Text) (o : Fields) → (has_all ks o ≡ true) ↔ HasKeys ks o
unfolding has_all
has_all_iff [] o = ground arith
has_all_iff (k ∷ ks) o = ground (arith, find_iff k o, has_all_iff ks o)

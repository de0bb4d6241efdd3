-- ===== src/Rebuild/Steps.antt =====
-- A patch on an object reaches one of its values, and leaves the others.
use mathlib.Core.List.{append_assoc}
use pjs.Prelude.{
  ◌≡◌, ◌≢◌, refl, ◌∙◌, List, [], ◌∷◌, ◌++◌, some, arith, drop, inl, inr, length, list_beq_iff,
  Option-cases,
}
use pjs.Prelude.Text.{Text}
use pjs.Prelude.Result.{ok, >>=-eq-ok}
use pjs.JsonPath.{JsonPath, PathSegment, key}
use pjs.JsonData.{JsonData, object, Fields, field, find, insert}
use pjs.Streamer.{JsonPatch}
use pjs.Reconstruct.{at_path}
use pjs.Rebuild.{step, writer, Below}

drop-append {ℓ} : {A : Type ℓ} (xs ys : List A) → drop (length xs) (xs ++ ys) ≡ ys
drop-append [] ys = refl
drop-append (x ∷ xs) ys = drop-append xs ys

pub step_at :
    (base : JsonPath) (p : JsonPatch) (s : List PathSegment) (d : JsonData)
    → p.path.segments ≡ base.segments ++ s
    → step base p d ≡ at_path s (writer p.operation) d
unfolding step
step_at base p s d e = rw (e, drop-append base.segments s) refl

insert_first : (k : Text) (v w : JsonData) (e : Fields) → insert k v (field k w e) ≡ field k v e
unfolding insert
insert_first k v w e = ground (arith, list_beq_iff k k)

pub find_first : (k : Text) (w : JsonData) (e : Fields) → find k (field k w e) ≡ some w
unfolding find
find_first k w e = ground (arith, list_beq_iff k k)

pub find_later : (k j : Text) (w : JsonData) (e : Fields) → k ≢ j → find j (field k w e) ≡ find j e
unfolding find
find_later k j w e ne = ground (arith, list_beq_iff k j)

insert_later :
    (k j : Text) (v w : JsonData) (e : Fields)
    → k ≢ j
    → insert j v (field k w e) ≡ field k w (insert j v e)
unfolding insert
insert_later k j v w e ne = ground (arith, list_beq_iff k j)

-- The first value of an object stands at the path that its key makes.
abbrev pub child : JsonPath → Text → JsonPath
child base k = record { segments = base.segments ++ key k ∷ [] }

pub Below-base :
    (base : JsonPath) (k : Text) (p : JsonPatch) (s : List PathSegment)
    → p.path.segments ≡ (child base k).segments ++ s
    → p.path.segments ≡ base.segments ++ key k ∷ s
Below-base base k p s e = e ∙ append_assoc base.segments (key k ∷ []) s

pub step_here :
    (base : JsonPath) (k : Text) (p : JsonPatch) (w y : JsonData) (e : Fields)
    → Below (child base k) p
    → step (child base k) p w ≡ ok y
    → step base p (object (field k w e)) ≡ ok (object (field k y e))
unfolding at_path
step_here base k p w y e (s, below) done =
    let inner : at_path s (writer p.operation) w ≡ ok y =
      rw (step_at (child base k) p s w below) at done in
    rw
      (
        step_at base p (key k ∷ s) (object (field k w e)) (Below-base base k p s below),
        at_path,
        find_first k w e,
        inner,
        insert_first k y w e,
      )
      refl

pub step_there :
    (base : JsonPath) (k j : Text) (p : JsonPatch) (s : List PathSegment) (w d : JsonData)
    (e : Fields)
    → p.path.segments ≡ base.segments ++ key j ∷ s
    → k ≢ j
    → step base p (object e) ≡ ok d
    → (e' : Fields) × (d ≡ object e')
      × (step base p (object (field k w e)) ≡ ok (object (field k w e')))
unfolding at_path
step_there base k j p s w d e below ne done =
    let walk : at_path (key j ∷ s) (writer p.operation) (object e) ≡ ok d =
      rw (step_at base p (key j ∷ s) (object e) below) at done in
    elim (Option-cases (find j e)) [
      | inl gone ↦ absurd (cc (rw (gone, at_path) at walk))
      | inr (x, found) ↦
          let (y, inner, whole) =
            >>=-eq-ok (at_path s (writer p.operation) x) (λ y. ok (object (insert j y e)))
              (rw (found, at_path) at walk) in
          (
            insert j y e,
            cc whole,
            rw
                (
                  step_at base p (key j ∷ s) (object (field k w e)) below,
                  at_path,
                  find_later k j w e ne,
                  found,
                  inner,
                  insert_later k j y w e ne,
                )
                refl,
          )
    ]

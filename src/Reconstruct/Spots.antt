-- ===== src/Reconstruct/Spots.antt =====
-- Where in the parent of a path an operation writes.
use pjs.Prelude.{
  ℕ, ◌≡◌, ◌≢◌, refl, ap, inl, inr, List, [], ◌∷◌, Option, none, some, arith, list_beq_iff, ltb,
  Bool-cases,
}
use pjs.Prelude.Text.{Text}
use pjs.Words.{parse_usize}
use pjs.JsonPath.{PathSegment, key, index}
use pjs.JsonData.{JsonData, array, object, Items, Fields, end, field, find, insert, count_items}
use pjs.Prelude.Result.{ok}
use pjs.Reconstruct.{set_item, set_element, set_child, remove_key, remove_child}
use pjs.Reconstruct.Laws.{read, Diverges, IsQuiet, read-insert_ne, read-set_item_ne}

-- A key that is removed leaves the other entries.
find-remove_key_ne : (k j : Text) (o : Fields) → k ≢ j → find j (remove_key k o) ≡ find j o
unfolding find remove_key
find-remove_key_ne k j end h = refl
find-remove_key_ne k j (field i v rest) h =
    ground (arith, find-remove_key_ne k j rest h, list_beq_iff i k, list_beq_iff i j)

read-remove_key_ne :
    (k : Text) (o : Fields) (h : PathSegment) (q : List PathSegment)
    → key k ≢ h
    → read (h ∷ q) (object (remove_key k o)) ≡ read (h ∷ q) (object o)
unfolding read
read-remove_key_ne k o (key j) q ne = rw (find-remove_key_ne k j o (λ e. ne (ap key e)), read) refl
read-remove_key_ne k o (index j) q ne = refl

-- Where in the parent a set writes: under an object at the key, in an array at the item of that number.
abbrev pub item_spot : Option ℕ → List PathSegment
item_spot none = []
item_spot (some i) = index i ∷ []

abbrev pub set_spot : Text → JsonData → List PathSegment
set_spot k (object o) = key k ∷ []
set_spot k (array a) = item_spot (parse_usize k)
set_spot k _ = []

-- A removal from an array moves the items behind, and so rewrites the array.
abbrev pub remove_spot : Text → JsonData → List PathSegment
remove_spot k (object o) = key k ∷ []
remove_spot k _ = []

apart_here : (g h : PathSegment) (q : List PathSegment) → Diverges (g ∷ []) (h ∷ q) → g ≢ h
apart_here g h q apart = elim apart [ inl ne ↦ ne | inr (same, deeper) ↦ absurd deeper ]

set_element-IsQuiet :
    (o : Option ℕ) (v : JsonData) (a : Items) (y : JsonData) (q : List PathSegment)
    → set_element o v a ≡ ok y
    → Diverges (item_spot o) q
    → read q y ≡ read q (array a)
set_element-IsQuiet none v a y q e apart = absurd apart
set_element-IsQuiet (some i) v a y [] e apart = absurd apart
set_element-IsQuiet (some i) v a y (h ∷ q) e apart = elim (Bool-cases (ltb i (count_items a))) [
  | inl inside ↦
      let same : array (set_item a i v) ≡ y = cc (rw (inside, set_element) at e) in
      rw (← same) (read-set_item_ne i v a h q (apart_here (index i) h q apart))
  | inr outside ↦ absurd (cc (rw (outside, set_element) at e))
]

pub set_child-IsQuiet : (k : Text) (v x : JsonData) → IsQuiet (set_child k v) (set_spot k x) x
unfolding set_child
set_child-IsQuiet k v (object o) y [] e apart = absurd apart
set_child-IsQuiet k v (object o) y (h ∷ q) e apart =
    let same : object (insert k v o) ≡ y = cc e in
    rw (← same) (read-insert_ne k v o h q (apart_here (key k) h q apart))
set_child-IsQuiet k v (array a) y q e apart = set_element-IsQuiet (parse_usize k) v a y q e apart
set_child-IsQuiet k v _ y q e apart = absurd apart

pub remove_child-IsQuiet : (k : Text) (x : JsonData) → IsQuiet (remove_child k) (remove_spot k x) x
unfolding remove_child
remove_child-IsQuiet k (object o) y [] e apart = absurd apart
remove_child-IsQuiet k (object o) y (h ∷ q) e apart =
    let same : object (remove_key k o) ≡ y = cc e in
    rw (← same) (read-remove_key_ne k o h q (apart_here (key k) h q apart))
remove_child-IsQuiet k _ y q e apart = absurd apart

-- ===== src/Reconstruct/Laws.antt =====
-- What a patch writes, and what it leaves alone.
use pjs.Prelude.{
  ℕ, zero, suc, ◌≡◌, ◌≢◌, ◌⊎◌, refl, ap, inl, inr, List, [], ◌∷◌, ◌++◌, Option, none, some, true,
  arith, list_beq_iff, Option-cases,
}
use pjs.Prelude.Text.{Text}
use pjs.Prelude.Result.{ok, err, is_ok, ◌>>=◌, >>=-eq-ok}
use pjs.JsonPath.{PathSegment, key, index}
use pjs.JsonData.{
  JsonData, null, bool, integer, float, string, array, object, Items, nil, cons, Fields, find,
  insert,
}
use pjs.JsonData.Paths.{find-insert}
use pjs.Reconstruct.{Outcome, item, set_item, at_path}

-- The value that stands at a path.
unfoldable pub read : List PathSegment → JsonData → Option JsonData
read [] d = some d
read (key k ∷ s) (object o) = elim (find k o) [ none ↦ none | some v ↦ read s v ]
read (index i ∷ s) (array a) = elim (item a i) [ none ↦ none | some v ↦ read s v ]
read (g ∷ s) d = none

-- Neither path is a prefix of the other.
abbrev pub Diverges : List PathSegment → List PathSegment → Type 0
Diverges (g ∷ s) (h ∷ t) = (g ≢ h) ⊎ ((g ≡ h) × Diverges s t)
Diverges _ _ = ⊥

item-set_item_self :
    (a : Items) (i : ℕ) (v w : JsonData) → item a i ≡ some v → item (set_item a i w) i ≡ some w
unfolding item set_item
item-set_item_self nil i v w h = absurd (cc)
item-set_item_self (cons x a) zero v w h = refl
item-set_item_self (cons x a) (suc i) v w h = item-set_item_self a i v w h

item-set_item_ne : (a : Items) (i j : ℕ) (w : JsonData) → i ≢ j → item (set_item a i w) j ≡ item a j
unfolding item set_item
item-set_item_ne nil i j w h = refl
item-set_item_ne (cons x a) zero zero w h = absurd (h refl)
item-set_item_ne (cons x a) zero (suc j) w h = refl
item-set_item_ne (cons x a) (suc i) zero w h = refl
item-set_item_ne (cons x a) (suc i) (suc j) w h = item-set_item_ne a i j w (λ e. h (ap suc e))

find_self : (k : Text) (v : JsonData) (o : Fields) → find k (insert k v o) ≡ some v
find_self k v o = ground (arith, find-insert k k v o, list_beq_iff k k)

find_ne : (k j : Text) (v : JsonData) (o : Fields) → k ≢ j → find j (insert k v o) ≡ find j o
find_ne k j v o h = ground (arith, find-insert k j v o, list_beq_iff k j)

-- A walk that succeeds: the write applied to the value that stood there.
pub at_path-read :
    (s : List PathSegment) (f : JsonData → Outcome) (d d' : JsonData)
    → at_path s f d ≡ ok d'
    → (v : JsonData) × (w : JsonData) × (read s d ≡ some v) × (f v ≡ ok w) × (read s d' ≡ some w)
unfolding at_path read
at_path-read [] f d d' e = (d, d', refl, e, refl)
at_path-read (key k ∷ s) f (object o) d' e = elim (Option-cases (find k o)) [
  | inl gone ↦ absurd (cc (rw (gone, at_path) at e))
  | inr (x, found) ↦
      let (y, e1, r) =
        >>=-eq-ok (at_path s f x) (λ w. ok (object (insert k w o))) (rw (found, at_path) at e) in
      let (v, w, before, wrote, after) = at_path-read s f x y e1 in
      let whole : object (insert k y o) ≡ d' = cc r in
      (v, w, rw (found, read) before, wrote, rw (← whole, find_self k y o, read) after)
]
at_path-read (index i ∷ s) f (array a) d' e = elim (Option-cases (item a i)) [
  | inl gone ↦ absurd (cc (rw (gone, at_path) at e))
  | inr (x, found) ↦
      let (y, e1, r) =
        >>=-eq-ok (at_path s f x) (λ w. ok (array (set_item a i w))) (rw (found, at_path) at e) in
      let (v, w, before, wrote, after) = at_path-read s f x y e1 in
      let whole : array (set_item a i y) ≡ d' = cc r in
      (
        v,
        w,
        rw (found, read) before,
        wrote,
        rw (← whole, item-set_item_self a i x y found, read) after,
      )
]
at_path-read (key k ∷ s) f null d' e = absurd (cc)
at_path-read (key k ∷ s) f (bool b) d' e = absurd (cc)
at_path-read (key k ∷ s) f (integer n) d' e = absurd (cc)
at_path-read (key k ∷ s) f (float n) d' e = absurd (cc)
at_path-read (key k ∷ s) f (string t) d' e = absurd (cc)
at_path-read (key k ∷ s) f (array a) d' e = absurd (cc)
at_path-read (index i ∷ s) f null d' e = absurd (cc)
at_path-read (index i ∷ s) f (bool b) d' e = absurd (cc)
at_path-read (index i ∷ s) f (integer n) d' e = absurd (cc)
at_path-read (index i ∷ s) f (float n) d' e = absurd (cc)
at_path-read (index i ∷ s) f (string t) d' e = absurd (cc)
at_path-read (index i ∷ s) f (object o) d' e = absurd (cc)

-- A write on an object's value or an array's item leaves the values that are read elsewhere.
pub read-insert_ne :
    (k : Text) (w : JsonData) (o : Fields) (h : PathSegment) (q : List PathSegment)
    → key k ≢ h
    → read (h ∷ q) (object (insert k w o)) ≡ read (h ∷ q) (object o)
unfolding read
read-insert_ne k w o (key j) q ne = rw (find_ne k j w o (λ e. ne (ap key e)), read) refl
read-insert_ne k w o (index j) q ne = refl

pub read-set_item_ne :
    (i : ℕ) (w : JsonData) (a : Items) (h : PathSegment) (q : List PathSegment)
    → index i ≢ h
    → read (h ∷ q) (array (set_item a i w)) ≡ read (h ∷ q) (array a)
unfolding read
read-set_item_ne i w a (key j) q ne = refl
read-set_item_ne i w a (index j) q ne =
    rw (item-set_item_ne a i j w (λ e. ne (ap index e)), read) refl

-- A write at the end of a walk that leaves what is read beside a place below the end: no more is changed in
-- the whole.
abbrev pub IsQuiet : (JsonData → Outcome) → List PathSegment → JsonData → Type 0
IsQuiet f t x =
    (y : JsonData) (q : List PathSegment) → f x ≡ ok y → Diverges t q → read q y ≡ read q x

pub at_path-beside :
    (s t q : List PathSegment) (f : JsonData → Outcome) (d d' x : JsonData)
    → read s d ≡ some x
    → IsQuiet f t x
    → Diverges (s ++ t) q
    → at_path s f d ≡ ok d'
    → read q d' ≡ read q d
unfolding at_path read
at_path-beside (key k ∷ s) t (h ∷ q) f (object o) d' x stands quiet apart e =
    elim (Option-cases (find k o)) [
      | inl gone ↦ absurd (cc (rw (gone, at_path) at e))
      | inr (z, found) ↦
          let (y, e1, r) =
            >>=-eq-ok (at_path s f z) (λ w. ok (object (insert k w o)))
              (rw (found, at_path) at e) in
          let whole : object (insert k y o) ≡ d' = cc r in
          rw (← whole) (elim apart [
            | inl ne ↦ read-insert_ne k y o h q ne
            | inr (same, deeper) ↦
                rw (← same, find_self k y o, found, read)
                  (at_path-beside s t q f z y x (rw (found, read) at stands) quiet deeper e1)
          ])
    ]
at_path-beside (index i ∷ s) t (h ∷ q) f (array a) d' x stands quiet apart e =
    elim (Option-cases (item a i)) [
      | inl gone ↦ absurd (cc (rw (gone, at_path) at e))
      | inr (z, found) ↦
          let (y, e1, r) =
            >>=-eq-ok (at_path s f z) (λ w. ok (array (set_item a i w)))
              (rw (found, at_path) at e) in
          let whole : array (set_item a i y) ≡ d' = cc r in
          rw (← whole) (elim apart [
            | inl ne ↦ read-set_item_ne i y a h q ne
            | inr (same, deeper) ↦
                rw (← same, item-set_item_self a i z y found, found, read)
                  (at_path-beside s t q f z y x (rw (found, read) at stands) quiet deeper e1)
          ])
    ]
at_path-beside [] t q f d d' x stands quiet apart e =
    let same : d ≡ x = cc stands in rw same (quiet d' q (rw same at e) apart)
at_path-beside (key k ∷ s) t [] f d d' x stands quiet apart e = absurd apart
at_path-beside (index i ∷ s) t [] f d d' x stands quiet apart e = absurd apart
at_path-beside (key k ∷ s) t (h ∷ q) f null d' x stands quiet apart e = absurd (cc)
at_path-beside (key k ∷ s) t (h ∷ q) f (bool b) d' x stands quiet apart e = absurd (cc)
at_path-beside (key k ∷ s) t (h ∷ q) f (integer n) d' x stands quiet apart e = absurd (cc)
at_path-beside (key k ∷ s) t (h ∷ q) f (float n) d' x stands quiet apart e = absurd (cc)
at_path-beside (key k ∷ s) t (h ∷ q) f (string w) d' x stands quiet apart e = absurd (cc)
at_path-beside (key k ∷ s) t (h ∷ q) f (array a) d' x stands quiet apart e = absurd (cc)
at_path-beside (index i ∷ s) t (h ∷ q) f null d' x stands quiet apart e = absurd (cc)
at_path-beside (index i ∷ s) t (h ∷ q) f (bool b) d' x stands quiet apart e = absurd (cc)
at_path-beside (index i ∷ s) t (h ∷ q) f (integer n) d' x stands quiet apart e = absurd (cc)
at_path-beside (index i ∷ s) t (h ∷ q) f (float n) d' x stands quiet apart e = absurd (cc)
at_path-beside (index i ∷ s) t (h ∷ q) f (string w) d' x stands quiet apart e = absurd (cc)
at_path-beside (index i ∷ s) t (h ∷ q) f (object o) d' x stands quiet apart e = absurd (cc)

is_ok->>= :
    (r : Outcome) (g : JsonData → JsonData) → is_ok r ≡ true → is_ok (r >>= λ w. ok (g w)) ≡ true
is_ok->>= (ok w) g e = refl
is_ok->>= (err why) g e = absurd (cc)

-- A walk to what stands there succeeds when the write does.
pub is_ok-at_path :
    (s : List PathSegment) (f : JsonData → Outcome) (d x : JsonData)
    → read s d ≡ some x
    → is_ok (f x) ≡ true
    → is_ok (at_path s f d) ≡ true
unfolding at_path read
is_ok-at_path [] f d x stands works = let same : d ≡ x = cc in rw same works
is_ok-at_path (key k ∷ s) f (object o) x stands works = elim (Option-cases (find k o)) [
  | inl gone ↦ absurd (cc (rw (gone, read) at stands))
  | inr (z, found) ↦
      let deeper = is_ok-at_path s f z x (rw (found, read) at stands) works in
      rw (found, at_path) (is_ok->>= (at_path s f z) (λ w. object (insert k w o)) deeper)
]
is_ok-at_path (index i ∷ s) f (array a) x stands works = elim (Option-cases (item a i)) [
  | inl gone ↦ absurd (cc (rw (gone, read) at stands))
  | inr (z, found) ↦
      let deeper = is_ok-at_path s f z x (rw (found, read) at stands) works in
      rw (found, at_path) (is_ok->>= (at_path s f z) (λ w. array (set_item a i w)) deeper)
]
is_ok-at_path (key k ∷ s) f _ x stands works = absurd (cc)
is_ok-at_path (index i ∷ s) f _ x stands works = absurd (cc)

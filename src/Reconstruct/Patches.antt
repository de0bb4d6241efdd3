-- ===== src/Reconstruct/Patches.antt =====
-- The operations of a patch: what each writes at its place, what it leaves alone, and what it refuses.
use pjs.Prelude.{
  ℕ, ◌<◌, ◌≡◌, ◌⊎◌, ◌↔◌, refl, sym, subst, inl, inr, List, [], ◌++◌, true, false, Option, none,
  some, ltb, ltb→lt, lt→ltb, is_empty, Bool-cases, Option-cases,
}
use mathlib.Core.List.{append-nil}
use pjs.Prelude.Text.{Text}
use pjs.Prelude.Result.{ok, is_ok, Result-cases}
use pjs.Words.{parse_usize}
use pjs.JsonPath.{JsonPath, PathSegment, last_key}
use pjs.JsonData.{
  JsonData, null, bool, integer, float, string, array, object, Items, Fields, insert, count_items,
}
use pjs.Streamer.{PatchOperation, set, append, replace, remove, JsonPatch}
use pjs.Reconstruct.{
  Outcome, set_item, at_path, set_child, set_element, remove_child, append_values, set_at_path,
  append_at_path, remove_at_path, parent_segments, apply_operation, apply_patch,
}
use pjs.Reconstruct.Laws.{read, Diverges, IsQuiet, at_path-read, at_path-beside, is_ok-at_path}
use pjs.Reconstruct.Spots.{set_spot, remove_spot, set_child-IsQuiet, remove_child-IsQuiet}

-- The two places where a value is set.
pub data IsSetIn (k : Text) (v : JsonData) : JsonData → JsonData → Type 0 where
  in_object : (o : Fields) → IsSetIn k v (object o) (object (insert k v o))
  in_array :
      (a : Items) (i : ℕ)
      → parse_usize k ≡ some i
      → i < count_items a
      → IsSetIn k v (array a) (array (set_item a i v))

set_element-IsSetIn :
    (k : Text) (v : JsonData) (o : Option ℕ) (a : Items) (y : JsonData)
    → parse_usize k ≡ o
    → set_element o v a ≡ ok y
    → IsSetIn k v (array a) y
set_element-IsSetIn k v none a y parsed e = absurd (cc (e))
set_element-IsSetIn k v (some i) a y parsed e = elim (Bool-cases (ltb i (count_items a))) [
  | inl inside ↦
      let same : array (set_item a i v) ≡ y = cc (rw (inside, set_element) at e) in
      subst (λ z. IsSetIn k v (array a) z) same
        (in_array a i parsed (ltb→lt i (count_items a) inside))
  | inr outside ↦ absurd (cc (rw (outside, set_element) at e))
]

set_child-IsSetIn : (k : Text) (v x y : JsonData) → set_child k v x ≡ ok y → IsSetIn k v x y
unfolding set_child
set_child-IsSetIn k v (object o) y e =
    let same : object (insert k v o) ≡ y = cc (e) in
    subst (λ z. IsSetIn k v (object o) z) same (in_object o)
set_child-IsSetIn k v (array a) y e = set_element-IsSetIn k v (parse_usize k) a y refl e
set_child-IsSetIn k v null y e = absurd (cc (e))
set_child-IsSetIn k v (bool b) y e = absurd (cc (e))
set_child-IsSetIn k v (integer n) y e = absurd (cc (e))
set_child-IsSetIn k v (float n) y e = absurd (cc (e))
set_child-IsSetIn k v (string t) y e = absurd (cc (e))

-- A `set` or `replace` that succeeds below the root has found the value at the parent of its path, and in
-- its place it leaves that value with only the last key of the path set: in an object an entry, which may
-- be new, in an array an item in range.
pub set_at_path-IsSetIn :
    (p : JsonPath) (k : Text) (v d d' : JsonData)
    → is_empty p.segments ≡ false
    → last_key p ≡ some k
    → set_at_path p v d ≡ ok d'
    → (x : JsonData) × (y : JsonData) × (read (parent_segments p.segments) d ≡ some x)
      × IsSetIn k v x y
      × (read (parent_segments p.segments) d' ≡ some y)
unfolding set_at_path
set_at_path-IsSetIn p k v d d' deep named e =
    let walk : at_path (parent_segments p.segments) (set_child k v) d ≡ ok d' =
      rw (set_at_path, deep, named) at e in
    let (x, y, before, wrote, after) =
      at_path-read (parent_segments p.segments) (set_child k v) d d' walk in
    (x, y, before, set_child-IsSetIn k v x y wrote, after)

-- The place that an operation rewrites in a document: an append the array at its path, the others a spot in
-- the parent.
abbrev pub spot : PatchOperation → Text → JsonData → List PathSegment
spot remove k x = remove_spot k x
spot op k x = set_spot k x

abbrev pub spot_in : PatchOperation → Option Text → Option JsonData → List PathSegment
spot_in op (some k) (some x) = spot op k x
spot_in op _ _ = []

abbrev pub written : PatchOperation → JsonPath → JsonData → List PathSegment
written (append vs) p d = p.segments
written op p d =
    parent_segments p.segments ++ spot_in op (last_key p) (read (parent_segments p.segments) d)

-- The walk to the parent, and the write there.
write-beside :
    (op : PatchOperation) (f : Text → JsonData → Outcome) (p : JsonPath) (k : Text)
    (q : List PathSegment) (d d' : JsonData)
    → ((x : JsonData) → IsQuiet (f k) (spot op k x) x)
    → last_key p ≡ some k
    → Diverges
        (parent_segments p.segments
          ++ spot_in op (last_key p) (read (parent_segments p.segments) d))
        q
    → at_path (parent_segments p.segments) (f k) d ≡ ok d'
    → read q d' ≡ read q d
write-beside op f p k q d d' quiet named apart walk =
    let (x, y, before, wrote, after) = at_path-read (parent_segments p.segments) (f k) d d' walk in
    at_path-beside (parent_segments p.segments) (spot op k x) q (f k) d d' x before (quiet x)
      (rw (named, before) at apart) walk

set_at_path-beside :
    (op : PatchOperation) (p : JsonPath) (v : JsonData) (q : List PathSegment) (d d' : JsonData)
    → ((k : Text) (x : JsonData) → spot op k x ≡ set_spot k x)
    → is_empty p.segments ≡ false
    → Diverges
        (parent_segments p.segments
          ++ spot_in op (last_key p) (read (parent_segments p.segments) d))
        q
    → set_at_path p v d ≡ ok d'
    → read q d' ≡ read q d
unfolding set_at_path
set_at_path-beside op p v q d d' same deep apart e = elim (Option-cases (last_key p)) [
  | inl nameless ↦ absurd (cc (rw (set_at_path, deep, nameless) at e))
  | inr (k, named) ↦
      write-beside op (λ j. set_child j v) p k q d d'
        (λ x. subst (λ t. IsQuiet (set_child k v) t x) (sym (same k x)) (set_child-IsQuiet k v x))
        named apart (rw (set_at_path, deep, named) at e)
]

remove_at_path-beside :
    (p : JsonPath) (q : List PathSegment) (d d' : JsonData)
    → Diverges (written remove p d) q
    → remove_at_path p d ≡ ok d'
    → read q d' ≡ read q d
unfolding remove_at_path
remove_at_path-beside p q d d' apart e = elim (Option-cases (last_key p)) [
  | inl nameless ↦ absurd (cc (rw (remove_at_path, nameless) at e))
  | inr (k, named) ↦
      write-beside remove remove_child p k q d d' (remove_child-IsQuiet k) named apart
        (rw (remove_at_path, named) at e)
]

append_at_path-beside :
    (p : JsonPath) (vs : List JsonData) (q : List PathSegment) (d d' : JsonData)
    → Diverges p.segments q
    → append_at_path p vs d ≡ ok d'
    → read q d' ≡ read q d
unfolding append_at_path
append_at_path-beside p vs q d d' apart e =
    let (x, y, before, wrote, after) = at_path-read p.segments (append_values vs) d d' e in
    at_path-beside p.segments [] q (append_values vs) d d' x before (λ y q e none. absurd none)
      (rw (append-nil p.segments) apart) e

-- A patch that succeeds below the root leaves what is read at every path of which neither is a prefix of the
-- other with the place that it rewrites. That place is the array at the path for an append, and for a set, a
-- replace and a remove the one entry or item of the parent that the last key of the path names, so that the
-- other entries of the same object, and other items of the same array, are left as well; a remove of an
-- item moves those behind it, and rewrites its array.
pub apply_patch-beside :
    (p : JsonPatch) (q : List PathSegment) (d d' : JsonData)
    → is_empty p.path.segments ≡ false
    → Diverges (written p.operation p.path d) q
    → apply_patch p d ≡ ok d'
    → read q d' ≡ read q d
unfolding apply_operation
apply_patch-beside p q d d' deep apart e = apply_beside p.operation apart e
  where
    apply_beside :
        (op : PatchOperation)
        → Diverges (written op p.path d) q
        → apply_operation p.path op d ≡ ok d'
        → read q d' ≡ read q d
    apply_beside (set v) off done =
        set_at_path-beside (set v) p.path v q d d' (λ k x. refl) deep off done
    apply_beside (append vs) off done = append_at_path-beside p.path vs q d d' off done
    apply_beside (replace v) off done =
        set_at_path-beside (replace v) p.path v q d d' (λ k x. refl) deep off done
    apply_beside remove off done = remove_at_path-beside p.path q d d' off done

-- Where a set may write, said of the document: the root; or else the parent of the path is there, and is an
-- object, or an array with an item of the number that the last key is.
abbrev pub Holds : Text → JsonData → Type 0
Holds k (object o) = Unit
Holds k (array a) = (i : ℕ) × (parse_usize k ≡ some i) × (i < count_items a)
Holds k _ = ⊥

abbrev pub IsSettable : JsonPath → JsonData → Type 0
IsSettable p d =
    (is_empty p.segments ≡ true)
    ⊎ ((k : Text) × (x : JsonData) × (last_key p ≡ some k)
        × (read (parent_segments p.segments) d ≡ some x)
        × Holds k x)

Holds-IsSetIn : (k : Text) (v x y : JsonData) → IsSetIn k v x y → Holds k x
Holds-IsSetIn k v _ _ (in_object o) = tt
Holds-IsSetIn k v _ _ (in_array a i number inside) = (i, number, inside)

is_ok-set_child : (k : Text) (v x : JsonData) → Holds k x → is_ok (set_child k v x) ≡ true
unfolding set_child
is_ok-set_child k v (object o) h = refl
is_ok-set_child k v (array a) (i, number, inside) =
    rw (number, set_element, lt→ltb i (count_items a) inside) refl
is_ok-set_child k v _ h = absurd h

-- A set or a replace succeeds exactly where it may write, and answers the error on every other document: a
-- step of the path that is missing or of another kind, a parent that is a scalar, a path without a key, and
-- in an array a key that is no number or beyond the items.
pub set_at_path_iff :
    (p : JsonPath) (v d : JsonData) → (is_ok (set_at_path p v d) ≡ true) ↔ IsSettable p d
unfolding set_at_path
set_at_path_iff p v d = elim (Bool-cases (is_empty p.segments)) [
  | inl whole ↦ (λ e. inl whole, λ can. rw (set_at_path, whole) refl)
  | inr deep ↦ (
    λ e. inr (settable deep e),
    λ can. elim can [
      | inl whole ↦ absurd (cc (deep, whole))
      | inr (k, x, named, stands, holds) ↦
          rw (set_at_path, deep, named)
            (is_ok-at_path (parent_segments p.segments) (set_child k v) d x stands
              (is_ok-set_child k v x holds))
    ],
  )
]
  where
    settable :
        is_empty p.segments ≡ false
        → is_ok (set_at_path p v d) ≡ true
        → (k : Text) × (x : JsonData) × (last_key p ≡ some k)
          × (read (parent_segments p.segments) d ≡ some x)
          × Holds k x
    settable deep e = elim (Option-cases (last_key p)) [
      | inl nameless ↦ absurd (cc (rw (set_at_path, deep, nameless) at e))
      | inr (k, named) ↦ elim (Result-cases (set_at_path p v d)) [
        | inl (d', done) ↦
            let (x, y, before, placed, after) = set_at_path-IsSetIn p k v d d' deep named done in
            (k, x, named, before, Holds-IsSetIn k v x y placed)
        | inr (why, failed) ↦ absurd (cc (rw failed at e))
      ]
    ]

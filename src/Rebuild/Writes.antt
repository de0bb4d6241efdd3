-- ===== src/Rebuild/Writes.antt =====
-- A step from the root is what the reconstruction engine does for the patch.
use mathlib.Core.List.{reverse-append}
use pjs.Prelude.{
  ◌-◌, length-append, ◌≡◌, refl, sym, subst, List, [], ◌∷◌, ◌++◌, some, inl, inr, All, All-append,
  All-image, Option-cases, Bool-cases, length, ltb, is_empty, arith,
}
use pjs.Prelude.Text.{Text}
use pjs.Prelude.Result.{ok, >>=-eq-ok}
use pjs.Priority.{Priority}
use pjs.Stream.Chunks.{chunks}
use pjs.JsonPath.{JsonPath, PathSegment, key, index, root, last_key}
use pjs.JsonPath.Laws.{is_empty-append, take-append_left}
use pjs.JsonData.{
  JsonData, null, bool, integer, float, string, array, object, Fields, end, field, find, insert,
}
use pjs.Streamer.{
  StreamerConfig, JsonPatch, set, append, patch_at, array_patches, elements, extract_patches,
  extract_fields, calculate_array_priority, calculate_field_priority, higher_of, append_ceiling,
  skeletonize_arrays,
}
use pjs.Reconstruct.{
  item, set_item, at_path, set_child, set_at_path, append_at_path, apply_operation, apply_patch,
  parent_segments,
}
use pjs.Rebuild.{step, writer, HasKeys, EachKey}
use pjs.Rebuild.Steps.{child}
use pjs.Rebuild.Extract.{extract_fields-first}

at_path-set :
    (s : List PathSegment) (k : Text) (v d d' : JsonData)
    → at_path (s ++ key k ∷ []) (λ x. ok v) d ≡ ok d'
    → at_path s (set_child k v) d ≡ ok d'
unfolding at_path set_child
at_path-set [] k v (object o) d' e = elim (Option-cases (find k o)) [
  | inl gone ↦ absurd (cc (rw (gone, at_path) at e))
  | inr (x, found) ↦ rw (found, at_path) at e
]
at_path-set (key j ∷ s) k v (object o) d' e = elim (Option-cases (find j o)) [
  | inl gone ↦ absurd (cc (rw (gone, at_path) at e))
  | inr (x, found) ↦
      let (y, inner, whole) =
        >>=-eq-ok (at_path (s ++ key k ∷ []) (λ x. ok v) x) (λ w. ok (object (insert j w o)))
          (rw (found, at_path) at e) in
      rw (found, at_path, at_path-set s k v x y inner) whole
]
at_path-set (index i ∷ s) k v (array a) d' e = elim (Option-cases (item a i)) [
  | inl gone ↦ absurd (cc (rw (gone, at_path) at e))
  | inr (x, found) ↦
      let (y, inner, whole) =
        >>=-eq-ok (at_path (s ++ key k ∷ []) (λ x. ok v) x) (λ w. ok (array (set_item a i w)))
          (rw (found, at_path) at e) in
      rw (found, at_path, at_path-set s k v x y inner) whole
]
at_path-set [] k v _ d' e = absurd (cc)
at_path-set (key j ∷ s) k v _ d' e = absurd (cc)
at_path-set (index i ∷ s) k v _ d' e = absurd (cc)

-- What the step from the root does, the engine does.
abbrev pub Writes : JsonPatch → Type 0
Writes p = (d d' : JsonData) → step root p d ≡ ok d' → apply_patch p d ≡ ok d'

Writes-append :
    (path : JsonPath) (pr : Priority) (vs : List JsonData) → Writes (patch_at path pr (append vs))
unfolding step writer apply_operation append_at_path
Writes-append path pr vs d d' e = e

parent-snoc : (s : List PathSegment) (g : PathSegment) → parent_segments (s ++ g ∷ []) ≡ s
parent-snoc s g =
    let n : length (s ++ g ∷ []) - 1 ≡ length s = omega (arith, length-append s (g ∷ [])) in
    rw n (take-append_left s (g ∷ []))

last_key-snoc :
    (s : List PathSegment) (k : Text) → last_key (record { segments = s ++ key k ∷ [] }) ≡ some k
unfolding last_key
last_key-snoc s k = rw (reverse-append s (key k ∷ [])) refl

Writes-set :
    (base : JsonPath) (k : Text) (pr : Priority) (v : JsonData)
    → Writes (patch_at (record { segments = base.segments ++ key k ∷ [] }) pr (set v))
unfolding step writer apply_operation set_at_path
Writes-set base k pr v d d' e =
    let s = base.segments in
    rw (is_empty-append s (key k), last_key-snoc s k, parent-snoc s (key k), set_at_path)
      (at_path-set s k v d d' e)

Writes-array_patches :
    (c : StreamerConfig) (path : JsonPath) (xs : List JsonData)
    → All Writes (array_patches c path xs)
unfolding array_patches
Writes-array_patches c path xs =
    let priority = calculate_array_priority path xs in
    elim (Bool-cases (ltb 10 (length xs))) [
      | inl long ↦ rw long (
          All-image Writes (λ chunk. patch_at path priority (append chunk))
            (λ chunk. Writes-append path priority chunk) (chunks (length xs) c.max_patch_size xs))
      | inr short ↦ elim (Bool-cases (is_empty xs)) [
        | inl none_there ↦ rw (short, none_there) tt
        | inr some_there ↦ rw (short, some_there) (Writes-append path priority xs, tt)
      ]
    ]

mutual
  unfolding extract_patches HasKeys

  pub Writes-extract_patches :
      (c : StreamerConfig) (v : JsonData) (path : JsonPath)
      → HasKeys v
      → All Writes (extract_patches c v path)
  Writes-extract_patches c (object o) path keys = Writes-extract_fields c o path keys
  Writes-extract_patches c (array a) path keys = Writes-array_patches c path (elements a)
  Writes-extract_patches c null path keys = tt
  Writes-extract_patches c (bool b) path keys = tt
  Writes-extract_patches c (integer i) path keys = tt
  Writes-extract_patches c (float f) path keys = tt
  Writes-extract_patches c (string s) path keys = tt

  Writes-extract_fields :
      (c : StreamerConfig) (o : Fields) (path : JsonPath)
      → EachKey o
      → All Writes (extract_fields c o path)
  Writes-extract_fields c end path each = tt
  Writes-extract_fields c (field k v o) path (fits, fresh, inner, each) =
      let below = child path k in
      let children = extract_patches c v below in
      let own = calculate_field_priority k v in
      subst (All Writes) (sym (extract_fields-first c k v o path fits)) (
        Writes-set path k (higher_of own (append_ceiling children)) (skeletonize_arrays v),
        All-append Writes children (extract_fields c o path)
            (Writes-extract_patches c v below inner) (Writes-extract_fields c o path each),
      )

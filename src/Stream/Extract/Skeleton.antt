-- ===== src/Stream/Extract/Skeleton.antt =====
-- The skeleton of a document against the document.
use pjs.Prelude.{◌≡◌, refl, ap, inl, inr, List, [], ◌∷◌, none, some, arith, is_some, Option-cases}
use pjs.Prelude.Text.{Text}
use pjs.JsonData.{
  JsonData, null, bool, integer, float, string, array, object, Fields, end, field, find, path,
  path_parts, split,
}
use pjs.Stream.Extract.{generate_skeleton, skeleton_fields, skeleton_value}

-- A key is in the skeleton of an object exactly when it is in the object.
find-skeleton_none : (k : Text) (o : Fields) → find k o ≡ none → find k (skeleton_fields o) ≡ none
unfolding find generate_skeleton
find-skeleton_none k end h = refl
find-skeleton_none k (field j v o) h = ground (arith, find-skeleton_none k o)

find-skeleton_some :
    (k : Text) (o : Fields) (v : JsonData)
    → find k o ≡ some v
    → find k (skeleton_fields o) ≡ some (skeleton_value v)
unfolding find generate_skeleton
find-skeleton_some k end v h = absurd (cc)
find-skeleton_some k (field j w o) v h = ground (arith, find-skeleton_some k o v)

value-paths :
    (ks : List Text) (d : JsonData)
    → is_some (path_parts ks (skeleton_value d)) ≡ is_some (path_parts ks d)
unfolding path_parts generate_skeleton
value-paths [] d = refl
value-paths (k ∷ ks) (object o) = elim (Option-cases (find k o)) [
  | inl e ↦ rw (e, find-skeleton_none k o e, path_parts)
  | inr (v, e) ↦ rw (e, find-skeleton_some k o v e, path_parts) (value-paths ks v)
]
value-paths (k ∷ ks) null = refl
value-paths (k ∷ ks) (bool b) = refl
value-paths (k ∷ ks) (integer i) = refl
value-paths (k ∷ ks) (float f) = refl
value-paths (k ∷ ks) (string s) = refl
value-paths (k ∷ ks) (array a) = refl

skeleton-paths :
    (ks : List Text) (d : JsonData)
    → is_some (path_parts ks (generate_skeleton d)) ≡ is_some (path_parts ks d)
unfolding path_parts generate_skeleton
skeleton-paths [] d = refl
skeleton-paths (k ∷ ks) (object o) = value-paths (k ∷ ks) (object o)
skeleton-paths (k ∷ ks) null = refl
skeleton-paths (k ∷ ks) (bool b) = refl
skeleton-paths (k ∷ ks) (integer i) = refl
skeleton-paths (k ∷ ks) (float f) = refl
skeleton-paths (k ∷ ks) (string s) = refl
skeleton-paths (k ∷ ks) (array a) = refl

-- The skeleton has the shape of the source: a path of keys leads somewhere in the skeleton exactly when
-- it leads somewhere in the source.
pub path-generate_skeleton :
    (s : Text) (d : JsonData) → is_some (path s (generate_skeleton d)) ≡ is_some (path s d)
unfolding path
path-generate_skeleton s d = skeleton-paths (split s) d

mutual
  unfolding generate_skeleton

  skeleton_value-twice : (d : JsonData) → skeleton_value (skeleton_value d) ≡ skeleton_value d
  skeleton_value-twice (object o) = ap object (skeleton_fields-twice o)
  skeleton_value-twice null = refl
  skeleton_value-twice (bool b) = refl
  skeleton_value-twice (integer i) = refl
  skeleton_value-twice (float f) = refl
  skeleton_value-twice (string s) = refl
  skeleton_value-twice (array a) = refl

  skeleton_fields-twice : (o : Fields) → skeleton_fields (skeleton_fields o) ≡ skeleton_fields o
  skeleton_fields-twice end = refl
  skeleton_fields-twice (field k v o) = cc (skeleton_value-twice v, skeleton_fields-twice o)

-- The skeleton of a skeleton is itself.
pub generate_skeleton_idem :
    (d : JsonData) → generate_skeleton (generate_skeleton d) ≡ generate_skeleton d
unfolding generate_skeleton
generate_skeleton_idem (object o) = ap object (skeleton_fields-twice o)
generate_skeleton_idem null = refl
generate_skeleton_idem (bool b) = refl
generate_skeleton_idem (integer i) = refl
generate_skeleton_idem (float f) = refl
generate_skeleton_idem (string s) = refl
generate_skeleton_idem (array a) = refl

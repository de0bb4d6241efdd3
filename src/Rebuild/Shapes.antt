-- ===== src/Rebuild/Shapes.antt =====
-- What has the shape of a document: its parts, and the two skeletons.
use pjs.Prelude.{◌≡◌, refl, ap, true}
use pjs.Prelude.Text.{Text}
use pjs.JsonData.{
  JsonData, null, bool, integer, float, string, array, object, Items, Fields, end, field,
}
use pjs.Streamer.{encodable, skeletonize_arrays, skeletonize_fields, skeleton_fields, placeholder}
use pjs.Rebuild.{Shape, Alike, HasKeys, EachKey}

pub Shape-array : (a : Items) (d : JsonData) → Shape (array a) d → (b : Items) × (d ≡ array b)
unfolding Shape
Shape-array a (array b) h = (b, refl)
Shape-array a null h = absurd h
Shape-array a (bool b) h = absurd h
Shape-array a (integer i) h = absurd h
Shape-array a (float f) h = absurd h
Shape-array a (string s) h = absurd h
Shape-array a (object o) h = absurd h

pub Shape-object :
    (o : Fields) (d : JsonData) → Shape (object o) d → (e : Fields) × (d ≡ object e) × Alike o e
unfolding Shape
Shape-object o (object e) h = (e, refl, h)
Shape-object o null h = absurd h
Shape-object o (bool b) h = absurd h
Shape-object o (integer i) h = absurd h
Shape-object o (float f) h = absurd h
Shape-object o (string s) h = absurd h
Shape-object o (array a) h = absurd h

pub Alike-end : (e : Fields) → Alike end e → e ≡ end
unfolding Alike
Alike-end end h = refl
Alike-end (field k v e) h = absurd h

pub Alike-field :
    (k : Text) (v : JsonData) (o e : Fields)
    → Alike (field k v o) e
    → (w : JsonData) × (e' : Fields) × (e ≡ field k w e') × Shape v w × Alike o e'
unfolding Alike
Alike-field k v o end h = absurd h
Alike-field k v o (field j w e) (same, shape, rest) =
    (w, e, ap (λ i. field i w e) same, shape, rest)

mutual
  unfolding Shape placeholder

  pub Shape-placeholder : (v : JsonData) → Shape v (placeholder v)
  Shape-placeholder (object o) = Alike-skeleton_fields o
  Shape-placeholder (array a) = tt
  Shape-placeholder null = tt
  Shape-placeholder (bool b) = tt
  Shape-placeholder (integer i) = tt
  Shape-placeholder (float f) = tt
  Shape-placeholder (string s) = tt

  pub Alike-skeleton_fields : (o : Fields) → Alike o (skeleton_fields o)
  Alike-skeleton_fields end = tt
  Alike-skeleton_fields (field k v o) = (refl, Shape-placeholder v, Alike-skeleton_fields o)

-- A key that a path holds has the skeleton of its value.
pub skeletonize_fields-first :
    (k : Text) (v : JsonData) (o : Fields)
    → encodable k ≡ true
    → skeletonize_fields (field k v o) ≡ field k (skeletonize_arrays v) (skeletonize_fields o)
unfolding skeletonize_fields
skeletonize_fields-first k v o fits = rw fits refl

mutual
  unfolding Shape skeletonize_arrays HasKeys

  pub Shape-skeletonize_arrays : (v : JsonData) → HasKeys v → Shape v (skeletonize_arrays v)
  Shape-skeletonize_arrays (object o) h = Alike-skeletonize_fields o h
  Shape-skeletonize_arrays (array a) h = tt
  Shape-skeletonize_arrays null h = tt
  Shape-skeletonize_arrays (bool b) h = tt
  Shape-skeletonize_arrays (integer i) h = tt
  Shape-skeletonize_arrays (float f) h = tt
  Shape-skeletonize_arrays (string s) h = tt

  pub Alike-skeletonize_fields : (o : Fields) → EachKey o → Alike o (skeletonize_fields o)
  Alike-skeletonize_fields end h = tt
  Alike-skeletonize_fields (field k v o) (fits, fresh, inner, rest) =
      rw fits (refl, Shape-skeletonize_arrays v inner, Alike-skeletonize_fields o rest)

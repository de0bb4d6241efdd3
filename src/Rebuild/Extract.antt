-- ===== src/Rebuild/Extract.antt =====
-- `extract_patches` on every document whose keys fit.
use pjs.Prelude.{◌<◌, ◌≡◌, refl, sym, ap, subst, List, [], ◌∷◌, ◌++◌, true, inl, inr, All-map}
use pjs.Prelude.Text.{Text}
use pjs.Outcome.{DomainResult, ok, err, DomainResult-cases}
use pjs.JsonPath.{JsonPath, key, append_key, validate_key}
use pjs.JsonData.{JsonData, null, bool, integer, float, string, array, object, Fields, end, field}
use pjs.Streamer.{
  StreamerConfig, JsonPatch, skeletonize_arrays, skeletonize_fields, encodable, extract_patches,
  extract_fields, calculate_field_priority,
}
use pjs.Rebuild.{HasKeys, EachKey}
use pjs.Rebuild.Shapes.{Alike-skeletonize_fields}
use pjs.Rebuild.Steps.{child}
use pjs.Rebuild.Appends.{Parts, Parts-array_patches}
use pjs.Rebuild.Walk.{FieldParts, FieldParts-end, FieldParts-field, first, Parts-first, run-first}

validate_key-fits : (k : Text) → encodable k ≡ true → validate_key k ≡ ok tt
unfolding append_key
validate_key-fits k fits = elim (DomainResult-cases (validate_key k)) [
  | inl (u, e) ↦ e
  | inr (why, e) ↦ absurd (cc (rw (e, encodable) at fits))
]

-- A key that one path holds, every path holds.
append_key-child :
    (base : JsonPath) (k : Text) → encodable k ≡ true → append_key base k ≡ ok (child base k)
unfolding append_key
append_key-child base k fits = rw (validate_key-fits k fits) refl

pub extract_fields-first :
    (c : StreamerConfig) (k : Text) (v : JsonData) (o : Fields) (base : JsonPath)
    → encodable k ≡ true
    → let children = extract_patches c v (child base k) in
      extract_fields c (field k v o) base
      ≡ (first (child base k) v children (calculate_field_priority k v) ∷ children)
        ++ extract_fields c o base
unfolding extract_fields
extract_fields-first c k v o base fits =
    let own = calculate_field_priority k v in
    let go : DomainResult JsonPath → List JsonPatch = λ r. elim r [
      | err e ↦ extract_fields c o base
      | ok p ↦
          let children = extract_patches c v p in
          first p v children own ∷ (children ++ extract_fields c o base)
    ] in
    ap go (append_key-child base k fits)

-- A value without parts.
Parts-leaf : (base : JsonPath) (v : JsonData) → skeletonize_arrays v ≡ v → Parts base v []
Parts-leaf base v same = record {
  below = tt;
  works = tt;
  swaps = tt;
  fills = rw same refl;
  stable = tt;
}

Parts-object :
    (base : JsonPath) (o : Fields) (ps : List JsonPatch)
    → EachKey o
    → FieldParts base o ps
    → Parts base (object o) ps
unfolding skeletonize_arrays
Parts-object base o ps each parts = record {
  below = All-map (λ p (k, s, v, at, found). (key k ∷ s, at)) ps parts.among;
  works = parts.works;
  swaps = parts.swaps;
  fills = parts.fills (skeletonize_fields o) (Alike-skeletonize_fields o each);
  stable = parts.stable;
}

mutual
  unfolding extract_patches HasKeys skeletonize_arrays

  pub extract_patches-Parts :
      (c : StreamerConfig) (v : JsonData) (base : JsonPath)
      → 0 < c.max_patch_size
      → HasKeys v
      → Parts base v (extract_patches c v base)
  extract_patches-Parts c (object o) base h keys =
      Parts-object base o (extract_fields c o base) keys (extract_fields-FieldParts c o base h keys)
  extract_patches-Parts c (array a) base h keys = Parts-array_patches c base a h
  extract_patches-Parts c null base h keys = Parts-leaf base null refl
  extract_patches-Parts c (bool b) base h keys = Parts-leaf base (bool b) refl
  extract_patches-Parts c (integer i) base h keys = Parts-leaf base (integer i) refl
  extract_patches-Parts c (float f) base h keys = Parts-leaf base (float f) refl
  extract_patches-Parts c (string s) base h keys = Parts-leaf base (string s) refl

  pub extract_fields-FieldParts :
      (c : StreamerConfig) (o : Fields) (base : JsonPath)
      → 0 < c.max_patch_size
      → EachKey o
      → FieldParts base o (extract_fields c o base)
  extract_fields-FieldParts c end base h keys = FieldParts-end base
  extract_fields-FieldParts c (field k v o) base h (fits, fresh, inner, each) =
      let below = child base k in
      let own = calculate_field_priority k v in
      let children = extract_patches c v below in
      let parts = extract_patches-Parts c v below h inner in
      let rest = extract_fields-FieldParts c o base h each in
      subst (FieldParts base (field k v o)) (sym (extract_fields-first c k v o base fits)) (
        FieldParts-field base k v o (first below v children own ∷ children)
          (extract_fields c o base) fits fresh inner each
          (Parts-first below v children own inner parts) rest
          (run-first below v children own parts))

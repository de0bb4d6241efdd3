-- ===== src/Stream/Extract/Soundness.antt =====
-- The patches of a stream against the leaves of its source.
use mathlib.Core.List.{Mem, mem-cons_self, mem-append_left, mem-append_right}
use mathlib.Core.List.Perm
use pjs.Prelude.{
  ◌≡◌, inl, inr, refl, List, [], ◌∷◌, Bool, true, false, arith, All, All-append, Bool-cases,
}
use pjs.Prelude.Text.{Text}
use pjs.Prelude.Sort.{Descends, sort_desc-Descends, sort_desc-perm, sort_desc-All}
use pjs.Outcome.{DomainError, ok, err, DomainResult-cases}
use pjs.Priority.{Priority, ge}
use pjs.JsonPath.{JsonPath, root, append_key}
use pjs.JsonData.{
  JsonData, null, bool, integer, float, string, array, object, Fields, end, field, is_object,
}
use pjs.Frame.{FramePatch, set_patch}
use pjs.Stream.Extract.{
  Patches, stream_priority, emit, collect_patches, collect_fields, extract_patches,
}

-- `FieldIn k v o`: the object has the entry `k: v`.
pub data FieldIn (k : Text) (v : JsonData) : Fields → Type 0 where
  here : {o : Fields} → FieldIn k v (field k v o)
  there : {j : Text} {w : JsonData} {o : Fields} → FieldIn k v o → FieldIn k v (field j w o)

-- `Leaf p d q v`: from `d`, which stands at `p`, keys that a path can hold lead to `v` at `q`, and
-- `v` is no object.
pub data Leaf : JsonPath → JsonData → JsonPath → JsonData → Type 0 where
  at : {p : JsonPath} (v : JsonData) → is_object v ≡ false → Leaf p v p v
  below :
      {p c q : JsonPath} {k : Text} {o : Fields} {v w : JsonData}
      → FieldIn k v o
      → append_key p k ≡ ok c
      → Leaf c v q w
      → Leaf p (object o) q w

abbrev pub entry : List (Text × Priority) → JsonPath → JsonData → FramePatch × Priority
entry rules q v = (set_patch q v, stream_priority rules q v)

module _ (rules : List (Text × Priority)) (threshold : Priority) where
  -- One field of the walk.
  collect_ok :
      (n : Text) (v : JsonData) (o : Fields) (p c : JsonPath) (out : Patches)
      → append_key p n ≡ ok c
      → collect_fields rules (field n v o) p threshold out
        ≡ collect_fields rules o p threshold (collect_patches rules v c threshold out)
  unfolding collect_patches
  collect_ok n v o p c out e = ground arith

  collect_err :
      (n : Text) (v : JsonData) (o : Fields) (p : JsonPath) {x : DomainError} (out : Patches)
      → append_key p n ≡ err x
      → collect_fields rules (field n v o) p threshold out ≡ collect_fields rules o p threshold out
  unfolding collect_patches
  collect_err n v o p out e = ground arith

  abbrev reaches : JsonPath → JsonData → Bool
  reaches q v = ge (stream_priority rules q v) threshold

  -- `P` holds of every entry that the leaves under `d` give.
  abbrev Covers : (FramePatch × Priority → Type 0) → JsonPath → JsonData → Type 0
  Covers P p d =
      (q : JsonPath) (v : JsonData) → Leaf p d q v → reaches q v ≡ true → P (entry rules q v)

  emit-All :
      (P : FramePatch × Priority → Type 0) (v : JsonData) (p : JsonPath) (out : Patches)
      → is_object v ≡ false
      → Covers P p v
      → All P out
      → All P (emit rules v p threshold out)
  emit-All P v p out flat h k = elim (Bool-cases (reaches p v)) [
    | inl e ↦ rw e (All-append P out (entry rules p v ∷ []) k (h p v (at v flat) e, tt))
    | inr e ↦ rw e k
  ]

  mutual
    unfolding collect_patches

    collect_patches-All :
        (P : FramePatch × Priority → Type 0) (d : JsonData) (p : JsonPath) (out : Patches)
        → Covers P p d
        → All P out
        → All P (collect_patches rules d p threshold out)
    collect_patches-All P (object o) p out h k =
        collect_fields-All P o p out (λ n v c i e q w l r. h q w (below i e l) r) k
    collect_patches-All P null p out h k = emit-All P null p out refl h k
    collect_patches-All P (bool b) p out h k = emit-All P (bool b) p out refl h k
    collect_patches-All P (integer i) p out h k = emit-All P (integer i) p out refl h k
    collect_patches-All P (float f) p out h k = emit-All P (float f) p out refl h k
    collect_patches-All P (string s) p out h k = emit-All P (string s) p out refl h k
    collect_patches-All P (array a) p out h k = emit-All P (array a) p out refl h k

    collect_fields-All :
        (P : FramePatch × Priority → Type 0) (o : Fields) (p : JsonPath) (out : Patches)
        → ((n : Text) (v : JsonData) (c : JsonPath)
            → FieldIn n v o
            → append_key p n ≡ ok c
            → Covers P c v)
        → All P out
        → All P (collect_fields rules o p threshold out)
    collect_fields-All P end p out h k = k
    collect_fields-All P (field n v o) p out h k = elim (DomainResult-cases (append_key p n)) [
      | inr (x, e) ↦
          rw (collect_err n v o p out e)
            (collect_fields-All P o p out (λ m w c i. h m w c (there i)) k)
      | inl (c, e) ↦ rw (collect_ok n v o p c out e) (
          collect_fields-All P o p (collect_patches rules v c threshold out)
            (λ m w c i. h m w c (there i)) (collect_patches-All P v c out (h n v c here e) k))
    ]

  -- What was collected stays.
  abbrev Keeps : (Patches → Patches) → Type 0
  Keeps f = (x : FramePatch × Priority) (out : Patches) → Mem x out → Mem x (f out)

  emit-Keeps : (v : JsonData) (p : JsonPath) → Keeps (emit rules v p threshold)
  emit-Keeps v p x out m = elim (Bool-cases (reaches p v)) [
    | inl e ↦ rw e (mem-append_left (entry rules p v ∷ []) m)
    | inr e ↦ rw e m
  ]

  mutual
    unfolding collect_patches

    collect_patches-Keeps :
        (d : JsonData) (p : JsonPath) → Keeps (collect_patches rules d p threshold)
    collect_patches-Keeps (object o) p x out m = collect_fields-Keeps o p x out m
    collect_patches-Keeps null p x out m = emit-Keeps null p x out m
    collect_patches-Keeps (bool b) p x out m = emit-Keeps (bool b) p x out m
    collect_patches-Keeps (integer i) p x out m = emit-Keeps (integer i) p x out m
    collect_patches-Keeps (float f) p x out m = emit-Keeps (float f) p x out m
    collect_patches-Keeps (string s) p x out m = emit-Keeps (string s) p x out m
    collect_patches-Keeps (array a) p x out m = emit-Keeps (array a) p x out m

    collect_fields-Keeps : (o : Fields) (p : JsonPath) → Keeps (collect_fields rules o p threshold)
    collect_fields-Keeps end p x out m = m
    collect_fields-Keeps (field n v o) p x out m = elim (DomainResult-cases (append_key p n)) [
      | inr (y, e) ↦ rw (collect_err n v o p out e) (collect_fields-Keeps o p x out m)
      | inl (c, e) ↦ rw (collect_ok n v o p c out e) (
          collect_fields-Keeps o p x (collect_patches rules v c threshold out)
            (collect_patches-Keeps v c x out m))
    ]

  emit-Mem :
      (v : JsonData) (p : JsonPath) (out : Patches)
      → reaches p v ≡ true
      → Mem (entry rules p v) (emit rules v p threshold out)
  emit-Mem v p out e = rw e (mem-append_right out mem-cons_self)

  leaf-Mem :
      (v : JsonData) (p : JsonPath) (out : Patches)
      → is_object v ≡ false
      → reaches p v ≡ true
      → Mem (entry rules p v) (collect_patches rules v p threshold out)
  unfolding collect_patches
  leaf-Mem (object o) p out flat r = absurd (cc)
  leaf-Mem null p out flat r = emit-Mem null p out r
  leaf-Mem (bool b) p out flat r = emit-Mem (bool b) p out r
  leaf-Mem (integer i) p out flat r = emit-Mem (integer i) p out r
  leaf-Mem (float f) p out flat r = emit-Mem (float f) p out r
  leaf-Mem (string s) p out flat r = emit-Mem (string s) p out r
  leaf-Mem (array a) p out flat r = emit-Mem (array a) p out r

  field-Mem :
      (x : FramePatch × Priority) (k : Text) (v : JsonData) (o : Fields) (p c : JsonPath)
      (out : Patches)
      → FieldIn k v o
      → append_key p k ≡ ok c
      → ((out : Patches) → Mem x (collect_patches rules v c threshold out))
      → Mem x (collect_fields rules o p threshold out)
  unfolding collect_patches
  field-Mem x k v end p c out i e f = elim i [ ]
  field-Mem x k v (field _ _ o) p c out here e f =
      rw (collect_ok k v o p c out e)
        (collect_fields-Keeps o p x (collect_patches rules v c threshold out) (f out))
  field-Mem x k v (field j w o) p c out (there i) e f = elim (DomainResult-cases (append_key p j)) [
    | inr (y, q) ↦ rw (collect_err j w o p out q) (field-Mem x k v o p c out i e f)
    | inl (b, q) ↦
        rw (collect_ok j w o p b out q)
          (field-Mem x k v o p c (collect_patches rules w b threshold out) i e f)
  ]

  collect_patches-Mem :
      (d : JsonData) (p q : JsonPath) (v : JsonData) (out : Patches)
      → Leaf p d q v
      → reaches q v ≡ true
      → Mem (entry rules q v) (collect_patches rules d p threshold out)
  unfolding collect_patches
  collect_patches-Mem d p _ v out (at _ flat) r = leaf-Mem d p out flat r
  collect_patches-Mem (object o) p q w out (below {k = k} {v = v} i e l) r =
      field-Mem (entry rules q w) k v o p _ out i e (λ out. collect_patches-Mem v _ q w out l r)

-- Extraction is complete: every value of the source that is no object and that is reached by keys
-- which a path can hold gives a `set` patch with its path, its value and its priority under the rules
-- of the stream, if this priority is at least the threshold.
pub extract_patches_complete :
    (rules : List (Text × Priority)) (source : JsonData) (threshold : Priority) (q : JsonPath)
    (v : JsonData)
    → Leaf root source q v
    → ge (stream_priority rules q v) threshold ≡ true
    → Mem (entry rules q v) (extract_patches rules source threshold)
unfolding extract_patches
extract_patches_complete rules source threshold q v l r =
    (Perm.mem_iff
        (sort_desc-perm (λ p. p.1.byte) (collect_patches rules source root threshold []))).1
      (collect_patches-Mem rules threshold source root q v [] l r)

-- Extraction is sound: every patch is the `set` patch of a value of the source that is no object, with
-- its path and its priority under the rules of the stream, which is at least the threshold; and no
-- patch has a greater priority than the one before it.
pub extract_patches_sound :
    (rules : List (Text × Priority)) (source : JsonData) (threshold : Priority)
    → All
        (λ x.
          (q : JsonPath) × (v : JsonData) × Leaf root source q v
          × (ge (stream_priority rules q v) threshold ≡ true)
          × (x ≡ entry rules q v))
        (extract_patches rules source threshold)
      × Descends (λ p. p.1.byte) (extract_patches rules source threshold)
unfolding extract_patches
extract_patches_sound rules source threshold =
    let found = collect_patches rules source root threshold [] in
    (
      sort_desc-All (λ p. p.1.byte) _ found
          (collect_patches-All rules threshold _ source root [] (λ q v l r. (q, v, l, r, refl)) tt),
      sort_desc-Descends (λ p. p.1.byte) found,
    )

-- ===== src/Streamer.antt =====
-- crates/pjs-core/src/stream/priority.rs: the streaming plan of a document. A `serde_json::Value` is
-- read as the same tree as `JsonData`: a number is an integer or a float.
pub mod Batches
pub mod Plan
mod Tests
use pjs.Prelude.{
  ℕ, zero, suc, ◌+◌, ◌*◌, List, [], ◌∷◌, ◌++◌, Bool, true, false, Option, none, some, leb, ltb,
  ◌==◌, ◌&&◌, ◌||◌, not, if◌then◌else◌, list_beq, is_empty, length, map,
}
use pjs.Stream.Chunks.{chunks}
use pjs.Prelude.Text.{Text, codes, len}
use pjs.Prelude.Int.{pos}
use pjs.Prelude.Sort.{sort_desc}
use pjs.Outcome.{ok, err}
use pjs.Priority.{Priority, critical, high, medium, low, background, ge}
use pjs.JsonPath.{JsonPath, root, append_key, last_key}
use pjs.JsonData.{
  JsonData, null, bool, integer, float, string, array, object, Items, nil, cons, Fields, end, field,
  find, count_items,
}

pub data PatchOperation : Type 0 where
  set : JsonData → PatchOperation
  append : List JsonData → PatchOperation
  replace : JsonData → PatchOperation
  remove : PatchOperation

pub record JsonPatch : Type 0 where
  pub path : JsonPath
  pub operation : PatchOperation
  pub priority : Priority

pub data PriorityStreamFrame : Type 0 where
  skeleton : JsonData → Priority → Bool → PriorityStreamFrame
  patch : List JsonPatch → Priority → PriorityStreamFrame
  complete : Option ℕ → PriorityStreamFrame

pub record StreamerConfig : Type 0 where
  pub detect_semantics : Bool
  pub max_patch_size : ℕ
  pub priority_threshold : Priority

abbrev pub default_config : StreamerConfig
default_config = record { detect_semantics = true; max_patch_size = 100; priority_threshold = low }

unfoldable mutual
  pub generate_skeleton : JsonData → JsonData
  generate_skeleton (object o) = object (skeleton_fields o)
  generate_skeleton (array a) = array nil
  generate_skeleton null = null
  generate_skeleton (bool b) = null
  generate_skeleton (integer i) = null
  generate_skeleton (float f) = null
  generate_skeleton (string s) = null

  pub skeleton_fields : Fields → Fields
  skeleton_fields end = end
  skeleton_fields (field k v rest) = field k (placeholder v) (skeleton_fields rest)

  pub placeholder : JsonData → JsonData
  placeholder (array a) = array nil
  placeholder (object o) = object (skeleton_fields o)
  placeholder (string s) = null
  placeholder (integer i) = integer (pos 0)
  placeholder (float f) = integer (pos 0)
  placeholder (bool b) = bool false
  placeholder null = null

-- Whether a path can hold the key.
abbrev pub encodable : Text → Bool
encodable k = elim (append_key root k) [ ok p ↦ true | err e ↦ false ]

unfoldable mutual
  pub skeletonize_arrays : JsonData → JsonData
  skeletonize_arrays (object o) = object (skeletonize_fields o)
  skeletonize_arrays (array a) = array nil
  skeletonize_arrays null = null
  skeletonize_arrays (bool b) = bool b
  skeletonize_arrays (integer i) = integer i
  skeletonize_arrays (float f) = float f
  skeletonize_arrays (string s) = string s

  pub skeletonize_fields : Fields → Fields
  skeletonize_fields end = end
  skeletonize_fields (field k v rest) =
      field k (if encodable k then skeletonize_arrays v else v) (skeletonize_fields rest)

abbrev pub key_in : Text → List Text → Bool
key_in k [] = false
key_in k (t ∷ ts) = list_beq k t || key_in k ts

abbrev pub starts : Text → Text → Bool
starts [] s = true
starts (c ∷ t) [] = false
starts (c ∷ t) (d ∷ s) = c == d && starts t s

-- `str::contains`.
unfoldable pub has_part : Text → Text → Bool
has_part t [] = is_empty t
has_part t (c ∷ s) = starts t (c ∷ s) || has_part t s

abbrev pub content_priority : JsonData → Priority
content_priority (array a) = if ltb 100 (count_items a) then background else medium
content_priority (object o) = medium
content_priority (string s) = if ltb 1000 (len s) then low else medium
content_priority _ = medium

unfoldable pub calculate_field_priority : Text → JsonData → Priority
calculate_field_priority k v =
    if key_in k (codes "id" ∷ codes "uuid" ∷ codes "status" ∷ codes "type" ∷ codes "kind" ∷ [])
    then critical
    else if key_in k
        (codes "name" ∷ codes "title" ∷ codes "label" ∷ codes "email" ∷ codes "username" ∷ [])
    then high
    else if has_part (codes "analytics") k
        || (has_part (codes "stats") k || has_part (codes "meta") k)
    then low
    else if key_in k (codes "reviews" ∷ codes "comments" ∷ codes "logs" ∷ codes "history" ∷ [])
    then background
    else content_priority v

abbrev pub array_key_priority : Option Text → Priority
array_key_priority none = medium
array_key_priority (some k) =
    if key_in k (codes "reviews" ∷ codes "comments" ∷ codes "logs" ∷ []) then background else medium

unfoldable pub calculate_array_priority : JsonPath → List JsonData → Priority
calculate_array_priority path elements =
    if ltb 50 (length elements) then background else array_key_priority (last_key path)

-- The elements of an array, as the slice that the methods get.
unfoldable pub elements : Items → List JsonData
elements nil = []
elements (cons v rest) = v ∷ elements rest

abbrev pub patch_at : JsonPath → Priority → PatchOperation → JsonPatch
patch_at p priority op = record { path = p; operation = op; priority = priority }

unfoldable pub array_patches : StreamerConfig → JsonPath → List JsonData → List JsonPatch
array_patches c path xs =
    let priority = calculate_array_priority path xs in
    if ltb 10 (length xs)
    then map (λ chunk. patch_at path priority (append chunk))
        (chunks (length xs) c.max_patch_size xs)
    else if is_empty xs
    then []
    else patch_at path priority (append xs) ∷ []

-- The highest priority of the `append` patches.
abbrev pub higher_of : Priority → Option Priority → Priority
higher_of p none = p
higher_of p (some q) = if ge q p then q else p

abbrev pub is_append : PatchOperation → Bool
is_append (append vs) = true
is_append _ = false

unfoldable pub append_ceiling : List JsonPatch → Option Priority
append_ceiling [] = none
append_ceiling (p ∷ ps) =
    if is_append p.operation
    then some (higher_of p.priority (append_ceiling ps))
    else append_ceiling ps

unfoldable mutual
  pub extract_patches : StreamerConfig → JsonData → JsonPath → List JsonPatch
  extract_patches c (object o) path = extract_fields c o path
  extract_patches c (array a) path = array_patches c path (elements a)
  extract_patches c null path = []
  extract_patches c (bool b) path = []
  extract_patches c (integer i) path = []
  extract_patches c (float f) path = []
  extract_patches c (string s) path = []

  -- A key that a path cannot hold is passed over.
  pub extract_fields : StreamerConfig → Fields → JsonPath → List JsonPatch
  extract_fields c end path = []
  extract_fields c (field k v rest) path = elim (append_key path k) [
    | err e ↦ extract_fields c rest path
    | ok p ↦
        let children = extract_patches c v p in
        patch_at p (higher_of (calculate_field_priority k v) (append_ceiling children))
          (set (skeletonize_arrays v))
        ∷ (children ++ extract_fields c rest path)
  ]

-- The loop of `analyze` over the sorted patches: a batch ends where the priority changes, and where it
-- is full.
unfoldable pub batches : ℕ → Priority → List JsonPatch → List JsonPatch → List PriorityStreamFrame
batches max_size current batch [] = if is_empty batch then [] else patch batch current ∷ []
batches max_size current batch (p ∷ ps) =
    let turn = not (p.priority.byte == current.byte) && not (is_empty batch) in
    let grown = (if turn then [] else batch) ++ p ∷ [] in
    let full = leb max_size (length grown) in
    (if turn then patch batch current ∷ [] else [])
    ++ ((if full then patch grown p.priority ∷ [] else [])
        ++ batches max_size p.priority (if full then [] else grown) ps)

unfoldable pub sorted_patches : StreamerConfig → JsonData → List JsonPatch
unfolding extract_patches
sorted_patches c json = sort_desc (λ p. p.priority.byte) (extract_patches c json root)

-- An array that is cut into chunks; a chunk size of zero is a panic.
unfoldable mutual
  pub has_long_array : JsonData → Bool
  has_long_array (object o) = has_long_field o
  has_long_array (array a) = ltb 10 (count_items a)
  has_long_array null = false
  has_long_array (bool b) = false
  has_long_array (integer i) = false
  has_long_array (float f) = false
  has_long_array (string s) = false

  pub has_long_field : Fields → Bool
  has_long_field end = false
  has_long_field (field k v rest) = (encodable k && has_long_array v) || has_long_field rest

-- `none` is the panic.
unfoldable pub analyze : StreamerConfig → JsonData → Option (List PriorityStreamFrame)
unfolding sorted_patches batches generate_skeleton has_long_array
analyze c json =
    if c.max_patch_size == 0 && has_long_array json
    then none
    else some (
        skeleton (generate_skeleton json) critical false
        ∷ (batches c.max_patch_size critical [] (sorted_patches c json) ++ complete none ∷ []))

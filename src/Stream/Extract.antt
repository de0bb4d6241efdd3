-- ===== src/Stream/Extract.antt =====
-- The walks over the source data: the skeleton of `create_skeleton_frame`, and the prioritised
-- patches of `extract_prioritized_patches`.
pub mod Soundness
pub mod Skeleton
use pjs.Prelude.{ℕ, List, [], ◌∷◌, ◌++◌, Bool, true, false, is_empty, if◌then◌else◌}
use pjs.Prelude.Text.{Text}
use pjs.Prelude.Int.{pos}
use pjs.Prelude.Sort.{sort_desc}
use pjs.Outcome.{DomainResult, ok, err}
use pjs.F64.{zero_bits}
use pjs.Priority.{Priority, ge}
use pjs.JsonPath.{JsonPath, root, append_key}
use pjs.JsonData.{
  JsonData, null, bool, integer, float, string, array, object, nil, Fields, end, field,
}
use pjs.Heuristic.{PriorityHeuristicConfig, default_config, compute_priority}
use pjs.Frame.{FramePatch, set_patch}

-- The entries of the skeleton, in the order in which the source map is read.
unfoldable mutual
  pub generate_skeleton : JsonData → JsonData
  generate_skeleton (object o) = object (skeleton_fields o)
  generate_skeleton (array a) = array nil
  generate_skeleton null = null
  generate_skeleton (bool b) = null
  generate_skeleton (integer i) = null
  generate_skeleton (float f) = null
  generate_skeleton (string s) = null

  pub skeleton_fields : Fields → Fields
  skeleton_fields end = end
  skeleton_fields (field k v rest) = field k (skeleton_value v) (skeleton_fields rest)

  pub skeleton_value : JsonData → JsonData
  skeleton_value (array a) = array nil
  skeleton_value (object o) = object (skeleton_fields o)
  skeleton_value (integer i) = integer (pos 0)
  skeleton_value (float f) = float zero_bits
  skeleton_value (string s) = null
  skeleton_value (bool b) = bool false
  skeleton_value null = null

-- `Stream::compute_priority`: the rules of the stream become the overrides of the heuristic.
unfoldable pub stream_priority : List (Text × Priority) → JsonPath → JsonData → Priority
stream_priority rules path value =
    compute_priority
      (if is_empty rules then default_config else record default_config { overrides = rules }) path
      value

abbrev pub Patches : Type 0
Patches = List (FramePatch × Priority)

abbrev pub emit : List (Text × Priority) → JsonData → JsonPath → Priority → Patches → Patches
emit rules v path threshold out =
    if ge (stream_priority rules path v) threshold
    then out ++ (set_patch path v, stream_priority rules path v) ∷ []
    else out

-- Keys that a path cannot hold are skipped, with all that stands below them.
unfoldable mutual
  pub collect_patches : List (Text × Priority) → JsonData → JsonPath → Priority → Patches → Patches
  collect_patches rules (object o) path threshold out = collect_fields rules o path threshold out
  collect_patches rules null path threshold out = emit rules null path threshold out
  collect_patches rules (bool b) path threshold out = emit rules (bool b) path threshold out
  collect_patches rules (integer i) path threshold out = emit rules (integer i) path threshold out
  collect_patches rules (float f) path threshold out = emit rules (float f) path threshold out
  collect_patches rules (string s) path threshold out = emit rules (string s) path threshold out
  collect_patches rules (array a) path threshold out = emit rules (array a) path threshold out

  pub collect_fields : List (Text × Priority) → Fields → JsonPath → Priority → Patches → Patches
  collect_fields rules end path threshold out = out
  collect_fields rules (field k v rest) path threshold out = elim (append_key path k) [
    | err e ↦ collect_fields rules rest path threshold out
    | ok child ↦
        collect_fields rules rest path threshold (collect_patches rules v child threshold out)
  ]

unfoldable pub extract_patches : List (Text × Priority) → JsonData → Priority → Patches
unfolding collect_patches
extract_patches rules source threshold =
    sort_desc (λ p. p.1.byte) (collect_patches rules source root threshold [])

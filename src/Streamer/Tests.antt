-- ===== src/Streamer/Tests.antt =====
-- Batches of concrete patches.
use mathlib.Core.List.{Perm}
use pjs.Prelude.Sort.{Descends}
use pjs.Prelude.Int.{pos}
use pjs.Prelude.{◌++◌, some, none, false, ◌≡◌, refl, arith, List, [], ◌∷◌, All}
use pjs.Prelude.Text.{codes}
use pjs.Priority.{critical, high}
use pjs.JsonPath.{key, root}
use pjs.JsonData.{JsonData, null, integer, array, object, cons, nil, field, end}
use pjs.Streamer.{
  JsonPatch, PriorityStreamFrame, skeleton, complete, default_config, generate_skeleton,
  extract_patches, analyze, set, batches, patch,
}
use pjs.Streamer.Batches.{patches_of, IsBatch}
use pjs.Streamer.Plan.{analyze-batches}

abbrev urgent : JsonPatch
urgent = record {
  path = record { segments = key (codes "id") ∷ [] };
  operation = set null;
  priority = critical;
}

abbrev usual : JsonPatch
usual = record {
  path = record { segments = key (codes "title") ∷ [] };
  operation = set null;
  priority = high;
}

abbrev plan : List JsonPatch
plan = urgent ∷ urgent ∷ urgent ∷ usual ∷ []

three_batches :
    batches 2 critical [] plan
    ≡ patch (urgent ∷ urgent ∷ []) critical
      ∷ patch (urgent ∷ []) critical
      ∷ patch (usual ∷ []) high
      ∷ []
unfolding batches
three_batches = refl

abbrev document : JsonData
document =
    object (field (codes "id") (integer (pos 1)) (field (codes "tags") (array (cons null nil)) end))

analyze-batches_example :
    (middle : List PriorityStreamFrame) × (analyze default_config document
      ≡ some
          (skeleton (generate_skeleton document) critical false ∷ (middle ++ complete none ∷ [])))
    × All (IsBatch 100) middle
    × Perm (patches_of middle) (extract_patches default_config document root)
    × Descends (λ p. p.priority.byte) (patches_of middle)
analyze-batches_example = analyze-batches default_config document (omega arith)

-- ===== src/Streamer/Plan.antt =====
-- The plan that `analyze` makes of a document, against the patches that the walk of the document found.
use mathlib.Core.List.{Perm}
use pjs.Prelude.{
  ℕ, ◌<◌, ◌≡◌, refl, arith, List, [], ◌∷◌, ◌++◌, Bool, false, some, none, All, ◌==◌, ◌&&◌,
}
use pjs.Prelude.Sort.{Descends, sort_desc-Descends, sort_desc-perm}
use pjs.Priority.{critical}
use pjs.JsonPath.{root}
use pjs.JsonData.{JsonData}
use pjs.Streamer.{
  StreamerConfig, PriorityStreamFrame, skeleton, complete, generate_skeleton, extract_patches,
  sorted_patches, batches, has_long_array, analyze,
}
use pjs.Streamer.Batches.{patches_of, IsBatch, batches-lossless}

pub not_zero : (n : ℕ) (b : Bool) → 0 < n → ((n == 0) && b) ≡ false
not_zero n b h = ground arith

-- With a maximum batch size above zero, every document has a plan: its skeleton, then batches, then the
-- completion. Each batch is not empty, is no longer than the maximum and has the priority of all its
-- patches; put together, the batches are the patches of the document, each once, in descending priority. The
-- threshold of the configuration is not read, so that no priority is too low.
pub analyze-batches :
    (c : StreamerConfig) (json : JsonData)
    → 0 < c.max_patch_size
    → (middle : List PriorityStreamFrame) × (analyze c json
        ≡ some (skeleton (generate_skeleton json) critical false ∷ (middle ++ complete none ∷ [])))
      × All (IsBatch c.max_patch_size) middle
      × Perm (patches_of middle) (extract_patches c json root)
      × Descends (λ p. p.priority.byte) (patches_of middle)
unfolding analyze sorted_patches
analyze-batches c json h =
    let ps = sorted_patches c json in
    let (same, each) = batches-lossless c.max_patch_size critical ps h in
    (
      batches c.max_patch_size critical [] ps,
      rw (not_zero c.max_patch_size (has_long_array json) h) refl,
      each,
      rw same (sort_desc-perm (λ p. p.priority.byte) (extract_patches c json root)),
      rw same (sort_desc-Descends (λ p. p.priority.byte) (extract_patches c json root)),
    )

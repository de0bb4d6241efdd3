-- ===== src/Stream/Tests.antt =====
-- Runs of a stream at concrete data.
use mathlib.Core.List.{Mem}
use pjs.Prelude.{ℕ, ◌+◌, ◌≤◌, ◌≡◌, refl, List, [], ◌∷◌, true, arith, All, map, length, text_eq}
use pjs.Prelude.Text.{codes}
use pjs.Prelude.Int.{pos}
use pjs.Prelude.Sort.{Descends}
use pjs.Outcome.{ok}
use pjs.F64.Tests.{test_float}
use pjs.Priority.{Priority, critical, high, medium, ge}
use pjs.JsonPath.{JsonPath, key, root, append_key, validate_key, contains, last}
use pjs.JsonData.{JsonData, null, integer, object, end, field}
use pjs.Heuristic.{
  compute_priority, key_priority, tier_of, matches_lower, eq_ignore_ascii_case, to_ascii_lowercase,
}
use pjs.Prelude.Map.{lookup}
use pjs.Frame.{Frame, FramePatch, set_patch}
use pjs.Stream.{Stream, default_config, new, completed, streaming, commit_patch_frames}
use pjs.Stream.Extract.{stream_priority, extract_patches}
use pjs.Stream.Extract.Soundness.{
  Leaf, at, below, here, there, entry, extract_patches_complete, extract_patches_sound,
}
use pjs.Stream.Chunks.{chunk_patches_for_commit}
use mathlib.Core.List.{flatten}
use pjs.Stream.Chunks.Laws.{chunk_patches-lossless}
use pjs.Stream.Lifecycle.{Call, starts, skeletons, completes, fails, step, run}
use pjs.Stream.Lifecycle.Counters.{Inv, run-new-Inv}
use pjs.Stream.Lifecycle.Finished.{finished_final}
use pjs.Stream.Frames.{Fits, Committed, commit_patch_frames-Committed}

abbrev pub clock : ℕ → ℕ
clock i = 1000 + i

-- `{"debug": null, "id": 7}`
abbrev pub source : JsonData
source = object (field (codes "debug") null (field (codes "id") (integer (pos 7)) end))

-- A new stream, once it has started.
abbrev pub running : Stream
running = record (new 1 2 source default_config clock) { state = streaming }

abbrev id_path : JsonPath
id_path = record { segments = key (codes "id") ∷ [] }

id-Leaf : Leaf root source id_path (integer (pos 7))
unfolding append_key validate_key contains
id-Leaf = below (there here) refl (at (integer (pos 7)) refl)

extract_patches_complete_example :
    Mem (entry [] id_path (integer (pos 7))) (extract_patches [] source critical)
unfolding stream_priority compute_priority key_priority tier_of matches_lower eq_ignore_ascii_case
    to_ascii_lowercase last lookup
extract_patches_complete_example =
    extract_patches_complete [] source critical id_path (integer (pos 7)) id-Leaf refl

extract_patches_sound_example :
    All
      (λ x.
        (q : JsonPath) × (v : JsonData) × Leaf root source q v
        × (ge (stream_priority [] q v) critical ≡ true)
        × (x ≡ entry [] q v))
      (extract_patches [] source critical)
    × Descends (λ p. p.1.byte) (extract_patches [] source critical)
extract_patches_sound_example = extract_patches_sound [] source critical

abbrev pub three : List (FramePatch × Priority)
three =
    (set_patch root null, high)
    ∷ (set_patch root null, critical)
    ∷ (set_patch id_path null, medium)
    ∷ []

chunk_patches-lossless_example :
    (length (chunk_patches_for_commit three 2) ≤ 2)
    × (flatten (map (λ c. c.1) (chunk_patches_for_commit three 2)) ≡ map (λ p. p.0) three)
chunk_patches-lossless_example = chunk_patches-lossless three 2 (omega arith)

running-Fits : Fits running
unfolding new
running-Fits = record {
  fits_sequence = omega arith;
  fits_frames = omega arith;
  fits_bytes = omega arith;
}

commit_patch_frames-Committed_example :
    (t : Stream) × (fs : List Frame) × (commit_patch_frames test_float running three 2 clock
      ≡ (t, ok fs))
    × Committed test_float running (chunk_patches_for_commit three 2) t fs
    × (length fs ≤ 2)
commit_patch_frames-Committed_example =
    commit_patch_frames-Committed test_float running three 2 clock running-Fits refl

abbrev calls : List (Call × (ℕ → ℕ))
calls = (starts, clock) ∷ (skeletons, clock) ∷ (completes, clock) ∷ []

run-new-Inv_example : Inv (run test_float (new 1 2 source default_config clock) calls)
run-new-Inv_example = run-new-Inv test_float 1 2 source default_config clock calls

abbrev finished : Stream
finished = record running { state = completed }

finished_final_example : step test_float finished (fails (codes "late")) clock ≡ finished
finished_final_example =
    finished_final test_float finished (fails (codes "late")) clock refl (λ k x e. cc)

-- ===== src/Rebuild/Delivery.antt =====
-- A document that `analyze` plans is what the client has when it has processed the frames.
use mathlib.Core.List.{append_assoc, append-nil}
use pjs.Prelude.{ℕ, ◌<◌, ◌≡◌, refl, sym, ◌∙◌, List, [], ◌∷◌, ◌++◌, false, some, none, All}
use pjs.Prelude.Result.{ok}
use pjs.Prelude.Sort.Runs.{run, Works, AllSwaps, run-sort_desc}
use pjs.Prelude.Sort.{sort_desc-All}
use pjs.Priority.{critical}
use pjs.JsonPath.{root}
use pjs.JsonData.{JsonData, null, array, object}
use pjs.Streamer.{
  StreamerConfig, PriorityStreamFrame, skeleton, complete, generate_skeleton, skeleton_fields,
  extract_patches, skeletonize_arrays, sorted_patches, batches, has_long_array, analyze,
}
use pjs.Streamer.Batches.{batches-lossless}
use pjs.Streamer.Plan.{not_zero}
use pjs.Reconstruct.{
  JsonReconstructor, add_frame, process_frame, process_all_frames, skeleton_applied,
}
use pjs.Rebuild.{step, Shape, HasKeys, IsStreamable, add_frames}
use pjs.Rebuild.Shapes.{Alike-skeleton_fields}
use pjs.Rebuild.Appends.{rank}
use pjs.Rebuild.Extract.{extract_patches-Parts, extract_fields-FieldParts}
use pjs.Rebuild.Writes.{Writes, Writes-extract_patches}
use pjs.Rebuild.Frames.{HasReceived, process_queue-frame, process_queue-batches}

-- From the skeleton that is sent first, the patches in the order of the document make the document; and
-- a sort by priority may reorder them.
record Fills (c : StreamerConfig) (json : JsonData) : Type 0 where
  works : All (Works rank (step root) (Shape json)) (extract_patches c json root)
  swaps : AllSwaps rank (step root) (Shape json) (extract_patches c json root)
  start : Shape json (generate_skeleton json)
  fills : run (step root) (extract_patches c json root) (generate_skeleton json) ≡ ok json
  writes : All Writes (extract_patches c json root)

IsStreamable-Fills :
    (c : StreamerConfig) (json : JsonData) → 0 < c.max_patch_size → IsStreamable json → Fills c json
unfolding extract_patches generate_skeleton Shape HasKeys skeletonize_arrays
IsStreamable-Fills c (object o) h each =
    let parts = extract_fields-FieldParts c o root h each in
    record {
      works = parts.works;
      swaps = parts.swaps;
      start = Alike-skeleton_fields o;
      fills = parts.fills (skeleton_fields o) (Alike-skeleton_fields o);
      writes = Writes-extract_patches c (object o) root each;
    }
IsStreamable-Fills c (array a) h u =
    let parts = extract_patches-Parts c (array a) root h tt in
    record {
      works = parts.works;
      swaps = parts.swaps;
      start = tt;
      fills = parts.fills;
      writes = Writes-extract_patches c (array a) root tt;
    }
IsStreamable-Fills c null h u = record {
  works = tt;
  swaps = tt;
  start = tt;
  fills = refl;
  writes = tt;
}
IsStreamable-Fills c _ h other = absurd other

add_frames-queue :
    (r : JsonReconstructor) (fs : List PriorityStreamFrame) (now : ℕ)
    → (add_frames r fs now).frame_queue ≡ r.frame_queue ++ fs
unfolding add_frames add_frame
add_frames-queue r [] now = sym (append-nil r.frame_queue)
add_frames-queue r (f ∷ fs) now =
    add_frames-queue (add_frame r f now) fs now ∙ append_assoc r.frame_queue (f ∷ []) fs

-- A document comes back whole. Its root is an object, an array or null; in each object outside the
-- arrays every key fits in a path, and no key comes twice; and the maximum batch size is above zero. Then
-- there is a plan of the document, and a client with an empty queue that gets the frames of the plan in
-- order and processes them all answers no error, ends complete with an empty queue, and has exactly the
-- document, whatever it had before and whatever the threshold of priority is, which `analyze` does not
-- read, although the patches came in the order of their priority.
pub analyze-HasReceived :
    (c : StreamerConfig) (json : JsonData) (r : JsonReconstructor) (now : ℕ)
    → 0 < c.max_patch_size
    → IsStreamable json
    → r.frame_queue ≡ []
    → (frames : List PriorityStreamFrame) × (analyze c json ≡ some frames)
      × HasReceived json (process_all_frames (add_frames r frames now) now)
unfolding analyze sorted_patches process_all_frames process_frame
analyze-HasReceived c json r now h fit idle =
    let plan = IsStreamable-Fills c json h fit in
    let sorted = sorted_patches c json in
    let middle = batches c.max_patch_size critical [] sorted in
    let last = middle ++ complete none ∷ [] in
    let first = skeleton (generate_skeleton json) critical false in
    let (same, each) = batches-lossless c.max_patch_size critical sorted h in
    let given = add_frames r (first ∷ last) now in
    let queue : given.frame_queue ≡ first ∷ last =
      add_frames-queue r (first ∷ last) now ∙ rw idle refl in
    let order : run (step root) sorted (generate_skeleton json) ≡ ok json =
      run-sort_desc rank (step root) (Shape json) (extract_patches c json root)
        (generate_skeleton json) plan.works plan.swaps plan.start
      ∙ plan.fills in
    (
      first ∷ last,
      rw (not_zero c.max_patch_size (has_long_array json) h) refl,
      rw queue (
          process_queue-frame given first last skeleton_applied json now refl (
            process_queue-batches c.max_patch_size
              (process_frame (record given { frame_queue = last }) first now).0 middle json now each
              (rw same (sort_desc-All rank Writes (extract_patches c json root) plan.writes))
              (rw same order))),
    )

-- ===== src/Rebuild/Frames.antt =====
-- The queue of batches and a completion, processed frame by frame.
use pjs.Prelude.{ℕ, ◌≡◌, refl, List, [], ◌∷◌, ◌++◌, true, none, All, All-parts, length}
use pjs.Prelude.Result.{Result, ok, err, ◌>>=◌, is_ok, >>=-eq-ok}
use pjs.Prelude.Sort.Runs.{run, run-append}
use pjs.Priority.{Priority}
use pjs.JsonPath.{JsonPath, root}
use pjs.JsonData.{JsonData}
use pjs.Streamer.{JsonPatch, PriorityStreamFrame, skeleton, patch, complete}
use pjs.Streamer.Batches.{patches_of, IsBatch}
use pjs.Reconstruct.{
  Error, add_u32, JsonReconstructor, ProcessResult, apply_patches, process_frame, process_queue,
  patches_applied,
}
use pjs.Rebuild.{step}
use pjs.Rebuild.Writes.{Writes}

-- The loop of a frame applies its patches as the steps from the root say.
apply_patches-run :
    (ps : List JsonPatch) (d d' : JsonData) (n : ℕ)
    → All Writes ps
    → run (step root) ps d ≡ ok d'
    → (count : ℕ) × (paths : List JsonPath) × (apply_patches ps d n ≡ (d', count, ok paths))
unfolding apply_patches
apply_patches-run [] d d' n ws e = let same : d ≡ d' = cc e in (n, [], rw same refl)
apply_patches-run (p ∷ ps) d d' n ws e =
    let (d1, e1, rest) = >>=-eq-ok (step root p d) (run (step root) ps) e in
    let (count, paths, done) = apply_patches-run ps d1 d' (add_u32 n 1) ws.1 rest in
    (count, p.path ∷ paths, rw (ws.0 d d1 e1, apply_patches, done) refl)

-- Every frame worked, and the client holds the whole document and knows it.
pub record HasReceived (d : JsonData)
    (answer : JsonReconstructor × Result Error (List ProcessResult)) : Type 0 where
  pub worked : is_ok answer.1 ≡ true
  pub state : answer.0.current_state ≡ d
  pub finished : answer.0.is_complete ≡ true
  pub emptied : answer.0.frame_queue ≡ []

is_ok-more :
    (x : ProcessResult) (rest : Result Error (List ProcessResult))
    → is_ok rest ≡ true
    → is_ok (rest >>= λ xs. ok (x ∷ xs)) ≡ true
is_ok-more x (ok xs) e = refl
is_ok-more x (err why) e = e

process_frame-patch :
    (r : JsonReconstructor) (ps : List JsonPatch) (p : Priority) (d : JsonData) (now : ℕ)
    → All Writes ps
    → run (step root) ps r.current_state ≡ ok d
    → (x : ProcessResult) × ((process_frame r (patch ps p) now).1 ≡ ok x)
      × ((process_frame r (patch ps p) now).0.current_state ≡ d)
unfolding process_frame
process_frame-patch r ps p d now ws e =
    let (count, paths, done) =
      apply_patches-run ps r.current_state d r.stats.patches_applied ws e in
    (patches_applied (length paths) p paths, rw done refl, rw done refl)

pub process_queue-frame :
    (r : JsonReconstructor) (f : PriorityStreamFrame) (fs : List PriorityStreamFrame)
    (x : ProcessResult) (d : JsonData) (now : ℕ)
    → (process_frame (record r { frame_queue = fs }) f now).1 ≡ ok x
    → HasReceived d (process_queue (process_frame (record r { frame_queue = fs }) f now).0 fs now)
    → HasReceived d (process_queue r (f ∷ fs) now)
unfolding process_queue
process_queue-frame r f fs x d now e rest =
    let next = (process_frame (record r { frame_queue = fs }) f now).0 in
    rw (e, process_queue)
      (record {
        worked = is_ok-more x (process_queue next fs now).1 rest.worked;
        state = rest.state;
        finished = rest.finished;
        emptied = rest.emptied;
      })

-- Batches, and then the completion.
pub process_queue-batches :
    (m : ℕ) (r : JsonReconstructor) (fs : List PriorityStreamFrame) (d : JsonData) (now : ℕ)
    → All (IsBatch m) fs
    → All Writes (patches_of fs)
    → run (step root) (patches_of fs) r.current_state ≡ ok d
    → HasReceived d (process_queue r (fs ++ complete none ∷ []) now)
unfolding process_queue process_frame
process_queue-batches m r [] d now is ws e =
    let same : r.current_state ≡ d = cc e in
    record { worked = refl; state = same; finished = refl; emptied = refl }
process_queue-batches m r (skeleton s p done ∷ fs) d now is ws e = absurd is.0
process_queue-batches m r (complete sum ∷ fs) d now is ws e = absurd is.0
process_queue-batches m r (patch ps p ∷ fs) d now is ws e =
    let (mine, others) = All-parts Writes ps (patches_of fs) ws in
    let whole = rw (run-append (step root) ps (patches_of fs) r.current_state) at e in
    let (d1, e1, rest) =
      >>=-eq-ok (run (step root) ps r.current_state) (run (step root) (patches_of fs)) whole in
    let queue = fs ++ complete none ∷ [] in
    let start = record r { frame_queue = queue } in
    let (x, worked, state) = process_frame-patch start ps p d1 now mine e1 in
    process_queue-frame r (patch ps p) queue x d now worked (
      process_queue-batches m (process_frame start (patch ps p) now).0 fs d now is.1 others
        (rw state rest))

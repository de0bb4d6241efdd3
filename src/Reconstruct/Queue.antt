-- ===== src/Reconstruct/Queue.antt =====
-- The frames in the queue: each is processed once, in order, or stays.
use pjs.Prelude.{
  ℕ, ◌^◌, ◌<◌, ◌≡◌, refl, sym, ap, arith, true, List, [], ◌∷◌, ◌++◌, length, inl, inr,
}
use pjs.Prelude.Result.{Result, ok, err, ◌>>=◌, is_ok, Result-cases}
use pjs.Streamer.{PriorityStreamFrame, skeleton, patch, complete}
use pjs.Reconstruct.{
  Error, add_u32, JsonReconstructor, ProcessResult, process_frame, process_queue,
  process_all_frames,
}

process_frame-keeps :
    (r : JsonReconstructor) (f : PriorityStreamFrame) (now : ℕ)
    → let r' = (process_frame r f now).0 in
      (r'.frame_queue ≡ r.frame_queue)
      × (r'.stats.frames_processed ≡ add_u32 r.stats.frames_processed 1)
unfolding process_frame
process_frame-keeps r (skeleton d p done) now = (refl, refl)
process_frame-keeps r (patch ps p) now = (refl, refl)
process_frame-keeps r (complete sum) now = (refl, refl)

-- The processed frames, a failing one included, are the front of the queue, and what is left is the rest.
pub record IsAccounted (r : JsonReconstructor) (queue : List PriorityStreamFrame)
    (answer : JsonReconstructor × Result Error (List ProcessResult)) : Type 0 where
  pub done : List PriorityStreamFrame
  pub parts : queue ≡ done ++ answer.0.frame_queue
  pub counted : answer.0.stats.frames_processed ≡ add_u32 r.stats.frames_processed (length done)
  pub emptied : is_ok answer.1 ≡ true → answer.0.frame_queue ≡ []

is_ok-tail :
    (rest : Result Error (List ProcessResult)) (x : ProcessResult)
    → is_ok (rest >>= λ xs. ok (x ∷ xs)) ≡ true
    → is_ok rest ≡ true
is_ok-tail (ok xs) x e = refl
is_ok-tail (err why) x e = e

process_queue-IsAccounted :
    (r : JsonReconstructor) (queue : List PriorityStreamFrame) (now : ℕ)
    → r.stats.frames_processed < 2 ^ 32
    → IsAccounted r queue (process_queue r queue now)
unfolding process_queue
process_queue-IsAccounted r [] now small = record {
  done = [];
  parts = refl;
  counted = omega (arith, small);
  emptied = λ e. refl;
}
process_queue-IsAccounted r (f ∷ fs) now small =
    let start = record r { frame_queue = fs } in
    let (kept, one_more) = process_frame-keeps start f now in
    let next = (process_frame start f now).0 in
    let tail = process_queue-IsAccounted next fs now (rw one_more (omega arith)) in
    elim (Result-cases (process_frame start f now).1) [
      | inr (e, failed) ↦
          rw (failed, process_queue)
            (record {
              done = f ∷ [];
              parts = ap (◌∷◌ f) (sym kept);
              counted = one_more;
              emptied = λ u. absurd (cc u);
            })
      | inl (x, worked) ↦
          rw (worked, process_queue)
            (record {
              done = f ∷ tail.done;
              parts = ap (◌∷◌ f) tail.parts;
              counted = omega (arith, tail.counted, one_more);
              emptied = λ u. tail.emptied (is_ok-tail (process_queue next fs now).1 x u);
            })
    ]

-- Processing all frames takes a front of the queue, in order, and leaves the rest in the queue; it counts
-- each frame that it took, the one that failed included, in its `u32` counter; and when it answers
-- results, nothing is left.
pub process_all_frames-IsAccounted :
    (r : JsonReconstructor) (now : ℕ)
    → r.stats.frames_processed < 2 ^ 32
    → IsAccounted r r.frame_queue (process_all_frames r now)
unfolding process_all_frames
process_all_frames-IsAccounted r now small = process_queue-IsAccounted r r.frame_queue now small

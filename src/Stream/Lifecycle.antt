-- ===== src/Stream/Lifecycle.antt =====
-- The life cycle of a stream: all the calls that change one, and any sequence of them.
pub mod Counters
pub mod Finished
use pjs.Prelude.{
  ℕ, suc, ◌+◌, ◌≤◌, ◌<◌, ◌≡◌, ◌≢◌, ◌⊎◌, refl, inl, inr, List, [], ◌∷◌, Bool, true, false, Option,
  none, some, arith, is_some, Bool-cases, not, subst,
}
use pjs.Prelude.Text.{Text}
use pjs.Outcome.{
  DomainResult, ok, err, ◌>>=◌, invalid_state_transition, invalid_stream_state, DomainResult-cases,
}
use pjs.Words.{add_u64}
use pjs.F64.{Float}
use pjs.Priority.{Priority}
use pjs.JsonData.{JsonData}
use pjs.Frame.{
  Frame, FramePatch, FrameType, skeleton, patch, complete, error, is_critical, is_high_priority,
  estimated_size, new_patch, new_skeleton, new_complete,
}
use pjs.Stream.Chunks.{chunk_patches_for_commit}
use pjs.Stream.{
  Stream, StreamState, is_streaming, preparing, streaming, completed, failed, cancelled,
  StreamConfig, StreamStats, count_frame, new, add_metadata, start_streaming, complete_stream, fail,
  cancel, update_config, create_skeleton_frame, finalize_patch_frame, commit_chunks,
  commit_patch_frames, create_patch_frames, create_completion_frame, record_frame_created,
  is_finished, is_active, extract_prioritized_patches,
}

-- The calls with `&mut self`, and the state of the stream after each.
pub data Call : Type 0 where
  annotates : Text → Text → Call
  starts completes cancels skeletons : Call
  fails : Text → Call
  configures : StreamConfig → Call
  finalizes : Priority → List FramePatch → Call
  commits : List (FramePatch × Priority) → ℕ → Call
  patches : Priority → ℕ → Call
  ends : Option Text → Call

abbrev pub after : Stream → DomainResult Stream → Stream
after s (ok t) = t
after s (err e) = s

abbrev pub after_frame : Stream → DomainResult (Stream × Frame) → Stream
after_frame s (ok (t, f)) = t
after_frame s (err e) = s

unfoldable pub step : Float → Stream → Call → (ℕ → ℕ) → Stream
step h s (annotates k v) utc = add_metadata s k v (utc 0)
step h s starts utc = after s (start_streaming s utc)
step h s completes utc = after s (complete_stream s utc)
step h s cancels utc = after s (cancel s utc)
step h s skeletons utc = after_frame s (create_skeleton_frame h s utc)
step h s (fails message) utc = after s (fail s message utc)
step h s (configures c) utc = after s (update_config s c utc)
step h s (finalizes p ps) utc = after_frame s (finalize_patch_frame h s p ps utc)
step h s (commits ps m) utc = (commit_patch_frames h s ps m utc).0
step h s (patches p m) utc = (create_patch_frames h s p m utc).0
step h s (ends c) utc = after_frame s (create_completion_frame h s c utc)

unfoldable pub run : Float → Stream → List (Call × (ℕ → ℕ)) → Stream
run h s [] = s
run h s ((c, utc) ∷ cs) = run h (step h s c utc) cs

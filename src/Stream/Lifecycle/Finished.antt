-- ===== src/Stream/Lifecycle/Finished.antt =====
-- A stream that is finished, and the calls that may follow.
use pjs.Prelude.{ℕ, ◌≡◌, ◌≢◌, refl, true, false, arith}
use pjs.Prelude.Text.{Text}
use pjs.F64.{Float}
use pjs.Stream.{
  Stream, StreamState, is_streaming, finished_state, active_state, is_preparing, start_streaming,
  complete_stream, fail, cancel, update_config, create_skeleton_frame, finalize_patch_frame,
  commit_patch_frames, create_patch_frames, create_completion_frame, is_finished,
  extract_prioritized_patches,
}
use pjs.Stream.Lifecycle.{
  Call, annotates, starts, completes, cancels, skeletons, fails, configures, finalizes, commits,
  patches, ends, step,
}

closed_states :
    (t : StreamState)
    → finished_state t ≡ true
    → (is_streaming t ≡ false) × (active_state t ≡ false) × (is_preparing t ≡ false)
closed_states t h = ground arith

-- Once a stream is completed, failed or cancelled, every call but one that adds metadata leaves it
-- exactly as it is.
pub finished_final :
    (h : Float) (s : Stream) (c : Call) (utc : ℕ → ℕ)
    → is_finished s ≡ true
    → ((k x : Text) → c ≢ annotates k x)
    → step h s c utc ≡ s
unfolding step
finished_final h s (annotates k x) utc f n = absurd (n k x refl)
finished_final h s starts utc f n = unfold start_streaming in rw ((closed_states s.state f).2)
finished_final h s completes utc f n = unfold complete_stream in rw ((closed_states s.state f).0)
finished_final h s cancels utc f n = unfold cancel in rw ((closed_states s.state f).1)
finished_final h s skeletons utc f n =
    unfold create_skeleton_frame in rw ((closed_states s.state f).0)
finished_final h s (fails message) utc f n = unfold fail in rw ((closed_states s.state f).1)
finished_final h s (configures c) utc f n = unfold update_config in rw ((closed_states s.state f).1)
finished_final h s (finalizes p ps) utc f n =
    unfold finalize_patch_frame in rw ((closed_states s.state f).0)
finished_final h s (commits ps m) utc f n =
    unfold commit_patch_frames in rw ((closed_states s.state f).0, step)
finished_final h s (patches p m) utc f n =
    unfold create_patch_frames extract_prioritized_patches in
    rw ((closed_states s.state f).0, create_patch_frames, step)
finished_final h s (ends c) utc f n =
    unfold create_completion_frame in rw ((closed_states s.state f).0)

-- ===== src/Stream/Lifecycle/Counters.antt =====
-- The counters of a stream against one another, after any history.
use pjs.Prelude.{
  ℕ, suc, ◌≡◌, inl, inr, List, [], ◌∷◌, Bool, true, Option, none, some, arith, is_some, Bool-cases,
  subst,
}
use pjs.Prelude.Text.{Text}
use pjs.Outcome.{ok, ◌>>=◌, ok_or, invalid_stream_state, DomainResult-cases}
use pjs.Words.{add_u64}
use pjs.F64.{Float}
use pjs.Priority.{Priority}
use pjs.JsonData.{JsonData}
use pjs.Frame.{
  Frame, FramePatch, FrameType, skeleton, patch, complete, error, is_critical, is_high_priority,
  estimated_size, new_patch, new_skeleton,
}
use pjs.Stream.Extract.{generate_skeleton}
use pjs.Stream.Chunks.{chunk_patches_for_commit}
use pjs.Stream.{
  Stream, is_streaming, StreamConfig, StreamStats, count_frame, new, add_metadata, start_streaming,
  complete_stream, fail, cancel, update_config, create_skeleton_frame, finalize_patch_frame,
  commit_chunks, commit_patch_frames, create_patch_frames, create_completion_frame,
  record_frame_created, is_finished, extract_prioritized_patches,
}
use pjs.Stream.Lifecycle.{
  Call, annotates, starts, completes, cancels, skeletons, fails, configures, finalizes, commits,
  patches, ends, after_frame, step, run,
}

-- What the counters say of one another, in the arithmetic of `u64`, and that the time of completion
-- stands exactly for a finished stream.
pub record Inv (s : Stream) : Type 0 where
  pub closed : is_some s.completed_at ≡ is_finished s
  pub numbered : s.next_sequence ≡ add_u64 s.stats.total_frames 1
  pub counted :
      s.stats.total_frames
      ≡ add_u64
          (add_u64 s.stats.skeleton_frames s.stats.patch_frames)
          (add_u64 s.stats.complete_frames s.stats.error_frames)
  pub sourced : is_some s.source_data ≡ true

pub new-Inv :
    (fresh session : ℕ) (d : JsonData) (c : StreamConfig) (utc : ℕ → ℕ)
    → Inv (new fresh session d c utc)
unfolding new add_u64
new-Inv fresh session d c utc = ground arith

-- One more frame of any type.
count_frame-counts :
    (k : FrameType) (c h : Bool) (size : ℕ) (st : StreamStats)
    → ((count_frame k c h size st).total_frames ≡ st.total_frames)
      × (add_u64
            (add_u64
              (count_frame k c h size st).skeleton_frames
              (count_frame k c h size st).patch_frames)
            (add_u64
              (count_frame k c h size st).complete_frames
              (count_frame k c h size st).error_frames)
          ≡ add_u64
              (add_u64
                (add_u64 st.skeleton_frames st.patch_frames)
                (add_u64 st.complete_frames st.error_frames))
              1)
unfolding add_u64
count_frame-counts skeleton c h size st = omega arith
count_frame-counts patch c h size st = omega arith
count_frame-counts complete c h size st = omega arith
count_frame-counts error c h size st = omega arith

record_frame-Inv :
    (h : Float) (s : Stream) (f : Frame) (now : ℕ) → Inv s → Inv (record_frame_created h s f now)
unfolding record_frame_created
record_frame-Inv h s f now v =
    let n =
      count_frame-counts f.frame_type (is_critical f) (is_high_priority f) (estimated_size h f)
        (record s.stats {
          total_frames = add_u64 s.stats.total_frames 1;
          total_bytes = add_u64 s.stats.total_bytes (estimated_size h f);
        }) in
    record {
      closed = v.closed;
      numbered = cc (n.0, v.numbered);
      counted = cc (n.0, n.1, v.counted);
      sourced = v.sourced;
    }

finalize-Inv :
    (h : Float) (s : Stream) (p : Priority) (ps : List FramePatch) (utc : ℕ → ℕ)
    → Inv s
    → Inv (after_frame s (finalize_patch_frame h s p ps utc))
unfolding finalize_patch_frame new_patch
finalize-Inv h s p ps utc v = elim (Bool-cases (is_streaming s.state)) [
  | inr off ↦ rw (off, after_frame) v
  | inl on ↦ rw (on, after_frame) (of_patches ps)
]
  where
    of_patches :
        (ps : List FramePatch)
        → Inv (
            after_frame s (
              new_patch s.id s.next_sequence p ps (utc 0) >>= λ f.
              ok (record_frame_created h s f (utc 1), f)))
    of_patches [] = v
    of_patches (x ∷ xs) = record_frame-Inv h s _ (utc 1) v

commit_chunks-Inv :
    (h : Float) (s : Stream) (cs : List (Priority × List FramePatch)) (utc : ℕ → ℕ)
    → Inv s
    → Inv (commit_chunks h s cs utc).0
unfolding commit_chunks
commit_chunks-Inv h s [] utc v = v
commit_chunks-Inv h s ((p, ps) ∷ cs) utc v =
    elim (DomainResult-cases (finalize_patch_frame h s p ps utc)) [
      | inr (e, q) ↦ rw (q, commit_chunks) v
      | inl ((t, f), q) ↦
          rw (q, commit_chunks)
            (commit_chunks-Inv h t cs (λ i. utc (suc (suc i)))
              (subst (λ r. Inv (after_frame s r)) q (finalize-Inv h s p ps utc v)))
    ]

commit_patch_frames-Inv :
    (h : Float) (s : Stream) (ps : List (FramePatch × Priority)) (m : ℕ) (utc : ℕ → ℕ)
    → Inv s
    → Inv (commit_patch_frames h s ps m utc).0
unfolding commit_patch_frames
commit_patch_frames-Inv h s ps m utc v = elim (Bool-cases (is_streaming s.state)) [
  | inr off ↦ rw off v
  | inl on ↦ rw on (commit_chunks-Inv h s (chunk_patches_for_commit ps m) utc v)
]

create_patch_frames-Inv :
    (h : Float) (s : Stream) (p : Priority) (m : ℕ) (utc : ℕ → ℕ)
    → Inv s
    → Inv (create_patch_frames h s p m utc).0
unfolding create_patch_frames
create_patch_frames-Inv h s p m utc v =
    elim (DomainResult-cases (extract_prioritized_patches s p)) [
      | inr (e, q) ↦ rw (q, create_patch_frames) v
      | inl (ps, q) ↦ rw (q, create_patch_frames) (commit_patch_frames-Inv h s ps m utc v)
    ]

skeleton-Inv :
    (h : Float) (s : Stream) (utc : ℕ → ℕ)
    → Inv s
    → Inv (after_frame s (create_skeleton_frame h s utc))
unfolding create_skeleton_frame
skeleton-Inv h s utc v = elim (Bool-cases (is_streaming s.state)) [
  | inr off ↦ rw (off, after_frame) v
  | inl on ↦ rw (on, after_frame) (of_source s.source_data)
]
  where
    of_source :
        (o : Option JsonData)
        → Inv (
            after_frame s (
              ok_or o invalid_stream_state >>= λ d.
              let frame = new_skeleton s.id s.next_sequence (generate_skeleton d) (utc 0) in
              ok (record_frame_created h s frame (utc 1), frame)))
    of_source none = v
    of_source (some d) = record_frame-Inv h s _ (utc 1) v

completion-Inv :
    (h : Float) (s : Stream) (c : Option Text) (utc : ℕ → ℕ)
    → Inv s
    → Inv (after_frame s (create_completion_frame h s c utc))
unfolding create_completion_frame
completion-Inv h s c utc v = elim (Bool-cases (is_streaming s.state)) [
  | inr off ↦ rw (off, after_frame) v
  | inl on ↦ rw (on, after_frame) (record_frame-Inv h s _ (utc 1) v)
]

-- Every call keeps the invariant, whatever it answers.
pub step-Inv : (h : Float) (s : Stream) (c : Call) (utc : ℕ → ℕ) → Inv s → Inv (step h s c utc)
unfolding step
step-Inv h s (annotates k x) utc v =
    unfold add_metadata in
    record { closed = v.closed; numbered = v.numbered; counted = v.counted; sourced = v.sourced }
step-Inv h s starts utc v = unfold start_streaming in ground arith
step-Inv h s completes utc v = unfold complete_stream in ground arith
step-Inv h s cancels utc v = unfold cancel in ground arith
step-Inv h s skeletons utc v = skeleton-Inv h s utc v
step-Inv h s (fails message) utc v = unfold fail add_metadata in ground arith
step-Inv h s (configures c) utc v = unfold update_config in ground arith
step-Inv h s (finalizes p ps) utc v = finalize-Inv h s p ps utc v
step-Inv h s (commits ps m) utc v = commit_patch_frames-Inv h s ps m utc v
step-Inv h s (patches p m) utc v = create_patch_frames-Inv h s p m utc v
step-Inv h s (ends c) utc v = completion-Inv h s c utc v

-- So after any history of a stream its sequence numbers run one ahead of its frames, the frames are
-- those of the four types together (in the arithmetic of `u64`), it still has its source data, and
-- it has a time of completion exactly if it is finished.
pub run-Inv : (h : Float) (s : Stream) (cs : List (Call × (ℕ → ℕ))) → Inv s → Inv (run h s cs)
unfolding run
run-Inv h s [] v = v
run-Inv h s ((c, utc) ∷ cs) v = run-Inv h (step h s c utc) cs (step-Inv h s c utc v)

-- After any calls on a new stream, with any outcomes: the time of completion is set exactly when the
-- stream is finished, the next sequence number is one more than the number of frames, the numbers of
-- the four types of frames add up to it (in the arithmetic of `u64`), and the source is still there.
pub run-new-Inv :
    (h : Float) (fresh session : ℕ) (d : JsonData) (c : StreamConfig) (utc : ℕ → ℕ)
    (cs : List (Call × (ℕ → ℕ)))
    → Inv (run h (new fresh session d c utc) cs)
run-new-Inv h fresh session d c utc cs = run-Inv h _ cs (new-Inv fresh session d c utc)

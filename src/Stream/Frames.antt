-- ===== src/Stream/Frames.antt =====
-- The batch of frames that a stream makes: numbering, byte counts, priorities and bounds.
use pjs.Prelude.{
  ℕ, suc, ◌+◌, ◌≤◌, ◌<◌, ◌≡◌, refl, sym, ap, subst, ◌∙◌, inl, inr, List, [], ◌∷◌, Bool, true, false,
  arith, All, is_empty, length, Bool-cases,
}
use mathlib.Core.Path.{subst₂}
use pjs.Outcome.{ok, DomainResult-cases}
use pjs.Words.{add_u64, u64_mod}
use pjs.F64.{Float}
use pjs.Priority.{Priority}
use pjs.Frame.{
  Frame, FramePatch, FrameType, patch, new_patch, is_critical, is_high_priority, estimated_size,
}
use pjs.Stream.{
  Stream, StreamStats, is_streaming, count_frame, record_frame_created, finalize_patch_frame,
  commit_chunks, commit_patch_frames,
}
use pjs.Stream.Chunks.{chunk_patches_for_commit}
use pjs.Stream.Chunks.Laws.{chunk_patches-nonempty, chunk_patches-flatten}

abbrev pub sizes : Float → List Frame → ℕ
sizes h [] = 0
sizes h (f ∷ fs) = estimated_size h f + sizes h fs

-- The frames in order: numbered from `n` on without a gap, each a patch frame of this stream with
-- the priority of its group.
abbrev pub Numbered : ℕ → ℕ → List (Priority × List FramePatch) → List Frame → Type 0
Numbered id n [] [] = Unit
Numbered id n ((p, ps) ∷ cs) (f ∷ fs) =
    (f.sequence ≡ n)
    × (f.stream_id ≡ id)
    × (f.priority ≡ p)
    × (f.frame_type ≡ patch)
    × Numbered id (add_u64 n 1) cs fs
Numbered id n _ _ = ⊥

-- What a stream is after frames were recorded: `n` more frames and `b` more bytes, and nothing else
-- that a reader of the stream sees but its other statistics and the time of its update.
pub record Grew (s t : Stream) (n b : ℕ) : Type 0 where
  pub same_id : t.id ≡ s.id
  pub same_state : t.state ≡ s.state
  pub same_source : t.source_data ≡ s.source_data
  pub same_config : t.config ≡ s.config
  pub same_end : t.completed_at ≡ s.completed_at
  pub same_start : t.created_at ≡ s.created_at
  pub sequence : t.next_sequence ≡ add_u64 s.next_sequence n
  pub frames : t.stats.total_frames ≡ add_u64 s.stats.total_frames n
  pub bytes : t.stats.total_bytes ≡ add_u64 s.stats.total_bytes b

count_frame-totals :
    (k : FrameType) (c h : Bool) (size : ℕ) (st : StreamStats)
    → ((count_frame k c h size st).total_frames ≡ st.total_frames)
      × ((count_frame k c h size st).total_bytes ≡ st.total_bytes)
count_frame-totals FrameType.skeleton c h size st = (refl, refl)
count_frame-totals patch c h size st = (refl, refl)
count_frame-totals FrameType.complete c h size st = (refl, refl)
count_frame-totals FrameType.error c h size st = (refl, refl)

pub record_frame-Grew :
    (h : Float) (s : Stream) (f : Frame) (now : ℕ)
    → Grew s (record_frame_created h s f now) 1 (estimated_size h f)
unfolding record_frame_created
record_frame-Grew h s f now =
    let n =
      count_frame-totals f.frame_type (is_critical f) (is_high_priority f) (estimated_size h f)
        (record s.stats {
          total_frames = add_u64 s.stats.total_frames 1;
          total_bytes = add_u64 s.stats.total_bytes (estimated_size h f);
        }) in
    record {
      same_id = refl;
      same_state = refl;
      same_source = refl;
      same_config = refl;
      same_end = refl;
      same_start = refl;
      sequence = refl;
      frames = n.0;
      bytes = n.1;
    }

add_u64_assoc : (a b c : ℕ) → add_u64 (add_u64 a b) c ≡ add_u64 a (b + c)
unfolding add_u64
add_u64_assoc a b c = omega arith

-- The range of the counters, which `u64` has.
pub record Fits (s : Stream) : Type 0 where
  pub fits_sequence : s.next_sequence < u64_mod
  pub fits_frames : s.stats.total_frames < u64_mod
  pub fits_bytes : s.stats.total_bytes < u64_mod

add_u64_zero : (a : ℕ) → a < u64_mod → a ≡ add_u64 a 0
unfolding add_u64
add_u64_zero a h = omega arith

Grew-refl : (s : Stream) → Fits s → Grew s s 0 0
Grew-refl s v = record {
  same_id = refl;
  same_state = refl;
  same_source = refl;
  same_config = refl;
  same_end = refl;
  same_start = refl;
  sequence = add_u64_zero _ v.fits_sequence;
  frames = add_u64_zero _ v.fits_frames;
  bytes = add_u64_zero _ v.fits_bytes;
}

add_u64-suc : (a n : ℕ) → add_u64 (add_u64 a 1) n ≡ add_u64 a (suc n)
unfolding add_u64
add_u64-suc a n = omega arith

Grew-suc : (s t u : Stream) (n b c : ℕ) → Grew s t 1 b → Grew t u n c → Grew s u (suc n) (b + c)
Grew-suc s t u n b c g k = record {
  same_id = cc (g.same_id, k.same_id);
  same_state = cc (g.same_state, k.same_state);
  same_source = cc (g.same_source, k.same_source);
  same_config = cc (g.same_config, k.same_config);
  same_end = cc (g.same_end, k.same_end);
  same_start = cc (g.same_start, k.same_start);
  sequence = cc (g.sequence, k.sequence, add_u64-suc s.next_sequence n);
  frames = cc (g.frames, k.frames, add_u64-suc s.stats.total_frames n);
  bytes = cc (g.bytes, k.bytes, add_u64_assoc s.stats.total_bytes b c);
}

Grew-Fits : (s t : Stream) (n b : ℕ) → Grew s t n b → Fits t
unfolding add_u64
Grew-Fits s t n b g = omega (arith, g.sequence, g.frames, g.bytes)

-- A group that is not empty becomes a frame of a streaming stream.
pub finalize_lem :
    (h : Float) (s : Stream) (p : Priority) (ps : List FramePatch) (utc : ℕ → ℕ)
    → is_streaming s.state ≡ true
    → is_empty ps ≡ false
    → (t : Stream) × (f : Frame) × (finalize_patch_frame h s p ps utc ≡ ok (t, f))
      × Grew s t 1 (estimated_size h f)
      × (f.sequence ≡ s.next_sequence)
      × (f.stream_id ≡ s.id)
      × (f.priority ≡ p)
      × (f.frame_type ≡ patch)
unfolding finalize_patch_frame new_patch
finalize_lem h s p [] utc on n = absurd (cc)
finalize_lem h s p (x ∷ ps) utc on n =
    rw on (_, _, refl, record_frame-Grew h s _ (utc 1), refl, refl, refl, refl)

-- What it means that a batch was committed.
abbrev pub Committed :
    Float → Stream → List (Priority × List FramePatch) → Stream → List Frame → Type 0
Committed h s cs t fs = Numbered s.id s.next_sequence cs fs × Grew s t (length fs) (sizes h fs)

length-Numbered :
    (id n : ℕ) (cs : List (Priority × List FramePatch)) (fs : List Frame)
    → Numbered id n cs fs
    → length fs ≡ length cs
length-Numbered id n [] [] h = refl
length-Numbered id n [] (f ∷ fs) h = absurd h
length-Numbered id n (c ∷ cs) [] h = absurd h
length-Numbered id n (c ∷ cs) (f ∷ fs) h = ap suc (length-Numbered id (add_u64 n 1) cs fs h.4)

Numbered-at :
    {i j m n : ℕ} (cs : List (Priority × List FramePatch)) (fs : List Frame)
    → i ≡ j
    → m ≡ n
    → Numbered i m cs fs
    → Numbered j n cs fs
Numbered-at cs fs p q h = subst₂ (λ i m. Numbered i m cs fs) p q h

commit_chunks-Committed :
    (h : Float) (s : Stream) (cs : List (Priority × List FramePatch)) (utc : ℕ → ℕ)
    → Fits s
    → is_streaming s.state ≡ true
    → All (λ c. is_empty c.1 ≡ false) cs
    → (t : Stream) × (fs : List Frame) × (commit_chunks h s cs utc ≡ (t, ok fs))
      × Committed h s cs t fs
unfolding commit_chunks
commit_chunks-Committed h s [] utc v on n = (s, [], refl, (tt, Grew-refl s v))
commit_chunks-Committed h s ((p, ps) ∷ cs) utc v on n =
    let (t, f, e, g, q, i, r, k) = finalize_lem h s p ps utc on n.0 in
    let still : is_streaming t.state ≡ true =
      subst (λ x. is_streaming x ≡ true) (sym g.same_state) on in
    let (u, fs, e', (m, g')) =
      commit_chunks-Committed h t cs (λ i. utc (suc (suc i))) (Grew-Fits s t 1 _ g) still n.1 in
    (
      u,
      f ∷ fs,
      rw (e, commit_chunks, e'),
      (
        (q, i, r, k, Numbered-at cs fs g.same_id g.sequence m),
        Grew-suc s t u (length fs) (estimated_size h f) (sizes h fs) g g',
      ),
    )

-- A streaming stream commits every batch in full: the call succeeds; the frames, one for each group
-- and at most `max_frames`, are patch frames of this stream, with the priorities of the groups and
-- consecutive numbers from `next_sequence` on; and the stream's counters of frames and bytes have
-- grown by exactly these frames.
pub commit_patch_frames-Committed :
    (h : Float) (s : Stream) (ps : List (FramePatch × Priority)) (max_frames : ℕ) (utc : ℕ → ℕ)
    → Fits s
    → is_streaming s.state ≡ true
    → (t : Stream) × (fs : List Frame) × (commit_patch_frames h s ps max_frames utc ≡ (t, ok fs))
      × Committed h s (chunk_patches_for_commit ps max_frames) t fs
      × (length fs ≤ max_frames)
unfolding commit_patch_frames
commit_patch_frames-Committed h s ps max_frames utc v on =
    let (t, fs, e, c) =
      commit_chunks-Committed h s (chunk_patches_for_commit ps max_frames) utc v on
        (chunk_patches-nonempty ps max_frames) in
    (
      t,
      fs,
      rw (on, e),
      c,
      omega (
        arith,
        length-Numbered s.id s.next_sequence (chunk_patches_for_commit ps max_frames) fs c.0,
        (chunk_patches-flatten ps max_frames).0,
      ),
    )

pub finalize-state :
    (h : Float) (s : Stream) (p : Priority) (ps : List FramePatch) (utc : ℕ → ℕ) (t : Stream)
    (f : Frame)
    → finalize_patch_frame h s p ps utc ≡ ok (t, f)
    → t.state ≡ s.state
unfolding finalize_patch_frame new_patch record_frame_created
finalize-state h s p [] utc t f e = ground arith
finalize-state h s p (x ∷ ps) utc t f e = ground arith

commit_chunks-state :
    (h : Float) (s : Stream) (cs : List (Priority × List FramePatch)) (utc : ℕ → ℕ)
    → (commit_chunks h s cs utc).0.state ≡ s.state
unfolding commit_chunks
commit_chunks-state h s [] utc = refl
commit_chunks-state h s ((p, ps) ∷ cs) utc =
    elim (DomainResult-cases (finalize_patch_frame h s p ps utc)) [
      | inr (e, q) ↦ rw (q, commit_chunks)
      | inl ((t, f), q) ↦
          rw (q, commit_chunks)
            (commit_chunks-state h t cs (λ i. utc (suc (suc i)))
              ∙ finalize-state h s p ps utc t f q)
    ]

-- Making frames never changes the state of a stream, on success or on error.
pub commit_patch_frames-state :
    (h : Float) (s : Stream) (ps : List (FramePatch × Priority)) (m : ℕ) (utc : ℕ → ℕ)
    → (commit_patch_frames h s ps m utc).0.state ≡ s.state
unfolding commit_patch_frames
commit_patch_frames-state h s ps m utc = elim (Bool-cases (is_streaming s.state)) [
  | inr off ↦ rw off
  | inl on ↦ rw on (commit_chunks-state h s (chunk_patches_for_commit ps m) utc)
]

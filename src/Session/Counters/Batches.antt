-- ===== src/Session/Counters/Batches.antt =====
-- The operations that make frames, and the stream counters of a session.
use pjs.Prelude.{
  ℕ, suc, ◌≡◌, refl, subst, inl, inr, List, [], ◌∷◌, some, Option-cases, Bool-cases, ◌==◌, nat_eq,
}
use pjs.Prelude.Map.{lookup, update, length-update}
use pjs.Outcome.{DomainResult, ok, err, guard, DomainResult-cases, >>=-eq-ok, ok-fst}
use pjs.F64.{Float}
use pjs.Priority.{Priority}
use pjs.Frame.{Frame}
use pjs.Stream.{Stream, commit_patch_frames, finalize_patch_frame}
use pjs.Stream.Frames.{commit_patch_frames-state, finalize-state}
use pjs.Session.{StreamSession}
use pjs.Session.Basics.{is_active}
use pjs.Session.Streams.{
  put, batched, finish_commit, extract_prioritized_patches_for_stream,
  commit_patch_frames_for_stream, create_stream_patch_frames,
}
use pjs.Session.Batch.{
  commit_priority_frames, create_priority_frames, extract_prioritized_patches_for_active_streams,
  finalize_kept, candidates, surviving, Candidate, member, Patches,
}
use pjs.Session.Counters.{
  Inv, maps-SameCounts, SameCounts-Inv, SameMaps, same_streams, tally-same_state,
}

batched-Inv : (s : StreamSession) (n b : ℕ) (now : ℕ → ℕ) → Inv s → Inv (batched s n b now)
batched-Inv s n b now v = elim (Bool-cases (n == 0)) [
  | inl hit ↦ rw hit record {
    limit = v.limit;
    room = v.room;
    total = v.total;
    active = v.active;
    completed = v.completed;
    failed = v.failed;
  }
  | inr miss ↦ rw miss record {
    limit = v.limit;
    room = v.room;
    total = v.total;
    active = v.active;
    completed = v.completed;
    failed = v.failed;
  }
]

finish_commit-Inv :
    (s : StreamSession) (id : ℕ) (u : Stream) (r : Stream × DomainResult (List Frame)) (now : ℕ → ℕ)
    → Inv s
    → lookup id s.streams ≡ some u
    → r.0.state ≡ u.state
    → Inv (finish_commit s id u r now).0
finish_commit-Inv s id u (t, err e) now v found same =
    SameCounts-Inv s (put s id t) (same_streams s id u t found same) v
finish_commit-Inv s id u (t, ok frames) now v found same =
    batched-Inv (put s id t) _ _ now
      (SameCounts-Inv s (put s id t) (same_streams s id u t found same) v)

pub commit_patch_frames_for_stream-Inv :
    (h : Float) (s : StreamSession) (id : ℕ) (ps : Patches) (m : ℕ) (now utc : ℕ → ℕ)
    → Inv s
    → Inv (commit_patch_frames_for_stream h s id ps m now utc).0
unfolding commit_patch_frames_for_stream
commit_patch_frames_for_stream-Inv h s id ps m now utc v =
    elim (Option-cases (lookup id s.streams)) [
      | inl gone ↦ rw (gone, commit_patch_frames_for_stream) v
      | inr (u, found) ↦
          rw (found, commit_patch_frames_for_stream)
            (finish_commit-Inv s id u (commit_patch_frames h u ps m utc) now v found
              (commit_patch_frames-state h u ps m utc))
    ]

pub create_stream_patch_frames-Inv :
    (h : Float) (s : StreamSession) (id : ℕ) (threshold : Priority) (m : ℕ) (now utc : ℕ → ℕ)
    → Inv s
    → Inv (create_stream_patch_frames h s id threshold m now utc).0
unfolding create_stream_patch_frames
create_stream_patch_frames-Inv h s id threshold m now utc v =
    elim (DomainResult-cases (extract_prioritized_patches_for_stream s id threshold)) [
      | inl (ps, e) ↦
          rw (e, create_stream_patch_frames)
            (commit_patch_frames_for_stream-Inv h s id ps m now utc v)
      | inr (x, e) ↦ rw (e, create_stream_patch_frames) v
    ]

-- The frames of a batch change no stream's state.
finalize_kept-SameMaps :
    (h : Float) (m : List (ℕ × Stream)) (keep : List ℕ) (i : ℕ) (cs : List Candidate) (utc : ℕ → ℕ)
    → SameMaps m (finalize_kept h m keep i cs utc).0
unfolding finalize_kept
finalize_kept-SameMaps h m keep i [] utc = (refl, refl, refl, refl)
finalize_kept-SameMaps h m keep i ((p, id, ps) ∷ cs) utc =
    let skip = finalize_kept-SameMaps h m keep (suc i) cs utc in
    elim (Bool-cases (member i keep)) [
      | inr out ↦ rw (out, finalize_kept) skip
      | inl kept ↦ elim (Option-cases (lookup id m)) [
        | inl gone ↦ rw (kept, gone, finalize_kept) skip
        | inr (u, found) ↦ elim (DomainResult-cases (finalize_patch_frame h u p ps utc)) [
          | inr (x, e) ↦ rw (kept, found, e, finalize_kept) skip
          | inl ((t, f), e) ↦
              let next =
                finalize_kept-SameMaps h (update id t m) keep (suc i) cs (λ n. utc (suc (suc n))) in
              let (a, c, d) = tally-same_state id u t m found (finalize-state h u p ps utc t f e) in
              rw (kept, found, e, finalize_kept)
                (cc (next.0, length-update id t m), cc (next.1, a), cc (next.2, c), cc (next.3, d))
        ]
      ]
    ]

pub commit_priority_frames-Inv :
    (h : Float) (s t : StreamSession) (ex : List (ℕ × Patches)) (size : ℕ) (now utc : ℕ → ℕ)
    (fs : List Frame)
    → Inv s
    → commit_priority_frames h s ex size now utc ≡ ok (t, fs)
    → Inv t
unfolding commit_priority_frames
commit_priority_frames-Inv h s t ex size now utc fs v e =
    let (_, _, r) = >>=-eq-ok (guard (is_active s (now 0)) _) _ e in
    subst Inv (ok-fst r) (
      batched-Inv (record s { streams = _ }) _ _ (λ i. now (suc i))
        (SameCounts-Inv s _
          (maps-SameCounts s _ (
            finalize_kept-SameMaps h s.streams (surviving (candidates s.streams ex) size) 0
              (candidates s.streams ex) utc))
          v))

pub create_priority_frames-Inv :
    (h : Float) (s t : StreamSession) (threshold : Priority) (size : ℕ) (now utc : ℕ → ℕ)
    (fs : List Frame)
    → Inv s
    → create_priority_frames h s threshold size now utc ≡ ok (t, fs)
    → Inv t
unfolding create_priority_frames
create_priority_frames-Inv h s t threshold size now utc fs v e =
    commit_priority_frames-Inv h s t (extract_prioritized_patches_for_active_streams s threshold)
      size now utc fs v e

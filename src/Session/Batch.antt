-- ===== src/Session/Batch.antt =====
-- Frames across all streams of a session, the most important first.
pub mod Selection
use pjs.Prelude.{
  ℕ, zero, suc, ◌+◌, List, [], ◌∷◌, ◌++◌, Bool, true, false, Option, none, some, not, map, ◌==◌,
  ◌||◌, length, take, get_elem?, if◌then◌else◌, nat_eq,
}
use pjs.Prelude.Map.{lookup, update}
use pjs.Prelude.Sort.{sort_desc}
use pjs.Outcome.{DomainResult, ok, err, ◌>>=◌, ◌>>◌, guard, invalid_session_state}
use pjs.F64.{Float}
use pjs.Priority.{Priority}
use pjs.Frame.{Frame, FramePatch}
use pjs.Stream.{Stream, is_streaming, extract_prioritized_patches, finalize_patch_frame}
use pjs.Stream.Chunks.{chunk_patches_for_commit}
use pjs.Stream.Frames.{sizes}
use pjs.Session.{StreamSession}
use pjs.Session.Basics.{is_active}
use pjs.Session.Streams.{batched}

abbrev pub Patches : Type 0
Patches = List (FramePatch × Priority)

-- The `filter` and `filter_map` over the streams.
unfoldable pub extract_streaming : List (ℕ × Stream) → Priority → List (ℕ × Patches)
extract_streaming [] threshold = []
extract_streaming ((id, t) ∷ m) threshold =
    if is_streaming t.state
    then elim (extract_prioritized_patches t threshold) [
      | ok patches ↦ (id, patches) ∷ extract_streaming m threshold
      | err e ↦ extract_streaming m threshold
    ]
    else extract_streaming m threshold

abbrev pub extract_prioritized_patches_for_active_streams :
    StreamSession → Priority → List (ℕ × Patches)
extract_prioritized_patches_for_active_streams s threshold = extract_streaming s.streams threshold

abbrev pub Candidate : Type 0
Candidate = Priority × ℕ × List FramePatch

abbrev pub of_chunk : ℕ → Priority × List FramePatch → Candidate
of_chunk id (priority, patches) = (priority, id, patches)

-- Five frames for each stream at most; a stream that is gone or no longer streaming is skipped.
unfoldable pub candidates : List (ℕ × Stream) → List (ℕ × Patches) → List Candidate
candidates streams [] = []
candidates streams ((id, patches) ∷ rest) = elim (lookup id streams) [
  | none ↦ candidates streams rest
  | some t ↦
      if is_streaming t.state
      then map (of_chunk id) (chunk_patches_for_commit patches 5) ++ candidates streams rest
      else candidates streams rest
]

unfoldable pub range : ℕ → ℕ → List ℕ
range zero i = []
range (suc n) i = i ∷ range n (suc i)

abbrev pub priority_at : List Candidate → ℕ → ℕ
priority_at cs i = elim (get_elem? cs i) [ none ↦ 0 | some c ↦ c.0.byte ]

-- The indices of the candidates that survive.
unfoldable pub surviving : List Candidate → ℕ → List ℕ
unfolding range
surviving cs batch_size = take batch_size (sort_desc (priority_at cs) (range (length cs) 0))

abbrev pub member : ℕ → List ℕ → Bool
member i [] = false
member i (j ∷ js) = j == i || member i js

abbrev pub Finished : Type 0
Finished = Priority × ℕ × Frame

-- The loop that makes the frames, in the order of the candidates. A frame takes two readings of the
-- system clock.
unfoldable pub finalize_kept :
    Float
    → List (ℕ × Stream)
    → List ℕ
    → ℕ
    → List Candidate
    → (ℕ → ℕ)
    → List (ℕ × Stream) × List Finished
finalize_kept h streams keep i [] utc = (streams, [])
finalize_kept h streams keep i ((priority, id, patches) ∷ cs) utc =
    let skip = finalize_kept h streams keep (suc i) cs utc in
    let made = λ (t : Stream) (frame : Frame).
      let (streams', frames) =
        finalize_kept h (update id t streams) keep (suc i) cs (λ n. utc (suc (suc n))) in
      let all : List (ℕ × Stream) × List Finished = (streams', (priority, id, frame) ∷ frames) in
      all in
    if member i keep
    then elim (lookup id streams) [
      | none ↦ skip
      | some t ↦ elim (finalize_patch_frame h t priority patches utc) [
        | err e ↦ skip
        | ok (t', frame) ↦ made t' frame
      ]
    ]
    else skip

unfoldable pub commit_priority_frames :
    Float
    → StreamSession
    → List (ℕ × Patches)
    → ℕ
    → (ℕ → ℕ)
    → (ℕ → ℕ)
    → DomainResult (StreamSession × List Frame)
commit_priority_frames h s extracted batch_size now utc = do
  guard (is_active s (now 0)) invalid_session_state
  let cs = candidates s.streams extracted
  let made = finalize_kept h s.streams (surviving cs batch_size) 0 cs utc
  let all_frames = map (λ f. f.2) (sort_desc (λ f. f.0.byte) made.1)
  ok (
    batched (record s { streams = made.0 }) (length all_frames) (sizes h all_frames)
        (λ i. now (suc i)),
    all_frames,
  )

unfoldable pub create_priority_frames :
    Float
    → StreamSession
    → Priority
    → ℕ
    → (ℕ → ℕ)
    → (ℕ → ℕ)
    → DomainResult (StreamSession × List Frame)
create_priority_frames h s threshold batch_size now utc =
    commit_priority_frames h s (extract_prioritized_patches_for_active_streams s threshold)
      batch_size now utc

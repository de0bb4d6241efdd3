-- ===== src/Session/Batch/Selection.antt =====
-- What a batch across streams holds: its size, its order and its count.
use pjs.Prelude.{
  ℕ, zero, suc, ◌+◌, ◌≤◌, ◌<◌, ◌≡◌, refl, inl, inr, List, [], ◌∷◌, arith, All, length, length-take,
  length-map, map, Bool-cases, Option-cases, ◌==◌, nat_eq, if◌then◌else◌,
}
use pjs.Prelude.Map.{lookup, update}
use pjs.Prelude.Sort.{sort_desc, Descends, sort_desc-Descends, sort_desc-All, length-sort_desc}
use pjs.Outcome.{ok, guard, DomainResult-cases, >>=-eq-ok, ok-fst, ok-snd}
use pjs.Session.Streams.{batched}
use pjs.F64.{Float}
use pjs.Priority.{Priority}
use pjs.Frame.{Frame, FramePatch, new_patch}
use pjs.Stream.{Stream, finalize_patch_frame}
use pjs.Stream.Frames.{sizes}
use pjs.Words.{add_u64}
use pjs.Session.{StreamSession}
use pjs.Session.Basics.{is_active}
use pjs.Session.Batch.{
  Candidate, Finished, Patches, candidates, surviving, range, member, finalize_kept, priority_at,
  commit_priority_frames,
}

-- How many of the indices from `i` on, below `i + n`, are kept.
abbrev kept_from : List ℕ → ℕ → ℕ → ℕ
kept_from keep i zero = 0
kept_from keep i (suc n) = (if member i keep then 1 else 0) + kept_from keep (suc i) n

kept_from_nil : (i n : ℕ) → kept_from [] i n ≡ 0
kept_from_nil i zero = refl
kept_from_nil i (suc n) = omega (arith, kept_from_nil (suc i) n)

-- One more index to keep is counted once at most.
kept_from_out : (j : ℕ) (js : List ℕ) (i n : ℕ) → j < i → kept_from (j ∷ js) i n ≡ kept_from js i n
kept_from_out j js i zero h = refl
kept_from_out j js i (suc n) h = ground (arith, kept_from_out j js (suc i) n)

kept_from_cons : (j : ℕ) (js : List ℕ) (i n : ℕ) → kept_from (j ∷ js) i n ≤ suc (kept_from js i n)
kept_from_cons j js i zero = omega arith
kept_from_cons j js i (suc n) =
    ground (arith, kept_from_cons j js (suc i) n, kept_from_out j js (suc i) n)

kept_from-le-length : (keep : List ℕ) (i n : ℕ) → kept_from keep i n ≤ length keep
kept_from-le-length [] i n = omega (arith, kept_from_nil i n)
kept_from-le-length (j ∷ js) i n =
    omega (arith, kept_from_cons j js i n, kept_from-le-length js i n)

finalize_kept-le :
    (h : Float) (m : List (ℕ × Stream)) (keep : List ℕ) (i : ℕ) (cs : List Candidate) (utc : ℕ → ℕ)
    → length (finalize_kept h m keep i cs utc).1 ≤ kept_from keep i (length cs)
unfolding finalize_kept
finalize_kept-le h m keep i [] utc = omega arith
finalize_kept-le h m keep i ((p, id, ps) ∷ cs) utc =
    let skip = finalize_kept-le h m keep (suc i) cs utc in
    elim (Bool-cases (member i keep)) [
      | inr out ↦ rw (out, finalize_kept) (omega (arith, skip))
      | inl kept ↦ elim (Option-cases (lookup id m)) [
        | inl gone ↦ rw (kept, gone, finalize_kept) (omega (arith, skip))
        | inr (u, found) ↦ elim (DomainResult-cases (finalize_patch_frame h u p ps utc)) [
          | inr (x, e) ↦ rw (kept, found, e, finalize_kept) (omega (arith, skip))
          | inl ((t, f), e) ↦
              rw (kept, found, e, finalize_kept)
                (omega (
                  arith,
                  finalize_kept-le h (update id t m) keep (suc i) cs (λ n. utc (suc (suc n))),
                ))
        ]
      ]
    ]

length-surviving : (cs : List Candidate) (size : ℕ) → length (surviving cs size) ≤ size
unfolding surviving
length-surviving cs size =
    omega (arith, length-take size (sort_desc (priority_at cs) (range (length cs) 0)))

finalize-priority :
    (h : Float) (s : Stream) (p : Priority) (ps : List FramePatch) (utc : ℕ → ℕ) (t : Stream)
    (f : Frame)
    → finalize_patch_frame h s p ps utc ≡ ok (t, f)
    → f.priority ≡ p
unfolding finalize_patch_frame new_patch
finalize-priority h s p [] utc t f e = ground arith
finalize-priority h s p (x ∷ ps) utc t f e = ground arith

abbrev Labelled : Finished → Type 0
Labelled (p, id, f) = f.priority ≡ p

finalize_kept-Labelled :
    (h : Float) (m : List (ℕ × Stream)) (keep : List ℕ) (i : ℕ) (cs : List Candidate) (utc : ℕ → ℕ)
    → All Labelled (finalize_kept h m keep i cs utc).1
unfolding finalize_kept
finalize_kept-Labelled h m keep i [] utc = tt
finalize_kept-Labelled h m keep i ((p, id, ps) ∷ cs) utc =
    let skip = finalize_kept-Labelled h m keep (suc i) cs utc in
    elim (Bool-cases (member i keep)) [
      | inr out ↦ rw (out, finalize_kept) skip
      | inl kept ↦ elim (Option-cases (lookup id m)) [
        | inl gone ↦ rw (kept, gone, finalize_kept) skip
        | inr (u, found) ↦ elim (DomainResult-cases (finalize_patch_frame h u p ps utc)) [
          | inr (x, e) ↦ rw (kept, found, e, finalize_kept) skip
          | inl ((t, f), e) ↦
              rw (kept, found, e, finalize_kept)
                (
                  finalize-priority h u p ps utc t f e,
                  finalize_kept-Labelled h (update id t m) keep (suc i) cs (λ n. utc (suc (suc n))),
                )
        ]
      ]
    ]

Descends-Labelled :
    (fs : List Finished)
    → All Labelled fs
    → Descends (λ f. f.0.byte) fs
    → Descends (λ f. f.priority.byte) (map (λ f. f.2) fs)
Descends-Labelled [] h d = tt
Descends-Labelled (f ∷ []) h d = tt
Descends-Labelled (f ∷ g ∷ fs) (a, (b, h)) (le, d) =
    (ground arith, Descends-Labelled (g ∷ fs) (b, h) d)

batched-totals :
    (s : StreamSession) (n b : ℕ) (now : ℕ → ℕ)
    → ((batched s n b now).stats.total_frames ≡ add_u64 s.stats.total_frames n)
      × ((batched s n b now).stats.total_bytes ≡ add_u64 s.stats.total_bytes b)
batched-totals s n b now = elim (Bool-cases (n == 0)) [
  | inl hit ↦ rw hit (refl, refl)
  | inr miss ↦ rw miss (refl, refl)
]

-- A batch across streams that succeeds holds at most `batch_size` frames, no frame with a greater
-- priority than the one before it; and the totals of the session grow by exactly these frames and
-- their estimated bytes.
pub commit_priority_frames-bounded :
    (h : Float) (s t : StreamSession) (ex : List (ℕ × Patches)) (size : ℕ) (now utc : ℕ → ℕ)
    (fs : List Frame)
    → commit_priority_frames h s ex size now utc ≡ ok (t, fs)
    → (length fs ≤ size)
      × Descends (λ f. f.priority.byte) fs
      × (t.stats.total_frames ≡ add_u64 s.stats.total_frames (length fs))
      × (t.stats.total_bytes ≡ add_u64 s.stats.total_bytes (sizes h fs))
unfolding commit_priority_frames
commit_priority_frames-bounded h s t ex size now utc fs e =
    let cs = candidates s.streams ex in
    let made = finalize_kept h s.streams (surviving cs size) 0 cs utc in
    let (_, _, r) = >>=-eq-ok (guard (is_active s (now 0)) _) _ e in
    let frames = map (λ f. f.2) (sort_desc (λ f. f.0.byte) made.1) in
    let all : frames ≡ fs = ok-snd r in
    let (grew_frames, grew_bytes) =
      batched-totals (record s { streams = made.0 }) (length frames) (sizes h frames)
        (λ i. now (suc i)) in
    let ended = ok-fst r in
    (
      rw (← all) (
          omega (
            arith,
            length-map (λ f. f.2) (sort_desc (λ f. f.0.byte) made.1),
            length-sort_desc (λ f. f.0.byte) made.1,
            finalize_kept-le h s.streams (surviving cs size) 0 cs utc,
            kept_from-le-length (surviving cs size) 0 (length cs),
            length-surviving cs size,
          )),
      rw (← all) (
          Descends-Labelled (sort_desc (λ f. f.0.byte) made.1)
            (sort_desc-All (λ f. f.0.byte) Labelled made.1
              (finalize_kept-Labelled h s.streams (surviving cs size) 0 cs utc))
            (sort_desc-Descends (λ f. f.0.byte) made.1)),
      cc (ended, all, grew_frames),
      cc (ended, all, grew_bytes),
    )

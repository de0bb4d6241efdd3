-- ===== src/Repository/Kept.antt =====
-- The operations of a session in the repository: they keep its identifier, and its number of frames when
-- they fail.
use pjs.Prelude.{
  ℕ, suc, ◌≡◌, refl, sym, subst, ap, ◌∙◌, ◌⊎◌, List, [], ◌∷◌, true, false, Option, none, some,
  arith, inl, inr, All, Bool-cases, Option-cases, ◌==◌, nat_eq, is_empty,
}
use pjs.Prelude.Map.{lookup}
use pjs.Prelude.Map.Unique.{update_same}
use pjs.Outcome.{DomainResult, ok, err, invalid_stream_state, guard, >>=-eq-ok, ok-fst}
use pjs.F64.{Float}
use pjs.Priority.{Priority}
use pjs.JsonData.{JsonData}
use pjs.Frame.{Frame, FramePatch}
use pjs.Stream.{
  Stream, StreamConfig, is_streaming, commit_chunks, commit_patch_frames, start_streaming,
  update_config, finalize_patch_frame,
}
use pjs.Stream
use pjs.Stream.Chunks.{chunk_patches_for_commit}
use pjs.Stream.Chunks.Laws.{chunk_patches-nonempty}
use pjs.Stream.Frames.{finalize_lem, finalize-state}
use pjs.Session.{StreamSession, DomainEvent}
use pjs.Session.Basics.{close, take_events, is_active}
use pjs.Session.Streams.{
  stream, put, batched, finish_commit, create_stream, create_stream_with_config,
  update_stream_config, start_stream, complete_stream, commit_patch_frames_for_stream,
}
use pjs.Session.Batch.{commit_priority_frames, Patches}
use pjs.Repository.{sum_frames, attempt, attempt_with, drained}
use pjs.Repository.Cache.{Kept}

pub Kept-attempt :
    (s : StreamSession) (r : DomainResult StreamSession)
    → ((s' : StreamSession) → r ≡ ok s' → s'.id ≡ s.id)
    → Kept s (attempt s r)
Kept-attempt s (ok s') h = h s' refl
Kept-attempt s (err e) h = (refl, refl)

pub Kept-attempt_with :
    {T : Type 0} (s : StreamSession) (r : DomainResult (StreamSession × T))
    → ((s' : StreamSession) (t : T) → r ≡ ok (s', t) → s'.id ≡ s.id)
    → Kept s (attempt_with s r)
Kept-attempt_with s (ok (s', t)) h = h s' t refl
Kept-attempt_with s (err e) h = (refl, refl)

pub Kept-drained :
    {T R : Type 0} (answer : T → List DomainEvent → R) (s : StreamSession)
    (x : StreamSession × DomainResult T)
    → Kept s x
    → Kept s (drained answer x)
unfolding take_events
Kept-drained answer s (s', ok t) h = h
Kept-drained answer s (s', err e) h = h

pub close_id : (s t : StreamSession) (now utc : ℕ → ℕ) → close s now utc ≡ ok t → t.id ≡ s.id
unfolding close
close_id s t now utc e = ground arith

pub start_stream_id :
    (s t : StreamSession) (id : ℕ) (now utc : ℕ → ℕ)
    → start_stream s id now utc ≡ ok t
    → t.id ≡ s.id
unfolding start_stream
start_stream_id s t id now utc e =
    let (u, e1, r1) = >>=-eq-ok (stream s id) _ e in
    let (u', e2, r2) = >>=-eq-ok (start_streaming u utc) _ r1 in ground arith

pub complete_stream_id :
    (h : Float) (s t : StreamSession) (id : ℕ) (now utc : ℕ → ℕ)
    → complete_stream h s id now utc ≡ ok t
    → t.id ≡ s.id
unfolding complete_stream
complete_stream_id h s t id now utc e =
    let (u, e1, r1) = >>=-eq-ok (stream s id) _ e in
    let (u', e2, r2) = >>=-eq-ok (Stream.complete_stream u utc) _ r1 in ground arith

update_stream_config_id :
    (s t : StreamSession) (id : ℕ) (c : StreamConfig) (now utc : ℕ → ℕ)
    → update_stream_config s id c now utc ≡ ok t
    → t.id ≡ s.id
unfolding update_stream_config
update_stream_config_id s t id c now utc e =
    let (u, e1, r1) = >>=-eq-ok (stream s id) _ e in
    let (u', e2, r2) = >>=-eq-ok (update_config u c utc) _ r1 in ground arith

create_stream_id :
    (s t : StreamSession) (fresh id : ℕ) (d : JsonData) (now utc : ℕ → ℕ)
    → create_stream s fresh d now utc ≡ ok (t, id)
    → t.id ≡ s.id
unfolding create_stream
create_stream_id s t fresh id d now utc e = ground arith

pub create_stream_with_config_id :
    (s t : StreamSession) (fresh id : ℕ) (d : JsonData) (c : Option StreamConfig) (now utc : ℕ → ℕ)
    → create_stream_with_config s fresh d c now utc ≡ ok (t, id)
    → t.id ≡ s.id
unfolding create_stream_with_config
create_stream_with_config_id s t fresh id d none now utc e =
    create_stream_id s t fresh id d now utc e
create_stream_with_config_id s t fresh id d (some c) now utc e =
    let ((s', id'), e1, r1) = >>=-eq-ok (create_stream s fresh d now utc) _ e in
    let (s'', e2, r2) = >>=-eq-ok (update_stream_config s' id' c _ _) _ r1 in
    let same : s'' ≡ t = cc r2 in
    ap (λ x. x.id) (sym same)
    ∙ (update_stream_config_id s' s'' id' c _ _ e2 ∙ create_stream_id s s' fresh id' d now utc e1)

batched_id : (s : StreamSession) (n b : ℕ) (now : ℕ → ℕ) → (batched s n b now).id ≡ s.id
batched_id s n b now = elim (Bool-cases (n == 0)) [
  | inl hit ↦ rw hit refl
  | inr miss ↦ rw miss refl
]

pub commit_priority_frames_id :
    (h : Float) (s t : StreamSession) (ex : List (ℕ × Patches)) (size : ℕ) (now utc : ℕ → ℕ)
    (fs : List Frame)
    → commit_priority_frames h s ex size now utc ≡ ok (t, fs)
    → t.id ≡ s.id
unfolding commit_priority_frames
commit_priority_frames_id h s t ex size now utc fs e =
    let (_, _, r) = >>=-eq-ok (guard (is_active s (now 0)) _) _ e in
    subst (λ x. x.id ≡ s.id) (ok-fst r)
      (batched_id (record s { streams = _ }) _ _ (λ i. now (suc i)))

-- A streaming stream makes every group a frame.
commit_chunks-ok :
    (h : Float) (s : Stream) (cs : List (Priority × List FramePatch)) (utc : ℕ → ℕ)
    → is_streaming s.state ≡ true
    → All (λ c. is_empty c.1 ≡ false) cs
    → (t : Stream) × (fs : List Frame) × (commit_chunks h s cs utc ≡ (t, ok fs))
unfolding commit_chunks
commit_chunks-ok h s [] utc on n = (s, [], refl)
commit_chunks-ok h s ((p, ps) ∷ cs) utc on n =
    let (t, f, e, _, _, _, _, _) = finalize_lem h s p ps utc on n.0 in
    let still : is_streaming t.state ≡ true =
      ap is_streaming (finalize-state h s p ps utc t f e) ∙ on in
    let (u, fs, e') = commit_chunks-ok h t cs (λ i. utc (suc (suc i))) still n.1 in
    (u, f ∷ fs, rw (e, commit_chunks, e') refl)

Kept-finish_commit :
    (s : StreamSession) (id : ℕ) (u : Stream) (x : Stream × DomainResult (List Frame)) (now : ℕ → ℕ)
    → lookup id s.streams ≡ some u
    → x ≡ (u, err invalid_stream_state) ⊎ ((t : Stream) × (fs : List Frame) × (x ≡ (t, ok fs)))
    → Kept s (finish_commit s id u x now)
Kept-finish_commit s id u x now found (inl refused) =
    rw refused (refl, ap (sum_frames 0) (update_same id u s.streams found))
Kept-finish_commit s id u x now found (inr (t, fs, made)) =
    rw made (batched_id (put s id t) _ _ now)

pub Kept-commit_patch_frames_for_stream :
    (h : Float) (s : StreamSession) (id : ℕ) (ps : List (FramePatch × Priority)) (m : ℕ)
    (now utc : ℕ → ℕ)
    → Kept s (commit_patch_frames_for_stream h s id ps m now utc)
unfolding commit_patch_frames_for_stream commit_patch_frames
Kept-commit_patch_frames_for_stream h s id ps m now utc =
    elim (Option-cases (lookup id s.streams)) [
      | inl gone ↦ rw (gone, commit_patch_frames_for_stream) (refl, refl)
      | inr (u, found) ↦
          rw (found, commit_patch_frames_for_stream)
            (Kept-finish_commit s id u (commit_patch_frames h u ps m utc) now found
              (elim (Bool-cases (is_streaming u.state)) [
                | inl on ↦ inr (
                    rw on (
                      commit_chunks-ok h u (chunk_patches_for_commit ps m) utc on
                        (chunk_patches-nonempty ps m)))
                | inr off ↦ inl (rw off refl)
              ]))
    ]

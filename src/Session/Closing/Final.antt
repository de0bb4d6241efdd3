-- ===== src/Session/Closing/Final.antt =====
-- A session after `close` or `force_close_expired`, and the calls that may follow.
use pjs.Prelude.{
  ℕ, ◌≡◌, refl, subst, inl, inr, List, Bool, true, false, Option, none, some, arith, length,
  Bool-cases, Option-cases, nat_eq, ◌==◌, ◌⊎◌,
}
use pjs.Prelude.Map.{lookup, tally, tally_pos}
use pjs.Prelude.Text.{Text}
use pjs.JsonData.{JsonData}
use pjs.Outcome.{DomainResult, ok, err, guard, >>=-eq-ok, DomainResult-cases}
use pjs.F64.{Float}
use pjs.Priority.{Priority}
use pjs.Frame.{Frame}
use pjs.Stream.{
  Stream, StreamState, StreamConfig, start_streaming, fail, cancel, update_config,
  commit_patch_frames,
}
use pjs.Stream
use pjs.Stream.Frames.{commit_patch_frames-state}
use pjs.Session.{StreamSession, SessionState}
use pjs.Session.Basics.{
  close, force_close_expired, is_active, is_expired, activate, extend_timeout, set_client_info,
  take_events,
}
use pjs.Session.Streams.{
  stream, finish_commit, update_stream_config, create_stream, create_stream_with_config,
  start_stream, complete_stream, fail_stream, commit_patch_frames_for_stream,
  create_stream_patch_frames, extract_prioritized_patches_for_stream,
}
use pjs.Session.Batch.{
  commit_priority_frames, create_priority_frames, extract_prioritized_patches_for_active_streams,
  Patches,
}
use pjs.Session.Counters.{tally-same_state}
use pjs.Session.Counters.Steps.{found_in}
use pjs.Session.Counters.Reach.{
  Step, activates, extends, informs, takes, creates, starts, completes, fails, configures, commits,
  makes, selects, gathers, Reach, start, more,
}
use pjs.Session.Closing.{cancel_active-none}

-- The session has ended, and none of its streams is active.
abbrev pub ended_state : SessionState → Bool
ended_state SessionState.completed = true
ended_state SessionState.failed = true
ended_state _ = false

pub record Closed (s : StreamSession) : Type 0 where
  pub ended : ended_state s.state ≡ true
  pub quiet : tally Stream.is_active s.streams ≡ 0

pub close-Closed : (s t : StreamSession) (now utc : ℕ → ℕ) → close s now utc ≡ ok t → Closed t
unfolding close
close-Closed s t now utc e = ground (arith, cancel_active-none s.streams utc)

pub force-Closed :
    (s : StreamSession) (now : ℕ → ℕ)
    → is_expired s (now 0) ≡ true
    → Closed (force_close_expired s now).0
unfolding force_close_expired
force-Closed s now e = ground arith

-- A stream that can be found is not active.
silent :
    (s : StreamSession) (id : ℕ) (u : Stream)
    → Closed s
    → stream s id ≡ ok u
    → Stream.is_active u ≡ false
silent s id u c e = elim (Bool-cases (Stream.is_active u)) [
  | inr off ↦ off
  | inl on ↦
      absurd
        (omega (arith, c.quiet, tally_pos Stream.is_active id u s.streams (found_in s id u e) on))
]

start_stream-refused :
    (s t : StreamSession) (id : ℕ) (now utc : ℕ → ℕ)
    → Closed s
    → start_stream s id now utc ≡ ok t
    → ⊥
unfolding start_stream start_streaming
start_stream-refused s t id now utc c e =
    let (u, e1, r1) = >>=-eq-ok (stream s id) _ e in ground (arith, silent s id u c e1)

complete_stream-refused :
    (h : Float) (s t : StreamSession) (id : ℕ) (now utc : ℕ → ℕ)
    → Closed s
    → complete_stream h s id now utc ≡ ok t
    → ⊥
unfolding complete_stream Stream.complete_stream
complete_stream-refused h s t id now utc c e =
    let (u, e1, r1) = >>=-eq-ok (stream s id) _ e in ground (arith, silent s id u c e1)

fail_stream-refused :
    (s t : StreamSession) (id : ℕ) (message : Text) (now utc : ℕ → ℕ)
    → Closed s
    → fail_stream s id message now utc ≡ ok t
    → ⊥
unfolding fail_stream fail
fail_stream-refused s t id message now utc c e =
    let (u, e1, r1) = >>=-eq-ok (stream s id) _ e in ground (arith, silent s id u c e1)

update_stream_config-refused :
    (s t : StreamSession) (id : ℕ) (g : StreamConfig) (now utc : ℕ → ℕ)
    → Closed s
    → update_stream_config s id g now utc ≡ ok t
    → ⊥
unfolding update_stream_config update_config
update_stream_config-refused s t id g now utc c e =
    let (u, e1, r1) = >>=-eq-ok (stream s id) _ e in ground (arith, silent s id u c e1)

create_stream-refused :
    (s : StreamSession) (r : StreamSession × ℕ) (fresh : ℕ) (d : JsonData) (now utc : ℕ → ℕ)
    → Closed s
    → create_stream s fresh d now utc ≡ ok r
    → ⊥
unfolding create_stream
create_stream-refused s r fresh d now utc c e = ground arith

create_stream_with_config-refused :
    (s : StreamSession) (r : StreamSession × ℕ) (fresh : ℕ) (d : JsonData) (g : Option StreamConfig)
    (now utc : ℕ → ℕ)
    → Closed s
    → create_stream_with_config s fresh d g now utc ≡ ok r
    → ⊥
unfolding create_stream_with_config
create_stream_with_config-refused s r fresh d none now utc c e =
    create_stream-refused s r fresh d now utc c e
create_stream_with_config-refused s r fresh d (some g) now utc c e =
    let (r', e1, _) = >>=-eq-ok (create_stream s fresh d now utc) _ e in
    create_stream-refused s r' fresh d now utc c e1

commit_priority_frames-refused :
    (h : Float) (s : StreamSession) (r : StreamSession × List Frame) (ex : List (ℕ × Patches))
    (size : ℕ) (now utc : ℕ → ℕ)
    → Closed s
    → commit_priority_frames h s ex size now utc ≡ ok r
    → ⊥
unfolding commit_priority_frames
commit_priority_frames-refused h s r ex size now utc c e =
    let (_, g, _) = >>=-eq-ok (guard (is_active s (now 0)) _) _ e in ground arith

-- What every call on a closed session leaves.
abbrev Kept : StreamSession → StreamSession → Type 0
Kept s t = (t.state ≡ s.state) × Closed t

finish_commit-Kept :
    (s : StreamSession) (id : ℕ) (u : Stream) (r : Stream × DomainResult (List Frame)) (now : ℕ → ℕ)
    → Closed s
    → lookup id s.streams ≡ some u
    → r.0.state ≡ u.state
    → Kept s (finish_commit s id u r now).0
finish_commit-Kept s id u (t, err e) now c found same =
    let (a, _, _) = tally-same_state id u t s.streams found same in
    (refl, record { ended = c.ended; quiet = cc (a, c.quiet) })
finish_commit-Kept s id u (t, ok fs) now c found same =
    let (a, _, _) = tally-same_state id u t s.streams found same in
    elim (Bool-cases (length fs == 0)) [
      | inl hit ↦ rw hit (refl, record { ended = c.ended; quiet = cc (a, c.quiet) })
      | inr miss ↦ rw miss (refl, record { ended = c.ended; quiet = cc (a, c.quiet) })
    ]

commit_patch_frames_for_stream-Kept :
    (h : Float) (s : StreamSession) (id : ℕ) (ps : Patches) (m : ℕ) (now utc : ℕ → ℕ)
    → Closed s
    → Kept s (commit_patch_frames_for_stream h s id ps m now utc).0
unfolding commit_patch_frames_for_stream
commit_patch_frames_for_stream-Kept h s id ps m now utc c =
    elim (Option-cases (lookup id s.streams)) [
      | inl gone ↦ rw (gone, commit_patch_frames_for_stream) (refl, c)
      | inr (u, found) ↦
          rw (found, commit_patch_frames_for_stream)
            (finish_commit-Kept s id u (commit_patch_frames h u ps m utc) now c found
              (commit_patch_frames-state h u ps m utc))
    ]

create_stream_patch_frames-Kept :
    (h : Float) (s : StreamSession) (id : ℕ) (threshold : Priority) (m : ℕ) (now utc : ℕ → ℕ)
    → Closed s
    → Kept s (create_stream_patch_frames h s id threshold m now utc).0
unfolding create_stream_patch_frames
create_stream_patch_frames-Kept h s id threshold m now utc c =
    elim (DomainResult-cases (extract_prioritized_patches_for_stream s id threshold)) [
      | inl (ps, e) ↦
          rw (e, create_stream_patch_frames)
            (commit_patch_frames_for_stream-Kept h s id ps m now utc c)
      | inr (x, e) ↦ rw (e, create_stream_patch_frames) (refl, c)
    ]

activate-refused : (s t : StreamSession) (now : ℕ → ℕ) → Closed s → activate s now ≡ ok t → ⊥
unfolding activate
activate-refused s t now c e = ground arith

extend_timeout-Kept :
    (s t : StreamSession) (n : ℕ) (plus_seconds : ℕ → ℕ → ℕ) (now : ℕ → ℕ)
    → Closed s
    → extend_timeout s n plus_seconds now ≡ ok t
    → Kept s t
unfolding extend_timeout
extend_timeout-Kept s t n plus_seconds now c e = ground arith

Step-Kept :
    (h : Float) (plus_seconds : ℕ → ℕ → ℕ) (s t : StreamSession)
    → Closed s
    → Step h plus_seconds s t
    → Kept s t
unfolding set_client_info take_events create_priority_frames
Step-Kept h plus_seconds s t c (activates now e) = absurd (activate-refused s t now c e)
Step-Kept h plus_seconds s t c (extends n now e) = extend_timeout-Kept s t n plus_seconds now c e
Step-Kept h plus_seconds s _ c (informs i a p now) =
    (refl, record { ended = c.ended; quiet = c.quiet })
Step-Kept h plus_seconds s _ c takes = (refl, record { ended = c.ended; quiet = c.quiet })
Step-Kept h plus_seconds s t c (creates fresh d g now utc free e) =
    absurd (create_stream_with_config-refused s _ fresh d g now utc c e)
Step-Kept h plus_seconds s t c (starts id now utc e) =
    absurd (start_stream-refused s t id now utc c e)
Step-Kept h plus_seconds s t c (completes id now utc e) =
    absurd (complete_stream-refused h s t id now utc c e)
Step-Kept h plus_seconds s t c (fails id message now utc e) =
    absurd (fail_stream-refused s t id message now utc c e)
Step-Kept h plus_seconds s t c (configures id g now utc e) =
    absurd (update_stream_config-refused s t id g now utc c e)
Step-Kept h plus_seconds s _ c (commits id ps m now utc) =
    commit_patch_frames_for_stream-Kept h s id ps m now utc c
Step-Kept h plus_seconds s _ c (makes id threshold m now utc) =
    create_stream_patch_frames-Kept h s id threshold m now utc c
Step-Kept h plus_seconds s t c (selects ex size now utc e) =
    absurd (commit_priority_frames-refused h s _ ex size now utc c e)
Step-Kept h plus_seconds s t c (gathers threshold size now utc e) = absurd (
    commit_priority_frames-refused h s _
      (extract_prioritized_patches_for_active_streams s threshold) size now utc c e)

-- A session that `close` completed, or that `force_close_expired` failed, is over: whatever calls
-- follow but another of these two, its state stays, and none of its streams is active.
pub ended_for_good :
    (h : Float) (plus_seconds : ℕ → ℕ → ℕ) (s t u : StreamSession) (now utc : ℕ → ℕ)
    → (close s now utc ≡ ok t)
      ⊎ ((is_expired s (now 0) ≡ true) × ((force_close_expired s now).0 ≡ t))
    → Reach h plus_seconds t u
    → (u.state ≡ t.state) × Closed u
ended_for_good h plus_seconds s t u now utc closing r = reached t u (closed closing) r
  where
    closed :
        (close s now utc ≡ ok t)
          ⊎ ((is_expired s (now 0) ≡ true) × ((force_close_expired s now).0 ≡ t))
        → Closed t
    closed (inl e) = close-Closed s t now utc e
    closed (inr (late, e)) = subst Closed e (force-Closed s now late)

    reached :
        (t u : StreamSession) → Closed t → Reach h plus_seconds t u → (u.state ≡ t.state) × Closed u
    reached t _ c start = (refl, c)
    reached t u c (more r k) =
        let (e, d) = reached t _ c r in
        let (e', d') = Step-Kept h plus_seconds _ u d k in (cc (e, e'), d')

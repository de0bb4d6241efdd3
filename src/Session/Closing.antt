-- ===== src/Session/Closing.antt =====
-- What `close` makes of a session.
pub mod Final
use pjs.Prelude.{
  ℕ, suc, ◌+◌, ◌++◌, ◌≤◌, ◌<◌, ◌≡◌, refl, sym, inl, inr, List, [], ◌∷◌, Bool, true, false, Option,
  none, some, arith, length, Bool-cases, Option-cases, nat_eq, ◌⊎◌, ◌==◌, not, ltb, ◌&&◌,
}
use pjs.Prelude.Map.{lookup, update, tally, tally_pos}
use pjs.Prelude.Text.{Text}
use pjs.JsonData.{JsonData}
use pjs.Outcome.{
  DomainResult, ok, err, guard, ◌>>=◌, ◌>>◌, >>=-eq-ok, DomainResult-cases,
  invalid_state_transition,
}
use pjs.F64.{Float}
use pjs.Priority.{Priority}
use pjs.Stream.{
  Stream, StreamState, StreamConfig, start_streaming, fail, cancel, update_config,
  commit_patch_frames,
}
use pjs.Stream
use pjs.Stream.Frames.{commit_patch_frames-state}
use pjs.Session.{session_closed, StreamSession, SessionState, SessionConfig}
use pjs.Session.Basics.{
  touched, cancel_active, or_same, close, force_close_expired, active_state, is_active, is_expired,
  activate, extend_timeout, set_client_info, take_events,
}
use pjs.Session.Streams.{
  stream, put, batched, finish_commit, update_stream_config, create_stream,
  create_stream_with_config, start_stream, complete_stream, fail_stream,
  commit_patch_frames_for_stream, create_stream_patch_frames,
  extract_prioritized_patches_for_stream,
}
use pjs.Session.Batch.{
  commit_priority_frames, create_priority_frames, extract_prioritized_patches_for_active_streams,
  Patches,
}
use pjs.Session.Counters.{Inv, tally-same_state}
use pjs.Session.Counters.Reach.{
  Step, activates, extends, informs, takes, creates, starts, completes, fails, configures, commits,
  makes, selects, gathers, Reach, start, more,
}

-- No stream is active once the loop of `close` is through, and no stream was lost.
cancel_active-none :
    (m : List (ℕ × Stream)) (utc : ℕ → ℕ)
    → (tally Stream.is_active (cancel_active m utc) ≡ 0) × (length (cancel_active m utc) ≡ length m)
unfolding cancel_active cancel
cancel_active-none [] utc = (refl, refl)
cancel_active-none ((k, u) ∷ m) utc =
    ground (arith, cancel_active-none m utc, cancel_active-none m (λ i. utc (suc (suc i))))

-- Streams that had already ended are left as they were; the others are cancelled now.
cancel_active-lookup :
    (m : List (ℕ × Stream)) (utc : ℕ → ℕ) (id : ℕ) (u : Stream)
    → lookup id m ≡ some u
    → (v : Stream) × (lookup id (cancel_active m utc) ≡ some v)
      × ((Stream.is_active u ≡ false) × (v ≡ u)
          ⊎ (Stream.is_active u ≡ true) × (v.state ≡ StreamState.cancelled))
unfolding cancel_active cancel lookup
cancel_active-lookup [] utc id u h = absurd (cc)
cancel_active-lookup ((k, w) ∷ m) utc id u h = elim (Bool-cases (k == id)) [
  | inl hit ↦ elim (Bool-cases (Stream.is_active w)) [
    | inl on ↦ (or_same w (cancel w utc), ground arith, inr (ground arith, ground arith))
    | inr off ↦ (w, ground arith, inl (ground arith, ground arith))
  ]
  | inr miss ↦ elim (Bool-cases (Stream.is_active w)) [
    | inl on ↦
        let (v, e, p) = cancel_active-lookup m (λ i. utc (suc (suc i))) id u (ground arith) in
        (v, ground arith, p)
    | inr off ↦
        let (v, e, p) = cancel_active-lookup m utc id u (ground arith) in (v, ground arith, p)
  ]
]

-- A stream that had ended is as it was. One that was active is cancelled, with the time of its end; its frames,
-- its source and the rest are as they were.
abbrev pub IsEnded : Stream → Stream → Type 0
IsEnded u v =
    ((Stream.is_active u ≡ false) × (v ≡ u))
    ⊎ ((Stream.is_active u ≡ true)
        × ((at : ℕ) × (since : ℕ) × (v ≡ record u {
          state = StreamState.cancelled;
          completed_at = some at;
          updated_at = since;
        })))

-- The same identifiers in the same order, each stream ended.
abbrev pub AllEnded : List (ℕ × Stream) → List (ℕ × Stream) → Type 0
AllEnded [] [] = Unit
AllEnded ((k, u) ∷ m) ((j, v) ∷ n) = (j ≡ k) × IsEnded u v × AllEnded m n
AllEnded _ _ = ⊥

cancel_active-AllEnded : (m : List (ℕ × Stream)) (utc : ℕ → ℕ) → AllEnded m (cancel_active m utc)
unfolding cancel_active cancel
cancel_active-AllEnded [] utc = tt
cancel_active-AllEnded ((k, u) ∷ m) utc = elim (Bool-cases (Stream.is_active u)) [
  | inl on ↦
      rw on
        (refl, inr (on, (utc 0, utc 1, refl)), cancel_active-AllEnded m (λ i. utc (suc (suc i))))
  | inr off ↦ rw off (refl, inl (off, refl), cancel_active-AllEnded m utc)
]

-- What a session that was active is after it was closed.
pub record IsClosed (s t : StreamSession) : Type 0 where
  pub completed : t.state ≡ SessionState.completed
  pub time : ℕ
  pub completed_at : t.completed_at ≡ some time
  pub announced : ℕ
  pub event : t.pending_events ≡ s.pending_events ++ session_closed s.id announced ∷ []
  pub streams : AllEnded s.streams t.streams
  pub quiet : tally Stream.is_active t.streams ≡ 0

-- Closing an active session succeeds. The session is then completed, with the time and one more event that
-- says so. It has the same streams: those that had ended are untouched, the active ones are cancelled, and
-- none is active.
pub close-ends :
    (s : StreamSession) (now utc : ℕ → ℕ)
    → s.state ≡ SessionState.active
    → (t : StreamSession) × (close s now utc ≡ ok t) × IsClosed s t
unfolding close
close-ends s now utc on =
    let (quiet, same) = cancel_active-none s.streams utc in
    let t =
      touched
        (record s {
          state = SessionState.completed;
          completed_at = some (now 0);
          streams = cancel_active s.streams utc;
        })
        (now 1) (session_closed s.id (now 2)) in
    (
      t,
      ground arith,
      record {
        completed = refl;
        time = now 0;
        completed_at = refl;
        announced = now 2;
        event = refl;
        streams = cancel_active-AllEnded s.streams utc;
        quiet = quiet;
      },
    )

-- A stream of a session that is closed is still found under its identifier: one that had ended is as
-- it was, one that was active is cancelled.
pub close-streams :
    (s t : StreamSession) (now utc : ℕ → ℕ) (id : ℕ) (u : Stream)
    → close s now utc ≡ ok t
    → lookup id s.streams ≡ some u
    → (v : Stream) × (lookup id t.streams ≡ some v)
      × ((Stream.is_active u ≡ false) × (v ≡ u)
          ⊎ (Stream.is_active u ≡ true) × (v.state ≡ StreamState.cancelled))
unfolding close
close-streams s t now utc id u e found =
    let (v, l, outcome) = cancel_active-lookup s.streams utc id u found in
    (v, ground arith, outcome)

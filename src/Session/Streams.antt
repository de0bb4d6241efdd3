-- ===== src/Session/Streams.antt =====
-- The operations on one child stream. A missing stream is an error and changes nothing.
use pjs.Prelude.{
  ℕ, suc, ◌-◌, List, [], ◌∷◌, ◌++◌, Option, none, some, leb, not, ◌==◌, length, if◌then◌else◌,
  nat_eq,
}
use pjs.Prelude.Map.{lookup, insert, update}
use pjs.Prelude.Text.{Text}
use pjs.Prelude.Int.{ℤ}
use pjs.Outcome.{
  DomainResult, ok, err, ◌>>=◌, ◌>>◌, guard, ok_or, stream_not_found, too_many_streams,
  invalid_session_state,
}
use pjs.Words.{add_u64, sub_u64}
use pjs.F64.{Float}
use pjs.Priority.{Priority}
use pjs.JsonData.{JsonData}
use pjs.Frame.{Frame, FramePatch}
use pjs.Stream.{
  Stream, StreamConfig, start_streaming, fail, duration, update_config, extract_prioritized_patches,
  commit_patch_frames,
}
use pjs.Stream
use pjs.Session.{
  StreamSession, SessionStats, stream_created, stream_started, stream_completed, stream_failed,
  stream_config_updated, frames_batched,
}
use pjs.Session.Basics.{is_active, touched}

abbrev pub stream : StreamSession → ℕ → DomainResult Stream
stream s id = ok_or (lookup id s.streams) (stream_not_found id)

-- The write through the reference that `get_mut` gave.
abbrev pub put : StreamSession → ℕ → Stream → StreamSession
put s id t = record s { streams = update id t s.streams }

unfoldable pub update_stream_config :
    StreamSession → ℕ → StreamConfig → (ℕ → ℕ) → (ℕ → ℕ) → DomainResult StreamSession
update_stream_config s id config now utc = do
  t ← stream s id
  t' ← update_config t config utc
  ok (touched (put s id t') (now 0) (stream_config_updated s.id id (now 1)))

unfoldable pub extract_prioritized_patches_for_stream :
    StreamSession → ℕ → Priority → DomainResult (List (FramePatch × Priority))
extract_prioritized_patches_for_stream s id threshold = do
  t ← stream s id
  extract_prioritized_patches t threshold

-- After `Stream::commit_patch_frames` has succeeded: the statistics and the event.
abbrev pub batched : StreamSession → ℕ → ℕ → (ℕ → ℕ) → StreamSession
batched s frames bytes now =
    let counted = record s {
      stats = record s.stats {
        total_frames = add_u64 s.stats.total_frames frames;
        total_bytes = add_u64 s.stats.total_bytes bytes;
      };
      updated_at = now 0;
    } in
    if frames == 0 then counted else record counted {
      pending_events = s.pending_events ++ frames_batched s.id frames (now 1) ∷ [];
    }

abbrev pub finish_commit :
    StreamSession
    → ℕ
    → Stream
    → Stream × DomainResult (List Frame)
    → (ℕ → ℕ)
    → StreamSession × DomainResult (List Frame)
finish_commit s id before (t, err e) now = (put s id t, err e)
finish_commit s id before (t, ok frames) now = (
  batched (put s id t) (length frames) (sub_u64 t.stats.total_bytes before.stats.total_bytes) now,
  ok frames,
)

unfoldable pub commit_patch_frames_for_stream :
    Float
    → StreamSession
    → ℕ
    → List (FramePatch × Priority)
    → ℕ
    → (ℕ → ℕ)
    → (ℕ → ℕ)
    → StreamSession × DomainResult (List Frame)
commit_patch_frames_for_stream h s id patches max_frames now utc = elim (lookup id s.streams) [
  | none ↦ (s, err (stream_not_found id))
  | some t ↦ finish_commit s id t (commit_patch_frames h t patches max_frames utc) now
]

unfoldable pub create_stream_patch_frames :
    Float
    → StreamSession
    → ℕ
    → Priority
    → ℕ
    → (ℕ → ℕ)
    → (ℕ → ℕ)
    → StreamSession × DomainResult (List Frame)
create_stream_patch_frames h s id threshold max_frames now utc =
    elim (extract_prioritized_patches_for_stream s id threshold) [
      | err e ↦ (s, err e)
      | ok patches ↦ commit_patch_frames_for_stream h s id patches max_frames now utc
    ]

-- `fresh` is the random identifier of the new stream.
unfoldable pub create_stream :
    StreamSession → ℕ → JsonData → (ℕ → ℕ) → (ℕ → ℕ) → DomainResult (StreamSession × ℕ)
create_stream s fresh source_data now utc =
    guard (is_active s (now 0)) invalid_session_state
    >> (guard (not (leb s.config.max_concurrent_streams (length s.streams))) too_many_streams
        >> ok (
          touched
              (record s {
                streams =
                    insert fresh
                      (Stream.new fresh s.id source_data s.config.default_stream_config utc)
                      s.streams;
                stats = record s.stats {
                  total_streams = add_u64 s.stats.total_streams 1;
                  active_streams = add_u64 s.stats.active_streams 1;
                };
              })
              (now 1) (stream_created s.id fresh (now 2)),
          fresh,
        ))

-- The second step cannot fail for a stream that was just created, so an error comes from the first.
unfoldable pub create_stream_with_config :
    StreamSession
    → ℕ
    → JsonData
    → Option StreamConfig
    → (ℕ → ℕ)
    → (ℕ → ℕ)
    → DomainResult (StreamSession × ℕ)
create_stream_with_config s fresh source_data none now utc =
    create_stream s fresh source_data now utc
create_stream_with_config s fresh source_data (some config) now utc = do
  (s', id) ← create_stream s fresh source_data now utc
  s'' ← update_stream_config s' id config (λ i. now (suc (suc (suc i)))) (λ i. utc (suc i))
  ok (s'', id)

unfoldable pub start_stream : StreamSession → ℕ → (ℕ → ℕ) → (ℕ → ℕ) → DomainResult StreamSession
start_stream s id now utc = do
  t ← stream s id
  t' ← start_streaming t utc
  ok (touched (put s id t') (now 0) (stream_started s.id id (now 1)))

-- The running mean and the moving average, at the sample `ms`, once `completed_streams` counts it.
abbrev pub average : Float → ℕ → SessionStats → SessionStats
average h ms st = record st {
  average_stream_duration_ms =
      h.add st.average_stream_duration_ms
        (h.div (h.sub ms st.average_stream_duration_ms) (h.of_nat st.completed_streams));
  recent_avg_duration_ms =
      if st.completed_streams == 1
      then ms
      else h.add (h.mul h.half ms) (h.mul (h.sub (h.of_nat 1) h.half) st.recent_avg_duration_ms);
}

abbrev pub sampled : Float → Option ℤ → SessionStats → SessionStats
sampled h none st = st
sampled h (some d) st = average h (h.of_int d) st

unfoldable pub complete_stream :
    Float → StreamSession → ℕ → (ℕ → ℕ) → (ℕ → ℕ) → DomainResult StreamSession
complete_stream h s id now utc = do
  t ← stream s id
  t' ← Stream.complete_stream t utc
  let counted = record s.stats {
    active_streams = s.stats.active_streams - 1;
    completed_streams = add_u64 s.stats.completed_streams 1;
  }
  ok (
      touched
        (record s { streams = update id t' s.streams; stats = sampled h (duration t') counted })
        (now 0) (stream_completed s.id id (now 1)))

unfoldable pub fail_stream :
    StreamSession → ℕ → Text → (ℕ → ℕ) → (ℕ → ℕ) → DomainResult StreamSession
fail_stream s id message now utc = do
  t ← stream s id
  t' ← fail t message utc
  ok (
      touched
        (record s {
          streams = update id t' s.streams;
          stats = record s.stats {
            active_streams = s.stats.active_streams - 1;
            failed_streams = add_u64 s.stats.failed_streams 1;
          };
        })
        (now 0) (stream_failed s.id id message (now 1)))

-- ===== src/Repository/Atomic.antt =====
-- crates/pjs-core/src/infrastructure/adapters/gat_memory_repository.rs: the `*_atomic` methods.
use pjs.Prelude.{ℕ, List, Option, none, some, nat_eq}
use pjs.Prelude.Map.{lookup}
use pjs.Outcome.{DomainResult, ok, err, session_not_found}
use pjs.F64.{Float}
use pjs.Priority.{Priority}
use pjs.JsonData.{JsonData}
use pjs.Frame.{Frame}
use pjs.Stream.{StreamConfig}
use pjs.Session.{DomainEvent}
use pjs.Session.Basics.{close}
use pjs.Session.Streams.{
  create_stream_with_config, start_stream, complete_stream, extract_prioritized_patches_for_stream,
  commit_patch_frames_for_stream,
}
use pjs.Session.Batch.{extract_prioritized_patches_for_active_streams, commit_priority_frames}
use pjs.Repository.{
  GatInMemoryStreamRepository, atomic_session_update, settled, attempt, attempt_with, drained,
  only_events, both,
}

abbrev pub Answer : Type 0 → Type 0
Answer T = GatInMemoryStreamRepository × DomainResult T

module _ (r : GatInMemoryStreamRepository) (id : ℕ) (now utc : ℕ → ℕ) where
  -- `fresh` is the random identifier of the new stream.
  unfoldable pub create_stream_atomic :
      ℕ → JsonData → Option StreamConfig → Answer (ℕ × List DomainEvent)
  unfolding atomic_session_update
  create_stream_atomic fresh source config = settled id (
      atomic_session_update r id (λ s.
        drained both (attempt_with s (create_stream_with_config s fresh source config now utc))))

  unfoldable pub start_stream_atomic : ℕ → Answer (List DomainEvent)
  unfolding atomic_session_update
  start_stream_atomic stream_id = settled id (
      atomic_session_update r id
        (λ s. drained only_events (attempt s (start_stream s stream_id now utc))))

  unfoldable pub complete_stream_atomic : Float → ℕ → Answer (List DomainEvent)
  unfolding atomic_session_update
  complete_stream_atomic h stream_id = settled id (
      atomic_session_update r id
        (λ s. drained only_events (attempt s (complete_stream h s stream_id now utc))))

  unfoldable pub close_session_atomic : Answer (List DomainEvent)
  unfolding atomic_session_update
  close_session_atomic =
      settled id
        (atomic_session_update r id (λ s. drained only_events (attempt s (close s now utc))))

  -- The patches are extracted from a copy of the session, `seen` being the repository at that time; the
  -- step under the lock gets the session again, which other calls may have changed.
  unfoldable pub create_stream_patch_frames_atomic :
      GatInMemoryStreamRepository
      → Float
      → ℕ
      → Priority
      → ℕ
      → Answer (List Frame × List DomainEvent)
  unfolding atomic_session_update
  create_stream_patch_frames_atomic seen h stream_id priority_threshold max_frames =
      elim (lookup id seen.store) [
        | none ↦ (r, err session_not_found)
        | some session ↦
            elim (extract_prioritized_patches_for_stream session stream_id priority_threshold) [
              | err e ↦ (r, err e)
              | ok patches ↦ settled id (
                  atomic_session_update r id (λ s.
                    drained both
                      (commit_patch_frames_for_stream h s stream_id patches max_frames now utc)))
            ]
      ]

  unfoldable pub batch_generate_frames_atomic :
      GatInMemoryStreamRepository → Float → Priority → ℕ → Answer (List Frame × List DomainEvent)
  unfolding atomic_session_update
  batch_generate_frames_atomic seen h priority_threshold max_frames = elim (lookup id seen.store) [
    | none ↦ (r, err session_not_found)
    | some session ↦
        let extracted = extract_prioritized_patches_for_active_streams session priority_threshold in
        settled id (
          atomic_session_update r id (λ s.
            drained both
              (attempt_with s (commit_priority_frames h s extracted max_frames now utc))))
  ]

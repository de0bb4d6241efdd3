-- ===== src/Repository/Streams.antt =====
-- crates/pjs-core/src/infrastructure/adapters/gat_memory_repository.rs: the store of streams; its filter and the
-- statuses are of crates/pjs-core/src/domain/ports/repositories.rs.
use pjs.Prelude.{
  ℕ, List, [], ◌∷◌, Bool, true, false, Option, none, some, ltb, if◌then◌else◌, ◌==◌, ◌||◌, not,
  nat_eq,
}
use pjs.Prelude.Text.{codes}
use pjs.Outcome.{
  DomainResult, ok, err, ◌>>◌, guard, invalid_input, invalid_state_transition, stream_not_found,
}
use pjs.Priority.{Priority}
use pjs.Stream.{Stream, StreamState, start_streaming, fail, cancel}
use pjs.Stream
use pjs.Store.{InMemoryStore, filter_limited, update_with}
use pjs.Store
use pjs.Repository.Queries.{below}

pub data StreamStatus : Type 0 where
  created active paused completed failed cancelled : StreamStatus

pub record StreamFilter : Type 0 where
  pub statuses : Option (List StreamStatus)
  pub min_priority : Option Priority
  pub max_priority : Option Priority
  pub created_after : Option ℕ
  pub has_frames : Option Bool

abbrev priorities_crossed : Option Priority → Option Priority → Bool
priorities_crossed (some low) (some high) = ltb high.byte low.byte
priorities_crossed _ _ = false

abbrev no_status : Option (List StreamStatus) → Bool
no_status (some []) = true
no_status _ = false

unfoldable pub validate_filter : StreamFilter → DomainResult (Unit {0})
validate_filter f =
    guard (not (priorities_crossed f.min_priority f.max_priority)) invalid_input
    >> (guard (not (no_status f.statuses)) invalid_input >> ok tt)

abbrev pub stream_state_matches_status : StreamState → StreamStatus → Bool
stream_state_matches_status StreamState.preparing created = true
stream_state_matches_status StreamState.streaming active = true
stream_state_matches_status StreamState.completed completed = true
stream_state_matches_status StreamState.failed failed = true
stream_state_matches_status StreamState.cancelled cancelled = true
stream_state_matches_status _ _ = false

abbrev any_status : StreamState → List StreamStatus → Bool
any_status state [] = false
any_status state (s ∷ ss) = stream_state_matches_status state s || any_status state ss

abbrev status_refused : Option (List StreamStatus) → StreamState → Bool
status_refused none state = false
status_refused (some statuses) state = not (any_status state statuses)

abbrev frames_refused : Option Bool → ℕ → Bool
frames_refused none frame_count = false
frames_refused (some true) frame_count = frame_count == 0
frames_refused (some false) frame_count = ltb 0 frame_count

-- The priorities of the filter are not looked at.
unfoldable pub matches_stream_filter : Stream → ℕ → StreamFilter → Bool
matches_stream_filter s session_id f =
    if not (s.session_id == session_id)
    then false
    else if status_refused f.statuses s.state
    then false
    else if below f.created_after s.created_at
    then false
    else not (frames_refused f.has_frames s.stats.total_frames)

abbrev pub GatInMemoryStreamStore : Type 0
GatInMemoryStreamStore = InMemoryStore ℕ Stream

abbrev pub store_stream : GatInMemoryStreamStore → Stream → GatInMemoryStreamStore
store_stream store s = (Store.insert s.id s store).0

abbrev pub get_stream : GatInMemoryStreamStore → ℕ → Option Stream
get_stream store id = Store.get id store

abbrev pub delete_stream : GatInMemoryStreamStore → ℕ → GatInMemoryStreamStore
delete_stream store id = (Store.remove id store).0

abbrev pub list_streams_for_session : GatInMemoryStreamStore → ℕ → List Stream
list_streams_for_session store session_id =
    (filter_limited (λ i s. s.session_id == session_id) 10000 10000 store).0

unfoldable pub find_streams_by_session : GatInMemoryStreamStore → ℕ → StreamFilter → List Stream
unfolding matches_stream_filter
find_streams_by_session store session_id f =
    (filter_limited (λ i s. matches_stream_filter s session_id f) 10000 10000 store).0

-- The transition that a status asks for.
unfoldable pub apply_status : StreamStatus → Stream → (ℕ → ℕ) → DomainResult Stream
apply_status active s utc = start_streaming s utc
apply_status completed s utc = Stream.complete_stream s utc
apply_status failed s utc = fail s (codes "Status update to Failed") utc
apply_status cancelled s utc = cancel s utc
apply_status paused s utc = err invalid_state_transition
apply_status created s utc = err invalid_state_transition

abbrev attempt : Stream → DomainResult Stream → Stream × DomainResult (Unit {0})
attempt s (ok s') = (s', ok tt)
attempt s (err e) = (s, err e)

abbrev flat : ℕ → Option (DomainResult (Unit {0})) → DomainResult (Unit {0})
flat id (some result) = result
flat id none = err (stream_not_found id)

unfoldable pub update_stream_status :
    GatInMemoryStreamStore
    → ℕ
    → StreamStatus
    → (ℕ → ℕ)
    → GatInMemoryStreamStore × DomainResult (Unit {0})
unfolding update_with apply_status
update_stream_status store id status utc =
    let (store', result) = update_with id (λ s. attempt s (apply_status status s utc)) store in
    (store', flat id result)

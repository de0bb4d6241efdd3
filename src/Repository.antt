-- ===== src/Repository.antt =====
-- crates/pjs-core/src/infrastructure/adapters/gat_memory_repository.rs: the repository of sessions, one call
-- at a time. A future is what it answers. `now` and `utc` are the clocks of the session and of the
-- system, `secs i` is the i-th reading of `current_timestamp_secs` in a call. One handle is
-- modelled: a clone shares the sessions and copies the cache, which it then keeps apart.
pub mod Queries
pub mod Streams
pub mod Atomic
pub mod Cache
pub mod Kept
pub mod Calls
pub mod Refines
pub mod Status
mod Criteria
pub mod Pages
mod Tests
use pjs.Prelude.{
  ℕ, suc, ◌-◌, List, [], ◌∷◌, Bool, true, false, Option, none, some, ltb, length, if◌then◌else◌,
  nat_eq,
}
use pjs.Prelude.Map.{lookup, insert, remove}
use pjs.Prelude.Text.{Text, codes}
use pjs.Outcome.{DomainResult, ok, err, session_not_found}
use pjs.Words.{add_u64}
use pjs.F64.{Float, zero_bits}
use pjs.Priority.{Priority}
use pjs.JsonData.{JsonData}
use pjs.Frame.{Frame}
use pjs.Stream.{Stream, StreamConfig}
use pjs.Session.{StreamSession, DomainEvent}
use pjs.Session.Basics.{is_active, close, take_events, health_check}
use pjs.Session.Streams.{
  create_stream_with_config, start_stream, complete_stream, extract_prioritized_patches_for_stream,
  commit_patch_frames_for_stream,
}
use pjs.Session.Batch.{extract_prioritized_patches_for_active_streams, commit_priority_frames}
use pjs.Store.{InMemoryStore, filter_limited, update_with}
use pjs.Store

pub record CachedSessionStats : Type 0 where
  pub total_frames : ℕ
  pub computed_at_secs : ℕ

-- STATS_CACHE_TTL_SECS is 5; `current` is the reading of the clock, and the difference saturates.
abbrev pub is_valid : CachedSessionStats → ℕ → Bool
is_valid c current = ltb (current - c.computed_at_secs) 5

pub record GatInMemoryStreamRepository : Type 0 where
  pub store : InMemoryStore ℕ StreamSession
  pub stats_cache : List (ℕ × CachedSessionStats)

abbrev pub new : GatInMemoryStreamRepository
new = record { store = []; stats_cache = [] }

abbrev pub clear : GatInMemoryStreamRepository → GatInMemoryStreamRepository
clear r = record { store = Store.clear r.store; stats_cache = [] }

-- The sum over the streams, which wraps.
unfoldable pub sum_frames : ℕ → List (ℕ × Stream) → ℕ
sum_frames total [] = total
sum_frames total ((k, s) ∷ m) = sum_frames (add_u64 total s.stats.total_frames) m

-- The frames of a session, and the entry for them in the cache.
abbrev pub recount :
    GatInMemoryStreamRepository → StreamSession → ℕ → GatInMemoryStreamRepository × ℕ
recount r session current =
    let total = sum_frames 0 session.streams in
    (
      record r {
        stats_cache =
            insert session.id (record { total_frames = total; computed_at_secs = current })
              r.stats_cache;
      },
      total,
    )

unfoldable pub get_cached_total_frames :
    GatInMemoryStreamRepository → StreamSession → (ℕ → ℕ) → GatInMemoryStreamRepository × ℕ
unfolding sum_frames
get_cached_total_frames r session secs = elim (lookup session.id r.stats_cache) [
  | none ↦ recount r session (secs 0)
  | some c ↦ if is_valid c (secs 0) then (r, c.total_frames) else recount r session (secs 1)
]

abbrev pub invalidate_stats_cache : GatInMemoryStreamRepository → ℕ → GatInMemoryStreamRepository
invalidate_stats_cache r id = record r { stats_cache = remove id r.stats_cache }

abbrev flat : {T : Type 0} → Option (DomainResult T) → DomainResult T
flat (some result) = result
flat none = err session_not_found

unfoldable pub atomic_session_update :
    {T : Type 0}
    → GatInMemoryStreamRepository
    → ℕ
    → (StreamSession → StreamSession × DomainResult T)
    → GatInMemoryStreamRepository × DomainResult T
unfolding update_with
atomic_session_update r id f =
    let (store', result) = update_with id f r.store in (record r { store = store' }, flat result)

-- `if result.is_ok() { self.invalidate_stats_cache(&session_id) }`.
abbrev pub settled :
    {T : Type 0}
    → ℕ
    → GatInMemoryStreamRepository × DomainResult T
    → GatInMemoryStreamRepository × DomainResult T
settled id (r, ok t) = (invalidate_stats_cache r id, ok t)
settled id (r, err e) = (r, err e)

-- A method of the aggregate in a closure: one that fails before any change leaves the session.
abbrev pub attempt :
    StreamSession → DomainResult StreamSession → StreamSession × DomainResult (Unit {0})
attempt s (ok s') = (s', ok tt)
attempt s (err e) = (s, err e)

abbrev pub attempt_with :
    {T : Type 0} → StreamSession → DomainResult (StreamSession × T) → StreamSession × DomainResult T
attempt_with s (ok (s', t)) = (s', ok t)
attempt_with s (err e) = (s, err e)

-- After `?`, the closure drains the events of the session into its answer.
abbrev pub drained :
    {T R : Type 0}
    → (T → List DomainEvent → R)
    → StreamSession × DomainResult T
    → StreamSession × DomainResult R
drained answer (s, err e) = (s, err e)
drained answer (s, ok t) = let (s', events) = take_events s in (s', ok (answer t events))

abbrev pub only_events : Unit {0} → List DomainEvent → List DomainEvent
only_events u events = events

abbrev pub both : {T : Type 0} → T → List DomainEvent → T × List DomainEvent
both t events = (t, events)

abbrev pub find_session : GatInMemoryStreamRepository → ℕ → Option StreamSession
find_session r id = Store.get id r.store

abbrev pub session_exists : GatInMemoryStreamRepository → ℕ → Bool
session_exists r id = Store.contains_key id r.store

unfoldable pub save_session :
    GatInMemoryStreamRepository → StreamSession → GatInMemoryStreamRepository
save_session r session =
    let r' = invalidate_stats_cache r session.id in
    record r' { store = (Store.insert session.id session r'.store).0 }

unfoldable pub remove_session : GatInMemoryStreamRepository → ℕ → GatInMemoryStreamRepository
remove_session r id =
    let r' = invalidate_stats_cache r id in record r' { store = (Store.remove id r'.store).0 }

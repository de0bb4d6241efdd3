-- ===== src/Repository/Refines.antt =====
-- An atomic method of the repository against the operation of the aggregate.
use pjs.Prelude.{
  ℕ, ◌≡◌, refl, List, [], Option, none, some, inl, inr, if◌then◌else◌, Option-cases, nat_eq,
}
use pjs.Prelude.Map.{lookup, update}
use pjs.Prelude.Map.Unique.{Unique, update_same, lookup-update_same, lookup-remove_self}
use pjs.Outcome.{DomainResult, ok, err, session_not_found}
use pjs.F64.{Float}
use pjs.Session.{StreamSession, DomainEvent}
use pjs.Session.Basics.{close, take_events}
use pjs.Session.Streams.{start_stream, complete_stream}
use pjs.Store.{update_with}
use pjs.Repository.{
  GatInMemoryStreamRepository, atomic_session_update, settled, attempt, drained, only_events,
}
use pjs.Repository.Atomic.{
  Answer, start_stream_atomic, complete_stream_atomic, close_session_atomic,
}

abbrev pub without_events : StreamSession → StreamSession
without_events s = record s { pending_events = [] }

-- What an atomic method for the session `id` does, by what the operation of the aggregate answers for the
-- stored session: without a session, or when the operation fails, the repository is as it was; else the
-- operation's session is stored without its events, these are the answer, and nothing is cached of it. `j`
-- is any session.
unfoldable pub Refines :
    GatInMemoryStreamRepository
    → ℕ
    → Option (DomainResult StreamSession)
    → Answer (List DomainEvent)
    → ℕ
    → Type 0
Refines r id none answer j = answer ≡ (r, err session_not_found)
Refines r id (some (err e)) answer j = answer ≡ (r, err e)
Refines r id (some (ok s)) answer j =
    (answer.1 ≡ ok s.pending_events)
    × (lookup j answer.0.store
        ≡ (if nat_eq.beq id j then some (without_events s) else lookup j r.store))
    × (lookup id answer.0.stats_cache ≡ none)

abbrev pub apply_to :
    Option StreamSession
    → (StreamSession → DomainResult StreamSession)
    → Option (DomainResult StreamSession)
apply_to none op = none
apply_to (some s) op = some (op s)

Refines-found :
    (r : GatInMemoryStreamRepository) (id j : ℕ) (s : StreamSession)
    (x : DomainResult StreamSession)
    → Unique r.stats_cache
    → lookup id r.store ≡ some s
    → let y = drained only_events (attempt s x) in
      Refines r id (some x) (settled id (record r { store = update id y.0 r.store }, y.1)) j
unfolding Refines take_events
Refines-found r id j s (err e) one found = rw (update_same id s r.store found) refl
Refines-found r id j s (ok t) one found = (
  refl,
  lookup-update_same id j (without_events t) s r.store found,
  lookup-remove_self id r.stats_cache one,
)

Refines-atomic :
    (r : GatInMemoryStreamRepository) (id j : ℕ) (op : StreamSession → DomainResult StreamSession)
    → Unique r.stats_cache
    → Refines r id
        (apply_to (lookup id r.store) op)
        (settled id (atomic_session_update r id (λ s. drained only_events (attempt s (op s)))))
        j
unfolding atomic_session_update Refines
Refines-atomic r id j op one = elim (Option-cases (lookup id r.store)) [
  | inl gone ↦ rw (gone, update_with) refl
  | inr (s, found) ↦ rw (found, update_with) (Refines-found r id j s (op s) one found)
]

-- Starting a stream, completing one and closing the session through the repository each refine the
-- operation of the aggregate on the stored session: an unknown session is its error, a failing operation
-- leaves the repository exactly as it was, and a successful one stores the session that the operation
-- gives, with its events drained into the answer, and touches no other session.
pub atomic-Refines :
    (r : GatInMemoryStreamRepository) (id j stream_id : ℕ) (h : Float) (now utc : ℕ → ℕ)
    → Unique r.stats_cache
    → Refines r id
        (apply_to (lookup id r.store) (λ s. start_stream s stream_id now utc))
        (start_stream_atomic r id now utc stream_id)
        j
      × Refines r id
          (apply_to (lookup id r.store) (λ s. complete_stream h s stream_id now utc))
          (complete_stream_atomic r id now utc h stream_id)
          j
      × Refines r id
          (apply_to (lookup id r.store) (λ s. close s now utc))
          (close_session_atomic r id now utc)
          j
unfolding start_stream_atomic complete_stream_atomic close_session_atomic
atomic-Refines r id j stream_id h now utc one = (
  Refines-atomic r id j (λ s. start_stream s stream_id now utc) one,
  Refines-atomic r id j (λ s. complete_stream h s stream_id now utc) one,
  Refines-atomic r id j (λ s. close s now utc) one,
)

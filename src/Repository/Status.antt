-- ===== src/Repository/Status.antt =====
-- The update of a stream's status in the store of streams.
use pjs.Prelude.{ℕ, ◌≡◌, ap, true, some, arith, inl, inr, if◌then◌else◌, Option-cases, nat_eq}
use pjs.Prelude.Map.{lookup, update}
use pjs.Prelude.Map.Unique.{lookup-update_same}
use pjs.Outcome.{ok, DomainResult-cases}
use pjs.Stream.{Stream, start_streaming, fail, cancel, add_metadata}
use pjs.Stream
use pjs.Store.{update_with}
use pjs.Repository.Streams.{
  StreamStatus, created, active, paused, completed, failed, cancelled, GatInMemoryStreamStore,
  apply_status, stream_state_matches_status, update_stream_status,
}

-- A transition ends in the state that the status asks for.
apply_status-matches :
    (status : StreamStatus) (s t : Stream) (utc : ℕ → ℕ)
    → apply_status status s utc ≡ ok t
    → stream_state_matches_status t.state status ≡ true
unfolding apply_status start_streaming Stream.complete_stream fail cancel add_metadata
apply_status-matches active s t utc e = ground arith
apply_status-matches completed s t utc e = ground arith
apply_status-matches failed s t utc e = ground arith
apply_status-matches cancelled s t utc e = ground arith
apply_status-matches paused s t utc e = absurd (cc)
apply_status-matches created s t utc e = absurd (cc)

-- A status update that succeeds leaves the stream, which was there, in a state that matches the status,
-- and every other stream as it was.
pub update_stream_status-matches :
    (store store' : GatInMemoryStreamStore) (id j : ℕ) (status : StreamStatus) (utc : ℕ → ℕ)
    → update_stream_status store id status utc ≡ (store', ok tt)
    → (s : Stream) × (t : Stream) × (lookup id store ≡ some s)
      × (stream_state_matches_status t.state status ≡ true)
      × (lookup j store' ≡ (if nat_eq.beq id j then some t else lookup j store))
unfolding update_stream_status
update_stream_status-matches store store' id j status utc e =
    elim (Option-cases (lookup id store)) [
      | inl gone ↦ absurd (cc (rw (gone, update_with) at e))
      | inr (s, found) ↦ elim (DomainResult-cases (apply_status status s utc)) [
        | inr (why, refused) ↦ absurd (cc (rw (found, update_with, refused) at e))
        | inl (t, moved) ↦
            let whole : update id t store ≡ store' =
              ap (λ p. p.0) (rw (found, update_with, moved) at e) in
            (
              s,
              t,
              found,
              apply_status-matches status s t utc moved,
              rw (← whole) (lookup-update_same id j t s store found),
            )
      ]
    ]

-- ===== src/Session/Tests.antt =====
-- Runs of a session at concrete data.
use pjs.Prelude.{ℕ, ◌+◌, ◌*◌, ◌≤◌, ◌≡◌, refl, inl, List, [], ◌∷◌, none, arith, length, nat_eq}
use pjs.Prelude.Map.{lookup, insert, update}
use pjs.Prelude.Sort.{Descends}
use pjs.Outcome.{DomainResult, ok, err}
use pjs.Words.{add_u64}
use pjs.F64.Tests.{test_float}
use pjs.Frame.{Frame}
use pjs.Stream.{Stream, StreamState, start_streaming}
use pjs.Stream
use pjs.Stream.Tests.{clock, source, three}
use pjs.Stream.Frames.{sizes}
use pjs.Session.{StreamSession, default_config}
use pjs.Session.Basics.{new, activate, close, take_events}
use pjs.Session.Streams.{create_stream, create_stream_with_config, start_stream}
use pjs.Session.Batch.{commit_priority_frames}
use pjs.Session.Batch.Selection.{commit_priority_frames-bounded}
use pjs.Session.Counters.{Inv}
use pjs.Session.Counters.Reach.{
  Reach, start, more, activates, takes, creates, starts, new-Reach-Inv,
}
use pjs.Session.Closing.{IsClosed, close-ends}
use pjs.Session.Closing.Final.{Closed, ended_for_good}

abbrev plus_seconds : ℕ → ℕ → ℕ
plus_seconds t n = t + n * 1000

-- The value of a call that succeeds.
abbrev outcome {ℓ} : {A : Type ℓ} → A → DomainResult A → A
outcome d (ok a) = a
outcome d (err e) = d

abbrev opened : StreamSession
opened = new 1 default_config plus_seconds clock

abbrev active : StreamSession
active = outcome opened (activate opened clock)

abbrev with_stream : StreamSession
with_stream = (outcome (active, 0) (create_stream_with_config active 5 source none clock clock)).0

abbrev running : StreamSession
running = outcome with_stream (start_stream with_stream 5 clock clock)

running-Reach : Reach test_float plus_seconds opened running
unfolding new activate create_stream_with_config create_stream start_stream start_streaming
    Stream.new lookup insert update
running-Reach =
    more (more (more start (activates clock refl)) (creates 5 source none clock clock refl refl))
      (starts 5 clock clock refl)

new-Reach-Inv_example : Inv running
new-Reach-Inv_example =
    new-Reach-Inv test_float plus_seconds 1 default_config clock running (omega arith) running-Reach

close-ends_example : (t : StreamSession) × (close running clock clock ≡ ok t) × IsClosed running t
unfolding new activate create_stream_with_config create_stream start_stream start_streaming
    Stream.new lookup insert update
close-ends_example = close-ends running clock clock refl

-- The counter of active streams stays where it was.
stale_counter : (outcome running (close running clock clock)).stats.active_streams ≡ 1
unfolding new activate create_stream_with_config create_stream start_stream start_streaming
    Stream.new lookup insert update close pjs.Words.add_u64
stale_counter = refl

abbrev child : Stream
child = outcome before (start_streaming before clock)
  where
    before : Stream
    before = Stream.new 5 1 source Stream.default_config clock

abbrev closed : StreamSession
closed = outcome running (close running clock clock)

ended_for_good_example :
    ((take_events closed).0.state ≡ closed.state) × Closed (take_events closed).0
unfolding new activate create_stream_with_config create_stream start_stream start_streaming
    Stream.new lookup insert update close
ended_for_good_example =
    ended_for_good test_float plus_seconds running closed (take_events closed).0 clock clock
      (inl refl) (more start takes)

abbrev batch : StreamSession × List Frame
batch =
    outcome (running, [])
      (commit_priority_frames test_float running ((5, three) ∷ []) 1 clock clock)

commit_priority_frames-bounded_example :
    (length batch.1 ≤ 1)
    × Descends (λ f. f.priority.byte) batch.1
    × (batch.0.stats.total_frames ≡ add_u64 running.stats.total_frames (length batch.1))
    × (batch.0.stats.total_bytes ≡ add_u64 running.stats.total_bytes (sizes test_float batch.1))
unfolding new activate create_stream_with_config create_stream start_stream start_streaming
    Stream.new lookup insert update commit_priority_frames
commit_priority_frames-bounded_example =
    commit_priority_frames-bounded test_float running batch.0 ((5, three) ∷ []) 1 clock clock
      batch.1 refl

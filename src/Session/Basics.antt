-- ===== src/Session/Basics.antt =====
-- The life cycle of a session. `now i` is the i-th reading of the session's clock during a call, in
-- milliseconds; `utc i` that of the system clock, which the child streams read. `plus_seconds t n`
-- is what chrono makes of `t + Duration::seconds(n as i64)`.
use pjs.Prelude.{
  ℕ, suc, ◌/◌, List, [], ◌∷◌, ◌++◌, Bool, true, false, Option, none, some, ltb, not, ◌==◌, ◌&&◌,
  if◌then◌else◌,
}
use pjs.Prelude.Map.{tally}
use pjs.Prelude.Text.{Text}
use pjs.Prelude.Int.{ℤ, pos, negsuc, sub_ℕ}
use pjs.Outcome.{DomainResult, ok, err, ◌>>◌, guard, invalid_state_transition}
use pjs.Stream.{Stream, StreamState, cancel}
use pjs.Stream
use pjs.Session.{
  StreamSession, SessionState, SessionConfig, DomainEvent, initializing, active, no_stats,
  session_activated, session_closed, session_timed_out, session_timeout_extended,
}

-- `with_time_provider`; `fresh` is the new random identifier.
unfoldable pub new : ℕ → SessionConfig → (ℕ → ℕ → ℕ) → (ℕ → ℕ) → StreamSession
new fresh config plus_seconds now = record {
  id = fresh;
  state = initializing;
  config = config;
  stats = no_stats;
  created_at = now 0;
  updated_at = now 0;
  expires_at = plus_seconds (now 0) config.session_timeout_seconds;
  completed_at = none;
  streams = [];
  pending_events = [];
  client_info = none;
  user_agent = none;
  ip_address = none;
}

-- The one reading of the clock that `is_expired` takes.
abbrev pub is_expired : StreamSession → ℕ → Bool
is_expired s t = ltb s.expires_at t

abbrev pub active_state : SessionState → Bool
active_state active = true
active_state _ = false

abbrev pub is_active : StreamSession → ℕ → Bool
is_active s t = active_state s.state && not (is_expired s t)

abbrev pub is_initializing : SessionState → Bool
is_initializing initializing = true
is_initializing _ = false

-- `update_timestamp`, then `add_event`.
abbrev pub touched : StreamSession → ℕ → DomainEvent → StreamSession
touched s now e = record s { updated_at = now; pending_events = s.pending_events ++ e ∷ [] }

unfoldable pub activate : StreamSession → (ℕ → ℕ) → DomainResult StreamSession
activate s now =
    guard (is_initializing s.state) invalid_state_transition
    >> ok (touched (record s { state = active }) (now 0) (session_activated s.id (now 1)))

abbrev pub or_same : Stream → DomainResult Stream → Stream
or_same s (ok t) = t
or_same s (err e) = s

-- The loop of `close`: each active stream is cancelled, and reads the system clock twice.
unfoldable pub cancel_active : List (ℕ × Stream) → (ℕ → ℕ) → List (ℕ × Stream)
cancel_active [] utc = []
cancel_active ((k, s) ∷ m) utc =
    if Stream.is_active s
    then (k, or_same s (cancel s utc)) ∷ cancel_active m (λ i. utc (suc (suc i)))
    else (k, s) ∷ cancel_active m utc

unfoldable pub close : StreamSession → (ℕ → ℕ) → (ℕ → ℕ) → DomainResult StreamSession
unfolding cancel_active
close s now utc =
    guard (active_state s.state) invalid_state_transition
    >> ok (
        touched
          (record s {
            state = SessionState.completed;
            completed_at = some (now 0);
            streams = cancel_active s.streams utc;
          })
          (now 1) (session_closed s.id (now 2)))

-- The answer says whether the session was closed. The streams are cancelled and then dropped.
unfoldable pub force_close_expired : StreamSession → (ℕ → ℕ) → StreamSession × Bool
force_close_expired s now =
    if is_expired s (now 0)
    then (
      touched (record s { state = SessionState.failed; completed_at = some (now 1); streams = [] })
          (now 2) (session_timed_out s.id s.state s.config.session_timeout_seconds (now 3)),
      true,
    )
    else (s, false)

unfoldable pub extend_timeout :
    StreamSession → ℕ → (ℕ → ℕ → ℕ) → (ℕ → ℕ) → DomainResult StreamSession
extend_timeout s additional plus_seconds now =
    guard (not (is_expired s (now 0))) invalid_state_transition
    >> ok (
        touched (record s { expires_at = plus_seconds s.expires_at additional }) (now 1)
          (session_timeout_extended s.id additional (plus_seconds s.expires_at additional) (now 2)))

unfoldable pub set_client_info :
    StreamSession → Text → Option Text → Option Text → (ℕ → ℕ) → StreamSession
set_client_info s info agent ip now = record s {
  client_info = some info;
  user_agent = agent;
  ip_address = ip;
  updated_at = now 0;
}

unfoldable pub take_events : StreamSession → StreamSession × List DomainEvent
take_events s = (record s { pending_events = [] }, s.pending_events)

pub record SessionHealth : Type 0 where
  pub is_healthy : Bool
  pub active_streams : ℕ
  pub failed_streams : ℕ
  pub expired : Bool
  pub uptime_seconds : ℤ

abbrev pub has_failed : Stream → Bool
has_failed s = elim s.state [ StreamState.failed ↦ true | _ ↦ false ]

-- `num_seconds` of a difference of milliseconds: towards zero.
abbrev pub num_seconds : ℤ → ℤ
num_seconds (pos n) = pos (n / 1000)
num_seconds (negsuc n) = sub_ℕ 0 (suc n / 1000)

unfoldable pub health_check : StreamSession → (ℕ → ℕ) → SessionHealth
health_check s now =
    let failures = tally has_failed s.streams in
    record {
      is_healthy = is_active s (now 0) && failures == 0;
      active_streams = tally Stream.is_active s.streams;
      failed_streams = failures;
      expired = is_expired s (now 1);
      uptime_seconds = num_seconds (sub_ℕ (now 2) s.created_at);
    }

-- ===== src/Session.antt =====
-- crates/pjs-core/src/domain/aggregates/stream_session.rs: the data of the aggregate. Its operations
-- are in the modules below: `Basics` (life cycle of the session), `Streams` (one child stream) and
-- `Batch` (frames across streams).
pub mod Basics
pub mod Streams
pub mod Batch
pub mod Counters
pub mod Closing
mod Tests
use pjs.Prelude.{ℕ, ◌+◌, List, [], ◌∷◌, Bool, Option, none, some}
use pjs.Prelude.Text.{Text}
use pjs.F64.{zero_bits}
use pjs.Stream.{Stream, StreamConfig}
use pjs.Stream

pub record SessionConfig : Type 0 where
  pub max_concurrent_streams : ℕ
  pub session_timeout_seconds : ℕ
  pub default_stream_config : StreamConfig
  pub enable_compression : Bool
  pub metadata : List (Text × Text)

abbrev pub default_config : SessionConfig
default_config = record {
  max_concurrent_streams = 10;
  session_timeout_seconds = 3600;
  default_stream_config = Stream.default_config;
  enable_compression = Bool.true;
  metadata = [];
}

pub record SessionStats : Type 0 where
  pub total_streams : ℕ
  pub active_streams : ℕ
  pub completed_streams : ℕ
  pub failed_streams : ℕ
  pub total_frames : ℕ
  pub total_bytes : ℕ
  pub average_stream_duration_ms : ℕ
  pub recent_avg_duration_ms : ℕ

abbrev pub no_stats : SessionStats
no_stats = record {
  total_streams = 0;
  active_streams = 0;
  completed_streams = 0;
  failed_streams = 0;
  total_frames = 0;
  total_bytes = 0;
  average_stream_duration_ms = zero_bits;
  recent_avg_duration_ms = zero_bits;
}

-- crates/pjs-domain/src/events/mod.rs: the states and the events. A session raises some of these.
pub data SessionState : Type 0 where
  initializing active closing completed failed : SessionState

pub record PriorityDistribution : Type 0 where
  pub critical_frames : ℕ
  pub high_frames : ℕ
  pub medium_frames : ℕ
  pub low_frames : ℕ
  pub background_frames : ℕ

pub record PerformanceMetrics : Type 0 where
  pub frames_per_second : ℕ
  pub bytes_per_second : ℕ
  pub average_frame_size : ℕ
  pub priority_distribution : PriorityDistribution
  pub latency_ms : Option ℕ

-- crates/pjs-domain/src/value_objects/backpressure.rs.
pub data BackpressureSignal : Type 0 where
  go_on slow_down pause : BackpressureSignal

pub data DomainEvent : Type 0 where
  session_activated session_closed session_expired : (session_id timestamp : ℕ) → DomainEvent
  session_timed_out :
      (session_id : ℕ) (original_state : SessionState) (timeout_duration timestamp : ℕ)
      → DomainEvent
  session_timeout_extended :
      (session_id additional_seconds new_expires_at timestamp : ℕ) → DomainEvent
  stream_created stream_started stream_completed :
      (session_id stream_id timestamp : ℕ) → DomainEvent
  stream_failed : (session_id stream_id : ℕ) (error : Text) (timestamp : ℕ) → DomainEvent
  stream_cancelled : (session_id stream_id timestamp : ℕ) → DomainEvent
  skeleton_generated : (session_id stream_id frame_size_bytes timestamp : ℕ) → DomainEvent
  patch_frames_generated :
      (session_id stream_id frame_count total_bytes highest_priority timestamp : ℕ) → DomainEvent
  frames_batched : (session_id frame_count timestamp : ℕ) → DomainEvent
  priority_threshold_adjusted :
      (session_id old_threshold new_threshold : ℕ) (reason : Text) (timestamp : ℕ) → DomainEvent
  stream_config_updated : (session_id stream_id timestamp : ℕ) → DomainEvent
  performance_metrics_recorded :
      (session_id : ℕ) (metrics : PerformanceMetrics) (timestamp : ℕ) → DomainEvent
  backpressure_received :
      (session_id : ℕ) (stream_id : Option ℕ) (signal : BackpressureSignal) (timestamp : ℕ)
      → DomainEvent
  stream_paused : (session_id stream_id : ℕ) (reason : Text) (timestamp : ℕ) → DomainEvent
  stream_resumed : (session_id stream_id paused_duration_ms timestamp : ℕ) → DomainEvent
  credits_updated : (session_id available_credits max_credits timestamp : ℕ) → DomainEvent

pub record StreamSession : Type 0 where
  pub id : ℕ
  pub state : SessionState
  pub config : SessionConfig
  pub stats : SessionStats
  pub created_at : ℕ
  pub updated_at : ℕ
  pub expires_at : ℕ
  pub completed_at : Option ℕ
  pub streams : List (ℕ × Stream)
  pub pending_events : List DomainEvent
  pub client_info : Option Text
  pub user_agent : Option Text
  pub ip_address : Option Text

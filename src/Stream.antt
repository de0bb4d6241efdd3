-- ===== src/Stream.antt =====
-- crates/pjs-domain/src/entities/stream.rs: one prioritised stream, its life cycle, the frames that
-- it makes and its statistics. `utc i` is the i-th reading of the system clock during a call. A
-- method with `&mut self` returns the stream after it; where a method fails before any change, its
-- error stands alone.
pub mod Extract
pub mod Chunks
pub mod Lifecycle
pub mod Frames
pub mod Tests
use pjs.Prelude.{
  ℕ, zero, suc, ◌+◌, ◌*◌, ◌≤◌, List, [], ◌∷◌, ◌++◌, Bool, true, false, Option, none, some, is_empty,
  map, max, length, take, drop, ◌==◌, if◌then◌else◌, not, ◌||◌, text_eq,
}
use pjs.Prelude.Map
use pjs.Prelude.Text.{Text, codes, len}
use pjs.Prelude.Int.{ℤ, sub_ℕ}
use pjs.Outcome.{
  DomainResult, ok, err, ◌>>=◌, ◌>>◌, guard, ok_or, invalid_state_transition, invalid_stream_state,
}
use pjs.Words.{add_u64}
use pjs.F64.{Float, zero_bits}
use pjs.Priority.{Priority, critical, medium, ge}
use pjs.JsonPath.{JsonPath}
use pjs.JsonData.{
  JsonData, null, bool, integer, float, string, array, object, nil, Fields, end, field,
}
use pjs.Heuristic.{PriorityHeuristicConfig}
use pjs.Frame.{
  Frame, FramePatch, FrameType, skeleton, patch, complete, error, new_skeleton, new_patch,
  new_complete, estimated_size, is_critical, is_high_priority,
}
use Extract.{extract_patches, generate_skeleton}
use Chunks.{chunk_patches_for_commit}

pub data StreamState : Type 0 where
  preparing streaming completed failed cancelled : StreamState

pub record StreamConfig : Type 0 where
  pub max_frame_size : ℕ
  pub max_frames_per_batch : ℕ
  pub enable_compression : Bool
  pub priority_rules : List (Text × Priority)

pub record StreamStats : Type 0 where
  pub total_frames : ℕ
  pub skeleton_frames : ℕ
  pub patch_frames : ℕ
  pub complete_frames : ℕ
  pub error_frames : ℕ
  pub total_bytes : ℕ
  pub critical_bytes : ℕ
  pub high_priority_bytes : ℕ
  pub average_frame_size : ℕ

pub record Stream : Type 0 where
  pub id : ℕ
  pub session_id : ℕ
  pub state : StreamState
  pub config : StreamConfig
  pub stats : StreamStats
  pub created_at : ℕ
  pub updated_at : ℕ
  pub completed_at : Option ℕ
  pub next_sequence : ℕ
  pub source_data : Option JsonData
  pub metadata : List (Text × Text)

abbrev pub default_config : StreamConfig
default_config = record {
  max_frame_size = 64 * 1024;
  max_frames_per_batch = 10;
  enable_compression = true;
  priority_rules = [];
}

abbrev pub no_stats : StreamStats
no_stats = record {
  total_frames = 0;
  skeleton_frames = 0;
  patch_frames = 0;
  complete_frames = 0;
  error_frames = 0;
  total_bytes = 0;
  critical_bytes = 0;
  high_priority_bytes = 0;
  average_frame_size = zero_bits;
}

-- `Stream::new`; `fresh` is the new random identifier.
unfoldable pub new : ℕ → ℕ → JsonData → StreamConfig → (ℕ → ℕ) → Stream
new fresh session_id source_data config utc = record {
  id = fresh;
  session_id = session_id;
  state = preparing;
  config = config;
  stats = no_stats;
  created_at = utc 0;
  updated_at = utc 0;
  completed_at = none;
  next_sequence = 1;
  source_data = some source_data;
  metadata = [];
}

abbrev pub update_timestamp : Stream → ℕ → Stream
update_timestamp s now = record s { updated_at = now }

unfoldable pub add_metadata : Stream → Text → Text → ℕ → Stream
add_metadata s k v now = record s { metadata = Map.insert k v s.metadata; updated_at = now }

abbrev pub is_streaming : StreamState → Bool
is_streaming streaming = true
is_streaming _ = false

abbrev pub active_state : StreamState → Bool
active_state preparing = true
active_state streaming = true
active_state _ = false

abbrev pub finished_state : StreamState → Bool
finished_state completed = true
finished_state failed = true
finished_state cancelled = true
finished_state _ = false

abbrev pub is_active : Stream → Bool
is_active s = active_state s.state

abbrev pub is_finished : Stream → Bool
is_finished s = finished_state s.state

abbrev pub is_preparing : StreamState → Bool
is_preparing preparing = true
is_preparing _ = false

unfoldable pub start_streaming : Stream → (ℕ → ℕ) → DomainResult Stream
start_streaming s utc =
    guard (is_preparing s.state) invalid_state_transition
    >> ok (record s { state = streaming; updated_at = utc 0 })

unfoldable pub complete_stream : Stream → (ℕ → ℕ) → DomainResult Stream
complete_stream s utc =
    guard (is_streaming s.state) invalid_state_transition
    >> ok (record s { state = completed; completed_at = some (utc 0); updated_at = utc 1 })

unfoldable pub fail : Stream → Text → (ℕ → ℕ) → DomainResult Stream
unfolding add_metadata
fail s message utc =
    guard (active_state s.state) invalid_state_transition
    >> ok (
        add_metadata (record s { state = failed; completed_at = some (utc 0) }) (codes "error")
          message (utc 1))

unfoldable pub cancel : Stream → (ℕ → ℕ) → DomainResult Stream
cancel s utc =
    guard (active_state s.state) invalid_state_transition
    >> ok (record s { state = cancelled; completed_at = some (utc 0); updated_at = utc 1 })

unfoldable pub update_config : Stream → StreamConfig → (ℕ → ℕ) → DomainResult Stream
update_config s config utc =
    guard (is_active s) invalid_stream_state
    >> ok (record s { config = config; updated_at = utc 0 })

-- The counters of `record_frame_created` for each type of frame.
abbrev pub count_frame : FrameType → Bool → Bool → ℕ → StreamStats → StreamStats
count_frame skeleton c h size st = record st {
  skeleton_frames = add_u64 st.skeleton_frames 1;
  critical_bytes = add_u64 st.critical_bytes size;
}
count_frame patch c h size st = record st {
  patch_frames = add_u64 st.patch_frames 1;
  critical_bytes = if c then add_u64 st.critical_bytes size else st.critical_bytes;
  high_priority_bytes =
      if c
      then st.high_priority_bytes
      else if h
      then add_u64 st.high_priority_bytes size
      else st.high_priority_bytes;
}
count_frame complete c h size st = record st {
  complete_frames = add_u64 st.complete_frames 1;
  critical_bytes = add_u64 st.critical_bytes size;
}
count_frame error c h size st = record st {
  error_frames = add_u64 st.error_frames 1;
  critical_bytes = add_u64 st.critical_bytes size;
}

unfoldable pub record_frame_created : Float → Stream → Frame → ℕ → Stream
record_frame_created h s f now =
    let size = estimated_size h f in
    let frames = add_u64 s.stats.total_frames 1 in
    let bytes = add_u64 s.stats.total_bytes size in
    let counted =
      count_frame f.frame_type (is_critical f) (is_high_priority f) size
        (record s.stats { total_frames = frames; total_bytes = bytes }) in
    record s {
      next_sequence = add_u64 s.next_sequence 1;
      stats = record counted { average_frame_size = h.div (h.of_nat bytes) (h.of_nat frames) };
      updated_at = now;
    }

unfoldable pub create_skeleton_frame : Float → Stream → (ℕ → ℕ) → DomainResult (Stream × Frame)
create_skeleton_frame h s utc = do
  guard (is_streaming s.state) invalid_stream_state
  skeleton_data ← ok_or s.source_data invalid_stream_state
  let frame = new_skeleton s.id s.next_sequence (generate_skeleton skeleton_data) (utc 0)
  ok (record_frame_created h s frame (utc 1), frame)

unfoldable pub extract_prioritized_patches :
    Stream → Priority → DomainResult (List (FramePatch × Priority))
extract_prioritized_patches s threshold = do
  guard (is_streaming s.state) invalid_stream_state
  source_data ← ok_or s.source_data invalid_stream_state
  ok (extract_patches s.config.priority_rules source_data threshold)

unfoldable pub finalize_patch_frame :
    Float → Stream → Priority → List FramePatch → (ℕ → ℕ) → DomainResult (Stream × Frame)
finalize_patch_frame h s priority patches utc = do
  guard (is_streaming s.state) invalid_stream_state
  frame ← new_patch s.id s.next_sequence priority patches (utc 0)
  ok (record_frame_created h s frame (utc 1), frame)

-- The iterator of `commit_patch_frames`: it stops at the first error, after the frames before it
-- have been recorded. Each frame takes two readings of the clock.
unfoldable pub commit_chunks :
    Float
    → Stream
    → List (Priority × List FramePatch)
    → (ℕ → ℕ)
    → Stream × DomainResult (List Frame)
commit_chunks h s [] utc = (s, ok [])
commit_chunks h s ((priority, patches) ∷ chunks) utc =
    elim (finalize_patch_frame h s priority patches utc) [
      | err e ↦ (s, err e)
      | ok (s', frame) ↦
          let (final, rest) = commit_chunks h s' chunks (λ i. utc (suc (suc i))) in
          (final, rest >>= λ frames. ok (frame ∷ frames))
    ]

unfoldable pub commit_patch_frames :
    Float → Stream → List (FramePatch × Priority) → ℕ → (ℕ → ℕ) → Stream × DomainResult (List Frame)
commit_patch_frames h s patches max_frames utc =
    if is_streaming s.state
    then commit_chunks h s (chunk_patches_for_commit patches max_frames) utc
    else (s, err invalid_stream_state)

unfoldable pub create_patch_frames :
    Float → Stream → Priority → ℕ → (ℕ → ℕ) → Stream × DomainResult (List Frame)
create_patch_frames h s threshold max_frames utc = elim (extract_prioritized_patches s threshold) [
  | err e ↦ (s, err e)
  | ok patches ↦ commit_patch_frames h s patches max_frames utc
]

unfoldable pub create_completion_frame :
    Float → Stream → Option Text → (ℕ → ℕ) → DomainResult (Stream × Frame)
create_completion_frame h s checksum utc = do
  guard (is_streaming s.state) invalid_stream_state
  let frame = new_complete s.id s.next_sequence checksum (utc 0)
  ok (record_frame_created h s frame (utc 1), frame)

-- In milliseconds, the unit of the clock readings.
abbrev pub duration : Stream → Option ℤ
duration s = elim s.completed_at [ none ↦ none | some done ↦ some (sub_ℕ done s.created_at) ]

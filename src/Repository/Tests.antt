-- ===== src/Repository/Tests.antt =====
-- A repository with one session, which has one stream.
use pjs.Prelude.{
  ℕ, ◌≤◌, List, [], ◌∷◌, ◌++◌, ◌≡◌, refl, true, false, none, some, length, take, ltb, nat_eq,
}
use pjs.Prelude.Map.{lookup, insert, remove}
use pjs.Prelude.Sort.{sort_desc}
use pjs.Prelude.Text.{Text}
use pjs.F64.Tests.{test_float}
use pjs.JsonData.{null}
use pjs.Stream.{Stream, StreamState, start_streaming}
use pjs.Stream
use pjs.Session.{StreamSession, SessionState, default_config, no_stats}
use pjs.Session.Basics.{close}
use pjs.Session.Streams.{start_stream, complete_stream}
use pjs.Store.{filter_limited}
use pjs.Repository.{
  GatInMemoryStreamRepository, new, sum_frames, save_session, get_cached_total_frames,
}
use pjs.Repository.Queries.{
  SessionQueryCriteria, SessionSortField, Pagination, SessionQueryResult, created_at, descending,
  find_sessions_by_criteria, matching, sorted, get_session_health,
}
use pjs.Repository.Streams.{GatInMemoryStreamStore}
use pjs.Repository.Atomic.{start_stream_atomic, complete_stream_atomic, close_session_atomic}
use pjs.Repository.Calls.{Call, save, health, call, calls, total_of, get_session_health-total}
use pjs.Repository.Pages.{
  InOrder, IsWhole, find_sessions_by_criteria-page, find_sessions_by_criteria-IsWhole,
}
use pjs.Repository.Refines.{Refines, apply_to, atomic-Refines}

abbrev clock : ℕ → ℕ
clock i = i

abbrev video : Stream
video = record {
  id = 7;
  session_id = 1;
  state = StreamState.preparing;
  config = Stream.default_config;
  stats = record Stream.no_stats { total_frames = 3 };
  created_at = 0;
  updated_at = 0;
  completed_at = none;
  next_sequence = 4;
  source_data = some null;
  metadata = [];
}

abbrev session : StreamSession
session = record {
  id = 1;
  state = SessionState.active;
  config = default_config;
  stats = no_stats;
  created_at = 0;
  updated_at = 0;
  expires_at = 1000;
  completed_at = none;
  streams = (7, video) ∷ [];
  pending_events = [];
  client_info = none;
  user_agent = none;
  ip_address = none;
}

abbrev repository : GatInMemoryStreamRepository
repository = record { store = (1, session) ∷ []; stats_cache = [] }

-- The second query finds the number in the cache.
abbrev history : List Call
history = save session ∷ health test_float 1 clock clock ∷ []

get_session_health-total_example :
    total_of (get_session_health test_float (calls history new) 1 clock clock).1
    ≡ some (sum_frames 0 session.streams)
unfolding calls call save_session get_session_health get_cached_total_frames lookup insert remove
get_session_health-total_example =
    get_session_health-total history test_float 1 session clock clock refl

abbrev criteria : SessionQueryCriteria
criteria = record {
  states = none;
  created_after = some 0;
  created_before = none;
  client_info_pattern = none;
  has_active_streams = some true;
  min_stream_count = none;
  max_stream_count = some 4;
  exclude_expired = true;
}

abbrev first_page : Pagination SessionSortField
first_page = record { offset = 0; limit = 10; sort_by = some created_at; sort_order = descending }

abbrev same_text : Text → Text
same_text t = t

abbrev found : SessionQueryResult
found = record {
  sessions = session ∷ [];
  total_count = 1;
  has_more = false;
  scan_limit_reached = false;
}

find_sessions_by_criteria-page_example :
    let ss = sorted first_page (matching same_text repository criteria clock).0 in
    (take 0 ss ++ found.sessions ≡ take 10 ss)
    × InOrder (some created_at) descending ss
    × (length found.sessions ≤ 1000)
    × (found.total_count ≡ length ss)
    × (found.has_more ≡ ltb 10 (length ss))
unfolding find_sessions_by_criteria filter_limited sort_desc
find_sessions_by_criteria-page_example =
    find_sessions_by_criteria-page same_text repository criteria first_page clock found refl

find_sessions_by_criteria-IsWhole_example :
    IsWhole same_text repository criteria first_page clock found
unfolding find_sessions_by_criteria filter_limited sort_desc
find_sessions_by_criteria-IsWhole_example =
    find_sessions_by_criteria-IsWhole same_text repository criteria first_page clock found refl refl

atomic-Refines_example :
    Refines repository 1
      (apply_to (lookup 1 repository.store) (λ s. start_stream s 7 clock clock))
      (start_stream_atomic repository 1 clock clock 7)
      1
    × Refines repository 1
        (apply_to (lookup 1 repository.store) (λ s. complete_stream test_float s 7 clock clock))
        (complete_stream_atomic repository 1 clock clock test_float 7)
        1
    × Refines repository 1
        (apply_to (lookup 1 repository.store) (λ s. close s clock clock))
        (close_session_atomic repository 1 clock clock)
        1
atomic-Refines_example = atomic-Refines repository 1 1 7 test_float clock clock tt

abbrev streams : GatInMemoryStreamStore
streams = (7, video) ∷ []

abbrev started : GatInMemoryStreamStore
started = (7, record video { state = StreamState.streaming }) ∷ []

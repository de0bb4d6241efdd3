-- ===== src/Repository/Queries.antt =====
-- crates/pjs-core/src/domain/ports/repositories.rs: criteria and pagination; and the queries of
-- crates/pjs-core/src/infrastructure/adapters/gat_memory_repository.rs. `now i` is the reading of the clock for
-- the i-th session that a query looks at.
use pjs.Prelude.{
  ℕ, ◌+◌, List, [], ◌∷◌, Bool, true, false, Option, none, some, ltb, leb, length, take, drop,
  if◌then◌else◌, ◌==◌, ◌&&◌, ◌||◌, not, is_empty, nat_eq,
}
use pjs.Prelude.Map.{lookup, tally}
use pjs.Prelude.Sort.{sort_desc}
use pjs.Prelude.Sort.Ascending.{sort_asc}
use pjs.Prelude.Text.{Text, codes}
use pjs.Outcome.{DomainResult, ok, err, ◌>>◌, guard, invalid_input, session_not_found}
use pjs.Words.{max_usize}
use pjs.F64.{Float, zero_bits}
use pjs.Heuristic.{eq_ignore_ascii_case}
use pjs.Streamer.{has_part}
use pjs.Stream
use pjs.Session.{StreamSession, SessionState, initializing, active, closing}
use pjs.Session.Basics.{is_active, is_expired, health_check}
use pjs.Store.{filter_limited}
use pjs.Repository.{GatInMemoryStreamRepository, get_cached_total_frames}

pub record SessionQueryCriteria : Type 0 where
  pub states : Option (List Text)
  pub created_after : Option ℕ
  pub created_before : Option ℕ
  pub client_info_pattern : Option Text
  pub has_active_streams : Option Bool
  pub min_stream_count : Option ℕ
  pub max_stream_count : Option ℕ
  pub exclude_expired : Bool

-- Both are there, and the first is greater.
abbrev pub exceeds : Option ℕ → Option ℕ → Bool
exceeds (some low) (some high) = ltb high low
exceeds _ _ = false

abbrev pub is_empty_list : Option (List Text) → Bool
is_empty_list (some xs) = is_empty xs
is_empty_list none = false

unfoldable pub validate_criteria : SessionQueryCriteria → DomainResult (Unit {0})
validate_criteria c =
    guard (not (exceeds c.min_stream_count c.max_stream_count)) invalid_input
    >> (guard (not (exceeds c.created_after c.created_before)) invalid_input
        >> (guard (not (is_empty_list c.states)) invalid_input >> ok tt))

pub data SessionSortField : Type 0 where
  created_at updated_at stream_count total_bytes : SessionSortField

pub data SortOrder : Type 0 where
  ascending descending : SortOrder

pub record Pagination (S : Type 0) : Type 0 where
  pub offset : ℕ
  pub limit : ℕ
  pub sort_by : Option S
  pub sort_order : SortOrder

-- MAX_PAGINATION_LIMIT is 1000 and MAX_PAGINATION_OFFSET a million.
unfoldable pub validate_pagination : {S : Type 0} → Pagination S → DomainResult (Unit {0})
validate_pagination p =
    guard (not (p.limit == 0)) invalid_input
    >> (guard (leb p.limit 1000) invalid_input
        >> (guard (leb p.offset 1000000) invalid_input
            >> (guard (leb (p.offset + p.limit) max_usize) invalid_input >> ok tt)))

unfoldable pub new_validated : {S : Type 0} → ℕ → ℕ → DomainResult (Pagination S)
unfolding validate_pagination
new_validated {S = S} offset limit =
    let p : Pagination S = record {
      offset = offset;
      limit = limit;
      sort_by = none;
      sort_order = ascending;
    } in
    validate_pagination p >> ok p

pub record SessionQueryResult : Type 0 where
  pub sessions : List StreamSession
  pub total_count : ℕ
  pub has_more : Bool
  pub scan_limit_reached : Bool

-- `SessionState::as_str`.
abbrev pub as_str : SessionState → Text
as_str initializing = codes "Initializing"
as_str active = codes "Active"
as_str closing = codes "Closing"
as_str SessionState.completed = codes "Completed"
as_str SessionState.failed = codes "Failed"

abbrev pub any_state : List Text → Text → Bool
any_state [] name = false
any_state (s ∷ ss) name = eq_ignore_ascii_case s name || any_state ss name

-- A bound that is not there refuses nothing.
abbrev pub below : Option ℕ → ℕ → Bool
below none n = false
below (some bound) n = ltb n bound

abbrev pub above : Option ℕ → ℕ → Bool
above none n = false
above (some bound) n = ltb bound n

abbrev pub state_refused : Option (List Text) → SessionState → Bool
state_refused none state = false
state_refused (some states) state = not (any_state states (as_str state))

abbrev pub activity_refused : Option Bool → ℕ → Bool
activity_refused none active_count = false
activity_refused (some true) active_count = active_count == 0
activity_refused (some false) active_count = ltb 0 active_count

-- `to_lowercase` knows all of Unicode and is a parameter.
abbrev pub info_refused : (Text → Text) → Option Text → Option Text → Bool
info_refused to_lowercase none info = false
info_refused to_lowercase (some pattern) none = true
info_refused to_lowercase (some pattern) (some info) =
    not (has_part (to_lowercase pattern) (to_lowercase info))

unfoldable pub matches_criteria : (Text → Text) → SessionQueryCriteria → StreamSession → ℕ → Bool
matches_criteria to_lowercase c s now =
    let streams = length s.streams in
    if state_refused c.states s.state
    then false
    else if c.exclude_expired && is_expired s now
    then false
    else if below c.created_after s.created_at
    then false
    else if above c.created_before s.created_at
    then false
    else if activity_refused c.has_active_streams (tally Stream.is_active s.streams)
    then false
    else if below c.min_stream_count streams
    then false
    else if above c.max_stream_count streams
    then false
    else not (info_refused to_lowercase c.client_info_pattern s.client_info)

-- `compare_by_field` compares these numbers.
abbrev pub sort_key : SessionSortField → StreamSession → ℕ
sort_key created_at s = s.created_at
sort_key updated_at s = s.updated_at
sort_key stream_count s = length s.streams
sort_key total_bytes s = s.stats.total_bytes

abbrev pub sorted_by : Option SessionSortField → SortOrder → List StreamSession → List StreamSession
sorted_by none order ss = ss
sorted_by (some field) ascending ss = sort_asc (sort_key field) ss
sorted_by (some field) descending ss = sort_desc (sort_key field) ss

abbrev pub sorted : Pagination SessionSortField → List StreamSession → List StreamSession
sorted p ss = sorted_by p.sort_by p.sort_order ss

-- MAX_RESULTS_LIMIT and MAX_SCAN_LIMIT are both 10000.
abbrev pub matching :
    (Text → Text)
    → GatInMemoryStreamRepository
    → SessionQueryCriteria
    → (ℕ → ℕ)
    → List StreamSession × Bool
matching to_lowercase r c now =
    filter_limited (λ i s. matches_criteria to_lowercase c s (now i)) 10000 10000 r.store

abbrev pub page_of : Pagination SessionSortField → List StreamSession × Bool → SessionQueryResult
page_of p (filtered, limit_reached) =
    let paginated = take p.limit (drop p.offset (sorted p filtered)) in
    record {
      sessions = paginated;
      total_count = length filtered;
      has_more = ltb (p.offset + length paginated) (length filtered);
      scan_limit_reached = limit_reached;
    }

unfoldable pub find_sessions_by_criteria :
    (Text → Text)
    → GatInMemoryStreamRepository
    → SessionQueryCriteria
    → Pagination SessionSortField
    → (ℕ → ℕ)
    → DomainResult SessionQueryResult
unfolding matches_criteria validate_criteria validate_pagination
find_sessions_by_criteria to_lowercase r criteria p now =
    validate_criteria criteria
    >> (validate_pagination p >> ok (page_of p (matching to_lowercase r criteria now)))

unfoldable pub find_active_sessions : GatInMemoryStreamRepository → (ℕ → ℕ) → List StreamSession
find_active_sessions r now = (filter_limited (λ i s. is_active s (now i)) 10000 10000 r.store).0

pub record SessionHealthSnapshot : Type 0 where
  pub session_id : ℕ
  pub is_healthy : Bool
  pub active_streams : ℕ
  pub total_frames : ℕ
  pub last_activity : ℕ
  pub error_rate : ℕ
  pub metrics : List (Text × ℕ)

abbrev error_rate_of : Float → ℕ → ℕ → ℕ
error_rate_of h failed_streams total_streams =
    if ltb 0 total_streams
    then h.div (h.of_nat failed_streams) (h.of_nat total_streams)
    else zero_bits

unfoldable pub get_session_health :
    Float
    → GatInMemoryStreamRepository
    → ℕ
    → (ℕ → ℕ)
    → (ℕ → ℕ)
    → GatInMemoryStreamRepository × DomainResult SessionHealthSnapshot
unfolding get_cached_total_frames health_check
get_session_health h r session_id now secs = elim (lookup session_id r.store) [
  | none ↦ (r, err session_not_found)
  | some session ↦
      let health = health_check session now in
      let (r', total_frames) = get_cached_total_frames r session secs in
      (
        r',
        ok (record {
          session_id = session_id;
          is_healthy = health.is_healthy;
          active_streams = health.active_streams;
          total_frames = total_frames;
          last_activity = session.updated_at;
          error_rate = error_rate_of h health.failed_streams (length session.streams);
          metrics =
              (codes "active_streams", h.of_nat health.active_streams)
              ∷ (codes "total_bytes", h.of_nat session.stats.total_bytes)
              ∷ (codes "recent_avg_duration_ms", session.stats.recent_avg_duration_ms)
              ∷ [];
        }),
      )
]

-- ===== src/RateLimit.antt =====
-- crates/pjs-core/src/security/rate_limit.rs: `WebSocketRateLimiter`; Guard is its `stats` and `RateLimitGuard`. The map of the
-- clients is an association list, an address is kept as a number, and an instant is the time since the
-- clock's zero: `checked_sub` answers none below it. The clock is an argument. The `f64` operations of the
-- token bucket are those of the hardware and of `Duration`: the fields of `TokenFloat`.
pub mod Guard
mod Times
mod Inv
mod Entries
mod Requests
mod Connections
pub mod Traces
pub mod Waiting
mod Tests
use pjs.Prelude.{
  ℕ, ◌-◌, ◌+◌, ◌*◌, ◌^◌, ◌%◌, Bool, true, false, not, ◌&&◌, Option, none, some, List, [], ◌∷◌, ◌++◌,
  ltb, leb, ◌==◌, if◌then◌else◌, nat_eq, length, is_some,
}
use pjs.Prelude.Map.{lookup, insert, update}
use pjs.Prelude.Result.{Result, ok, err}

pub record TokenFloat : Type 0 where
  pub of_u32 : ℕ → ℕ
  pub as_secs : ℕ → ℕ
  pub add : ℕ → ℕ → ℕ
  pub sub : ℕ → ℕ → ℕ
  pub mul : ℕ → ℕ → ℕ
  pub min : ℕ → ℕ → ℕ
  pub le : ℕ → ℕ → Bool
  pub one : ℕ

abbrev pub max_tracked_clients : ℕ
max_tracked_clients = 100000

pub data RateLimitError : Type 0 where
  limit_exceeded : (limit window : ℕ) → RateLimitError
  connection_limit_exceeded : (current max : ℕ) → RateLimitError
  frame_size_exceeded : (size max : ℕ) → RateLimitError
  capacity_exceeded : (max : ℕ) → RateLimitError

-- Durations in milliseconds.
pub record RateLimitConfig : Type 0 where
  pub max_requests_per_window : ℕ
  pub window_duration : ℕ
  pub max_connections_per_ip : ℕ
  pub max_frame_size : ℕ
  pub max_messages_per_second : ℕ
  pub burst_allowance : ℕ
  pub write_timeout : ℕ

abbrev pub default_config : RateLimitConfig
default_config = record {
  max_requests_per_window = 100;
  window_duration = 60000;
  max_connections_per_ip = 10;
  max_frame_size = 1024 * 1024;
  max_messages_per_second = 30;
  burst_allowance = 5;
  write_timeout = 10000;
}

abbrev pub high_traffic : RateLimitConfig
high_traffic = record default_config {
  max_requests_per_window = 1000;
  max_connections_per_ip = 50;
  max_messages_per_second = 100;
  burst_allowance = 20;
}

abbrev pub low_resource : RateLimitConfig
low_resource = record default_config {
  max_requests_per_window = 20;
  max_connections_per_ip = 2;
  max_frame_size = 256 * 1024;
  max_messages_per_second = 5;
  burst_allowance = 2;
  write_timeout = 3000;
}

pub record ClientRateLimit : Type 0 where
  pub requests : List ℕ
  pub connection_count : ℕ
  pub tokens : ℕ
  pub last_refill : ℕ

abbrev pub Clients : Type 0
Clients = List (ℕ × ClientRateLimit)

pub record WebSocketRateLimiter : Type 0 where
  pub config : RateLimitConfig
  pub clients : Clients

abbrev pub new : RateLimitConfig → WebSocketRateLimiter
new c = record { config = c; clients = [] }

-- `ClientRateLimit::new`, which reads the clock at `born`.
abbrev pub new_client : TokenFloat → ℕ → ℕ → ClientRateLimit
new_client f burst_allowance born = record {
  requests = [];
  connection_count = 0;
  tokens = f.of_u32 burst_allowance;
  last_refill = born;
}

-- `Vec::retain`, and `Instant::checked_sub`.
unfoldable pub retain {ℓ} : {A : Type ℓ} → (A → Bool) → List A → List A
retain keep [] = []
retain keep (x ∷ xs) = if keep x then x ∷ retain keep xs else retain keep xs

abbrev pub checked_sub : ℕ → ℕ → Option ℕ
checked_sub a b = if leb b a then some (a - b) else none

-- The requests after the start of the window; all of them when the window starts before the clock.
abbrev pub in_window : Option ℕ → List ℕ → List ℕ
in_window none times = times
in_window (some start) times = retain (λ time. ltb start time) times

abbrev pub refill_tokens : TokenFloat → ClientRateLimit → RateLimitConfig → ℕ → ClientRateLimit
refill_tokens f client config now =
    let added =
      f.mul (f.as_secs (now - client.last_refill)) (f.of_u32 config.max_messages_per_second) in
    let most = f.of_u32 ((config.max_messages_per_second + config.burst_allowance) % 2 ^ 32) in
    record client { tokens = f.min (f.add client.tokens added) most; last_refill = now }

unfoldable pub check_message_rate :
    TokenFloat
    → ClientRateLimit
    → RateLimitConfig
    → ℕ
    → ClientRateLimit × Result RateLimitError (Unit {0})
check_message_rate f client config now =
    let refilled = refill_tokens f client config now in
    if f.le f.one refilled.tokens
    then (record refilled { tokens = f.sub refilled.tokens f.one }, ok tt)
    else (refilled, err (limit_exceeded config.max_messages_per_second 1000))

unfoldable pub remaining_for : WebSocketRateLimiter → ℕ → ℕ → ℕ
remaining_for l ip now = elim (lookup ip l.clients) [
  | none ↦ l.config.max_requests_per_window
  | some client ↦
      let start = checked_sub now l.config.window_duration in
      l.config.max_requests_per_window - length (in_window start client.requests) % 2 ^ 32
]

abbrev pub until_expiry : ℕ → ℕ → List ℕ → ℕ
until_expiry window now [] = 0
until_expiry window now (earliest ∷ rest) = window - (now - earliest)

unfoldable pub reset_after : WebSocketRateLimiter → ℕ → ℕ → ℕ
reset_after l ip now = elim (lookup ip l.clients) [
  | none ↦ 0
  | some client ↦ elim (checked_sub now l.config.window_duration) [
    | none ↦ l.config.window_duration
    | some start ↦
        until_expiry l.config.window_duration now (in_window (some start) client.requests)
  ]
]

-- The first lines of `check_request` and of `check_connection`: a client that is not tracked finds the
-- map full.
abbrev pub at_capacity : WebSocketRateLimiter → ℕ → Bool
at_capacity l ip = not (is_some (lookup ip l.clients)) && leb max_tracked_clients (length l.clients)

abbrev pub entry : TokenFloat → WebSocketRateLimiter → ℕ → ℕ → ClientRateLimit
entry f l ip born = elim (lookup ip l.clients) [
  | none ↦ new_client f l.config.burst_allowance born
  | some client ↦ client
]

abbrev pub with_client : WebSocketRateLimiter → ℕ → ClientRateLimit → WebSocketRateLimiter
with_client l ip client = record l { clients = insert ip client l.clients }

abbrev pub Answer : Type 0
Answer = WebSocketRateLimiter × Result RateLimitError (Unit {0})

abbrev pub admit_request : WebSocketRateLimiter → ℕ → ClientRateLimit → ℕ → Answer
admit_request l ip client now =
    if leb l.config.max_requests_per_window (length client.requests)
    then (
      with_client l ip client,
      err (limit_exceeded l.config.max_requests_per_window l.config.window_duration),
    )
    else (with_client l ip (record client { requests = client.requests ++ now ∷ [] }), ok tt)

unfoldable pub check_request : TokenFloat → WebSocketRateLimiter → ℕ → (now born : ℕ) → Answer
check_request f l ip now born =
    if at_capacity l ip
    then (l, err (capacity_exceeded max_tracked_clients))
    else let client = entry f l ip born in
      let start = checked_sub now l.config.window_duration in
      admit_request l ip (record client { requests = in_window start client.requests }) now

abbrev pub admit_connection : WebSocketRateLimiter → ℕ → ClientRateLimit → Answer
admit_connection l ip client =
    if leb l.config.max_connections_per_ip client.connection_count
    then (
      with_client l ip client,
      err (connection_limit_exceeded client.connection_count l.config.max_connections_per_ip),
    )
    else (
      with_client l ip (record client { connection_count = client.connection_count + 1 }),
      ok tt,
    )

unfoldable pub check_connection : TokenFloat → WebSocketRateLimiter → ℕ → ℕ → Answer
check_connection f l ip born =
    if at_capacity l ip
    then (l, err (capacity_exceeded max_tracked_clients))
    else admit_connection l ip (entry f l ip born)

unfoldable pub close_connection : WebSocketRateLimiter → ℕ → WebSocketRateLimiter
close_connection l ip = elim (lookup ip l.clients) [
  | none ↦ l
  | some client ↦
      with_client l ip (record client { connection_count = client.connection_count - 1 })
]

unfoldable pub check_message : TokenFloat → WebSocketRateLimiter → ℕ → ℕ → ℕ → Answer
unfolding check_message_rate
check_message f l ip frame_size now =
    if ltb l.config.max_frame_size frame_size
    then (l, err (frame_size_exceeded frame_size l.config.max_frame_size))
    else elim (lookup ip l.clients) [
      | none ↦ (l, ok tt)
      | some client ↦
          let (charged, answer) = check_message_rate f client l.config now in
          (with_client l ip charged, answer)
    ]

-- Whether the last request, if any, was before the cutoff.
abbrev pub idle_since : ℕ → List ℕ → Bool
idle_since cutoff [] = true
idle_since cutoff (time ∷ []) = ltb time cutoff
idle_since cutoff (time ∷ later ∷ rest) = idle_since cutoff (later ∷ rest)

abbrev pub still_used : ℕ → ClientRateLimit → Bool
still_used cutoff client = not (client.connection_count == 0 && idle_since cutoff client.requests)

unfoldable pub cleanup_expired : WebSocketRateLimiter → ℕ → WebSocketRateLimiter
cleanup_expired l now = elim (checked_sub now (l.config.window_duration * 2)) [
  | none ↦ l
  | some cutoff ↦ record l { clients = retain (λ c. still_used cutoff c.1) l.clients }
]

-- ===== src/RateLimit/Guard.antt =====
-- crates/pjs-core/src/security/rate_limit.rs: `stats`, and `RateLimitGuard`, which holds a connection.
use pjs.Prelude.{ℕ, ◌+◌, [], ◌∷◌, ltb, if◌then◌else◌}
use pjs.Prelude.Result.{Result, ok, ◌>>=◌}
use pjs.RateLimit.{
  Clients, WebSocketRateLimiter, TokenFloat, RateLimitError, Answer, check_connection,
  check_message, close_connection,
}

pub record RateLimitStats : Type 0 where
  pub total_clients : ℕ
  pub active_clients : ℕ
  pub total_connections : ℕ

unfoldable pub count_stats : Clients → RateLimitStats
count_stats [] = record { total_clients = 0; active_clients = 0; total_connections = 0 }
count_stats ((ip, client) ∷ rest) =
    let s = count_stats rest in
    record {
      total_clients = s.total_clients + 1;
      active_clients = s.active_clients + (if ltb 0 client.connection_count then 1 else 0);
      total_connections = s.total_connections + client.connection_count;
    }

abbrev pub stats : WebSocketRateLimiter → RateLimitStats
stats l = count_stats l.clients

pub record RateLimitGuard : Type 0 where
  pub client_ip : ℕ

-- `RateLimitGuard::new`, `check_message` and `drop`: the limiter is the shared one.
abbrev pub new_guard :
    TokenFloat
    → WebSocketRateLimiter
    → ℕ
    → ℕ
    → WebSocketRateLimiter × Result RateLimitError RateLimitGuard
new_guard f l ip born =
    let (l', answer) = check_connection f l ip born in
    (l', answer >>= λ u. ok (record { client_ip = ip }))

abbrev pub guard_check_message : TokenFloat → WebSocketRateLimiter → RateLimitGuard → ℕ → ℕ → Answer
guard_check_message f l g frame_size now = check_message f l g.client_ip frame_size now

abbrev pub drop_guard : WebSocketRateLimiter → RateLimitGuard → WebSocketRateLimiter
drop_guard l g = close_connection l g.client_ip

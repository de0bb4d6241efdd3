-- ===== src/RateLimit/Traces.antt =====
-- What holds of a limiter after every sequence of calls, and how long a refused client has to wait.
use pjs.Prelude.{ℕ, ◌+◌, ◌≤◌, ◌≡◌, refl, arith, List, [], nat_eq, length}
use pjs.Prelude.Map.{lookup}
use pjs.RateLimit.{
  RateLimitConfig, WebSocketRateLimiter, TokenFloat, max_tracked_clients, check_request,
  check_connection, close_connection, check_message, check_message_rate, cleanup_expired, new,
}
use pjs.RateLimit.Times.{count_after-le-length}
use pjs.RateLimit.Inv.{
  Log, admitted, held, requests_of, connections_of, Inv, length-requests_of, connections_of_le,
}
use pjs.RateLimit.Entries.{logged, guarded, dropped, Inv-later}
use pjs.RateLimit.Requests.{check_request-Inv, check_message-Inv, cleanup_expired-Inv}
use pjs.RateLimit.Connections.{check_connection-Inv, close_connection-Inv}

-- The calls on one limiter, with a clock that does not run backwards: the requests admitted so far with
-- their times, and the addresses of the guards made and not yet dropped.
pub data Run (f : TokenFloat) (c : RateLimitConfig)
    : WebSocketRateLimiter → ℕ → Log → List ℕ → Type 0 where
  started : Run f c (new c) 0 [] []
  requests :
      {l : WebSocketRateLimiter} {t : ℕ} {log : Log} {guards : List ℕ} (ip now born : ℕ)
      → Run f c l t log guards
      → t ≤ now
      → Run f c
          (check_request f l ip now born).0
          now
          (logged (check_request f l ip now born).1 ip now log)
          guards
  connects :
      {l : WebSocketRateLimiter} {t : ℕ} {log : Log} {guards : List ℕ} (ip now born : ℕ)
      → Run f c l t log guards
      → t ≤ now
      → Run f c
          (check_connection f l ip born).0
          now
          log
          (guarded (check_connection f l ip born).1 ip guards)
  drops :
      {l : WebSocketRateLimiter} {t : ℕ} {log : Log} {guards : List ℕ} (ip now : ℕ)
      → Run f c l t log guards
      → t ≤ now
      → Run f c (close_connection l ip) now log (dropped ip guards)
  messages :
      {l : WebSocketRateLimiter} {t : ℕ} {log : Log} {guards : List ℕ} (ip size now : ℕ)
      → Run f c l t log guards
      → t ≤ now
      → Run f c (check_message f l ip size now).0 now log guards
  cleans :
      {l : WebSocketRateLimiter} {t : ℕ} {log : Log} {guards : List ℕ} (now : ℕ)
      → Run f c l t log guards
      → t ≤ now
      → Run f c (cleanup_expired l now) now log guards

module _ {f : TokenFloat} {c : RateLimitConfig} where
  pub Run-Inv :
      {l : WebSocketRateLimiter} {now : ℕ} {log : Log} {guards : List ℕ}
      → Run f c l now log guards
      → Inv l now log guards
  unfolding admitted held lookup
  Run-Inv started = record {
    sound = tt;
    unique = tt;
    tracked = omega arith;
    covered = λ ip s h. omega arith;
    balanced = λ ip. refl;
  }
  Run-Inv (requests ip now born r h) =
      check_request-Inv f _ ip now born _ _ (Inv-later _ _ now _ _ h (Run-Inv r))
  Run-Inv (connects ip now born r h) =
      check_connection-Inv f _ ip now born _ _ (Inv-later _ _ now _ _ h (Run-Inv r))
  Run-Inv (drops ip now r h) =
      close_connection-Inv _ ip now _ _ (Inv-later _ _ now _ _ h (Run-Inv r))
  Run-Inv (messages ip size now r h) =
      check_message-Inv f _ ip size now _ _ (Inv-later _ _ now _ _ h (Run-Inv r))
  Run-Inv (cleans now r h) = cleanup_expired-Inv _ now _ _ (Inv-later _ _ now _ _ h (Run-Inv r))

  -- No call changes the configuration.
  pub Run-config :
      {l : WebSocketRateLimiter} {now : ℕ} {log : Log} {guards : List ℕ}
      → Run f c l now log guards
      → l.config ≡ c
  unfolding check_request check_connection close_connection check_message check_message_rate
      cleanup_expired
  Run-config started = refl
  Run-config (requests ip now born r h) = ground (arith, Run-config r)
  Run-config (connects ip now born r h) = ground (arith, Run-config r)
  Run-config (drops ip now r h) = ground (arith, Run-config r)
  Run-config (messages ip size now r h) = ground (arith, Run-config r)
  Run-config (cleans now r h) = ground (arith, Run-config r)

-- However the calls on a limiter follow each other, with cleanups between them, the requests of one
-- address that it admitted in a window that ends now are no more than the configuration allows.
pub Run_window :
    {f : TokenFloat} {c : RateLimitConfig} {l : WebSocketRateLimiter} {now : ℕ} {log : Log}
    {guards : List ℕ} (ip s : ℕ)
    → Run f c l now log guards
    → now ≤ s + c.window_duration
    → admitted s ip log ≤ c.max_requests_per_window
Run_window {c = c} {l = l} {now = now} ip s r h =
    let v = Run-Inv r in
    let same = Run-config r in
    let open_now : now ≤ s + l.config.window_duration = rw same h in
    let few = rw same at (length-requests_of l now ip v.sound) in
    omega (arith, v.covered ip s open_now, count_after-le-length s (requests_of ip l.clients), few)

-- However the calls follow each other, the limiter counts for each address exactly the guards that are
-- not dropped, no address has more than the configuration allows, and the map holds no more clients than
-- its capacity.
pub Run_connections :
    {f : TokenFloat} {c : RateLimitConfig} {l : WebSocketRateLimiter} {now : ℕ} {log : Log}
    {guards : List ℕ} (ip : ℕ)
    → Run f c l now log guards
    → (connections_of ip l.clients ≡ held ip guards)
      × (held ip guards ≤ c.max_connections_per_ip)
      × (length l.clients ≤ max_tracked_clients)
Run_connections {l = l} {now = now} ip r =
    let v = Run-Inv r in
    let most = rw (Run-config r) at (connections_of_le l now ip v.sound) in
    (v.balanced ip, rw (v.balanced ip) at most, v.tracked)

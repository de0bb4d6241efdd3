-- ===== src/RateLimit/Tests.antt =====
-- The rate limiter on concrete calls.
use pjs.Prelude.{◌+◌, ◌-◌, ◌*◌, ◌≤◌, ◌≡◌, ◌↔◌, refl, arith, leb, min, [], nat_eq, length}
use pjs.Prelude.Map.{lookup, insert}
use pjs.Prelude.Result.{ok, err}
use pjs.RateLimit.{
  RateLimitConfig, limit_exceeded, TokenFloat, Answer, default_config, new, check_request,
  check_connection, max_tracked_clients, reset_after, remaining_for, retain,
}
use pjs.RateLimit.Inv.{admitted, held, connections_of, Log}
use pjs.RateLimit.Entries.{logged, guarded}
use pjs.RateLimit.Traces.{Run, started, requests, connects, Run_window, Run_connections}
use pjs.RateLimit.Waiting.{check_request-reset_after, remaining_for-check_request}

abbrev whole_tokens : TokenFloat
whole_tokens = record {
  of_u32 = λ n. n;
  as_secs = λ ms. ms;
  add = λ a b. a + b;
  sub = λ a b. a - b;
  mul = λ a b. a * b;
  min = λ a b. min a b;
  le = λ a b. leb a b;
  one = 1;
}

abbrev two_in_a_hundred : RateLimitConfig
two_in_a_hundred = record default_config {
  max_requests_per_window = 2;
  window_duration = 100;
  max_connections_per_ip = 1;
}

abbrev first_call : Answer
first_call = check_request whole_tokens (new two_in_a_hundred) 7 200 200

abbrev second_call : Answer
second_call = check_request whole_tokens first_call.0 7 250 250

abbrev third_call : Answer
third_call = check_request whole_tokens second_call.0 7 260 260

abbrev connection : Answer
connection = check_connection whole_tokens second_call.0 7 260

abbrev two_logged : Log
two_logged = logged second_call.1 7 250 (logged first_call.1 7 200 [])

abbrev two_calls : Run whole_tokens two_in_a_hundred second_call.0 250 two_logged []
two_calls = requests 7 250 250 (requests 7 200 200 started (omega arith)) (omega arith)

third_refused : third_call.1 ≡ err (limit_exceeded 2 100)
unfolding check_request lookup insert retain
third_refused = refl

fourth_admitted : (check_request whole_tokens third_call.0 7 301 301).1 ≡ ok tt
unfolding check_request lookup insert retain
fourth_admitted = refl

told_to_wait : reset_after third_call.0 7 260 ≡ 40
unfolding check_request lookup insert reset_after retain
told_to_wait = refl

Run_window_example : admitted 150 7 two_logged ≤ 2
Run_window_example = Run_window 7 150 two_calls (omega arith)

Run_connections_example :
    (connections_of 7 connection.0.clients ≡ held 7 (guarded connection.1 7 []))
    × (held 7 (guarded connection.1 7 []) ≤ 1)
    × (length connection.0.clients ≤ max_tracked_clients)
Run_connections_example = Run_connections 7 (connects 7 260 260 two_calls (omega arith))

check_request-reset_after_example :
    (check_request whole_tokens second_call.0 7 (250 + reset_after second_call.0 7 250) 250).1
    ≡ ok tt
unfolding check_request lookup insert retain
check_request-reset_after_example =
    check_request-reset_after whole_tokens two_in_a_hundred second_call.0 7 250 250 two_logged []
      two_calls refl (omega arith)

remaining_for-check_request_example :
    (remaining_for second_call.0 7 250 ≡ 0)
    ↔ ((check_request whole_tokens second_call.0 7 250 250).1 ≡ err (limit_exceeded 2 100))
unfolding check_request lookup insert retain
remaining_for-check_request_example =
    remaining_for-check_request whole_tokens two_in_a_hundred second_call.0 7 250 250 two_logged []
      two_calls refl (omega arith)

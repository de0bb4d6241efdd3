-- ===== src/RateLimit/Inv.antt =====
-- The invariant of a limiter, and what a write of one client keeps of it. `log` holds each admitted
-- request with its time, `guards` the address of each guard that has not been dropped.
use pjs.Prelude.{
  ℕ, ◌+◌, ◌≤◌, ◌≡◌, refl, arith, false, none, some, List, [], ◌∷◌, inl, inr, ◌&&◌, ltb, ◌==◌,
  if◌then◌else◌, nat_eq, ==_iff, length, All, Bool-cases, Option-cases,
}
use pjs.Prelude.Map.{
  lookup, insert, lookup-insert, All-insert, All-lookup, length-insert, length-insert_known,
}
use pjs.RateLimit.{
  RateLimitConfig, ClientRateLimit, Clients, WebSocketRateLimiter, with_client, max_tracked_clients,
  at_capacity,
}
use pjs.Prelude.Map.Unique.{Unique, Unique-insert}
use pjs.RateLimit.Times.{count_after, Ascending}

abbrev pub Log : Type 0
Log = List (ℕ × ℕ)

-- The requests of an address that were admitted after `s`.
unfoldable pub admitted : ℕ → ℕ → Log → ℕ
admitted s ip [] = 0
admitted s ip ((j, time) ∷ log) = (if j == ip && ltb s time then 1 else 0) + admitted s ip log

-- The guards of an address.
unfoldable pub held : ℕ → List ℕ → ℕ
held ip [] = 0
held ip (j ∷ guards) = (if j == ip then 1 else 0) + held ip guards

abbrev pub requests_of : ℕ → Clients → List ℕ
requests_of ip m = elim (lookup ip m) [ none ↦ [] | some client ↦ client.requests ]

abbrev pub connections_of : ℕ → Clients → ℕ
connections_of ip m = elim (lookup ip m) [ none ↦ 0 | some client ↦ client.connection_count ]

pub record IsSound (c : RateLimitConfig) (now : ℕ) (client : ClientRateLimit) : Type 0 where
  pub ascending : Ascending client.requests
  pub past : All (λ t. t ≤ now) client.requests
  pub few : length client.requests ≤ c.max_requests_per_window
  pub linked : client.connection_count ≤ c.max_connections_per_ip

pub record Inv (l : WebSocketRateLimiter) (now : ℕ) (log : Log) (guards : List ℕ) : Type 0 where
  pub sound : All (λ p. IsSound l.config now p.1) l.clients
  pub unique : Unique l.clients
  pub tracked : length l.clients ≤ max_tracked_clients
  pub covered :
      (ip s : ℕ)
      → now ≤ s + l.config.window_duration
      → admitted s ip log ≤ count_after s (requests_of ip l.clients)
  pub balanced : (ip : ℕ) → connections_of ip l.clients ≡ held ip guards

pub length-requests_of :
    (l : WebSocketRateLimiter) (now ip : ℕ)
    → All (λ p. IsSound l.config now p.1) l.clients
    → length (requests_of ip l.clients) ≤ l.config.max_requests_per_window
length-requests_of l now ip h = elim (Option-cases (lookup ip l.clients)) [
  | inl e ↦ rw (e, requests_of) (omega arith)
  | inr (client, e) ↦
      rw (e, requests_of) (All-lookup (IsSound l.config now) ip client l.clients h e).few
]

pub connections_of_le :
    (l : WebSocketRateLimiter) (now ip : ℕ)
    → All (λ p. IsSound l.config now p.1) l.clients
    → connections_of ip l.clients ≤ l.config.max_connections_per_ip
connections_of_le l now ip h = elim (Option-cases (lookup ip l.clients)) [
  | inl e ↦ rw (e, connections_of) (omega arith)
  | inr (client, e) ↦
      rw (e, connections_of) (All-lookup (IsSound l.config now) ip client l.clients h e).linked
]

requests_of-insert :
    (ip j : ℕ) (client : ClientRateLimit) (m : Clients)
    → requests_of j (insert ip client m) ≡ (if ip == j then client.requests else requests_of j m)
requests_of-insert ip j client m =
    rw (lookup-insert ip j client m, requests_of)
      (elim (Bool-cases (ip == j)) [ inl hit ↦ rw hit refl | inr miss ↦ rw miss refl ])

connections_of-insert :
    (ip j : ℕ) (client : ClientRateLimit) (m : Clients)
    → connections_of j (insert ip client m)
      ≡ (if ip == j then client.connection_count else connections_of j m)
connections_of-insert ip j client m =
    rw (lookup-insert ip j client m, connections_of)
      (elim (Bool-cases (ip == j)) [ inl hit ↦ rw hit refl | inr miss ↦ rw miss refl ])

length-insert_tracked :
    (l : WebSocketRateLimiter) (ip : ℕ) (client : ClientRateLimit)
    → length l.clients ≤ max_tracked_clients
    → at_capacity l ip ≡ false
    → length (insert ip client l.clients) ≤ max_tracked_clients
length-insert_tracked l ip client h free = elim (Option-cases (lookup ip l.clients)) [
  | inl fresh ↦ ground (arith, length-insert ip client l.clients fresh, fresh)
  | inr (old, known) ↦ omega (arith, length-insert_known ip client old l.clients known, h)
]

-- The write of one client, with what it does to the log and to the guards.
pub with_client-Inv :
    (l : WebSocketRateLimiter) (now : ℕ) (log log' : Log) (guards guards' : List ℕ) (ip : ℕ)
    (client : ClientRateLimit)
    → Inv l now log guards
    → at_capacity l ip ≡ false
    → IsSound l.config now client
    → ((s : ℕ)
        → now ≤ s + l.config.window_duration
        → admitted s ip log' ≤ count_after s client.requests)
    → ((s j : ℕ) → (ip == j) ≡ false → admitted s j log' ≡ admitted s j log)
    → client.connection_count ≡ held ip guards'
    → ((j : ℕ) → (ip == j) ≡ false → held j guards' ≡ held j guards)
    → Inv (with_client l ip client) now log' guards'
with_client-Inv l now log log' guards guards' ip client v free good cover same links others =
    record {
      sound = All-insert (IsSound l.config now) ip client l.clients v.sound good;
      unique = Unique-insert ip client l.clients v.unique;
      tracked = length-insert_tracked l ip client v.tracked free;
      covered = λ j s h.
          rw (requests_of-insert ip j client l.clients) (elim (Bool-cases (ip == j)) [
            | inl hit ↦ rw hit (rw (← (==_iff ip j).0 hit) (cover s h))
            | inr miss ↦ rw (miss, same s j miss) (v.covered j s h)
          ]);
      balanced = λ j.
          rw (connections_of-insert ip j client l.clients) (elim (Bool-cases (ip == j)) [
            | inl hit ↦ rw hit (rw (← (==_iff ip j).0 hit) links)
            | inr miss ↦ rw (miss, others j miss) (v.balanced j)
          ]);
    }

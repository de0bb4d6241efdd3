-- ===== src/RateLimit/Connections.antt =====
-- `check_connection` and `close_connection` keep the invariant: one guard for each connection.
use pjs.Prelude.{
  ℕ, ◌+◌, ◌-◌, ◌≤◌, ◌≡◌, refl, arith, false, none, List, [], ◌∷◌, inl, inr, leb, ◌==◌, nat_eq,
  ==_iff, Bool-cases, Option-cases,
}
use pjs.Prelude.Map.{lookup, All-lookup}
use pjs.RateLimit.{
  ClientRateLimit, Clients, WebSocketRateLimiter, TokenFloat, at_capacity, entry, check_connection,
  admit_connection, close_connection,
}
use pjs.RateLimit.Times.{count_after}
use pjs.RateLimit.Inv.{
  Log, admitted, held, requests_of, connections_of, IsSound, Inv, with_client-Inv,
}
use pjs.RateLimit.Entries.{guarded, dropped, entry-requests, entry-connection_count, entry-IsSound}

-- A connection that is admitted is a new guard of its address.
admit_connection-Inv :
    (l : WebSocketRateLimiter) (ip : ℕ) (client : ClientRateLimit) (now : ℕ) (log : Log)
    (guards : List ℕ)
    → Inv l now log guards
    → at_capacity l ip ≡ false
    → IsSound l.config now client
    → client.requests ≡ requests_of ip l.clients
    → client.connection_count ≡ held ip guards
    → let (l', answer) = admit_connection l ip client in Inv l' now log (guarded answer ip guards)
unfolding held
admit_connection-Inv l ip client now log guards v free good same links =
    let cover : (s : ℕ)
        → now ≤ s + l.config.window_duration
        → admitted s ip log ≤ count_after s client.requests =
      λ s h. rw same (v.covered ip s h) in
    elim (Bool-cases (leb l.config.max_connections_per_ip client.connection_count)) [
      | inl over ↦ rw over (
          with_client-Inv l now log log guards guards ip client v free good cover (λ s j miss. refl)
            links (λ j miss. refl))
      | inr under ↦
          let more = record client { connection_count = client.connection_count + 1 } in
          let linked : IsSound l.config now more = record {
            ascending = good.ascending;
            past = good.past;
            few = good.few;
            linked = ground arith;
          } in
          rw under (
            with_client-Inv l now log log guards (ip ∷ guards) ip more v free linked cover
              (λ s j miss. refl) (ground (arith, ==_iff ip ip)) (λ j miss. ground arith))
    ]

pub check_connection-Inv :
    (f : TokenFloat) (l : WebSocketRateLimiter) (ip now born : ℕ) (log : Log) (guards : List ℕ)
    → Inv l now log guards
    → let (l', answer) = check_connection f l ip born in Inv l' now log (guarded answer ip guards)
unfolding check_connection
check_connection-Inv f l ip now born log guards v = elim (Bool-cases (at_capacity l ip)) [
  | inl full ↦ rw full v
  | inr free ↦ rw free (
      admit_connection-Inv l ip (entry f l ip born) now log guards v free
        (entry-IsSound f l ip born now v.sound) (entry-requests f l ip born)
        (rw (entry-connection_count f l ip born) (v.balanced ip)))
]

held-dropped : (ip : ℕ) (guards : List ℕ) → held ip (dropped ip guards) ≡ held ip guards - 1
unfolding held dropped
held-dropped ip [] = refl
held-dropped ip (j ∷ guards) = ground (arith, held-dropped ip guards)

held-dropped_ne :
    (ip j : ℕ) (guards : List ℕ) → (ip == j) ≡ false → held j (dropped ip guards) ≡ held j guards
unfolding held dropped
held-dropped_ne ip j [] miss = refl
held-dropped_ne ip j (k ∷ guards) miss = ground (arith, held-dropped_ne ip j guards miss)

dropped-none :
    (ip j : ℕ) (m : Clients) (guards : List ℕ)
    → lookup ip m ≡ none
    → ((k : ℕ) → connections_of k m ≡ held k guards)
    → connections_of j m ≡ held j (dropped ip guards)
dropped-none ip j m guards e balanced = elim (Bool-cases (ip == j)) [
  | inl hit ↦
      let zero : connections_of ip m ≡ 0 = rw (e, connections_of) refl in
      rw (← (==_iff ip j).0 hit, held-dropped ip guards) (omega (arith, zero, balanced ip))
  | inr miss ↦ rw (held-dropped_ne ip j guards miss) (balanced j)
]

pub close_connection-Inv :
    (l : WebSocketRateLimiter) (ip now : ℕ) (log : Log) (guards : List ℕ)
    → Inv l now log guards
    → Inv (close_connection l ip) now log (dropped ip guards)
unfolding close_connection
close_connection-Inv l ip now log guards v = elim (Option-cases (lookup ip l.clients)) [
  | inl e ↦
      rw (e, close_connection)
        (record {
          sound = v.sound;
          unique = v.unique;
          tracked = v.tracked;
          covered = v.covered;
          balanced = λ j. dropped-none ip j l.clients guards e v.balanced;
        })
  | inr (client, e) ↦
      let good = All-lookup (IsSound l.config now) ip client l.clients v.sound e in
      let fewer = record client { connection_count = client.connection_count - 1 } in
      let linked : IsSound l.config now fewer = record {
        ascending = good.ascending;
        past = good.past;
        few = good.few;
        linked = omega (arith, good.linked);
      } in
      rw (e, close_connection)
        (with_client-Inv l now log log guards (dropped ip guards) ip fewer v (rw e refl) linked
          (λ s h. rw (e, requests_of) at (v.covered ip s h)) (λ s j miss. refl)
          (rw (held-dropped ip guards, ← v.balanced ip, connections_of, e) refl)
          (λ j miss. held-dropped_ne ip j guards miss))
]

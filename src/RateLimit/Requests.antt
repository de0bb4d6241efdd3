-- ===== src/RateLimit/Requests.antt =====
-- `check_request`, `check_message` and `cleanup_expired` keep the invariant.
use pjs.Prelude.{
  ℕ, ◌+◌, ◌-◌, ◌*◌, ◌≤◌, ◌≡◌, refl, arith, false, List, [], ◌∷◌, ◌++◌, inl, inr, ltb, leb, nat_eq,
  ==_iff, length, All-append, Bool-cases, Option-cases, length-append,
}
use pjs.Prelude.Map.{lookup, All-lookup}
use pjs.RateLimit.{
  RateLimitConfig, ClientRateLimit, WebSocketRateLimiter, TokenFloat, at_capacity, entry,
  check_request, admit_request, check_message, check_message_rate, cleanup_expired, in_window,
  checked_sub, still_used,
}
use pjs.RateLimit.Times.{
  count_after, count_after-append, count_after-in_window, count_after-idle, Ascending-append,
  Ascending-in_window, All-in_window, length-in_window_le, All-retain, length-retain_le,
  Unique-retain, lookup-retain,
}
use pjs.RateLimit.Inv.{
  Log, admitted, held, requests_of, connections_of, IsSound, Inv, with_client-Inv,
}
use pjs.RateLimit.Entries.{logged, entry-requests, entry-connection_count, entry-IsSound}

-- Both outcomes for a client whose old requests are dropped already.
admit_request-Inv :
    (l : WebSocketRateLimiter) (ip : ℕ) (client : ClientRateLimit) (now : ℕ) (log : Log)
    (guards : List ℕ)
    → Inv l now log guards
    → at_capacity l ip ≡ false
    → IsSound l.config now client
    → ((s : ℕ)
        → now ≤ s + l.config.window_duration
        → admitted s ip log ≤ count_after s client.requests)
    → client.connection_count ≡ held ip guards
    → let (l', answer) = admit_request l ip client now in
      Inv l' now (logged answer ip now log) guards
unfolding admitted
admit_request-Inv l ip client now log guards v free good cover links =
    elim (Bool-cases (leb l.config.max_requests_per_window (length client.requests))) [
      | inl over ↦ rw over (
          with_client-Inv l now log log guards guards ip client v free good cover (λ s j miss. refl)
            links (λ j miss. refl))
      | inr under ↦
          let more = record client { requests = client.requests ++ now ∷ [] } in
          let pushed : IsSound l.config now more = record {
            ascending = Ascending-append client.requests now good.ascending good.past;
            past = All-append (λ t. t ≤ now) client.requests (now ∷ []) good.past (omega arith, tt);
            few = ground (arith, length-append client.requests (now ∷ []));
            linked = good.linked;
          } in
          rw under (
            with_client-Inv l now log ((ip, now) ∷ log) guards guards ip more v free pushed
              (λ s h.
                rw (count_after-append s client.requests now)
                  (ground (arith, cover s h, ==_iff ip ip)))
              (λ s j miss. ground arith) links (λ j miss. refl))
    ]

pub check_request-Inv :
    (f : TokenFloat) (l : WebSocketRateLimiter) (ip now born : ℕ) (log : Log) (guards : List ℕ)
    → Inv l now log guards
    → let (l', answer) = check_request f l ip now born in
      Inv l' now (logged answer ip now log) guards
unfolding check_request
check_request-Inv f l ip now born log guards v = elim (Bool-cases (at_capacity l ip)) [
  | inl full ↦ rw full v
  | inr free ↦
      let old = entry f l ip born in
      let start = checked_sub now l.config.window_duration in
      let good = entry-IsSound f l ip born now v.sound in
      let client = record old { requests = in_window start old.requests } in
      let sound : IsSound l.config now client = record {
        ascending = Ascending-in_window start old.requests good.ascending;
        past = All-in_window (λ t. t ≤ now) start old.requests good.past;
        few = omega (arith, good.few, length-in_window_le start old.requests);
        linked = good.linked;
      } in
      rw free (
        admit_request-Inv l ip client now log guards v free sound
          (λ s h.
            rw
              (
                count_after-in_window now l.config.window_duration s old.requests h,
                entry-requests f l ip born,
              )
              (v.covered ip s h))
          (rw (entry-connection_count f l ip born) (v.balanced ip)))
]

check_message_rate-keeps :
    (f : TokenFloat) (client : ClientRateLimit) (c : RateLimitConfig) (now : ℕ)
    → let charged = (check_message_rate f client c now).0 in
      (charged.requests ≡ client.requests) × (charged.connection_count ≡ client.connection_count)
unfolding check_message_rate
check_message_rate-keeps f client c now = ground arith

pub check_message-Inv :
    (f : TokenFloat) (l : WebSocketRateLimiter) (ip size now : ℕ) (log : Log) (guards : List ℕ)
    → Inv l now log guards
    → Inv (check_message f l ip size now).0 now log guards
unfolding check_message
check_message-Inv f l ip size now log guards v =
    elim (Bool-cases (ltb l.config.max_frame_size size)) [
      | inl large ↦ rw large v
      | inr fits ↦ elim (Option-cases (lookup ip l.clients)) [
        | inl e ↦ rw (fits, e) v
        | inr (client, e) ↦
            let good = All-lookup (IsSound l.config now) ip client l.clients v.sound e in
            let (same, links) = check_message_rate-keeps f client l.config now in
            let charged = (check_message_rate f client l.config now).0 in
            let sound : IsSound l.config now charged = record {
              ascending = rw same good.ascending;
              past = rw same good.past;
              few = rw same good.few;
              linked = rw links good.linked;
            } in
            rw (fits, e)
              (with_client-Inv l now log log guards guards ip charged v (rw e refl) sound
                (λ s h. rw same (rw (e, requests_of) at (v.covered ip s h))) (λ s j miss. refl)
                (rw (links, ← v.balanced ip, connections_of, e) refl) (λ j miss. refl))
      ]
    ]

pub cleanup_expired-Inv :
    (l : WebSocketRateLimiter) (now : ℕ) (log : Log) (guards : List ℕ)
    → Inv l now log guards
    → Inv (cleanup_expired l now) now log guards
unfolding cleanup_expired
cleanup_expired-Inv l now log guards v =
    let twice = l.config.window_duration * 2 in
    elim (Bool-cases (leb twice now)) [
      | inr early ↦ rw (early, cleanup_expired) v
      | inl late ↦
          let keep = still_used (now - twice) in
          rw (late, cleanup_expired)
            (record {
              sound = All-retain (λ p. IsSound l.config now p.1) (λ p. keep p.1) l.clients v.sound;
              unique = Unique-retain (λ p. keep p.1) l.clients v.unique;
              tracked = omega (arith, v.tracked, length-retain_le (λ p. keep p.1) l.clients);
              covered = λ ip s h. elim (lookup-retain keep ip l.clients v.unique) [
                | inl same ↦ rw (requests_of, same) (v.covered ip s h)
                | inr (client, known, unused, gone) ↦
                    let good =
                      All-lookup (IsSound l.config now) ip client l.clients v.sound known in
                    let before = rw (known, requests_of) at (v.covered ip s h) in
                    rw (requests_of, gone)
                      (omega (
                        arith,
                        before,
                        count_after-idle (now - twice) s client.requests good.ascending
                            (ground (arith, unused)) (omega arith),
                      ))
              ];
              balanced = λ ip. elim (lookup-retain keep ip l.clients v.unique) [
                | inl same ↦ rw (connections_of, same) (v.balanced ip)
                | inr (client, known, unused, gone) ↦
                    rw (connections_of, gone, ← v.balanced ip, known) (ground (arith, unused))
              ];
            })
    ]

-- ===== src/RateLimit/Waiting.antt =====
-- How long a refused client has to wait, and how many requests it has left.
use pjs.Prelude.{
  ℕ, ◌+◌, ◌-◌, ◌^◌, ◌≤◌, ◌<◌, ◌≡◌, ◌↔◌, refl, arith, false, some, List, [], ◌∷◌, inl, inr, ltb, leb,
  le→leb, leb→le, if◌then◌else◌, nat_eq, length, All, Bool-cases, Option-cases,
}
use pjs.Prelude.Map.{lookup, All-lookup}
use pjs.Prelude.Result.{ok, err}
use pjs.RateLimit.{
  RateLimitConfig, limit_exceeded, WebSocketRateLimiter, TokenFloat, at_capacity, entry,
  check_request, in_window, checked_sub, retain, reset_after, remaining_for, until_expiry,
}
use pjs.RateLimit.Times.{length-in_window_le, length-retain_le}
use pjs.RateLimit.Inv.{IsSound, requests_of, Log, length-requests_of}
use pjs.RateLimit.Traces.{Run, Run-Inv, Run-config}
use native.Mathlib.Nat.{add-zero}
use pjs.RateLimit.Entries.{entry-requests}

-- A request is admitted exactly when fewer than the maximum are in the window.
check_request_iff :
    (f : TokenFloat) (l : WebSocketRateLimiter) (ip now born : ℕ)
    → at_capacity l ip ≡ false
    → (check_request f l ip now born).1 ≡ (
        if leb l.config.max_requests_per_window
          (length (in_window (checked_sub now l.config.window_duration) (requests_of ip l.clients)))
        then err (limit_exceeded l.config.max_requests_per_window l.config.window_duration)
        else ok tt)
unfolding check_request
check_request_iff f l ip now born free =
    rw (free, ← entry-requests f l ip born)
      (elim (Bool-cases (
        leb l.config.max_requests_per_window (
          length
            (in_window (checked_sub now l.config.window_duration) (entry f l ip born).requests)))) [
              | inl over ↦ rw over refl
              | inr under ↦ rw under refl
            ])

-- Nothing is left of the requests once the earliest of them has left the window.
retain_past :
    (start : ℕ) (xs : List ℕ) → All (λ t. t ≤ start) xs → retain (λ t. ltb start t) xs ≡ []
unfolding retain
retain_past start [] h = refl
retain_past start (x ∷ xs) h = ground (arith, retain_past start xs h.1)

length-retain_head :
    (start earliest : ℕ) (xs rest : List ℕ)
    → retain (λ t. ltb start t) xs ≡ earliest ∷ rest
    → length (retain (λ t. ltb earliest t) xs) < length xs
unfolding retain
length-retain_head start earliest [] rest e = absurd (cc)
length-retain_head start earliest (x ∷ xs) rest e = elim (Bool-cases (ltb start x)) [
  | inl kept ↦
      let same : x ≡ earliest = cc (rw kept at e) in
      ground (arith, same, length-retain_le (λ t. ltb earliest t) xs)
  | inr gone ↦ ground (
    arith,
    length-retain_head start earliest xs rest (rw gone at e),
    length-retain_le (λ t. ltb earliest t) xs,
  )
]

-- The earliest request in the window started after it did, and is one of the requests.
retain_head :
    (start now earliest : ℕ) (xs rest : List ℕ)
    → retain (λ t. ltb start t) xs ≡ earliest ∷ rest
    → All (λ t. t ≤ now) xs
    → (start < earliest) × (earliest ≤ now)
unfolding retain
retain_head start now earliest [] rest e h = absurd (cc)
retain_head start now earliest (x ∷ xs) rest e h = elim (Bool-cases (ltb start x)) [
  | inl kept ↦
      let same : x ≡ earliest = cc (rw kept at e) in
      (ground (arith, same), ground (arith, same, h.0))
  | inr gone ↦ retain_head start now earliest xs rest (rw gone at e) h.1
]

checked_sub-some : (a b : ℕ) → b ≤ a → checked_sub a b ≡ some (a - b)
checked_sub-some a b h = rw (le→leb b a h) refl

room_after_expiry :
    (window now most : ℕ) (xs active : List ℕ)
    → window ≤ now
    → retain (λ t. ltb (now - window) t) xs ≡ active
    → All (λ t. t ≤ now) xs
    → length xs ≤ most
    → 0 < most
    → length (in_window (checked_sub (now + until_expiry window now active) window) xs) < most
room_after_expiry window now most xs [] late e past few some_allowed =
    rw (add-zero, checked_sub-some now window late, e) some_allowed
room_after_expiry window now most xs (earliest ∷ rest) late e past few some_allowed =
    let (after, before) = retain_head (now - window) now earliest xs rest e past in
    let at_expiry : now + (window - (now - earliest)) ≡ earliest + window = omega arith in
    let cutoff : earliest + window - window ≡ earliest = omega arith in
    rw (at_expiry, checked_sub-some (earliest + window) window (omega arith), cutoff)
      (omega (arith, length-retain_head (now - window) earliest xs rest e, few))

room_after_reset :
    (l : WebSocketRateLimiter) (ip now : ℕ)
    → All (λ p. IsSound l.config now p.1) l.clients
    → 0 < l.config.max_requests_per_window
    → length (
        in_window
          (checked_sub (now + reset_after l ip now) l.config.window_duration)
          (requests_of ip l.clients))
      < l.config.max_requests_per_window
unfolding reset_after
room_after_reset l ip now sound h = elim (Option-cases (lookup ip l.clients)) [
  | inl e ↦
      rw (e, requests_of, reset_after)
        (omega (arith, length-in_window_le (checked_sub (now + 0) l.config.window_duration) []))
  | inr (client, e) ↦
      let good = All-lookup (IsSound l.config now) ip client l.clients sound e in
      let window = l.config.window_duration in
      elim (Bool-cases (leb window now)) [
        | inl late ↦
            rw (e, requests_of, reset_after, late)
              (room_after_expiry window now l.config.max_requests_per_window client.requests _
                (leb→le window now late) refl good.past good.few h)
        | inr early ↦
            let cutoff : now + window - window ≡ now = omega arith in
            rw
              (
                e,
                requests_of,
                reset_after,
                early,
                checked_sub-some (now + window) window (omega arith),
                cutoff,
                retain_past now client.requests good.past,
              )
              h
      ]
]

-- The wait that a limiter tells a client is enough: after any calls, a client for whom the map has room and
-- that waits for `reset_after` is admitted by its next request, whatever the configuration allows as long
-- as it is more than nothing.
pub check_request-reset_after :
    (f : TokenFloat) (c : RateLimitConfig) (l : WebSocketRateLimiter) (ip now born : ℕ) (log : Log)
    (guards : List ℕ)
    → Run f c l now log guards
    → at_capacity l ip ≡ false
    → 0 < c.max_requests_per_window
    → (check_request f l ip (now + reset_after l ip now) born).1 ≡ ok tt
check_request-reset_after f c l ip now born log guards r free h =
    let v = Run-Inv r in
    let allowed : 0 < l.config.max_requests_per_window = rw (Run-config r) h in
    rw (check_request_iff f l ip (now + reset_after l ip now) born free)
      (ground (arith, room_after_reset l ip now v.sound allowed))

length-remaining_for :
    (l : WebSocketRateLimiter) (ip now : ℕ)
    → length (requests_of ip l.clients) < 2 ^ 32
    → remaining_for l ip now
      ≡ l.config.max_requests_per_window
        - length (in_window (checked_sub now l.config.window_duration) (requests_of ip l.clients))
unfolding remaining_for
length-remaining_for l ip now small = elim (Option-cases (lookup ip l.clients)) [
  | inl e ↦
      let start = checked_sub now l.config.window_duration in
      rw (e, remaining_for, requests_of) (omega (arith, length-in_window_le start []))
  | inr (client, e) ↦
      let start = checked_sub now l.config.window_duration in
      let few = rw (e, requests_of) at small in
      rw (e, remaining_for, requests_of)
        (omega (arith, length-in_window_le start client.requests, few))
]

-- What a limiter tells of the requests that are left is right: after any calls, a client for whom the map
-- has room is told zero exactly when its next request at that moment is refused with the limit of the
-- window. The bound on the configuration is the range of `u32`.
pub remaining_for-check_request :
    (f : TokenFloat) (c : RateLimitConfig) (l : WebSocketRateLimiter) (ip now born : ℕ) (log : Log)
    (guards : List ℕ)
    → Run f c l now log guards
    → at_capacity l ip ≡ false
    → c.max_requests_per_window < 2 ^ 32
    → (remaining_for l ip now ≡ 0) ↔ (
        (check_request f l ip now born).1
        ≡ err (limit_exceeded c.max_requests_per_window c.window_duration))
remaining_for-check_request f c l ip now born log guards r free h =
    let v = Run-Inv r in
    let few = rw (Run-config r) at (length-requests_of l now ip v.sound) in
    rw
      (
        check_request_iff f l ip now born free,
        length-remaining_for l ip now (omega (arith, few, h)),
        ← Run-config r,
      )
      (ground arith)

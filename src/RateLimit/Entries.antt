-- ===== src/RateLimit/Entries.antt =====
-- The entry of a client in the map, and the invariant at a later time.
use pjs.Prelude.{
  ℕ, ◌≤◌, ◌≡◌, refl, arith, List, [], ◌∷◌, inl, inr, ◌==◌, if◌then◌else◌, nat_eq, All, Option-cases,
}
use pjs.Prelude.Map.{lookup, All-lookup}
use pjs.Prelude.Result.{Result, ok, err}
use pjs.RateLimit.{
  RateLimitConfig, RateLimitError, Clients, WebSocketRateLimiter, TokenFloat, entry,
}
use pjs.RateLimit.Inv.{Log, requests_of, connections_of, IsSound, Inv}

abbrev pub logged : Result RateLimitError (Unit {0}) → ℕ → ℕ → Log → Log
logged (ok u) ip now log = (ip, now) ∷ log
logged (err e) ip now log = log

abbrev pub guarded : Result RateLimitError (Unit {0}) → ℕ → List ℕ → List ℕ
guarded (ok u) ip guards = ip ∷ guards
guarded (err e) ip guards = guards

-- The guards without one of an address.
unfoldable pub dropped : ℕ → List ℕ → List ℕ
dropped ip [] = []
dropped ip (j ∷ guards) = if j == ip then guards else j ∷ dropped ip guards

pub entry-requests :
    (f : TokenFloat) (l : WebSocketRateLimiter) (ip born : ℕ)
    → (entry f l ip born).requests ≡ requests_of ip l.clients
entry-requests f l ip born = elim (Option-cases (lookup ip l.clients)) [
  | inl e ↦ rw (e, entry, requests_of) refl
  | inr (client, e) ↦ rw (e, entry, requests_of) refl
]

pub entry-connection_count :
    (f : TokenFloat) (l : WebSocketRateLimiter) (ip born : ℕ)
    → (entry f l ip born).connection_count ≡ connections_of ip l.clients
entry-connection_count f l ip born = elim (Option-cases (lookup ip l.clients)) [
  | inl e ↦ rw (e, entry, connections_of) refl
  | inr (client, e) ↦ rw (e, entry, connections_of) refl
]

pub entry-IsSound :
    (f : TokenFloat) (l : WebSocketRateLimiter) (ip born now : ℕ)
    → All (λ p. IsSound l.config now p.1) l.clients
    → IsSound l.config now (entry f l ip born)
entry-IsSound f l ip born now h = elim (Option-cases (lookup ip l.clients)) [
  | inl e ↦
      rw (e, entry) (record { ascending = tt; past = tt; few = omega arith; linked = omega arith })
  | inr (client, e) ↦ rw (e, entry) (All-lookup (IsSound l.config now) ip client l.clients h e)
]

All-later :
    (now later : ℕ) (xs : List ℕ) → now ≤ later → All (λ t. t ≤ now) xs → All (λ t. t ≤ later) xs
All-later now later [] h a = tt
All-later now later (x ∷ xs) h a = (omega (arith, a.0), All-later now later xs h a.1)

IsSound-later :
    (c : RateLimitConfig) (now later : ℕ) (m : Clients)
    → now ≤ later
    → All (λ p. IsSound c now p.1) m
    → All (λ p. IsSound c later p.1) m
IsSound-later c now later [] h a = tt
IsSound-later c now later ((k, v) ∷ m) h a = (
  record {
    ascending = a.0.ascending;
    past = All-later now later v.requests h a.0.past;
    few = a.0.few;
    linked = a.0.linked;
  },
  IsSound-later c now later m h a.1,
)

pub Inv-later :
    (l : WebSocketRateLimiter) (now later : ℕ) (log : Log) (guards : List ℕ)
    → now ≤ later
    → Inv l now log guards
    → Inv l later log guards
Inv-later l now later log guards h v = record {
  sound = IsSound-later l.config now later l.clients h v.sound;
  unique = v.unique;
  tracked = v.tracked;
  covered = λ ip s b. v.covered ip s (omega arith);
  balanced = v.balanced;
}

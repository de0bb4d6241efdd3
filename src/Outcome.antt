-- ===== src/Outcome.antt =====
-- crates/pjs-domain/src/lib.rs: `DomainError` and `DomainResult`. An error keeps its variant; the
-- text of its message is not modelled, and an identifier in a message is kept as a number.
use pjs.Prelude.{ℕ, ◌≡◌, refl, ◌⊎◌, inl, inr, Bool, true, false, Option, none, some}

pub data DomainError : Type 0 where
  invalid_state_transition invalid_stream_state invalid_session_state invalid_frame : DomainError
  invariant_violation invalid_priority invalid_path session_not_found : DomainError
  stream_not_found : ℕ → DomainError
  too_many_streams logic io not_found concurrency_conflict compression_error : DomainError
  validation_error invalid_input internal_error security_violation resource_exhausted : DomainError

pub data DomainResult {ℓ} (A : Type ℓ) : Type ℓ where
  ok : A → DomainResult A
  err : DomainError → DomainResult A

infixl 5 ◌>>=◌ ◌>>◌
abbrev pub ◌>>=◌ {ℓ κ} :
    {A : Type ℓ} {B : Type κ} → DomainResult A → (A → DomainResult B) → DomainResult B
ok a >>= f = f a
err e >>= f = err e

abbrev pub ◌>>◌ {ℓ} : {B : Type ℓ} → DomainResult (Unit {0}) → DomainResult B → DomainResult B
m >> k = m >>= λ _. k

-- An early return of an error unless the test holds.
abbrev pub guard : Bool → DomainError → DomainResult (Unit {0})
guard true e = ok tt
guard false e = err e

abbrev pub ok_or {ℓ} : {A : Type ℓ} → Option A → DomainError → DomainResult A
ok_or none e = err e
ok_or (some a) e = ok a

pub DomainResult-cases {ℓ} :
    {A : Type ℓ} (r : DomainResult A) → ((a : A) × (r ≡ ok a)) ⊎ ((e : DomainError) × (r ≡ err e))
DomainResult-cases (ok a) = inl (a, refl)
DomainResult-cases (err e) = inr (e, refl)

-- Inversion of a chain that succeeds: the step before it did, and gave what the rest went on with.
pub >>=-eq-ok {ℓ κ} :
    {S : Type ℓ} {T : Type κ} (step : DomainResult S) (rest : S → DomainResult T) {last : T}
    → (step >>= rest) ≡ ok last
    → (mid : S) × (step ≡ ok mid) × (rest mid ≡ ok last)
>>=-eq-ok (ok mid) rest done = (mid, refl, done)
>>=-eq-ok (err why) rest done = absurd (cc)

pub ok-fst {ℓ κ} :
    {A : Type ℓ} {B : Type κ} {p : A × B} {a : A} {b : B} → ok p ≡ ok (a, b) → p.0 ≡ a
ok-fst e = cc

pub ok-snd {ℓ κ} :
    {A : Type ℓ} {B : Type κ} {p : A × B} {a : A} {b : B} → ok p ≡ ok (a, b) → p.1 ≡ b
ok-snd e = cc

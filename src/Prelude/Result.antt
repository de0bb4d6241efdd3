-- ===== src/Prelude/Result.antt =====
-- `core::result::Result`, for the parts whose errors are not those of the domain.
use mathlib.Core.Path.{◌≡◌, refl}
use mathlib.Core.Logic.{◌⊎◌, inl, inr}
use mathlib.Core.Bool.{Bool, true, false, ◌&&◌}

pub data Result {ℓ} (E : Type 0) (A : Type ℓ) : Type ℓ where
  ok : A → Result E A
  err : E → Result E A

module _ {ℓ κ} {E : Type 0} where
  infixl 5 ◌>>=◌
  abbrev pub ◌>>=◌ : {S : Type ℓ} {T : Type κ} → Result E S → (S → Result E T) → Result E T
  ok s >>= rest = rest s
  err e >>= rest = err e

  -- The step before a success succeeded.
  pub >>=-eq-ok :
      {S : Type ℓ} {T : Type κ} (step : Result E S) (rest : S → Result E T) {last : T}
      → (step >>= rest) ≡ ok last
      → (mid : S) × (step ≡ ok mid) × (rest mid ≡ ok last)
  >>=-eq-ok (ok mid) rest done = (mid, refl, done)
  >>=-eq-ok (err why) rest done = absurd (cc)

module _ {ℓ} {E : Type 0} where
  -- `if !test { return Err(e) }`, and then the rest.
  abbrev pub require : {A : Type ℓ} → Bool → E → Result E A → Result E A
  require true e rest = rest
  require false e rest = err e

  pub Result-cases :
      {A : Type ℓ} (r : Result E A) → ((a : A) × (r ≡ ok a)) ⊎ ((e : E) × (r ≡ err e))
  Result-cases (ok a) = inl (a, refl)
  Result-cases (err e) = inr (e, refl)

  abbrev pub is_ok : {A : Type ℓ} → Result E A → Bool
  is_ok (ok a) = true
  is_ok (err e) = false

  pub is_ok-require :
      {A : Type ℓ} (test : Bool) (e : E) (r : Result E A)
      → is_ok (require test e r) ≡ (test && is_ok r)
  is_ok-require true e r = refl
  is_ok-require false e r = refl

module _ {E : Type 0} where
  -- A step for its error alone.
  infixl 5 ◌>>◌
  abbrev pub ◌>>◌ : Result E (Unit {0}) → Result E (Unit {0}) → Result E (Unit {0})
  ok u >> rest = rest
  err e >> rest = err e

  pub is_ok->> :
      (step rest : Result E (Unit {0})) → is_ok (step >> rest) ≡ (is_ok step && is_ok rest)
  is_ok->> (ok u) rest = refl
  is_ok->> (err e) rest = refl

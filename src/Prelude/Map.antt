-- ===== src/Prelude/Map.antt =====
-- `HashMap` as an association list with one entry for each key, in some order of iteration.
pub mod Unique
use Prim.Native.Nat.{ℕ, suc, ◌+◌, ◌≤◌}
use mathlib.Core.Path.{◌≡◌, refl}
use mathlib.Core.Logic.{inl, inr}
use mathlib.Core.Bool.{Bool, true, false}
use mathlib.Core.Option.{Option, none, some}
use mathlib.Core.List.{List, [], ◌∷◌}
use native.Mathlib.Omega.{arith}
use pjs.Prelude.Tests.{if◌then◌else◌, Bool-cases}
use pjs.Prelude.Lists.{length, All}
pub use pjs.Prelude.Eq.{Eq}

module _ {ℓ κ} {K : Type ℓ} {V : Type κ} ⦃e : Eq K⦄ where
  unfoldable pub lookup : K → List (K × V) → Option V
  lookup k [] = none
  lookup k ((j, v) ∷ m) = if e.beq j k then some v else lookup k m

  unfoldable pub insert : K → V → List (K × V) → List (K × V)
  insert k v [] = (k, v) ∷ []
  insert k v ((j, w) ∷ m) = if e.beq j k then (k, v) ∷ m else (j, w) ∷ insert k v m

  -- `get_mut` and a write through the reference: nothing on a missing key.
  unfoldable pub update : K → V → List (K × V) → List (K × V)
  update k v [] = []
  update k v ((j, w) ∷ m) = if e.beq j k then (j, v) ∷ m else (j, w) ∷ update k v m

  unfoldable pub remove : K → List (K × V) → List (K × V)
  remove k [] = []
  remove k ((j, w) ∷ m) = if e.beq j k then m else (j, w) ∷ remove k m

  pub lookup-insert :
      (k j : K) (v : V) (m : List (K × V))
      → lookup j (insert k v m) ≡ (if e.beq k j then some v else lookup j m)
  unfolding lookup insert
  lookup-insert k j v [] = refl
  lookup-insert k j v ((i, w) ∷ m) =
      ground (arith, e.beq_iff k j, e.beq_iff i k, e.beq_iff i j, lookup-insert k j v m)

  pub lookup-update_self :
      (k : K) (v w : V) (m : List (K × V)) → lookup k m ≡ some w → lookup k (update k v m) ≡ some v
  unfolding lookup update
  lookup-update_self k v w [] h = cc
  lookup-update_self k v w ((i, u) ∷ m) h = ground (arith, lookup-update_self k v w m)

  pub lookup-update_ne :
      (k j : K) (v : V) (m : List (K × V))
      → e.beq k j ≡ false
      → lookup j (update k v m) ≡ lookup j m
  unfolding lookup update
  lookup-update_ne k j v [] h = refl
  lookup-update_ne k j v ((i, u) ∷ m) h =
      ground (arith, e.beq_iff i k, e.beq_iff i j, e.beq_iff k j, lookup-update_ne k j v m)

  pub length-update : (k : K) (v : V) (m : List (K × V)) → length (update k v m) ≡ length m
  unfolding update
  length-update k v [] = refl
  length-update k v ((i, u) ∷ m) = ground (arith, length-update k v m)

  pub length-insert :
      (k : K) (v : V) (m : List (K × V))
      → lookup k m ≡ none
      → length (insert k v m) ≡ suc (length m)
  unfolding lookup insert
  length-insert k v [] h = refl
  length-insert k v ((i, u) ∷ m) h = ground (arith, length-insert k v m)

  pub length-insert_known :
      (k : K) (v w : V) (m : List (K × V)) → lookup k m ≡ some w → length (insert k v m) ≡ length m
  unfolding lookup insert
  length-insert_known k v w [] h = absurd (cc)
  length-insert_known k v w ((i, u) ∷ m) h = ground (arith, length-insert_known k v w m)

  -- A property of every value is kept by a write of a value that has it.
  pub All-update {μ} :
      (P : V → Type μ) (k : K) (v : V) (m : List (K × V))
      → All (λ p. P p.1) m
      → P v
      → All (λ p. P p.1) (update k v m)
  unfolding update
  All-update P k v [] h p = tt
  All-update P k v ((i, u) ∷ m) h p = elim (Bool-cases (e.beq i k)) [
    | inl hit ↦ rw hit (p, h.1)
    | inr miss ↦ rw miss (h.0, All-update P k v m h.1 p)
  ]

  pub All-insert {μ} :
      (P : V → Type μ) (k : K) (v : V) (m : List (K × V))
      → All (λ p. P p.1) m
      → P v
      → All (λ p. P p.1) (insert k v m)
  unfolding insert
  All-insert P k v [] h p = (p, tt)
  All-insert P k v ((i, u) ∷ m) h p = elim (Bool-cases (e.beq i k)) [
    | inl hit ↦ rw hit (p, h.1)
    | inr miss ↦ rw miss (h.0, All-insert P k v m h.1 p)
  ]

  pub All-lookup {μ} :
      (P : V → Type μ) (k : K) (v : V) (m : List (K × V))
      → All (λ p. P p.1) m
      → lookup k m ≡ some v
      → P v
  unfolding lookup
  All-lookup P k v [] h l = absurd (cc)
  All-lookup P k v ((i, u) ∷ m) h l = elim (Bool-cases (e.beq i k)) [
    | inl hit ↦ let q : u ≡ v = cc in rw (← q) h.0
    | inr miss ↦ All-lookup P k v m h.1 (rw miss at l)
  ]

-- How many values pass a test, and what a write changes of that number.
module _ {ℓ κ} {K : Type ℓ} {V : Type κ} where
  abbrev pub tally : (V → Bool) → List (K × V) → ℕ
  tally t [] = 0
  tally t ((k, v) ∷ m) = (if t v then 1 else 0) + tally t m

  pub tally-le-length : (t : V → Bool) (m : List (K × V)) → tally t m ≤ length m
  tally-le-length t [] = omega arith
  tally-le-length t ((k, v) ∷ m) = ground (arith, tally-le-length t m)

module _ {ℓ κ} {K : Type ℓ} {V : Type κ} ⦃e : Eq K⦄ where
  pub tally-update :
      (t : V → Bool) (k : K) (v w : V) (m : List (K × V))
      → lookup k m ≡ some w
      → tally t (update k v m) + (if t w then 1 else 0) ≡ tally t m + (if t v then 1 else 0)
  unfolding lookup update
  tally-update t k v w [] h = absurd (cc)
  tally-update t k v w ((i, u) ∷ m) h = ground (arith, tally-update t k v w m)

  pub tally-insert :
      (t : V → Bool) (k : K) (v : V) (m : List (K × V))
      → lookup k m ≡ none
      → tally t (insert k v m) ≡ tally t m + (if t v then 1 else 0)
  unfolding lookup insert
  tally-insert t k v [] h = omega arith
  tally-insert t k v ((i, u) ∷ m) h = ground (arith, tally-insert t k v m)

  pub tally_pos :
      (t : V → Bool) (k : K) (w : V) (m : List (K × V))
      → lookup k m ≡ some w
      → t w ≡ true
      → 1 ≤ tally t m
  unfolding lookup
  tally_pos t k w [] h p = absurd (cc)
  tally_pos t k w ((i, u) ∷ m) h p = ground (arith, tally_pos t k w m)

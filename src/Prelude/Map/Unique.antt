-- ===== src/Prelude/Map/Unique.antt =====
-- Maps with one entry for each key, and what `remove` does to them.
use mathlib.Core.Path.{◌≡◌, refl}
use mathlib.Core.Logic.{inl, inr}
use mathlib.Core.Bool.{false}
use mathlib.Core.Option.{none, some}
use mathlib.Core.List.{List, [], ◌∷◌}
use native.Mathlib.Omega.{arith}
use pjs.Prelude.Tests.{if◌then◌else◌, Bool-cases}
use pjs.Prelude.Map.{Eq, lookup, insert, update, remove, lookup-insert}

module _ {ℓ κ} {K : Type ℓ} {V : Type κ} ⦃e : Eq K⦄ where
  abbrev pub Unique : List (K × V) → Type κ
  Unique [] = Unit
  Unique ((k, v) ∷ m) = (lookup k m ≡ none) × Unique m

  pub lookup-remove_ne :
      (k j : K) (m : List (K × V)) → e.beq k j ≡ false → lookup j (remove k m) ≡ lookup j m
  unfolding lookup remove
  lookup-remove_ne k j [] h = refl
  lookup-remove_ne k j ((i, u) ∷ m) h =
      ground (arith, e.beq_iff i k, e.beq_iff i j, e.beq_iff k j, lookup-remove_ne k j m)

  lookup-gone : (k j : K) (m : List (K × V)) → lookup j m ≡ none → lookup j (remove k m) ≡ none
  unfolding lookup remove
  lookup-gone k j [] h = refl
  lookup-gone k j ((i, u) ∷ m) h = ground (arith, lookup-gone k j m)

  pub lookup-remove_self : (k : K) (m : List (K × V)) → Unique m → lookup k (remove k m) ≡ none
  unfolding lookup remove
  lookup-remove_self k [] d = refl
  lookup-remove_self k ((i, u) ∷ m) d =
      ground (arith, e.beq_iff i k, lookup-remove_self k m, d.0, d.1)

  pub Unique-remove : (k : K) (m : List (K × V)) → Unique m → Unique (remove k m)
  unfolding remove
  Unique-remove k [] d = tt
  Unique-remove k ((i, u) ∷ m) d = elim (Bool-cases (e.beq i k)) [
    | inl hit ↦ rw hit d.1
    | inr miss ↦ rw miss (lookup-gone k i m d.0, Unique-remove k m d.1)
  ]

  pub Unique-insert : (k : K) (v : V) (m : List (K × V)) → Unique m → Unique (insert k v m)
  unfolding insert lookup
  Unique-insert k v [] d = (refl, tt)
  Unique-insert k v ((i, u) ∷ m) d = elim (Bool-cases (e.beq i k)) [
    | inl hit ↦ rw hit (rw ((e.beq_iff i k).0 hit) at d.0, d.1)
    | inr miss ↦ rw miss (
      ground (arith, lookup-insert k i v m, e.beq_iff i k, e.beq_iff k i, d.0),
      Unique-insert k v m d.1,
    )
  ]

  pub lookup-update_same :
      (k j : K) (v w : V) (m : List (K × V))
      → lookup k m ≡ some w
      → lookup j (update k v m) ≡ (if e.beq k j then some v else lookup j m)
  unfolding lookup update
  lookup-update_same k j v w [] h = absurd (cc)
  lookup-update_same k j v w ((i, u) ∷ m) h =
      ground (arith, e.beq_iff i k, e.beq_iff i j, e.beq_iff k j, lookup-update_same k j v w m)

  pub update_same : (k : K) (v : V) (m : List (K × V)) → lookup k m ≡ some v → update k v m ≡ m
  unfolding lookup update
  update_same k v [] h = refl
  update_same k v ((i, u) ∷ m) h = ground (arith, e.beq_iff i k, update_same k v m)

  lookup-update-none :
      (k j : K) (v : V) (m : List (K × V)) → lookup j m ≡ none → lookup j (update k v m) ≡ none
  unfolding lookup update
  lookup-update-none k j v [] h = refl
  lookup-update-none k j v ((i, u) ∷ m) h = ground (arith, lookup-update-none k j v m)

  pub Unique-update : (k : K) (v : V) (m : List (K × V)) → Unique m → Unique (update k v m)
  unfolding update
  Unique-update k v [] d = tt
  Unique-update k v ((i, u) ∷ m) d = elim (Bool-cases (e.beq i k)) [
    | inl hit ↦ rw hit d
    | inr miss ↦ rw miss (lookup-update-none k i v m d.0, Unique-update k v m d.1)
  ]

  -- No entry of the first map has its key in the second.
  abbrev pub Fresh : List (K × V) → List (K × V) → Type κ
  Fresh [] m = Unit
  Fresh ((k, v) ∷ rest) m = (lookup k m ≡ none) × Fresh rest m

  pub Fresh-nil : (rest : List (K × V)) → Fresh rest []
  unfolding lookup
  Fresh-nil [] = tt
  Fresh-nil ((k, v) ∷ rest) = (refl, Fresh-nil rest)

  pub Fresh-insert :
      (k : K) (v : V) (rest m : List (K × V))
      → lookup k rest ≡ none
      → Fresh rest m
      → Fresh rest (insert k v m)
  unfolding lookup
  Fresh-insert k v [] m n f = tt
  Fresh-insert k v ((i, w) ∷ rest) m n f = (
    ground (arith, lookup-insert k i v m, e.beq_iff i k, e.beq_iff k i, f.0),
    Fresh-insert k v rest m (ground arith) f.1,
  )

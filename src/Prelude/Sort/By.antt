-- ===== src/Prelude/Sort/By.antt =====
-- `slice::sort_by` with a comparison that is given as a test, and the maps that it orders.
use mathlib.Core.Path.{◌≡◌, refl}
use mathlib.Core.Logic.{inl, inr}
use mathlib.Core.Bool.{Bool, false}
use mathlib.Core.Option.{none}
use mathlib.Core.List.{List, [], ◌∷◌}
use native.Mathlib.Omega.{arith}
use pjs.Prelude.Tests.{if◌then◌else◌, Bool-cases}
use pjs.Prelude.Map.{Eq, lookup}
use pjs.Prelude.Map.Unique.{Unique, Fresh, Fresh-nil}

-- `stays x a`: `x` stays in front of a later `a`.
module _ {ℓ} {A : Type ℓ} (stays : A → A → Bool) where
  insert_by : A → List A → List A
  insert_by a [] = a ∷ []
  insert_by a (x ∷ xs) = if stays x a then x ∷ insert_by a xs else a ∷ x ∷ xs

  insert_rest : List A → List A → List A
  unfolding insert_by
  insert_rest [] sorted = sorted
  insert_rest (x ∷ xs) sorted = insert_rest xs (insert_by x sorted)

  unfoldable pub sort_by : List A → List A
  unfolding insert_rest
  sort_by xs = insert_rest xs []

module _ {ℓ κ} {K : Type ℓ} {V : Type κ} ⦃e : Eq K⦄ (stays : K × V → K × V → Bool) where
  lookup-insert_by :
      (j k : K) (v : V) (m : List (K × V))
      → e.beq k j ≡ false
      → lookup j m ≡ none
      → lookup j (insert_by stays (k, v) m) ≡ none
  unfolding lookup insert_by
  lookup-insert_by j k v [] n h = ground arith
  lookup-insert_by j k v ((i, w) ∷ m) n h = ground (arith, lookup-insert_by j k v m)

  Unique-insert_by :
      (k : K) (v : V) (m : List (K × V))
      → lookup k m ≡ none
      → Unique m
      → Unique (insert_by stays (k, v) m)
  unfolding lookup insert_by
  Unique-insert_by k v [] n u = (refl, tt)
  Unique-insert_by k v ((i, w) ∷ m) n u = elim (Bool-cases (stays (i, w) (k, v))) [
    | inl behind ↦ rw behind (
      lookup-insert_by i k v m (ground (arith, e.beq_iff i k, e.beq_iff k i)) u.0,
      Unique-insert_by k v m (ground arith) u.1,
    )
    | inr before ↦ rw before (n, u)
  ]

  Fresh-insert_by :
      (k : K) (v : V) (rest m : List (K × V))
      → lookup k rest ≡ none
      → Fresh rest m
      → Fresh rest (insert_by stays (k, v) m)
  unfolding lookup
  Fresh-insert_by k v [] m n f = tt
  Fresh-insert_by k v ((i, w) ∷ rest) m n f = (
    lookup-insert_by i k v m (ground (arith, e.beq_iff i k, e.beq_iff k i)) f.0,
    Fresh-insert_by k v rest m (ground arith) f.1,
  )

  Unique-insert_rest :
      (rest m : List (K × V))
      → Unique rest
      → Unique m
      → Fresh rest m
      → Unique (insert_rest stays rest m)
  unfolding insert_rest
  Unique-insert_rest [] m u w f = w
  Unique-insert_rest ((k, v) ∷ rest) m u w f =
      Unique-insert_rest rest (insert_by stays (k, v) m) u.1 (Unique-insert_by k v m f.0 w)
        (Fresh-insert_by k v rest m u.0 f.1)

  -- Sorting keeps one entry for each key.
  pub Unique-sort_by : (m : List (K × V)) → Unique m → Unique (sort_by stays m)
  unfolding sort_by
  Unique-sort_by m u = Unique-insert_rest m [] u tt (Fresh-nil m)

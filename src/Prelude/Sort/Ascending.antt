-- ===== src/Prelude/Sort/Ascending.antt =====
-- `slice::sort_by` with the order of the keys: the stable sort, smallest key first.
use Prim.Native.Nat.{ℕ, suc, ◌+◌, ◌≤◌}
use mathlib.Core.Path.{◌≡◌, refl, subst}
use mathlib.Core.Logic.{inl, inr}
use mathlib.Core.List.{List, [], ◌∷◌, ◌++◌, Perm, perm_middle, append-nil}
use mathlib.Core.List.Perm
use native.Mathlib.Omega.{arith}
use pjs.Prelude.Lists.{length}
use pjs.Prelude.Tests.{leb, if◌then◌else◌, Bool-cases}

module _ {ℓ} {A : Type ℓ} (key : A → ℕ) where
  -- Behind every item of an equal or smaller key.
  insert_asc : A → List A → List A
  insert_asc a [] = a ∷ []
  insert_asc a (x ∷ xs) = if leb (key x) (key a) then x ∷ insert_asc a xs else a ∷ x ∷ xs

  insert_each : List A → List A → List A
  unfolding insert_asc
  insert_each [] sorted = sorted
  insert_each (x ∷ xs) sorted = insert_each xs (insert_asc x sorted)

  unfoldable pub sort_asc : List A → List A
  unfolding insert_each
  sort_asc xs = insert_each xs []

  -- No key is smaller than the one before it.
  abbrev pub Ascends : List A → Type 0
  Ascends [] = Unit
  Ascends (x ∷ []) = Unit
  Ascends (x ∷ y ∷ xs) = (key x ≤ key y) × Ascends (y ∷ xs)

  insert_asc-Ascends : (a : A) (xs : List A) → Ascends xs → Ascends (insert_asc a xs)
  unfolding insert_asc
  insert_asc-Ascends a [] h = tt
  insert_asc-Ascends a (x ∷ []) h = ground arith
  insert_asc-Ascends a (x ∷ y ∷ xs) h = ground (arith, insert_asc-Ascends a (y ∷ xs))

  insert_each-Ascends : (xs s : List A) → Ascends s → Ascends (insert_each xs s)
  unfolding insert_each
  insert_each-Ascends [] s h = h
  insert_each-Ascends (x ∷ xs) s h =
      insert_each-Ascends xs (insert_asc x s) (insert_asc-Ascends x s h)

  insert_asc-perm : (a : A) (xs : List A) → Perm (insert_asc a xs) (a ∷ xs)
  unfolding insert_asc
  insert_asc-perm a [] = Perm.refl (a ∷ [])
  insert_asc-perm a (x ∷ xs) = elim (Bool-cases (leb (key x) (key a))) [
    | inl behind ↦ rw behind (Perm.trans (Perm.cons x (insert_asc-perm a xs)) (Perm.swap a x xs))
    | inr before ↦ rw before (Perm.refl (a ∷ x ∷ xs))
  ]

  insert_each-perm : (xs s : List A) → Perm (insert_each xs s) (xs ++ s)
  unfolding insert_each
  insert_each-perm [] s = Perm.refl s
  insert_each-perm (x ∷ xs) s =
      Perm.trans (insert_each-perm xs (insert_asc x s))
        (Perm.trans (Perm.append_left xs (insert_asc-perm x s)) (perm_middle xs s))

  pub sort_asc-Ascends : (xs : List A) → Ascends (sort_asc xs)
  unfolding sort_asc
  sort_asc-Ascends xs = insert_each-Ascends xs [] tt

  pub sort_asc-perm : (xs : List A) → Perm (sort_asc xs) xs
  unfolding sort_asc
  sort_asc-perm xs = subst (Perm (insert_each xs [])) (append-nil xs) (insert_each-perm xs [])

  length-insert_asc : (a : A) (xs : List A) → length (insert_asc a xs) ≡ suc (length xs)
  unfolding insert_asc
  length-insert_asc a [] = refl
  length-insert_asc a (x ∷ xs) = ground (arith, length-insert_asc a xs)

  length-insert_each : (xs s : List A) → length (insert_each xs s) ≡ length xs + length s
  unfolding insert_each
  length-insert_each [] s = omega arith
  length-insert_each (x ∷ xs) s =
      omega (arith, length-insert_each xs (insert_asc x s), length-insert_asc x s)

  pub length-sort_asc : (xs : List A) → length (sort_asc xs) ≡ length xs
  unfolding sort_asc
  length-sort_asc xs = omega (arith, length-insert_each xs [])

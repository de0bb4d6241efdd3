-- ===== src/Prelude/Sort.antt =====
-- `slice::sort_by_key(|x| Reverse(key(x)))`: the stable sort, greatest key first.
pub mod Runs
pub mod Ascending
pub mod By
use Prim.Native.Nat.{ℕ, suc, ◌+◌, ◌≤◌}
use mathlib.Core.Path.{◌≡◌, refl, subst}
use mathlib.Core.Logic.{inl, inr}
use mathlib.Core.List.{List, [], ◌∷◌, ◌++◌, Perm, perm_middle, append-nil}
use mathlib.Core.List.Perm
use native.Mathlib.Omega.{arith}
use pjs.Prelude.Tests.{leb, if◌then◌else◌, Bool-cases}
use pjs.Prelude.Lists.{length, All}

module _ {ℓ} {A : Type ℓ} (key : A → ℕ) where
  -- Behind every item of an equal or greater key.
  insert_desc : A → List A → List A
  insert_desc a [] = a ∷ []
  insert_desc a (x ∷ xs) = if leb (key a) (key x) then x ∷ insert_desc a xs else a ∷ x ∷ xs

  -- Items are inserted from the front, so that equal keys keep their order.
  insert_all : List A → List A → List A
  unfolding insert_desc
  insert_all [] sorted = sorted
  insert_all (x ∷ xs) sorted = insert_all xs (insert_desc x sorted)

  unfoldable pub sort_desc : List A → List A
  unfolding insert_all
  sort_desc xs = insert_all xs []

  -- No key is greater than the one before it.
  abbrev pub Descends : List A → Type 0
  Descends [] = Unit
  Descends (x ∷ []) = Unit
  Descends (x ∷ y ∷ xs) = (key y ≤ key x) × Descends (y ∷ xs)

  insert_desc-Descends : (a : A) (xs : List A) → Descends xs → Descends (insert_desc a xs)
  unfolding insert_desc
  insert_desc-Descends a [] h = tt
  insert_desc-Descends a (x ∷ []) h = ground arith
  insert_desc-Descends a (x ∷ y ∷ xs) h = ground (arith, insert_desc-Descends a (y ∷ xs))

  insert_all-Descends : (xs s : List A) → Descends s → Descends (insert_all xs s)
  unfolding insert_all
  insert_all-Descends [] s h = h
  insert_all-Descends (x ∷ xs) s h =
      insert_all-Descends xs (insert_desc x s) (insert_desc-Descends x s h)

  insert_desc-perm : (a : A) (xs : List A) → Perm (insert_desc a xs) (a ∷ xs)
  unfolding insert_desc
  insert_desc-perm a [] = Perm.refl (a ∷ [])
  insert_desc-perm a (x ∷ xs) = elim (Bool-cases (leb (key a) (key x))) [
    | inl behind ↦ rw behind (Perm.trans (Perm.cons x (insert_desc-perm a xs)) (Perm.swap a x xs))
    | inr before ↦ rw before (Perm.refl (a ∷ x ∷ xs))
  ]

  insert_all-perm : (xs s : List A) → Perm (insert_all xs s) (xs ++ s)
  unfolding insert_all
  insert_all-perm [] s = Perm.refl s
  insert_all-perm (x ∷ xs) s =
      Perm.trans (insert_all-perm xs (insert_desc x s))
        (Perm.trans (Perm.append_left xs (insert_desc-perm x s)) (perm_middle xs s))

  pub sort_desc-Descends : (xs : List A) → Descends (sort_desc xs)
  unfolding sort_desc
  sort_desc-Descends xs = insert_all-Descends xs [] tt

  pub sort_desc-perm : (xs : List A) → Perm (sort_desc xs) xs
  unfolding sort_desc
  sort_desc-perm xs = subst (Perm (insert_all xs [])) (append-nil xs) (insert_all-perm xs [])

  length-insert_desc : (a : A) (xs : List A) → length (insert_desc a xs) ≡ suc (length xs)
  unfolding insert_desc
  length-insert_desc a [] = refl
  length-insert_desc a (x ∷ xs) = ground (arith, length-insert_desc a xs)

  length-insert_all : (xs s : List A) → length (insert_all xs s) ≡ length xs + length s
  unfolding insert_all
  length-insert_all [] s = omega arith
  length-insert_all (x ∷ xs) s =
      omega (arith, length-insert_all xs (insert_desc x s), length-insert_desc x s)

  pub length-sort_desc : (xs : List A) → length (sort_desc xs) ≡ length xs
  unfolding sort_desc
  length-sort_desc xs = omega (arith, length-insert_all xs [])

  insert_desc-All {κ} :
      (P : A → Type κ) (a : A) (xs : List A) → P a → All P xs → All P (insert_desc a xs)
  unfolding insert_desc
  insert_desc-All P a [] p h = (p, tt)
  insert_desc-All P a (x ∷ xs) p h = elim (Bool-cases (leb (key a) (key x))) [
    | inl behind ↦ rw behind (h.0, insert_desc-All P a xs p h.1)
    | inr before ↦ rw before (p, h)
  ]

  insert_all-All {κ} :
      (P : A → Type κ) (xs s : List A) → All P xs → All P s → All P (insert_all xs s)
  unfolding insert_all
  insert_all-All P [] s h k = k
  insert_all-All P (x ∷ xs) s h k =
      insert_all-All P xs (insert_desc x s) h.1 (insert_desc-All P x s h.0 k)

  pub sort_desc-All {κ} : (P : A → Type κ) (xs : List A) → All P xs → All P (sort_desc xs)
  unfolding sort_desc
  sort_desc-All P xs h = insert_all-All P xs [] h tt

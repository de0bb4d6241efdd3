-- ===== src/Store.antt =====
-- crates/pjs-core/src/infrastructure/adapters/generic_store.rs: the store behind the repositories. The
-- `DashMap` is a map with one entry for each key, in an order of iteration; a method is one step on it.
pub mod Laws
mod Tests
use pjs.Prelude.{
  ℕ, suc, ◌+◌, List, [], ◌∷◌, Bool, true, false, Option, none, some, leb, length, if◌then◌else◌,
  is_some,
}
use pjs.Prelude.Map.{Eq, lookup, update}
use pjs.Prelude.Map

abbrev pub InMemoryStore : Type 0 → Type 0 → Type 0
InMemoryStore K V = List (K × V)

abbrev pub new : {K V : Type 0} → InMemoryStore K V
new = []

module _ {K V : Type 0} where
  abbrev pub count : InMemoryStore K V → ℕ
  count s = length s

  abbrev pub clear : InMemoryStore K V → InMemoryStore K V
  clear s = []

  abbrev pub all_keys : InMemoryStore K V → List K
  all_keys [] = []
  all_keys ((k, v) ∷ s) = k ∷ all_keys s

  -- The predicate gets the place of the entry in the iteration too: it may read a clock.
  unfoldable pub filter : (ℕ → V → Bool) → ℕ → InMemoryStore K V → List V
  filter predicate scanned [] = []
  filter predicate scanned ((k, v) ∷ s) =
      let rest = filter predicate (suc scanned) s in if predicate scanned v then v ∷ rest else rest

  -- The loop of `filter_limited`, with the numbers of scanned entries and of results so far: the results
  -- that it still adds, and `limit_reached`.
  unfoldable pub filter_loop : (ℕ → V → Bool) → ℕ → ℕ → ℕ → ℕ → InMemoryStore K V → List V × Bool
  filter_loop predicate result_limit scan_limit scanned found [] = ([], false)
  filter_loop predicate result_limit scan_limit scanned found ((k, v) ∷ s) =
      let hit = filter_loop predicate result_limit scan_limit (suc scanned) (suc found) s in
      let miss = filter_loop predicate result_limit scan_limit (suc scanned) found s in
      if leb scan_limit scanned
      then ([], true)
      else if predicate scanned v
      then if leb result_limit (suc found) then (v ∷ [], true) else (v ∷ hit.0, hit.1)
      else miss

  unfoldable pub filter_limited : (ℕ → V → Bool) → ℕ → ℕ → InMemoryStore K V → List V × Bool
  unfolding filter_loop
  filter_limited predicate result_limit scan_limit s =
      filter_loop predicate result_limit scan_limit 0 0 s

module _ {K V : Type 0} ⦃e : Eq K⦄ where
  abbrev pub get : K → InMemoryStore K V → Option V
  get k s = lookup k s

  -- The value that was there comes back.
  abbrev pub insert : K → V → InMemoryStore K V → InMemoryStore K V × Option V
  insert k v s = (Map.insert k v s, lookup k s)

  abbrev pub remove : K → InMemoryStore K V → InMemoryStore K V × Option V
  remove k s = (Map.remove k s, lookup k s)

  abbrev pub contains_key : K → InMemoryStore K V → Bool
  contains_key k s = is_some (lookup k s)

  -- `f` writes through the reference that `get_mut` gave, and answers.
  unfoldable pub update_with :
      {R : Type 0} → K → (V → V × R) → InMemoryStore K V → InMemoryStore K V × Option R
  update_with k f s = elim (lookup k s) [
    | none ↦ (s, none)
    | some v ↦ (update k (f v).0 s, some (f v).1)
  ]

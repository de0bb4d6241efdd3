-- ===== src/Store/Tests.antt =====
-- The bounded filter on concrete stores.
use pjs.Prelude.{ℕ, ◌∷◌, [], ◌≡◌, refl, arith, true, take, ltb}
use pjs.Store.{InMemoryStore, filter, filter_limited}
use pjs.Store.Laws.{filter_limited-take}

abbrev four : InMemoryStore ℕ ℕ
four = (1, 10) ∷ (2, 3) ∷ (3, 30) ∷ (4, 40) ∷ []

filter_limited-take_example :
    (filter_limited (λ i v. ltb 5 v) 2 3 four).0 ≡ take 2 (filter (λ i v. ltb 5 v) 0 (take 3 four))
filter_limited-take_example = filter_limited-take (λ i v. ltb 5 v) 2 3 four (omega arith)

-- A limit of zero results still gives one.
limit_of_zero : filter_limited (λ i v. ltb 5 v) 0 9 four ≡ (10 ∷ [], true)
unfolding filter_limited
limit_of_zero = refl

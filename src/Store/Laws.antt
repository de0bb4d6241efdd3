-- ===== src/Store/Laws.antt =====
-- The bounded filter against the one without bounds.
use pjs.Prelude.{
  ℕ, zero, suc, ◌+◌, ◌≤◌, ◌<◌, ◌≡◌, refl, subst, List, [], ◌∷◌, Bool, false, arith, take, length,
}
use pjs.Store.{filter, filter_loop, filter_limited}

one_less : (n : ℕ) → 0 < n → (m : ℕ) × (suc m ≡ n)
one_less zero h = absurd (omega arith)
one_less (suc m) h = (m, refl)

module _ {K V : Type 0} (predicate : ℕ → V → Bool) (result_limit scan_limit : ℕ) where
  -- With `n` entries left to scan and room for `m` results, and no result limit of zero.
  filter_loop-eq :
      (scanned found n m : ℕ) (s : List (K × V))
      → scanned + n ≡ scan_limit
      → found + suc m ≡ result_limit
      → (filter_loop predicate result_limit scan_limit scanned found s).0
        ≡ take (suc m) (filter predicate scanned (take n s))
  unfolding filter_loop filter
  filter_loop-eq scanned found zero m [] a b = refl
  filter_loop-eq scanned found (suc n) m [] a b = refl
  filter_loop-eq scanned found zero m ((k, v) ∷ s) a b = ground arith
  filter_loop-eq scanned found (suc n) zero ((k, v) ∷ s) a b =
      ground (arith, filter_loop-eq (suc scanned) found n zero s)
  filter_loop-eq scanned found (suc n) (suc m) ((k, v) ∷ s) a b = ground (
    arith,
    filter_loop-eq (suc scanned) (suc found) n m s,
    filter_loop-eq (suc scanned) found n (suc m) s,
  )

  filter_loop-whole :
      (scanned found : ℕ) (s : List (K × V))
      → (filter_loop predicate result_limit scan_limit scanned found s).1 ≡ false
      → (filter_loop predicate result_limit scan_limit scanned found s).0
        ≡ filter predicate scanned s
  unfolding filter_loop filter
  filter_loop-whole scanned found [] e = refl
  filter_loop-whole scanned found ((k, v) ∷ s) e = ground (
    arith,
    filter_loop-whole (suc scanned) (suc found) s,
    filter_loop-whole (suc scanned) found s,
  )

  -- It says so when it stops early.
  filter_loop-limit :
      (scanned found : ℕ) (s : List (K × V))
      → scanned + length s ≤ scan_limit
      → found + length (filter predicate scanned s) < result_limit
      → (filter_loop predicate result_limit scan_limit scanned found s).1 ≡ false
  unfolding filter_loop filter
  filter_loop-limit scanned found [] a b = refl
  filter_loop-limit scanned found ((k, v) ∷ s) a b = ground (
    arith,
    filter_loop-limit (suc scanned) (suc found) s,
    filter_loop-limit (suc scanned) found s,
  )

  -- With a positive result limit the bounded filter finds the first matches, up to that limit, among the
  -- entries within the scan limit.
  pub filter_limited-take :
      (s : List (K × V))
      → 0 < result_limit
      → (filter_limited predicate result_limit scan_limit s).0
        ≡ take result_limit (filter predicate 0 (take scan_limit s))
  unfolding filter_limited
  filter_limited-take s pos =
      let (m, is) = one_less result_limit pos in
      subst
        (λ r.
          (filter_loop predicate result_limit scan_limit 0 0 s).0
          ≡ take r (filter predicate 0 (take scan_limit s)))
        is (filter_loop-eq 0 0 scan_limit m s (omega arith) (omega (arith, is)))

  -- When it says that it reached no limit, it has found all matches.
  pub filter_limited-filter :
      (s : List (K × V))
      → (filter_limited predicate result_limit scan_limit s).1 ≡ false
      → (filter_limited predicate result_limit scan_limit s).0 ≡ filter predicate 0 s
  unfolding filter_limited
  filter_limited-filter s e = filter_loop-whole 0 0 s e

  -- It says so when the scan limit covers the store and fewer entries match than the result limit.
  pub filter_limited_within :
      (s : List (K × V))
      → length s ≤ scan_limit
      → length (filter predicate 0 s) < result_limit
      → (filter_limited predicate result_limit scan_limit s).1 ≡ false
  unfolding filter_limited
  filter_limited_within s scan found =
      filter_loop-limit 0 0 s (omega (arith, scan)) (omega (arith, found))

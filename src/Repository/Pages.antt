-- ===== src/Repository/Pages.antt =====
-- The pages of a query.
use mathlib.Core.List.{Perm}
use mathlib.Core.List.Perm
use pjs.Prelude.{
  ℕ, zero, suc, ◌+◌, ◌-◌, ◌≤◌, ◌≡◌, refl, sym, ap, subst, ◌∙◌, List, [], ◌∷◌, ◌++◌, false, Option,
  none, some, arith, min, ltb, length, take, drop, length-take, length-drop,
}
use pjs.Prelude.Sort.{Descends, sort_desc-Descends, sort_desc-perm, length-sort_desc}
use pjs.Prelude.Sort.Ascending.{Ascends, sort_asc-Ascends, sort_asc-perm, length-sort_asc}
use pjs.Prelude.Text.{Text}
use pjs.Outcome.{ok, >>=-eq-ok}
use pjs.Session.{StreamSession}
use pjs.Store.{filter}
use pjs.Store.Laws.{filter_limited-filter}
use pjs.Repository.{GatInMemoryStreamRepository}
use pjs.Repository.Criteria.{Meets, Selects, matches_criteria_iff, filter-Selects}
use pjs.Repository.Queries.{
  SessionQueryCriteria, SessionQueryResult, SessionSortField, Pagination, SortOrder, ascending,
  descending, matches_criteria, validate_criteria, validate_pagination, sorted, sorted_by, sort_key,
  matching, page_of, find_sessions_by_criteria,
}

module _ {ℓ} {A : Type ℓ} where
  take_nil : (n : ℕ) → take {A = A} n [] ≡ []
  take_nil zero = refl
  take_nil (suc n) = refl

  take-append-page : (o l : ℕ) (xs : List A) → take o xs ++ take l (drop o xs) ≡ take (o + l) xs
  take-append-page zero l xs = ap (λ n. take n xs) (omega arith)
  take-append-page (suc o) l [] = take_nil l ∙ sym (take_nil (suc o + l))
  take-append-page (suc o) l (x ∷ xs) =
      let n : suc (o + l) ≡ suc o + l = omega arith in
      subst (λ n. (x ∷ take o xs) ++ take l (drop o xs) ≡ take n (x ∷ xs)) n
        (ap (◌∷◌ x) (take-append-page o l xs))

page_more : (o l n : ℕ) → ltb (o + min l (n - o)) n ≡ ltb (o + l) n
page_more o l n = grind arith

length-sorted_by :
    (field : Option SessionSortField) (order : SortOrder) (ss : List StreamSession)
    → length (sorted_by field order ss) ≡ length ss
length-sorted_by none order ss = refl
length-sorted_by (some field) ascending ss = length-sort_asc (sort_key field) ss
length-sorted_by (some field) descending ss = length-sort_desc (sort_key field) ss

-- The order that a query asks for.
abbrev pub InOrder : Option SessionSortField → SortOrder → List StreamSession → Type 0
InOrder none order ss = Unit
InOrder (some field) ascending ss = Ascends (sort_key field) ss
InOrder (some field) descending ss = Descends (sort_key field) ss

sorted_by-InOrder :
    (field : Option SessionSortField) (order : SortOrder) (ss : List StreamSession)
    → InOrder field order (sorted_by field order ss) × Perm (sorted_by field order ss) ss
sorted_by-InOrder none order ss = (tt, Perm.refl ss)
sorted_by-InOrder (some field) ascending ss =
    (sort_asc-Ascends (sort_key field) ss, sort_asc-perm (sort_key field) ss)
sorted_by-InOrder (some field) descending ss =
    (sort_desc-Descends (sort_key field) ss, sort_desc-perm (sort_key field) ss)

-- An answer is a page, after both validations.
answered :
    (to_lowercase : Text → Text) (r : GatInMemoryStreamRepository) (c : SessionQueryCriteria)
    (p : Pagination SessionSortField) (now : ℕ → ℕ) (res : SessionQueryResult)
    → find_sessions_by_criteria to_lowercase r c p now ≡ ok res
    → (validate_pagination p ≡ ok tt) × (page_of p (matching to_lowercase r c now) ≡ res)
unfolding find_sessions_by_criteria
answered to_lowercase r c p now res e =
    let (u, e1, r1) = >>=-eq-ok (validate_criteria c) _ e in
    let (w, e2, r2) = >>=-eq-ok (validate_pagination p) _ r1 in (e2, cc r2)

limit_le : {S : Type 0} (p : Pagination S) → validate_pagination p ≡ ok tt → p.limit ≤ 1000
unfolding validate_pagination
limit_le p e = ground arith

-- A query that answers gives the page that it was asked for, of the sessions that it found, in the order
-- that it was asked for: who has the first `offset` of them then has the first `offset + limit`; a page has
-- at most a thousand sessions; the total counts all that were found; and there is more exactly when these
-- are more than `offset + limit`.
pub find_sessions_by_criteria-page :
    (to_lowercase : Text → Text) (r : GatInMemoryStreamRepository) (c : SessionQueryCriteria)
    (p : Pagination SessionSortField) (now : ℕ → ℕ) (res : SessionQueryResult)
    → find_sessions_by_criteria to_lowercase r c p now ≡ ok res
    → let found = sorted p (matching to_lowercase r c now).0 in
      (take p.offset found ++ res.sessions ≡ take (p.offset + p.limit) found)
      × InOrder p.sort_by p.sort_order found
      × (length res.sessions ≤ 1000)
      × (res.total_count ≡ length found)
      × (res.has_more ≡ ltb (p.offset + p.limit) (length found))
find_sessions_by_criteria-page to_lowercase r c p now res e =
    let all = (matching to_lowercase r c now).0 in
    let found = sorted p all in
    let (valid, is) = answered to_lowercase r c p now res e in
    let size : length (take p.limit (drop p.offset found)) ≡ min p.limit (length all - p.offset) =
      length-take p.limit (drop p.offset found)
      ∙ ap (min p.limit) (
          length-drop p.offset found
          ∙ ap (λ n. n - p.offset) (length-sorted_by p.sort_by p.sort_order all)) in
    rw (← is) (
      take-append-page p.offset p.limit found,
      (sorted_by-InOrder p.sort_by p.sort_order all).0,
      omega (arith, size, limit_le p valid),
      sym (length-sorted_by p.sort_by p.sort_order all),
      rw (size, length-sorted_by p.sort_by p.sort_order all)
          (page_more p.offset p.limit (length all)),
    )

-- The answer of a query over all the sessions that meet its criteria.
pub record IsWhole (to_lowercase : Text → Text) (r : GatInMemoryStreamRepository)
    (c : SessionQueryCriteria) (p : Pagination SessionSortField) (now : ℕ → ℕ)
    (res : SessionQueryResult) : Type 0 where
  pub all : List StreamSession
  pub meets : Selects (λ i s. Meets to_lowercase c s (now i)) 0 r.store all
  pub ordered : List StreamSession
  pub same : Perm ordered all
  pub in_order : InOrder p.sort_by p.sort_order ordered
  pub page : res.sessions ≡ take p.limit (drop p.offset ordered)
  pub total : res.total_count ≡ length all

-- When a query answers that it reached no limit, it has gone through all the stored sessions that meet the
-- conditions of its criteria and no other, each once: its total counts them, and its page is the one asked
-- for of them, in the order asked for. The condition on the client is that its text contains that of the
-- pattern, in any case: a `*` in a pattern stands for itself.
pub find_sessions_by_criteria-IsWhole :
    (to_lowercase : Text → Text) (r : GatInMemoryStreamRepository) (c : SessionQueryCriteria)
    (p : Pagination SessionSortField) (now : ℕ → ℕ) (res : SessionQueryResult)
    → find_sessions_by_criteria to_lowercase r c p now ≡ ok res
    → res.scan_limit_reached ≡ false
    → IsWhole to_lowercase r c p now res
find_sessions_by_criteria-IsWhole to_lowercase r c p now res e reached =
    let (valid, is) = answered to_lowercase r c p now res e in
    let test = λ (i : ℕ) (s : StreamSession). matches_criteria to_lowercase c s (now i) in
    let found = (matching to_lowercase r c now).0 in
    let whole : found ≡ filter test 0 r.store =
      filter_limited-filter test 10000 10000 r.store (rw (← is) at reached) in
    let arranged = sorted_by-InOrder p.sort_by p.sort_order found in
    record {
      all = filter test 0 r.store;
      meets =
          filter-Selects test (λ i s. Meets to_lowercase c s (now i))
            (λ i s. matches_criteria_iff to_lowercase c s (now i)) 0 r.store;
      ordered = sorted p found;
      same = subst (Perm (sorted p found)) whole arranged.1;
      in_order = arranged.0;
      page = rw (← is) refl;
      total = ap (λ x. x.total_count) (sym is) ∙ ap length whole;
    }

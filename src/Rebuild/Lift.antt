-- ===== src/Rebuild/Lift.antt =====
-- Steps on a part of a state, seen as steps on the whole.
use pjs.Prelude.{ℕ, ◌≡◌, refl, sym, List, [], ◌∷◌, All, All-zip}
use pjs.Prelude.Result.{Result, ok, ◌>>=◌}
use pjs.Prelude.Sort.Runs.{run, Works, Commutes, AllSwaps}

module _ {A D E F : Type 0} (key : A → ℕ) (part : A → D → Result F D) (Inv : D → Type 0)
    (whole : A → E → Result F E) (embed : D → E) where
  -- The step on the part is also the step on the whole.
  abbrev pub Lifts : A → Type 0
  Lifts x = (d d' : D) → Inv d → part x d ≡ ok d' → whole x (embed d) ≡ ok (embed d')

  pub run-lift :
      (xs : List A) (d d' : D)
      → All Lifts xs
      → All (Works key part Inv) xs
      → Inv d
      → run part xs d ≡ ok d'
      → run whole xs (embed d) ≡ ok (embed d')
  run-lift [] d d' ls ws i e = let same : d ≡ d' = cc e in rw same refl
  run-lift (x ∷ xs) d d' ls ws i e =
      let (d1, e1, i1) = ws.0 d i in
      rw (ls.0 d d1 i e1) (run-lift xs d1 d' ls.1 ws.1 i1 (rw e1 at e))

  pub commute-lift :
      (x y : A) (d : D)
      → Lifts x
      → Lifts y
      → Works key part Inv x
      → Works key part Inv y
      → Inv d
      → (part x d >>= part y) ≡ (part y d >>= part x)
      → (whole x (embed d) >>= whole y) ≡ (whole y (embed d) >>= whole x)
  commute-lift x y d lx ly wx wy i same =
      let (a, ea, ia) = wx d i in
      let (b, eb, ib) = wy d i in
      let (c, ec, ic) = wy a ia in
      let other : part x b ≡ ok c = sym (rw (ea, eb, ec) at same) in
      rw (lx d a i ea, ly d b i eb, ly a c ia ec, lx b c ib other) refl

-- The same patches, swapped on the part and on the whole.
pub AllSwaps-map :
    {A D E F : Type 0} (key : A → ℕ) (part : A → D → Result F D) (Inv : D → Type 0)
    (whole : A → E → Result F E) (Held : E → Type 0) (P : A → Type 0)
    → ((x y : A) → P x → P y → Commutes key part Inv x y → Commutes key whole Held x y)
    → (xs : List A) → All P xs
    → AllSwaps key part Inv xs
    → AllSwaps key whole Held xs
AllSwaps-map key part Inv whole Held P f [] p h = tt
AllSwaps-map key part Inv whole Held P f (x ∷ xs) p h = (
  All-zip (λ y py swap less. f x y p.0 py (swap less)) xs p.1 h.0,
  AllSwaps-map key part Inv whole Held P f xs p.1 h.1,
)

-- ===== src/Prelude/Sort/Runs.antt =====
-- A sort against what runs its items.
use Prim.Native.Nat.{ℕ, ◌≤◌, ◌<◌}
use mathlib.Core.Path.{◌≡◌, refl, sym, ◌∙◌, ap}
use mathlib.Core.Logic.{inl, inr}
use mathlib.Core.List.{List, [], ◌∷◌, ◌++◌, append-nil, append_assoc}
use native.Mathlib.Omega.{arith}
use pjs.Prelude.Tests.{leb, Bool-cases}
use pjs.Prelude.Lists.{All, All-map, All-append}
use pjs.Prelude.Result.{Result, ok, ◌>>=◌, Result-cases}
use pjs.Prelude.Sort.{
  insert_desc, insert_all, sort_desc, Descends, insert_desc-Descends, insert_desc-All,
}

-- Steps that are run in order on a state. A sort changes their order, but not what they do, when two
-- steps that it swaps commute on the states that matter.
module _ {A D E : Type 0} (step : A → D → Result E D) where
  abbrev pub run : List A → D → Result E D
  run [] d = ok d
  run (x ∷ xs) d = step x d >>= run xs

  pub run-append : (xs ys : List A) (d : D) → run (xs ++ ys) d ≡ (run xs d >>= run ys)
  run-append [] ys d = refl
  run-append (x ∷ xs) ys d = elim (Result-cases (step x d)) [
    | inl (d', e) ↦ rw e (run-append xs ys d')
    | inr (why, e) ↦ rw e refl
  ]

-- The same, with a key and the states that matter.
module _ {A D E : Type 0} (key : A → ℕ) (step : A → D → Result E D) (Inv : D → Type 0) where
  abbrev pub Works : A → Type 0
  Works x = (d : D) → Inv d → (d' : D) × (step x d ≡ ok d') × Inv d'

  abbrev pub Commutes : A → A → Type 0
  Commutes x y = (d : D) → Inv d → (step x d >>= step y) ≡ (step y d >>= step x)

  -- What a descending sort may swap.
  abbrev pub Swaps : A → A → Type 0
  Swaps x y = key x < key y → Commutes x y

  abbrev pub AllSwaps : List A → Type 0
  AllSwaps [] = Unit
  AllSwaps (x ∷ xs) = All (Swaps x) xs × AllSwaps xs

  -- A step that commutes with all others is the first as well as the last.
  run_front :
      (x : A) (s : List A) (d : D)
      → Works x
      → All Works s
      → All (λ y. Commutes y x) s
      → Inv d
      → run step (x ∷ s) d ≡ run step (s ++ x ∷ []) d
  run_front x [] d w ws c i = refl
  run_front x (y ∷ s) d w ws c i =
      let (d1, e1, i1) = ws.0 d i in
      let (d2, e2, i2) = w d i in
      let meet : step x d1 ≡ step y d2 = rw (e1, e2) at (c.0 d i) in
      rw (e1, e2, ← meet) (run_front x s d1 w ws.1 c.1 i1)

  below_first : (y : A) (s : List A) → Descends key (y ∷ s) → All (λ z. key z ≤ key y) s
  below_first y [] h = tt
  below_first y (z ∷ []) h = (h.0, tt)
  below_first y (z ∷ t ∷ s) h = (h.0, below_first y (t ∷ s) (omega arith, h.1.1))

  Descends-tail : (y : A) (s : List A) → Descends key (y ∷ s) → Descends key s
  Descends-tail y [] h = tt
  Descends-tail y (z ∷ s) h = h.1

  -- All steps of smaller keys commute with `x`, which goes in front of them.
  pass_all :
      (x : A) (s : List A) (m : ℕ)
      → m < key x
      → All (λ y. key y ≤ m) s
      → All (λ y. Swaps y x) s
      → All (λ y. Commutes y x) s
  pass_all x [] m lt h c = tt
  pass_all x (y ∷ s) m lt h c = (c.0 (omega (arith, h.0)), pass_all x s m lt h.1 c.1)

  run-insert_desc :
      (x : A) (s : List A) (d : D)
      → Descends key s
      → Works x
      → All Works s
      → All (λ y. Swaps y x) s
      → Inv d
      → run step (insert_desc key x s) d ≡ run step (s ++ x ∷ []) d
  unfolding insert_desc
  run-insert_desc x [] d h w ws c i = refl
  run-insert_desc x (y ∷ s) d h w ws c i = elim (Bool-cases (leb (key x) (key y))) [
    | inl behind ↦
        let (d1, e1, i1) = ws.0 d i in
        rw (behind, e1) (run-insert_desc x s d1 (Descends-tail y s h) w ws.1 c.1 i1)
    | inr before ↦
        let lt : key y < key x = ground arith in
        rw before
          (run_front x (y ∷ s) d w ws (c.0 lt, pass_all x s (key y) lt (below_first y s h) c.1) i)
  ]

  run-insert_all :
      (xs s : List A) (d : D)
      → Descends key s
      → All Works xs
      → All Works s
      → AllSwaps xs
      → All (λ y. All (Swaps y) xs) s
      → Inv d
      → run step (insert_all key xs s) d ≡ run step (s ++ xs) d
  unfolding insert_all
  run-insert_all [] s d h w ws o c i = rw (append-nil s) refl
  run-insert_all (x ∷ xs) s d h w ws o c i =
      run-insert_all xs (insert_desc key x s) d (insert_desc-Descends key x s h) w.1
        (insert_desc-All key Works x s w.0 ws) o.1
        (insert_desc-All key (λ y. All (Swaps y) xs) x s o.0 (All-map (λ y g. g.1) s c)) i
      ∙ (run-append step (insert_desc key x s) xs d
          ∙ (ap (λ r. r >>= run step xs)
                (run-insert_desc x s d h w.0 ws (All-map (λ y g. g.0) s c) i)
              ∙ (sym (run-append step (s ++ x ∷ []) xs d)
                  ∙ ap (λ l. run step l d) (append_assoc s (x ∷ []) xs))))

  -- A sort does not change what the steps do, when each works where the invariant holds, and a step
  -- commutes with every later one of a greater key.
  pub run-sort_desc :
      (xs : List A) (d : D)
      → All Works xs
      → AllSwaps xs
      → Inv d
      → run step (sort_desc key xs) d ≡ run step xs d
  unfolding sort_desc
  run-sort_desc xs d w o i = run-insert_all xs [] d tt w tt o tt i

  pub AllSwaps-append :
      (xs ys : List A)
      → AllSwaps xs
      → AllSwaps ys
      → All (λ x. All (Swaps x) ys) xs
      → AllSwaps (xs ++ ys)
  AllSwaps-append [] ys hx hy across = hy
  AllSwaps-append (x ∷ xs) ys hx hy across =
      (All-append (Swaps x) xs ys hx.0 across.0, AllSwaps-append xs ys hx.1 hy across.1)

-- ===== src/RateLimit/Times.antt =====
-- Lists of request times: what `retain` leaves of them, and how many are after a given time.
use pjs.Prelude.{
  ℕ, suc, ◌+◌, ◌≤◌, ◌≡◌, refl, arith, Bool, true, false, Option, none, some, List, [], ◌∷◌, ◌++◌,
  inl, inr, ltb, leb, if◌then◌else◌, nat_eq, ◌⊎◌, ==_iff, length, All, All-append, Bool-cases,
}
use pjs.Prelude.Map.{lookup}
use pjs.Prelude.Map.Unique.{Unique}
use pjs.RateLimit.{retain, idle_since, in_window, checked_sub}

abbrev pub count_after : ℕ → List ℕ → ℕ
count_after s [] = 0
count_after s (x ∷ xs) = (if ltb s x then 1 else 0) + count_after s xs

abbrev pub Ascending : List ℕ → Type 0
Ascending [] = Unit
Ascending (x ∷ xs) = All (λ y. x ≤ y) xs × Ascending xs

pub count_after-le-length : (s : ℕ) (xs : List ℕ) → count_after s xs ≤ length xs
count_after-le-length s [] = omega arith
count_after-le-length s (x ∷ xs) = ground (arith, count_after-le-length s xs)

pub count_after-append :
    (s : ℕ) (xs : List ℕ) (now : ℕ)
    → count_after s (xs ++ now ∷ []) ≡ count_after s xs + (if ltb s now then 1 else 0)
count_after-append s [] now = ground arith
count_after-append s (x ∷ xs) now = ground (arith, count_after-append s xs now)

module _ {ℓ κ} {A : Type ℓ} (P : A → Type κ) (keep : A → Bool) where
  pub All-retain : (xs : List A) → All P xs → All P (retain keep xs)
  unfolding retain
  All-retain [] h = tt
  All-retain (x ∷ xs) h = elim (Bool-cases (keep x)) [
    | inl kept ↦ rw kept (h.0, All-retain xs h.1)
    | inr gone ↦ rw gone (All-retain xs h.1)
  ]

module _ {ℓ} {A : Type ℓ} where
  pub length-retain_le : (keep : A → Bool) (xs : List A) → length (retain keep xs) ≤ length xs
  unfolding retain
  length-retain_le keep [] = omega arith
  length-retain_le keep (x ∷ xs) = ground (arith, length-retain_le keep xs)

Ascending-retain : (keep : ℕ → Bool) (xs : List ℕ) → Ascending xs → Ascending (retain keep xs)
unfolding retain
Ascending-retain keep [] h = tt
Ascending-retain keep (x ∷ xs) h = elim (Bool-cases (keep x)) [
  | inl kept ↦ rw kept (All-retain (λ y. x ≤ y) keep xs h.0, Ascending-retain keep xs h.1)
  | inr gone ↦ rw gone (Ascending-retain keep xs h.1)
]

count_after-retain :
    (start s : ℕ) (xs : List ℕ)
    → start ≤ s
    → count_after s (retain (λ x. ltb start x) xs) ≡ count_after s xs
unfolding retain
count_after-retain start s [] h = refl
count_after-retain start s (x ∷ xs) h = ground (arith, count_after-retain start s xs h)

pub Ascending-append :
    (xs : List ℕ) (now : ℕ) → Ascending xs → All (λ x. x ≤ now) xs → Ascending (xs ++ now ∷ [])
Ascending-append [] now h below = (tt, tt)
Ascending-append (x ∷ xs) now h below =
    (All-append (λ y. x ≤ y) xs (now ∷ []) h.0 (below.0, tt), Ascending-append xs now h.1 below.1)

-- The requests in the window: ascending, no more, and as many after the start of the window or later.
pub Ascending-in_window : (o : Option ℕ) (xs : List ℕ) → Ascending xs → Ascending (in_window o xs)
Ascending-in_window none xs h = h
Ascending-in_window (some start) xs h = Ascending-retain (λ x. ltb start x) xs h

pub All-in_window :
    (P : ℕ → Type 0) (o : Option ℕ) (xs : List ℕ) → All P xs → All P (in_window o xs)
All-in_window P none xs h = h
All-in_window P (some start) xs h = All-retain P (λ x. ltb start x) xs h

pub length-in_window_le : (o : Option ℕ) (xs : List ℕ) → length (in_window o xs) ≤ length xs
length-in_window_le none xs = omega arith
length-in_window_le (some start) xs = length-retain_le (λ x. ltb start x) xs

pub count_after-in_window :
    (now window s : ℕ) (xs : List ℕ)
    → now ≤ s + window
    → count_after s (in_window (checked_sub now window) xs) ≡ count_after s xs
count_after-in_window now window s xs h = elim (Bool-cases (leb window now)) [
  | inl kept ↦ rw kept (count_after-retain _ s xs (ground arith))
  | inr gone ↦ rw gone refl
]

-- A client whose last request was long ago made none since.
pub count_after-idle :
    (cutoff s : ℕ) (xs : List ℕ)
    → Ascending xs
    → idle_since cutoff xs ≡ true
    → cutoff ≤ suc s
    → count_after s xs ≡ 0
count_after-idle cutoff s [] h i c = refl
count_after-idle cutoff s (x ∷ []) h i c = ground arith
count_after-idle cutoff s (x ∷ y ∷ rest) h i c =
    ground (arith, count_after-idle cutoff s (y ∷ rest) h.1 i c)

-- What is left of a map.
module _ {A : Type 0} where
  lookup-retain-none :
      (keep : ℕ × A → Bool) (k : ℕ) (m : List (ℕ × A))
      → lookup k m ≡ none
      → lookup k (retain keep m) ≡ none
  unfolding lookup retain
  lookup-retain-none keep k [] h = refl
  lookup-retain-none keep k ((j, w) ∷ m) h = ground (arith, lookup-retain-none keep k m)

  pub Unique-retain : (keep : ℕ × A → Bool) (m : List (ℕ × A)) → Unique m → Unique (retain keep m)
  unfolding retain
  Unique-retain keep [] h = tt
  Unique-retain keep ((j, w) ∷ m) h = elim (Bool-cases (keep (j, w))) [
    | inl kept ↦ rw kept (lookup-retain-none keep j m h.0, Unique-retain keep m h.1)
    | inr gone ↦ rw gone (Unique-retain keep m h.1)
  ]

  -- An entry is kept, or fails the test and its key is free.
  pub lookup-retain :
      (keep : A → Bool) (k : ℕ) (m : List (ℕ × A))
      → Unique m
      → (lookup k (retain (λ p. keep p.1) m) ≡ lookup k m)
        ⊎ ((v : A) × (lookup k m ≡ some v)
            × (keep v ≡ false)
            × (lookup k (retain (λ p. keep p.1) m) ≡ none))
  unfolding lookup retain
  lookup-retain keep k [] h = inl refl
  lookup-retain keep k ((j, w) ∷ m) h = elim (Bool-cases (nat_eq.beq j k)) [
    | inl hit ↦ elim (Bool-cases (keep w)) [
      | inl kept ↦ inl (rw (kept, hit) refl)
      | inr gone ↦
          let free : lookup k m ≡ none = ground (arith, ==_iff j k, h.0) in
          inr (w, rw hit refl, gone, rw gone (lookup-retain-none (λ p. keep p.1) k m free))
    ]
    | inr miss ↦ elim (Bool-cases (keep w)) [
      | inl kept ↦ rw (kept, miss) (lookup-retain keep k m h.1)
      | inr gone ↦ rw (gone, miss) (lookup-retain keep k m h.1)
    ]
  ]

-- ===== src/Words/Decimal.antt =====
-- Decimal text and its parser.
use pjs.Prelude.{
  ℕ, zero, suc, ◌+◌, ◌-◌, ◌*◌, ◌/◌, ◌%◌, ◌≤◌, ◌<◌, ◌≡◌, inl, inr, arith, [], ◌∷◌, ◌++◌, some, ltb,
  All, All-append, Bool-cases, ltb→lt, not-ltb→le,
}
use pjs.Prelude.Text.{Text}
use pjs.Words.{max_usize, decimal, to_text, scan, parse_usize}

abbrev pub IsDigit : ℕ → Type 0
IsDigit c = (b'0' ≤ c) × (c ≤ b'9')

decimal-IsDigit : (f n : ℕ) → All IsDigit (decimal f n)
unfolding decimal
decimal-IsDigit zero n = tt
decimal-IsDigit (suc f) n = elim (Bool-cases (ltb n 10)) [
  | inl small ↦ rw small (omega (arith, ltb→lt n 10 small))
  | inr large ↦
      rw large
        (All-append IsDigit (decimal f (n / 10)) _ (decimal-IsDigit f (n / 10)) (omega arith))
]

pub to_text-IsDigit : (n : ℕ) → All IsDigit (to_text n)
unfolding to_text
to_text-IsDigit n = decimal-IsDigit (suc n) n

scan-append : (xs ys : Text) (n m : ℕ) → scan xs n ≡ some m → scan (xs ++ ys) n ≡ scan ys m
unfolding scan
scan-append [] ys n m h = ground arith
scan-append (x ∷ xs) ys n m h = ground (arith, scan-append xs ys (n * 10 + (x - b'0')) m)

scan-decimal : (f n : ℕ) → n < f → n ≤ max_usize → scan (decimal f n) 0 ≡ some n
unfolding decimal
scan-decimal zero n h k = absurd (omega arith)
scan-decimal (suc f) n h k = elim (Bool-cases (ltb n 10)) [
  | inl small ↦ rw small (unfold scan in ground (arith, ltb→lt n 10 small))
  | inr large ↦
      let big = not-ltb→le n 10 large in
      rw
        (
          large,
          scan-append (decimal f (n / 10)) ((b'0' + n % 10) ∷ []) 0 (n / 10)
              (scan-decimal f (n / 10) (omega arith) (omega arith)),
        )
        (unfold scan in ground arith)
]

decimal-cons : (f n : ℕ) → n < f → (c : ℕ) × (s : Text) × (decimal f n ≡ c ∷ s)
unfolding decimal
decimal-cons zero n h = absurd (omega arith)
decimal-cons (suc f) n h = elim (Bool-cases (ltb n 10)) [
  | inl small ↦ (b'0' + n, [], rw small)
  | inr large ↦
      let big = not-ltb→le n 10 large in
      let (c, s, e) = decimal-cons f (n / 10) (omega arith) in
      (c, s ++ (b'0' + n % 10) ∷ [], rw (large, e))
]

pub to_text-cons : (n : ℕ) → (c : ℕ) × (s : Text) × (to_text n ≡ c ∷ s)
unfolding to_text
to_text-cons n = decimal-cons (suc n) n (omega arith)

parse_usize_digits : (c : ℕ) (s : Text) → IsDigit c → parse_usize (c ∷ s) ≡ scan (c ∷ s) 0
unfolding parse_usize
parse_usize_digits c [] d = unfold scan in ground arith
parse_usize_digits c (x ∷ s) d = unfold scan in ground arith

-- Every `usize` survives `to_string` and `parse`.
pub parse_usize-to_text : (n : ℕ) → n ≤ max_usize → parse_usize (to_text n) ≡ some n
parse_usize-to_text n h =
    let (c, s, e) = to_text-cons n in
    let ds : All IsDigit (c ∷ s) = rw e at (to_text-IsDigit n) in
    rw (e, parse_usize_digits c s ds.0, ← e)
      (unfold to_text in scan-decimal (suc n) n (omega arith) h)

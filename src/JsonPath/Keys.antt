-- ===== src/JsonPath/Keys.antt =====
-- What the key validation accepts, and what the scanners of `from_str` consume.
use pjs.Prelude.{
  ℕ, ◌+◌, ◌-◌, ◌*◌, ◌≤◌, ◌≡◌, ◌≢◌, ◌⊎◌, refl, [], ◌∷◌, ◌++◌, false, arith, All, length, some,
  is_empty,
}
use pjs.Prelude.Text.{Text}
use pjs.Outcome.{ok}
use pjs.Words.{max_usize, scan, parse_usize}
use pjs.Words.Decimal.{IsDigit}
use pjs.JsonPath.{JsonPath, PathSegment, key, index, contains, validate_key, take_key, take_index}

-- A segment that the constructors admit: a valid key, or an index that a `usize` holds.
abbrev pub SegmentOk : PathSegment → Type 0
SegmentOk (key k) = validate_key k ≡ ok tt
SegmentOk (index i) = i ≤ max_usize

abbrev pub IsValid : JsonPath → Type 0
IsValid p = All SegmentOk p.segments

-- No character of a key ends it.
abbrev pub IsPlain : ℕ → Type 0
IsPlain c = (c ≢ b'.') × (c ≢ b'[') × (c ≢ b']')

contains-All :
    (k : Text)
    → contains k b'.' ≡ false
    → contains k b'[' ≡ false
    → contains k b']' ≡ false
    → All IsPlain k
unfolding contains
contains-All [] a b c = tt
contains-All (x ∷ k) a b c = (
  (λ e. ground arith, λ e. ground arith, λ e. ground arith),
  contains-All k (ground arith) (ground arith) (ground arith),
)

pub validate_key-IsPlain : (k : Text) → validate_key k ≡ ok tt → All IsPlain k
unfolding validate_key
validate_key-IsPlain k h = contains-All k (ground arith) (ground arith) (ground arith)

pub validate_key-ne-nil : (k : Text) → validate_key k ≡ ok tt → is_empty k ≡ false
unfolding validate_key
validate_key-ne-nil k h = ground arith

-- The text after a key is over, or goes on with a delimiter.
abbrev pub Stops : Text → Type 0
Stops [] = Unit
Stops (c ∷ s) = (c ≡ b'.') ⊎ (c ≡ b'[')

take_key-Stops : (s : Text) → Stops s → take_key s ≡ ([], s)
unfolding take_key
take_key-Stops [] h = refl
take_key-Stops (c ∷ s) h = ground arith

take_key-step :
    (c : ℕ) (s : Text) {k rest : Text}
    → IsPlain c
    → take_key s ≡ (k, rest)
    → take_key (c ∷ s) ≡ (c ∷ k, rest)
unfolding take_key
take_key-step c s p h = ground arith

pub take_key-append :
    (k rest : Text) → All IsPlain k → Stops rest → take_key (k ++ rest) ≡ (k, rest)
take_key-append [] rest p h = take_key-Stops rest h
take_key-append (c ∷ k) rest (plain, p) h =
    take_key-step c (k ++ rest) plain (take_key-append k rest p h)

pub take_index-append : (d rest : Text) → All IsDigit d → take_index (d ++ b']' ∷ rest) ≡ (d, rest)
unfolding take_index
take_index-append [] rest p = refl
take_index-append (c ∷ d) rest p = ground (arith, take_index-append d rest p.1)

pub length-take_key : (s : Text) → length (take_key s).1 ≤ length s
unfolding take_key
length-take_key [] = omega arith
length-take_key (c ∷ s) = ground (arith, length-take_key s)

pub length-take_index : (s : Text) → length (take_index s).1 ≤ length s
unfolding take_index
length-take_index [] = omega arith
length-take_index (c ∷ s) = ground (arith, length-take_index s)

scan-le : (s : Text) (n m : ℕ) → n ≤ max_usize → scan s n ≡ some m → m ≤ max_usize
unfolding scan
scan-le [] n m h e = ground arith
scan-le (c ∷ s) n m h e = ground (arith, scan-le s (n * 10 + (c - b'0')) m)

pub parse_usize-le : (s : Text) (m : ℕ) → parse_usize s ≡ some m → m ≤ max_usize
unfolding parse_usize
parse_usize-le [] m e = absurd (cc)
parse_usize-le (c ∷ []) m e = unfold scan in ground arith
parse_usize-le (c ∷ d ∷ s) m e = ground (arith, scan-le (d ∷ s) 0 m, scan-le (c ∷ d ∷ s) 0 m)

-- ===== src/Words.antt =====
-- `usize` and `u64` as the source uses them: 64 bits, addition that wraps (release builds), and the
-- decimal text of `to_string` and `str::parse::<usize>`.
pub mod Decimal
use pjs.Prelude.{
  ℕ, zero, suc, ◌+◌, ◌-◌, ◌*◌, ◌/◌, ◌%◌, ◌^◌, ◌≤◌, ◌<◌, ◌≡◌, arith, List, [], ◌∷◌, ◌++◌, Bool,
  Option, none, some, ltb, ◌==◌, ◌||◌, if◌then◌else◌,
}
use pjs.Prelude.Text.{Text}

abbrev pub u64_mod : ℕ
u64_mod = 2 ^ 64

abbrev pub max_usize : ℕ
max_usize = 2 ^ 64 - 1

unfoldable pub add_u64 : ℕ → ℕ → ℕ
add_u64 a b = (a + b) % u64_mod

pub add_u64_fits : (a b : ℕ) → a + b < u64_mod → add_u64 a b ≡ a + b
unfolding add_u64
add_u64_fits a b h = omega arith

pub add_u64-lt : (a b : ℕ) → add_u64 a b < u64_mod
unfolding add_u64
add_u64-lt a b = omega arith

unfoldable pub sub_u64 : ℕ → ℕ → ℕ
sub_u64 a b = (a + u64_mod - b) % u64_mod

-- The digits of `n`, most significant first; `n` rounds of division are always enough.
unfoldable pub decimal : ℕ → ℕ → Text
decimal zero n = []
decimal (suc f) n =
    let more = decimal f (n / 10) in
    if ltb n 10 then (b'0' + n) ∷ [] else more ++ (b'0' + n % 10) ∷ []

unfoldable pub to_text : ℕ → Text
unfolding decimal
to_text n = decimal (suc n) n

unfoldable pub scan : Text → ℕ → Option ℕ
scan [] n = some n
scan (c ∷ s) n =
    if ltb c b'0' || ltb b'9' c
    then none
    else if ltb max_usize (n * 10 + (c - b'0'))
    then none
    else scan s (n * 10 + (c - b'0'))

-- One leading `+` is accepted, an empty rest is not.
unfoldable pub parse_usize : Text → Option ℕ
unfolding scan
parse_usize [] = none
parse_usize (c ∷ []) = if c == b'+' then none else scan (c ∷ []) 0
parse_usize (c ∷ d ∷ s) = if c == b'+' then scan (d ∷ s) 0 else scan (c ∷ d ∷ s) 0

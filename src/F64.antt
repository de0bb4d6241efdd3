-- ===== src/F64.antt =====
-- The operations on `f64` that the source uses are those of the hardware and of `core`: they are the
-- fields of an instance, and an `f64` is its 64-bit pattern.
pub mod Tests
use pjs.Prelude.{ℕ, ◌^◌, ◌/◌, ◌%◌, Bool, ◌==◌, ◌&&◌, not}
use pjs.Prelude.Text.{Text}
use pjs.Prelude.Int.{ℤ}

pub record Float : Type 0 where
  pub of_nat : ℕ → ℕ
  pub of_int : ℤ → ℕ
  pub add : ℕ → ℕ → ℕ
  pub sub : ℕ → ℕ → ℕ
  pub mul : ℕ → ℕ → ℕ
  pub div : ℕ → ℕ → ℕ
  pub half : ℕ
  pub display : ℕ → Text

-- The fields of a bit pattern: 52 bits of fraction below 11 bits of exponent.
abbrev exponent : ℕ → ℕ
exponent bits = bits / 2 ^ 52 % 2 ^ 11

abbrev fraction : ℕ → ℕ
fraction bits = bits % 2 ^ 52

unfoldable pub is_nan : ℕ → Bool
is_nan bits = exponent bits == 2047 && not (fraction bits == 0)

unfoldable pub is_infinite : ℕ → Bool
is_infinite bits = exponent bits == 2047 && fraction bits == 0

abbrev pub zero_bits : ℕ
zero_bits = 0

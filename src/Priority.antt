-- ===== src/Priority.antt =====
-- crates/pjs-domain/src/value_objects/priority.rs. A `Priority` holds a non-zero byte; the byte is
-- a native number, and `IsPriority` says that it is in range.
pub mod Bounds
mod Tests
use pjs.Prelude.{
  ℕ, zero, suc, ◌+◌, ◌-◌, ◌≤◌, ◌≡◌, Bool, Option, none, some, leb, min, ◌==◌, if◌then◌else◌,
}
use pjs.Outcome.{DomainResult, ok, err, invalid_priority, ok_or}

pub record Priority : Type 0 where
  pub byte : ℕ

abbrev pub new_unchecked : ℕ → Priority
new_unchecked value = record { byte = value }

abbrev pub critical : Priority
critical = new_unchecked 100

abbrev pub high : Priority
high = new_unchecked 80

abbrev pub medium : Priority
medium = new_unchecked 50

abbrev pub low : Priority
low = new_unchecked 25

abbrev pub background : Priority
background = new_unchecked 10

-- `NonZeroU8::new`.
abbrev pub non_zero : ℕ → Option Priority
non_zero value = if value == 0 then none else some (new_unchecked value)

abbrev pub unwrap_or : Option Priority → Priority → Priority
unwrap_or none d = d
unwrap_or (some p) d = p

unfoldable pub new : ℕ → DomainResult Priority
new value = ok_or (non_zero value) invalid_priority

abbrev pub value : Priority → ℕ
value p = p.byte

-- `u8::saturating_add`, then `NonZeroU8::MAX` for a zero that cannot come.
unfoldable pub increase_by : Priority → ℕ → Priority
increase_by p delta = unwrap_or (non_zero (min 255 (p.byte + delta))) (new_unchecked 255)

-- `u8::saturating_sub`, then `NonZeroU8::MIN` for a zero.
unfoldable pub decrease_by : Priority → ℕ → Priority
decrease_by p delta = unwrap_or (non_zero (p.byte - delta)) (new_unchecked 1)

unfoldable pub is_critical : Priority → Bool
is_critical p = leb critical.byte p.byte

unfoldable pub is_high_or_above : Priority → Bool
is_high_or_above p = leb high.byte p.byte

-- The derived order of the bytes: `p >= q`.
abbrev pub ge : Priority → Priority → Bool
ge p q = leb q.byte p.byte

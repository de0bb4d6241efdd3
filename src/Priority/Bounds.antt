-- ===== src/Priority/Bounds.antt =====
-- The range of a priority, and its saturating arithmetic.
use pjs.Prelude.{ℕ, ◌+◌, ◌-◌, ◌≤◌, ◌≡◌, ◌⊎◌, true, arith, max, min}
use pjs.Outcome.{ok, err, invalid_priority}
use pjs.Priority.{Priority, new, increase_by, decrease_by, is_critical, is_high_or_above}

-- 1 to 255, as `NonZeroU8` has it.
pub record IsPriority (p : Priority) : Type 0 where
  pub positive : 1 ≤ p.byte
  pub fits : p.byte ≤ 255

-- Of the bytes, `new` refuses exactly zero, and what it accepts is a valid priority of that value.
pub new-IsPriority :
    (b : ℕ)
    → b ≤ 255
    → ((b ≡ 0) × (new b ≡ err invalid_priority))
      ⊎ (IsPriority (record { byte = b }) × (new b ≡ ok (record { byte = b })))
unfolding new
new-IsPriority b h = ground arith

-- The arithmetic stays within 1 to 255 and saturates there: adding `d` gives the lesser of
-- `p + d` and 255, subtracting gives the greater of `p - d` and 1.
pub saturates :
    (p : Priority) (d : ℕ)
    → IsPriority p
    → IsPriority (increase_by p d)
      × IsPriority (decrease_by p d)
      × ((increase_by p d).byte ≡ min 255 (p.byte + d))
      × ((decrease_by p d).byte ≡ max 1 (p.byte - d))
unfolding increase_by decrease_by
saturates p d v = ground arith

pub increase_by-IsPriority : (p : Priority) (d : ℕ) → IsPriority p → IsPriority (increase_by p d)
increase_by-IsPriority p d v = (saturates p d v).0

pub decrease_by-IsPriority : (p : Priority) (d : ℕ) → IsPriority p → IsPriority (decrease_by p d)
decrease_by-IsPriority p d v = (saturates p d v).1

pub is_high_or_above_of_critical : (p : Priority) → is_critical p ≡ true → is_high_or_above p ≡ true
unfolding is_critical is_high_or_above
is_high_or_above_of_critical p h = ground arith

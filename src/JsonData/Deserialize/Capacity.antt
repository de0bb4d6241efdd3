-- ===== src/JsonData/Deserialize/Capacity.antt =====
-- The capacity that the visitor reserves before it reads an element.
use pjs.Prelude.{ℕ, ◌*◌, ◌/◌, ◌≤◌, max, min, Option, none, some, arith}
use pjs.JsonData.Deserialize.{cautious_capacity, max_prealloc_bytes}

div_mul_le : (m s : ℕ) → m / max s 1 * s ≤ m
div_mul_le m s = grind arith

min_mul_le : (a b s m : ℕ) → b * s ≤ m → min a b * s ≤ m
min_mul_le a b s m h = grind arith

-- Whatever length the input claims, the memory reserved for elements of `size` bytes is at most one
-- mebibyte.
pub cautious_capacity-le :
    (size : ℕ) (hint : Option ℕ) → cautious_capacity size hint * size ≤ max_prealloc_bytes
unfolding cautious_capacity
cautious_capacity-le size none = omega arith
cautious_capacity-le size (some n) =
    min_mul_le n (max_prealloc_bytes / max size 1) size max_prealloc_bytes
      (div_mul_le max_prealloc_bytes size)

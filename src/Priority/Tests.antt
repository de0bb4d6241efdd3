-- ===== src/Priority/Tests.antt =====
-- Runs of the priority arithmetic at concrete values.
use pjs.Prelude.{◌≡◌, refl}
use pjs.Priority.{critical, increase_by, decrease_by, new_unchecked}

clamps_above : increase_by critical 200 ≡ new_unchecked 255
unfolding increase_by
clamps_above = refl

clamps_below : decrease_by critical 200 ≡ new_unchecked 1
unfolding decrease_by
clamps_below = refl

-- ===== src/Stream/Chunks.antt =====
-- `chunk_patches_for_commit`: the cut of sorted patches into groups, one for each frame.
pub mod Laws
use pjs.Prelude.{
  ℕ, zero, suc, ◌+◌, ◌-◌, ◌/◌, List, [], ◌∷◌, Bool, Option, none, some, is_empty, map, max, length,
  take, drop, ◌==◌, ◌||◌, if◌then◌else◌,
}
use pjs.Priority.{Priority, medium, ge}
use pjs.Frame.{FramePatch}

-- `usize::div_ceil`.
abbrev pub div_ceil : ℕ → ℕ → ℕ
div_ceil a b = (a + (b - 1)) / b

-- `slice::chunks`, on fuel: a list of `n` items has at most `n` chunks.
unfoldable pub chunks {ℓ} : {A : Type ℓ} → ℕ → ℕ → List A → List (List A)
chunks zero size xs = []
chunks (suc f) size [] = []
chunks (suc f) size (x ∷ xs) = take size (x ∷ xs) ∷ chunks f size (drop size (x ∷ xs))

-- `Iterator::max` of the priorities.
abbrev pub higher : Priority → Priority → Priority
higher p q = if ge q p then q else p

unfoldable pub max_priority : List (FramePatch × Priority) → Option Priority
max_priority [] = none
max_priority ((f, p) ∷ rest) = elim (max_priority rest) [
  | none ↦ some p
  | some q ↦ some (higher p q)
]

abbrev pub unwrap_or : Option Priority → Priority → Priority
unwrap_or none d = d
unwrap_or (some p) d = p

unfoldable pub chunk_frame : List (FramePatch × Priority) → Priority × List FramePatch
unfolding max_priority
chunk_frame chunk = (unwrap_or (max_priority chunk) medium, map (λ p. p.0) chunk)

unfoldable pub chunk_patches_for_commit :
    List (FramePatch × Priority) → ℕ → List (Priority × List FramePatch)
chunk_patches_for_commit patches max_frames =
    let chunk_size = max (div_ceil (length patches) max_frames) 1 in
    if is_empty patches || max_frames == 0
    then []
    else map chunk_frame (chunks (length patches) chunk_size patches)

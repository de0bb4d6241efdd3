-- ===== src/Stream/Chunks/Laws.antt =====
-- `chunk_patches_for_commit`: what the groups hold, and how many there are.
use pjs.Prelude.{
  ℕ, zero, suc, ◌+◌, ◌-◌, ◌*◌, ◌≤◌, ◌<◌, ◌≡◌, refl, sym, ap, subst, ◌∙◌, inl, inr, List, [], ◌∷◌,
  ◌++◌, Bool, true, false, some, arith, All, is_empty, map, max, length, drop, length-drop,
  take-append-drop, ◌==◌, ◌||◌, Bool-cases, leb→le, length-map,
}
use mathlib.Core.List.{flatten, map-append}
use native.Mathlib.Nat.{div-add-mod, mod-lt}
use pjs.Priority.{Priority, ge}
use pjs.Frame.{FramePatch}
use pjs.Stream.Chunks.{div_ceil, chunks, max_priority, chunk_frame, chunk_patches_for_commit}

-- Some patch has exactly this priority.
abbrev pub attains : Priority → List (FramePatch × Priority) → Bool
attains q [] = false
attains q (p ∷ c) = (p.1.byte == q.byte) || attains q c

module _ {ℓ} {A : Type ℓ} where
  pub chunks-flatten :
      (f size : ℕ) (xs : List A) → length xs ≤ f → 0 < size → flatten (chunks f size xs) ≡ xs
  unfolding chunks flatten
  chunks-flatten zero size [] h k = refl
  chunks-flatten zero size (x ∷ xs) h k = absurd (omega arith)
  chunks-flatten (suc f) size [] h k = refl
  chunks-flatten (suc f) size (x ∷ xs) h k =
      rw (chunks-flatten f size (drop size (x ∷ xs)) (omega (arith, length-drop size (x ∷ xs))) k)
        (take-append-drop size (x ∷ xs))

  length-chunks :
      (f size m : ℕ) (xs : List A) → length xs ≤ m * size → length (chunks f size xs) ≤ m
  unfolding chunks
  length-chunks zero size m xs h = omega arith
  length-chunks (suc f) size m [] h = omega arith
  length-chunks (suc f) size zero (x ∷ xs) h = absurd (omega arith)
  length-chunks (suc f) size (suc m) (x ∷ xs) h = omega (
    arith,
    length-chunks f size m (drop size (x ∷ xs)) (omega (arith, length-drop size (x ∷ xs))),
  )

  -- No chunk is empty.
  chunks-nonempty :
      (f size : ℕ) (xs : List A) → 0 < size → All (λ c. is_empty c ≡ false) (chunks f size xs)
  unfolding chunks
  chunks-nonempty zero size xs k = tt
  chunks-nonempty (suc f) size [] k = tt
  chunks-nonempty (suc f) zero (x ∷ xs) k = absurd (omega arith)
  chunks-nonempty (suc f) (suc size) (x ∷ xs) k =
      (refl, chunks-nonempty f (suc size) (drop (suc size) (x ∷ xs)) k)

le_div_ceil : (n m : ℕ) → 0 < m → n ≤ m * div_ceil n m
le_div_ceil n m h = omega (arith, div-add-mod (n + (m - 1)) m, mod-lt (n + (m - 1)) {m = m} h)

flatten-chunk_frame :
    (cs : List (List (FramePatch × Priority)))
    → flatten (map (λ c. c.1) (map chunk_frame cs)) ≡ map (λ p. p.0) (flatten cs)
unfolding chunk_frame flatten
flatten-chunk_frame [] = refl
flatten-chunk_frame (c ∷ cs) =
    ap (◌++◌ (map (λ p. p.0) c)) (flatten-chunk_frame cs)
    ∙ sym (map-append (λ p. p.0) c (flatten cs))

abbrev size_of : List (FramePatch × Priority) → ℕ → ℕ
size_of ps m = max (div_ceil (length ps) m) 1

chunk_patches-eq :
    (p : FramePatch × Priority) (ps : List (FramePatch × Priority)) (m : ℕ)
    → chunk_patches_for_commit (p ∷ ps) (suc m)
      ≡ map chunk_frame (chunks (length (p ∷ ps)) (size_of (p ∷ ps) (suc m)) (p ∷ ps))
unfolding chunk_patches_for_commit
chunk_patches-eq p ps m = ground arith

room : (n m x : ℕ) → n ≤ m * x → n ≤ m * max x 1
room n m x h = grind arith

-- With `max_frames` above zero, the groups hold all patches, each once and in their order, and
-- there are at most `max_frames` of them. With zero there is no group.
pub chunk_patches-flatten :
    (ps : List (FramePatch × Priority)) (m : ℕ)
    → (length (chunk_patches_for_commit ps m) ≤ m)
      × (0 < m → flatten (map (λ c. c.1) (chunk_patches_for_commit ps m)) ≡ map (λ p. p.0) ps)
chunk_patches-flatten [] m = unfold chunk_patches_for_commit flatten in (omega arith, λ h. refl)
chunk_patches-flatten (p ∷ ps) zero =
    unfold chunk_patches_for_commit in (omega arith, λ h. absurd (omega arith))
chunk_patches-flatten (p ∷ ps) (suc m) = rw (chunk_patches-eq p ps m) (
  omega (
    arith,
    length-map chunk_frame (chunks (length (p ∷ ps)) (size_of (p ∷ ps) (suc m)) (p ∷ ps)),
    length-chunks (length (p ∷ ps)) (size_of (p ∷ ps) (suc m)) (suc m) (p ∷ ps)
        (room _ (suc m) _ (le_div_ceil (length (p ∷ ps)) (suc m) (omega arith))),
  ),
  λ h.
      flatten-chunk_frame (chunks (length (p ∷ ps)) (size_of (p ∷ ps) (suc m)) (p ∷ ps))
      ∙ ap (map (λ q. q.0)) (
          chunks-flatten (length (p ∷ ps)) (size_of (p ∷ ps) (suc m)) (p ∷ ps) (omega arith)
            (omega arith)),
)

-- A group made from these patches: it is not empty, no patch of it has a higher priority than the
-- group, and some patch of it has that priority.
abbrev pub IsGroup : List (FramePatch × Priority) → Priority × List FramePatch → Type 0
IsGroup c (q, fs) =
    (fs ≡ map (λ p. p.0) c)
    × (is_empty fs ≡ false)
    × All (λ p. p.1.byte ≤ q.byte) c
    × (attains q c ≡ true)

All-le :
    (c : List (FramePatch × Priority)) {m n : ℕ}
    → All (λ r. r.1.byte ≤ m) c
    → m ≤ n
    → All (λ r. r.1.byte ≤ n) c
All-le [] h k = tt
All-le (r ∷ c) h k = (omega arith, All-le c h.1 k)

max_priority-some :
    (p : FramePatch × Priority) (c : List (FramePatch × Priority))
    → (q : Priority) × (max_priority (p ∷ c) ≡ some q)
      × All (λ r. r.1.byte ≤ q.byte) (p ∷ c)
      × (attains q (p ∷ c) ≡ true)
unfolding max_priority
max_priority-some (f, p) [] = (p, refl, omega arith, ground arith)
max_priority-some (f, p) (x ∷ c) =
    let (q, e, b, a) = max_priority-some x c in
    elim (Bool-cases (ge q p)) [
      | inl up ↦ (q, rw (e, up), (leb→le p.byte q.byte up, b), ground arith)
      | inr down ↦
          let lower : q.byte ≤ p.byte = ground arith in
          (p, rw (e, down), (omega arith, All-le (x ∷ c) b lower), ground arith)
    ]

chunk_frame-eq :
    (c : List (FramePatch × Priority)) (q : Priority)
    → max_priority c ≡ some q
    → chunk_frame c ≡ (q, map (λ p. p.0) c)
unfolding chunk_frame
chunk_frame-eq c q e = rw e

chunk_frame-IsGroup :
    (c : List (FramePatch × Priority)) → is_empty c ≡ false → IsGroup c (chunk_frame c)
chunk_frame-IsGroup [] h = absurd (cc)
chunk_frame-IsGroup (p ∷ c) h =
    let (q, e, b, a) = max_priority-some p c in
    subst (IsGroup (p ∷ c)) (sym (chunk_frame-eq (p ∷ c) q e)) (refl, refl, b, a)

-- Each list of patches beside the group that is made from it.
abbrev pub Groups : List (List (FramePatch × Priority)) → List (Priority × List FramePatch) → Type 0
Groups [] [] = Unit
Groups (c ∷ cs) (g ∷ gs) = IsGroup c g × Groups cs gs
Groups _ _ = ⊥

chunk_frame-Groups :
    (cs : List (List (FramePatch × Priority)))
    → All (λ c. is_empty c ≡ false) cs
    → Groups cs (map chunk_frame cs)
chunk_frame-Groups [] h = tt
chunk_frame-Groups (c ∷ cs) h = (chunk_frame-IsGroup c h.0, chunk_frame-Groups cs h.1)

-- With `max_frames` above zero no patch is lost: the groups hold all patches, each once and in their
-- order, and there are at most `max_frames` groups.
pub chunk_patches-lossless :
    (ps : List (FramePatch × Priority)) (m : ℕ)
    → 0 < m
    → (length (chunk_patches_for_commit ps m) ≤ m)
      × (flatten (map (λ c. c.1) (chunk_patches_for_commit ps m)) ≡ map (λ p. p.0) ps)
chunk_patches-lossless ps m h = let (few, all) = chunk_patches-flatten ps m in (few, all h)

-- With `max_frames` above zero, the patches fall into consecutive parts, and each group of the
-- result is made from one part: it is not empty and its priority is the greatest of its patches.
pub chunk_patches-Groups :
    (ps : List (FramePatch × Priority)) (m : ℕ)
    → 0 < m
    → (cs : List (List (FramePatch × Priority))) × (flatten cs ≡ ps)
      × Groups cs (chunk_patches_for_commit ps m)
chunk_patches-Groups [] m h = ([], unfold flatten in refl, unfold chunk_patches_for_commit in tt)
chunk_patches-Groups (p ∷ ps) zero h = absurd (omega arith)
chunk_patches-Groups (p ∷ ps) (suc m) h = (
  chunks (length (p ∷ ps)) (size_of (p ∷ ps) (suc m)) (p ∷ ps),
  chunks-flatten (length (p ∷ ps)) (size_of (p ∷ ps) (suc m)) (p ∷ ps) (omega arith) (omega arith),
  rw (chunk_patches-eq p ps m) (
      chunk_frame-Groups _
        (chunks-nonempty (length (p ∷ ps)) (size_of (p ∷ ps) (suc m)) (p ∷ ps) (omega arith))),
)

pub Groups-nonempty :
    (cs : List (List (FramePatch × Priority))) (gs : List (Priority × List FramePatch))
    → Groups cs gs
    → All (λ g. is_empty g.1 ≡ false) gs
Groups-nonempty [] [] h = tt
Groups-nonempty [] (g ∷ gs) h = absurd h
Groups-nonempty (c ∷ cs) [] h = absurd h
Groups-nonempty (c ∷ cs) (g ∷ gs) h = (h.0.1, Groups-nonempty cs gs h.1)

pub chunk_patches-nonempty :
    (ps : List (FramePatch × Priority)) (m : ℕ)
    → All (λ g. is_empty g.1 ≡ false) (chunk_patches_for_commit ps m)
chunk_patches-nonempty [] m = unfold chunk_patches_for_commit in tt
chunk_patches-nonempty (p ∷ ps) zero = unfold chunk_patches_for_commit in tt
chunk_patches-nonempty (p ∷ ps) (suc m) =
    let (cs, e, g) = chunk_patches-Groups (p ∷ ps) (suc m) (omega arith) in Groups-nonempty cs _ g

-- ===== src/Streamer/Batches.antt =====
-- The batches of a plan against the sorted patches.
use mathlib.Core.List.{append_assoc}
use pjs.Prelude.{
  ℕ, ◌≤◌, ◌<◌, ◌≡◌, refl, inl, inr, sym, ap, subst, ◌∙◌, List, [], ◌∷◌, ◌++◌, false, arith, leb,
  not, ◌==◌, ◌&&◌, if◌then◌else◌, is_empty, length, length-append, All, All-append, Bool-cases,
}
use pjs.Priority.{Priority}
use pjs.Streamer.{JsonPatch, PriorityStreamFrame, skeleton, patch, complete, batches}

-- The patches of the frames, in order.
abbrev pub patches_of : List PriorityStreamFrame → List JsonPatch
patches_of [] = []
patches_of (patch ps priority ∷ fs) = ps ++ patches_of fs
patches_of (skeleton d priority done ∷ fs) = patches_of fs
patches_of (complete sum ∷ fs) = patches_of fs

-- A patch frame that is not empty nor too long, all of whose patches have its priority.
abbrev pub IsBatch : ℕ → PriorityStreamFrame → Type 0
IsBatch max_size (patch ps priority) =
    (is_empty ps ≡ false) × (length ps ≤ max_size) × All (λ p. p.priority.byte ≡ priority.byte) ps
IsBatch max_size _ = ⊥

-- What the loop holds: the batch is short of full, and has the current priority.
abbrev Pending : ℕ → Priority → List JsonPatch → Type 0
Pending max_size current batch =
    (length batch < max_size) × All (λ p. p.priority.byte ≡ current.byte) batch

patches_of-append :
    (fs gs : List PriorityStreamFrame) → patches_of (fs ++ gs) ≡ patches_of fs ++ patches_of gs
patches_of-append [] gs = refl
patches_of-append (patch ps priority ∷ fs) gs =
    rw (patches_of-append fs gs) (sym (append_assoc ps (patches_of fs) (patches_of gs)))
patches_of-append (skeleton d priority done ∷ fs) gs = patches_of-append fs gs
patches_of-append (complete sum ∷ fs) gs = patches_of-append fs gs

is_empty-snoc : (ps : List JsonPatch) (p : JsonPatch) → is_empty (ps ++ p ∷ []) ≡ false
is_empty-snoc [] p = refl
is_empty-snoc (q ∷ ps) p = refl

-- What is proved of each rest of the plan.
pub record Covers (max_size : ℕ) (ps : List JsonPatch) (fs : List PriorityStreamFrame)
    : Type 0 where
  pub same : patches_of fs ≡ ps
  pub each : All (IsBatch max_size) fs

Covers-cast :
    (max_size : ℕ) {ps qs : List JsonPatch} (fs : List PriorityStreamFrame)
    → ps ≡ qs
    → Covers max_size ps fs
    → Covers max_size qs fs
Covers-cast max_size fs e c = record { same = c.same ∙ e; each = c.each }

-- The batch `b` is sent as a frame, and the rest follows.
Covers-patch :
    (max_size : ℕ) (b : List JsonPatch) (current : Priority) {ps : List JsonPatch}
    {fs : List PriorityStreamFrame}
    → is_empty b ≡ false
    → length b ≤ max_size
    → All (λ p. p.priority.byte ≡ current.byte) b
    → Covers max_size ps fs
    → Covers max_size (b ++ ps) (patch b current ∷ fs)
Covers-patch max_size b current n l a c = record {
  same = ap (◌++◌ b) c.same;
  each = ((n, l, a), c.each);
}

-- The batch `grown` with the newest patch is sent if it is full, and kept otherwise.
Covers-grown :
    (max_size : ℕ) (current : Priority) (grown ps : List JsonPatch)
    → is_empty grown ≡ false
    → length grown ≤ max_size
    → All (λ p. p.priority.byte ≡ current.byte) grown
    → ((b : List JsonPatch)
        → Pending max_size current b
        → Covers max_size (b ++ ps) (batches max_size current b ps))
    → 0 < max_size
    → Covers max_size (grown ++ ps) (
        (if leb max_size (length grown) then patch grown current ∷ [] else [])
        ++ batches max_size current (if leb max_size (length grown) then [] else grown) ps)
Covers-grown max_size current grown ps n l a rest pos =
    elim (Bool-cases (leb max_size (length grown))) [
      | inl full ↦ rw full (Covers-patch max_size grown current n l a (rest [] (pos, tt)))
      | inr short ↦ rw short (rest grown (ground arith, a))
    ]

same_run :
    (p : JsonPatch) (current : Priority) (b : List JsonPatch)
    → (not (p.priority.byte == current.byte) && not (is_empty b)) ≡ false
    → All (λ q. q.priority.byte ≡ current.byte) b
    → All (λ q. q.priority.byte ≡ p.priority.byte) (b ++ p ∷ [])
same_run p current [] t h = (refl, tt)
same_run p current (q ∷ b) t h =
    let same : p.priority.byte ≡ current.byte = ground arith in
    All-append (λ q. q.priority.byte ≡ p.priority.byte) (q ∷ b) (p ∷ [])
      (subst (λ n. All (λ q. q.priority.byte ≡ n) (q ∷ b)) (sym same) h) (refl, tt)

batches-Covers :
    (max_size : ℕ) (current : Priority) (b ps : List JsonPatch)
    → 0 < max_size
    → Pending max_size current b
    → Covers max_size (b ++ ps) (batches max_size current b ps)
unfolding batches
batches-Covers max_size current [] [] pos (l, a) = record { same = refl; each = tt }
batches-Covers max_size current (q ∷ b) [] pos (l, a) =
    Covers-patch max_size (q ∷ b) current refl (omega arith) a (record { same = refl; each = tt })
batches-Covers max_size current b (p ∷ ps) pos (l, a) =
    let rest = λ (b : List JsonPatch) (h : Pending max_size p.priority b).
      batches-Covers max_size p.priority b ps pos h in
    elim (Bool-cases (not (p.priority.byte == current.byte) && not (is_empty b))) [
      | inl turn ↦ rw turn (
          Covers-patch max_size b current (ground arith) (omega arith) a
            (Covers-grown max_size p.priority (p ∷ []) ps refl (omega arith) (refl, tt) rest pos))
      | inr run ↦ rw run (
          Covers-cast max_size _ (append_assoc b (p ∷ []) ps) (
            Covers-grown max_size p.priority (b ++ p ∷ []) ps (is_empty-snoc b p)
              (omega (arith, length-append b (p ∷ []))) (same_run p current b run a) rest pos))
    ]

-- The batches of a plan cut the sorted patches without loss: put together they are these patches in
-- their order; no batch is empty or longer than `max_patch_size`; and all patches of a batch have its
-- priority.
pub batches-lossless :
    (max_size : ℕ) (current : Priority) (ps : List JsonPatch)
    → 0 < max_size
    → (patches_of (batches max_size current [] ps) ≡ ps)
      × All (IsBatch max_size) (batches max_size current [] ps)
batches-lossless max_size current ps pos =
    let c = batches-Covers max_size current [] ps pos (pos, tt) in (c.same, c.each)

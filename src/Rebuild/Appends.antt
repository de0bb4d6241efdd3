-- ===== src/Rebuild/Appends.antt =====
-- The patches of an array append its items to the empty array.
use mathlib.Core.List.{append-nil, flatten}
use pjs.Prelude.{
  ℕ, ◌<◌, ◌≡◌, refl, ap, sym, ◌∙◌, List, [], ◌∷◌, ◌++◌, false, arith, inl, inr, ltb, length, map,
  All, All-image, if◌then◌else◌, Bool-cases, is_empty,
}
use pjs.Prelude.Result.{ok}
use pjs.Prelude.Sort.Runs.{run, Works, Swaps, AllSwaps}
use pjs.Priority.{Priority}
use pjs.Stream.Chunks.{chunks}
use pjs.Stream.Chunks.Laws.{chunks-flatten}
use pjs.JsonPath.{JsonPath}
use pjs.JsonData.{JsonData, array, Items, nil, cons}
use pjs.Streamer.{
  StreamerConfig, JsonPatch, append, patch_at, is_append, skeletonize_arrays, elements,
  array_patches, calculate_array_priority,
}
use pjs.Reconstruct.{at_path, append_values, extend}
use pjs.Rebuild.{step, writer, Shape, Below}
use pjs.Rebuild.Shapes.{Shape-array}
use pjs.Rebuild.Steps.{step_at}

abbrev pub rank : JsonPatch → ℕ
rank p = p.priority.byte

-- What the patches of the value `v` at `base` do: they stay at or below `base`; each works on a document
-- of the shape of `v`; a sort by priority may reorder them; they make `v` of its skeleton; and those that
-- set a value leave the skeleton.
pub record Parts (base : JsonPath) (v : JsonData) (ps : List JsonPatch) : Type 0 where
  pub below : All (Below base) ps
  pub works : All (Works rank (step base) (Shape v)) ps
  pub swaps : AllSwaps rank (step base) (Shape v) ps
  pub fills : run (step base) ps (skeletonize_arrays v) ≡ ok v
  pub stable :
      All
        (λ p.
          is_append p.operation ≡ false
          → step base p (skeletonize_arrays v) ≡ ok (skeletonize_arrays v))
        ps

extend_nil : (a : Items) → extend a [] ≡ a
unfolding extend
extend_nil nil = refl
extend_nil (cons v a) = ap (cons v) (extend_nil a)

extend-extend : (a : Items) (xs ys : List JsonData) → extend (extend a xs) ys ≡ extend a (xs ++ ys)
unfolding extend
extend-extend nil [] ys = refl
extend-extend nil (x ∷ xs) ys = ap (cons x) (extend-extend nil xs ys)
extend-extend (cons v a) xs ys = ap (cons v) (extend-extend a xs ys)

extend-elements : (a : Items) → extend nil (elements a) ≡ a
unfolding extend elements
extend-elements nil = refl
extend-elements (cons v a) = ap (cons v) (extend-elements a)

module _ (base : JsonPath) (priority : Priority) where
  appends : List (List JsonData) → List JsonPatch
  appends cs = map (λ c. patch_at base priority (append c)) cs

  step-append :
      (c : List JsonData) (b : Items)
      → step base (patch_at base priority (append c)) (array b) ≡ ok (array (extend b c))
  unfolding at_path writer append_values
  step-append c b =
      rw
        (step_at base (patch_at base priority (append c)) [] (array b)
          (sym (append-nil base.segments)))
        refl

  run-appends :
      (v : JsonData) (cs : List (List JsonData)) (b : Items)
      → run (step base) (appends cs) (array b) ≡ ok (array (extend b (flatten cs)))
  unfolding appends flatten
  run-appends v [] b = rw (extend_nil b) refl
  run-appends v (c ∷ cs) b =
      rw (step-append c b, run-appends v cs (extend b c), extend-extend b c (flatten cs)) refl

  Works-append :
      (a : Items) (c : List JsonData)
      → Works rank (step base) (Shape (array a)) (patch_at base priority (append c))
  unfolding Shape
  Works-append a c d shape =
      let (b, is) = Shape-array a d shape in (array (extend b c), rw is (step-append c b), tt)

  -- A sort keeps the order of patches of one priority.
  swaps-appends :
      (v : JsonData) (cs : List (List JsonData)) → AllSwaps rank (step base) (Shape v) (appends cs)
  unfolding appends
  swaps-appends v [] = tt
  swaps-appends v (c ∷ cs) =
      let first = patch_at base priority (append c) in
      (
        All-image (Swaps rank (step base) (Shape v) first) (λ e. patch_at base priority (append e))
            (λ e lt. absurd (omega (arith, lt))) cs,
        swaps-appends v cs,
      )

  Parts-appends :
      (a : Items) (cs : List (List JsonData))
      → flatten cs ≡ elements a
      → Parts base (array a) (appends cs)
  unfolding skeletonize_arrays appends
  Parts-appends a cs whole =
      let one : List JsonData → JsonPatch = λ c. patch_at base priority (append c) in
      let skeleton = array nil in
      record {
        below = All-image (Below base) one (λ c. ([], sym (append-nil base.segments))) cs;
        works = All-image (Works rank (step base) (Shape (array a))) one (Works-append a) cs;
        swaps = swaps-appends (array a) cs;
        fills = rw (run-appends (array a) cs nil, whole, extend-elements a) refl;
        stable =
            All-image (λ p. is_append p.operation ≡ false → step base p skeleton ≡ ok skeleton) one
              (λ c e. absurd (cc e)) cs;
      }

  Parts-at_once :
      (a : Items) (xs : List JsonData)
      → xs ≡ elements a
      → Parts base (array a) (if is_empty xs then [] else patch_at base priority (append xs) ∷ [])
  unfolding appends flatten
  Parts-at_once a [] same = Parts-appends a [] same
  Parts-at_once a (x ∷ xs) same = Parts-appends a ((x ∷ xs) ∷ []) (append-nil (x ∷ xs) ∙ same)

pub Parts-array_patches :
    (c : StreamerConfig) (base : JsonPath) (a : Items)
    → 0 < c.max_patch_size
    → Parts base (array a) (array_patches c base (elements a))
unfolding array_patches appends
Parts-array_patches c base a h =
    let xs = elements a in
    let priority = calculate_array_priority base xs in
    elim (Bool-cases (ltb 10 (length xs))) [
      | inl long ↦ rw long (
          Parts-appends base priority a (chunks (length xs) c.max_patch_size xs)
            (chunks-flatten (length xs) c.max_patch_size xs (omega arith) h))
      | inr short ↦ rw short (Parts-at_once base priority a xs refl)
    ]

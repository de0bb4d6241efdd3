-- ===== src/Rebuild/Walk.antt =====
-- The patches that the walk of a document finds make the document.
use pjs.Prelude.{
  ◌≤◌, ◌≡◌, ◌≢◌, refl, sym, ◌∙◌, List, [], ◌∷◌, ◌++◌, true, false, none, arith, inl, inr, All,
  All-append, All-map, All-zip, Bool-cases,
}
use mathlib.Core.List.{append-nil}
use pjs.Prelude.Text.{Text}
use pjs.Prelude.Result.{ok}
use pjs.Prelude.Sort.Runs.{run, run-append, Works, Swaps, AllSwaps, AllSwaps-append}
use pjs.Priority.{Priority}
use pjs.JsonPath.{JsonPath}
use pjs.JsonData.{JsonData, object, Fields, end, field, find}
use pjs.Streamer.{
  JsonPatch, set, patch_at, is_append, skeletonize_arrays, skeletonize_fields, append_ceiling,
  higher_of, encodable,
}
use pjs.Reconstruct.{at_path}
use pjs.Rebuild.{step, writer, Shape, Alike, Below, Among, HasKeys, EachKey}
use pjs.Rebuild.Shapes.{
  Alike-end, Alike-field, Shape-skeletonize_arrays, Alike-skeletonize_fields,
  skeletonize_fields-first,
}
use pjs.Rebuild.Steps.{child, Below-base, step_at, find_first, find_later}
use pjs.Rebuild.Ceiling.{ceiling-appends}
use pjs.Rebuild.Appends.{rank, Parts}
use pjs.Rebuild.Lift.{run-lift, AllSwaps-map}
use pjs.Rebuild.Here.{
  Lifts-here, Lifts-there, Works-here, Works-there, swap_here, swap_there, swap_apart, push, Inner,
  Outer,
}

-- `Parts` for the values of an object, which are made whatever stood in their places.
pub record FieldParts (base : JsonPath) (o : Fields) (ps : List JsonPatch) : Type 0 where
  pub among : All (Among base o) ps
  pub works : All (Works rank (step base) (Shape (object o))) ps
  pub swaps : AllSwaps rank (step base) (Shape (object o)) ps
  pub fills : (e : Fields) → Alike o e → run (step base) ps (object e) ≡ ok (object o)
  pub stable :
      All
        (λ p.
          is_append p.operation ≡ false
          → step base p (object (skeletonize_fields o)) ≡ ok (object (skeletonize_fields o)))
        ps

module _ (base : JsonPath) (v : JsonData) (ps : List JsonPatch) (own : Priority) where
  abbrev pub first : JsonPatch
  first = patch_at base (higher_of own (append_ceiling ps)) (set (skeletonize_arrays v))

  step-first : (d : JsonData) → step base first d ≡ ok (skeletonize_arrays v)
  unfolding at_path writer
  step-first d = rw (step_at base first [] d (sym (append-nil base.segments))) refl

  first_swap :
      (p : JsonPatch)
      → Works rank (step base) (Shape v) p
      → (is_append p.operation ≡ false
          → step base p (skeletonize_arrays v) ≡ ok (skeletonize_arrays v))
      → (is_append p.operation ≡ true → rank p ≤ rank first)
      → Swaps rank (step base) (Shape v) first p
  first_swap p works stable most less d shape = elim (Bool-cases (is_append p.operation)) [
    | inl appends ↦ absurd (omega (arith, most appends, less))
    | inr sets ↦
        let (d', done, after) = works d shape in
        rw (step-first d, done, stable sets, step-first d') refl
  ]

  -- A set in front of the patches of its value.
  pub Parts-first : HasKeys v → Parts base v ps → Parts base v (first ∷ ps)
  Parts-first keys parts = record {
    below = (([], sym (append-nil base.segments)), parts.below);
    works = (
      λ d shape. (skeletonize_arrays v, step-first d, Shape-skeletonize_arrays v keys),
      parts.works,
    );
    swaps = (
      All-zip (λ p swap most. swap most) ps (All-zip first_swap ps parts.works parts.stable)
          (ceiling-appends own ps),
      parts.swaps,
    );
    fills = rw (step-first (skeletonize_arrays v)) parts.fills;
    stable = (λ sets. step-first (skeletonize_arrays v), parts.stable);
  }

  pub run-first : Parts base v ps → (d : JsonData) → run (step base) (first ∷ ps) d ≡ ok v
  run-first parts d = rw (step-first d) parts.fills

Among-here :
    (base : JsonPath) (k : Text) (v : JsonData) (o : Fields) (p : JsonPatch)
    → Below (child base k) p
    → Among base (field k v o) p
Among-here base k v o p (s, at) = (k, s, v, Below-base base k p s at, find_first k v o)

Among-there :
    (base : JsonPath) (k : Text) (v : JsonData) (o : Fields) (p : JsonPatch)
    → find k o ≡ none
    → Among base o p
    → Among base (field k v o) p
Among-there base k v o p fresh (j, s, x, at, found) =
    let apart : k ≢ j = λ same. absurd (cc (fresh, found, same)) in
    (j, s, x, at, find_later k j v o apart ∙ found)

pub FieldParts-end : (base : JsonPath) → FieldParts base end []
unfolding Alike
FieldParts-end base = record {
  among = tt;
  works = tt;
  swaps = tt;
  fills = λ e alike. rw (Alike-end e alike) refl;
  stable = tt;
}

-- An object: the patches of its first value, and those of the others.
module _ (base : JsonPath) (k : Text) (v : JsonData) (o : Fields) (hs ts : List JsonPatch)
    (fits : encodable k ≡ true) (fresh : find k o ≡ none) (keys : HasKeys v) (each : EachKey o)
    (here : Parts (child base k) v hs) (there : FieldParts base o ts) where
  inner : All (Inner base k v o) hs
  inner = All-zip (λ p b w. (b, w)) hs here.below here.works

  outer : All (Outer base k v o) ts
  outer = All-zip (λ p a w. (a, w)) ts there.among there.works

  swaps_both : AllSwaps rank (step base) (Shape (object (field k v o))) (hs ++ ts)
  swaps_both =
      AllSwaps-append rank (step base) (Shape (object (field k v o))) hs ts
        (AllSwaps-map rank (step (child base k)) (Shape v) (step base)
          (Shape (object (field k v o))) (Inner base k v o) (swap_here base k v o) hs inner
          here.swaps)
        (AllSwaps-map rank (step base) (Shape (object o)) (step base) (Shape (object (field k v o)))
          (Outer base k v o) (λ x y. swap_there base k v o x y fresh) ts outer there.swaps)
        (All-map
          (λ x in_x. All-map (λ y in_y less. swap_apart base k v o x y fresh in_x in_y) ts outer) hs
          inner)

  fill_both :
      ((d : JsonData) → run (step (child base k)) hs d ≡ ok v)
      → (e : Fields) → Alike (field k v o) e
      → run (step base) (hs ++ ts) (object e) ≡ ok (object (field k v o))
  unfolding Shape
  fill_both full e alike =
      let (w, e', is, shape, rest) = Alike-field k v o e alike in
      let one =
        run-lift rank (step (child base k)) (Shape v) (step base) (λ w. object (field k w e')) hs w
          v (All-map (Lifts-here base k v o e') hs here.below) here.works shape (full w) in
      let two =
        run-lift rank (step base) (Shape (object o)) (step base) (push k v) ts (object e')
          (object o) (All-map (λ p. Lifts-there base k v o v p fresh) ts there.among) there.works
          rest (there.fills e' rest) in
      rw (is, run-append (step base) hs ts (object (field k w e')), one) two

  stable_both :
      All
        (λ p.
          is_append p.operation ≡ false
          → step base p (object (skeletonize_fields (field k v o)))
            ≡ ok (object (skeletonize_fields (field k v o))))
        (hs ++ ts)
  unfolding Shape
  stable_both =
      let vs = skeletonize_arrays v in
      let os = object (skeletonize_fields o) in
      let inside = Shape-skeletonize_arrays v keys in
      let beside : Shape (object o) os = Alike-skeletonize_fields o each in
      rw (skeletonize_fields-first k v o fits) (
        All-append
          (λ p. is_append p.operation ≡ false → step base p (push k vs os) ≡ ok (push k vs os)) hs
          ts
          (All-zip
            (λ p below same sets.
              Lifts-here base k v o (skeletonize_fields o) p below vs vs inside (same sets))
            hs here.below here.stable)
          (All-zip
            (λ p among same sets. Lifts-there base k v o vs p fresh among os os beside (same sets))
            ts there.among there.stable))

  pub FieldParts-field :
      ((d : JsonData) → run (step (child base k)) hs d ≡ ok v)
      → FieldParts base (field k v o) (hs ++ ts)
  FieldParts-field full = record {
    among =
        All-append (Among base (field k v o)) hs ts (All-map (Among-here base k v o) hs here.below)
          (All-map (λ p. Among-there base k v o p fresh) ts there.among);
    works =
        All-append (Works rank (step base) (Shape (object (field k v o)))) hs ts
          (All-map (Works-here base k v o) hs inner)
          (All-map (Works-there base k v o fresh) ts outer);
    swaps = swaps_both;
    fills = fill_both full;
    stable = stable_both;
  }

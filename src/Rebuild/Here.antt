-- ===== src/Rebuild/Here.antt =====
-- Patches of an object: those of its first value, those of the others, and that the two kinds commute.
use pjs.Prelude.{◌≡◌, ◌≢◌, refl, none}
use pjs.Prelude.Text.{Text}
use pjs.Prelude.Sort.Runs.{Works, Commutes}
use pjs.JsonPath.{JsonPath}
use pjs.JsonData.{JsonData, object, Fields, field, find}
use pjs.Streamer.{JsonPatch}
use pjs.Rebuild.{step, Shape, Below, Among}
use pjs.Rebuild.Shapes.{Shape-object, Alike-field}
use pjs.Rebuild.Steps.{child, step_here, step_there}
use pjs.Rebuild.Appends.{rank}
use pjs.Rebuild.Lift.{Lifts, commute-lift}

-- The object with one more value in front.
abbrev pub push : Text → JsonData → JsonData → JsonData
push k w (object e) = object (field k w e)
push k w d = d

module _ (base : JsonPath) (k : Text) (v : JsonData) (o : Fields) where
  abbrev pub Inner : JsonPatch → Type 0
  Inner p = Below (child base k) p × Works rank (step (child base k)) (Shape v) p

  abbrev pub Outer : JsonPatch → Type 0
  Outer p = Among base o p × Works rank (step base) (Shape (object o)) p

  pub Lifts-here :
      (e : Fields) (p : JsonPatch)
      → Below (child base k) p
      → Lifts rank (step (child base k)) (Shape v) (step base) (λ w. object (field k w e)) p
  Lifts-here e p below w y i done = step_here base k p w y e below done

  pub Lifts-there :
      (w : JsonData) (p : JsonPatch)
      → find k o ≡ none
      → Among base o p
      → Lifts rank (step base) (Shape (object o)) (step base) (push k w) p
  Lifts-there w p fresh (j, s, x, at, found) d d' shape done =
      let (e, is, alike) = Shape-object o d shape in
      let apart : k ≢ j = λ same. absurd (cc (fresh, found, same)) in
      let (e2, is2, whole) = step_there base k j p s w d' e at apart (rw is at done) in
      rw (is, is2) whole

  -- What a document of the shape of the whole object is.
  pub Shape-push :
      (d : JsonData)
      → Shape (object (field k v o)) d
      → (w : JsonData) × (e : Fields) × (d ≡ object (field k w e))
        × Shape v w
        × Shape (object o) (object e)
  unfolding Shape
  Shape-push d shape =
      let (e, is, alike) = Shape-object (field k v o) d shape in
      let (w, e', ise, inner, rest) = Alike-field k v o e alike in
      (w, e', rw ise at is, inner, rest)

  pub Shape-pushed :
      (w d : JsonData) → Shape v w → Shape (object o) d → Shape (object (field k v o)) (push k w d)
  unfolding Shape
  Shape-pushed w d inner rest =
      let (e, is, alike) = Shape-object o d rest in rw is (refl, inner, alike)

  pub Works-here :
      (p : JsonPatch) → Inner p → Works rank (step base) (Shape (object (field k v o))) p
  Works-here p (below, works) d shape =
      let (w, e, is, inner, rest) = Shape-push d shape in
      let (y, done, after) = works w inner in
      (
        object (field k y e),
        rw is (Lifts-here e p below w y inner done),
        Shape-pushed y (object e) after rest,
      )

  pub Works-there :
      find k o ≡ none
      → (p : JsonPatch) → Outer p
      → Works rank (step base) (Shape (object (field k v o))) p
  Works-there fresh p (among, works) d shape =
      let (w, e, is, inner, rest) = Shape-push d shape in
      let (d', done, after) = works (object e) rest in
      (
        push k w d',
        rw is (Lifts-there w p fresh among (object e) d' rest done),
        Shape-pushed w d' inner after,
      )

  pub swap_here :
      (x y : JsonPatch)
      → Inner x
      → Inner y
      → Commutes rank (step (child base k)) (Shape v) x y
      → Commutes rank (step base) (Shape (object (field k v o))) x y
  swap_here x y (bx, wx) (by, wy) same d shape =
      let (w, e, is, inner, rest) = Shape-push d shape in
      rw is (
        commute-lift rank (step (child base k)) (Shape v) (step base) (λ w. object (field k w e)) x
          y w (Lifts-here e x bx) (Lifts-here e y by) wx wy inner (same w inner))

  pub swap_there :
      (x y : JsonPatch)
      → find k o ≡ none
      → Outer x
      → Outer y
      → Commutes rank (step base) (Shape (object o)) x y
      → Commutes rank (step base) (Shape (object (field k v o))) x y
  swap_there x y fresh (ax, wx) (ay, wy) same d shape =
      let (w, e, is, inner, rest) = Shape-push d shape in
      rw is (
        commute-lift rank (step base) (Shape (object o)) (step base) (push k w) x y (object e)
          (Lifts-there w x fresh ax) (Lifts-there w y fresh ay) wx wy rest (same (object e) rest))

  pub swap_apart :
      (x y : JsonPatch)
      → find k o ≡ none
      → Inner x
      → Outer y
      → Commutes rank (step base) (Shape (object (field k v o))) x y
  swap_apart x y fresh (bx, wx) (ay, wy) d shape =
      let (w, e, is, inner, rest) = Shape-push d shape in
      let (w', ex, ix) = wx w inner in
      let (d', ey, iy) = wy (object e) rest in
      let (e', is', alike) = Shape-object o d' iy in
      rw
        (
          is,
          Lifts-here e x bx w w' inner ex,
          Lifts-there w y fresh ay (object e) d' rest ey,
          Lifts-there w' y fresh ay (object e) d' rest ey,
          is',
          Lifts-here e' x bx w w' inner ex,
        )
        refl

-- ===== src/Rebuild.antt =====
-- The priority streamer (crates/pjs-core/src/stream/priority.rs) and the client's reconstruction engine
-- (crates/pjs-core/src/stream/reconstruction.rs) together: which documents arrive whole, and what a
-- patch does below a base path.
mod Steps
mod Lift
mod Appends
mod Ceiling
mod Here
mod Walk
mod Extract
mod Writes
mod Shapes
mod Frames
pub mod Delivery
mod Tests
use pjs.Prelude.{ℕ, ◌≡◌, List, [], ◌∷◌, ◌++◌, Option, none, some, true, drop}
use pjs.Prelude.Text.{Text}
use pjs.Prelude.Result.{ok, err}
use pjs.JsonPath.{JsonPath, PathSegment, key, depth}
use pjs.JsonData.{
  JsonData, null, bool, integer, float, string, array, object, Items, nil, cons, Fields, end, field,
  find,
}
use pjs.Streamer.{
  encodable, PatchOperation, set, append, replace, remove, JsonPatch, PriorityStreamFrame,
}
use pjs.Reconstruct.{Outcome, other, at_path, append_values, JsonReconstructor, add_frame}

-- In each object that is not inside an array a path can hold every key, and no key comes twice.
unfoldable mutual
  pub HasKeys : JsonData → Type 0
  HasKeys (object o) = EachKey o
  HasKeys _ = Unit

  pub EachKey : Fields → Type 0
  EachKey end = Unit
  EachKey (field k v rest) = (encodable k ≡ true) × (find k rest ≡ none) × HasKeys v × EachKey rest

-- The documents that have something to send: the root is an object, an array or null.
abbrev pub IsStreamable : JsonData → Type 0
IsStreamable (object o) = EachKey o
IsStreamable (array a) = Unit
IsStreamable null = Unit
IsStreamable _ = ⊥

-- The frames that arrive, one after the other.
unfoldable pub add_frames : JsonReconstructor → List PriorityStreamFrame → ℕ → JsonReconstructor
add_frames r [] now = r
add_frames r (f ∷ fs) now = add_frames (add_frame r f now) fs now

-- What a patch writes at its place.
unfoldable pub writer : PatchOperation → JsonData → Outcome
unfolding append_values
writer (set v) d = ok v
writer (append vs) d = append_values vs d
writer (replace v) d = ok v
writer remove d = err other

-- A patch applied to the value that stands at `base`.
unfoldable pub step : JsonPath → JsonPatch → JsonData → Outcome
unfolding at_path writer
step base p d = at_path (drop (depth base) p.path.segments) (writer p.operation) d

-- The document `d` has the objects of `v`, with the same keys in the same order, and the arrays of `v`,
-- of any items.
unfoldable mutual
  pub Shape : JsonData → JsonData → Type 0
  Shape (object o) (object e) = Alike o e
  Shape (object o) _ = ⊥
  Shape (array a) (array b) = Unit
  Shape (array a) _ = ⊥
  Shape _ _ = Unit

  pub Alike : Fields → Fields → Type 0
  Alike end end = Unit
  Alike (field k v o) (field j w e) = (j ≡ k) × Shape v w × Alike o e
  Alike _ _ = ⊥

abbrev pub Below : JsonPath → JsonPatch → Type 0
Below base p = (s : List PathSegment) × (p.path.segments ≡ base.segments ++ s)

-- The patch is for a value of the object `o` that stands at `base`, or for a part of such a value.
abbrev pub Among : JsonPath → Fields → JsonPatch → Type 0
Among base o p =
    (k : Text) × (s : List PathSegment) × (v : JsonData) × (p.path.segments
      ≡ base.segments ++ key k ∷ s)
    × (find k o ≡ some v)

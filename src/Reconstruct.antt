-- ===== src/Reconstruct.antt =====
-- crates/pjs-core/src/stream/reconstruction.rs: the client's engine, which applies skeletons and
-- patches to a document. A write through a mutable reference is a function on the value that the
-- reference points at; the text of an error is left out. A call reads the clock at one value, `now`.
pub mod Laws
pub mod Spots
pub mod Patches
pub mod Queue
mod Tests
use pjs.Prelude.{
  ℕ, zero, suc, ◌+◌, ◌-◌, List, [], ◌∷◌, ◌++◌, Bool, true, false, Option, none, some, ltb, take,
  if◌then◌else◌, is_empty, length, list_beq, ◌%◌, ◌^◌,
}
use pjs.Prelude.Text.{Text}
use pjs.Prelude.Result.{Result, ok, err, ◌>>=◌}
use pjs.Words.{parse_usize}
use pjs.Priority.{Priority}
use pjs.JsonPath.{JsonPath, PathSegment, key, index, last_key}
use pjs.JsonData.{
  JsonData, null, array, object, Items, nil, cons, Fields, end, field, find, insert, count_items,
}
use pjs.Streamer.{
  JsonPatch, PatchOperation, set, append, replace, remove, PriorityStreamFrame, skeleton, patch,
  complete,
}

-- `Error::Other`, the only error of this part.
pub data Error : Type 0 where
  other : Error

abbrev pub Outcome : Type 0
Outcome = Result Error JsonData

-- `u32` counters, which wrap.
abbrev pub add_u32 : ℕ → ℕ → ℕ
add_u32 a b = (a + b) % 2 ^ 32

pub record ReconstructionStats : Type 0 where
  pub frames_processed : ℕ
  pub patches_applied : ℕ
  pub skeleton_frames : ℕ
  pub patch_frames : ℕ
  pub start_time : Option ℕ
  pub end_time : Option ℕ

pub record JsonReconstructor : Type 0 where
  pub current_state : JsonData
  pub frame_queue : List PriorityStreamFrame
  pub is_complete : Bool
  pub stats : ReconstructionStats

pub data ProcessResult : Type 0 where
  no_frames skeleton_applied reconstruction_complete : ProcessResult
  patches_applied : (count : ℕ) (priority : Priority) (paths : List JsonPath) → ProcessResult

abbrev pub no_stats : ReconstructionStats
no_stats = record {
  frames_processed = 0;
  patches_applied = 0;
  skeleton_frames = 0;
  patch_frames = 0;
  start_time = none;
  end_time = none;
}

abbrev pub new : JsonReconstructor
new = record { current_state = null; frame_queue = []; is_complete = false; stats = no_stats }

abbrev pub reset : JsonReconstructor → JsonReconstructor
reset r = new

abbrev first_time : Option ℕ → ℕ → ℕ
first_time none now = now
first_time (some t) now = t

unfoldable pub add_frame : JsonReconstructor → PriorityStreamFrame → ℕ → JsonReconstructor
add_frame r frame now = record r {
  frame_queue = r.frame_queue ++ frame ∷ [];
  stats = record r.stats { start_time = some (first_time r.stats.start_time now) };
}

-- The items of an array: read, write, removal and extension.
unfoldable pub item : Items → ℕ → Option JsonData
item nil i = none
item (cons v rest) zero = some v
item (cons v rest) (suc i) = item rest i

unfoldable pub set_item : Items → ℕ → JsonData → Items
set_item nil i v = nil
set_item (cons w rest) zero v = cons v rest
set_item (cons w rest) (suc i) v = cons w (set_item rest i v)

unfoldable pub remove_item : Items → ℕ → Items
remove_item nil i = nil
remove_item (cons w rest) zero = rest
remove_item (cons w rest) (suc i) = cons w (remove_item rest i)

unfoldable pub extend : Items → List JsonData → Items
extend nil [] = nil
extend nil (v ∷ vs) = cons v (extend nil vs)
extend (cons w rest) vs = cons w (extend rest vs)

-- `Map::remove`.
unfoldable pub remove_key : Text → Fields → Fields
remove_key k end = end
remove_key k (field j w rest) = if list_beq j k then rest else field j w (remove_key k rest)

-- The walk of `get_mut_at_path`, and the write `f` at its end.
unfoldable pub at_path : List PathSegment → (JsonData → Outcome) → JsonData → Outcome
at_path [] f d = f d
at_path (key k ∷ s) f (object o) = elim (find k o) [
  | none ↦ err other
  | some v ↦ do w ← at_path s f v; ok (object (insert k w o))
]
at_path (index i ∷ s) f (array a) = elim (item a i) [
  | none ↦ err other
  | some v ↦ do w ← at_path s f v; ok (array (set_item a i w))
]
at_path (g ∷ s) f d = err other

-- The segments of the parent.
abbrev pub parent_segments : List PathSegment → List PathSegment
parent_segments s = take (length s - 1) s

abbrev pub set_element : Option ℕ → JsonData → Items → Outcome
set_element none v a = err other
set_element (some i) v a = if ltb i (count_items a) then ok (array (set_item a i v)) else err other

unfoldable pub set_child : Text → JsonData → JsonData → Outcome
set_child k v (object o) = ok (object (insert k v o))
set_child k v (array a) = set_element (parse_usize k) v a
set_child k v d = err other

abbrev pub remove_element : Option ℕ → Items → Outcome
remove_element none a = ok (array a)
remove_element (some i) a =
    if ltb i (count_items a) then ok (array (remove_item a i)) else ok (array a)

unfoldable pub remove_child : Text → JsonData → Outcome
unfolding remove_key
remove_child k (object o) = ok (object (remove_key k o))
remove_child k (array a) = remove_element (parse_usize k) a
remove_child k d = err other

unfoldable pub append_values : List JsonData → JsonData → Outcome
append_values vs (array a) = ok (array (extend a vs))
append_values vs d = err other

unfoldable pub set_at_path : JsonPath → JsonData → JsonData → Outcome
set_at_path p v d = if is_empty p.segments then ok v else elim (last_key p) [
  | none ↦ err other
  | some k ↦ at_path (parent_segments p.segments) (set_child k v) d
]

unfoldable pub append_at_path : JsonPath → List JsonData → JsonData → Outcome
append_at_path p vs d = at_path p.segments (append_values vs) d

unfoldable pub remove_at_path : JsonPath → JsonData → Outcome
remove_at_path p d = elim (last_key p) [
  | none ↦ err other
  | some k ↦ at_path (parent_segments p.segments) (remove_child k) d
]

unfoldable pub apply_operation : JsonPath → PatchOperation → JsonData → Outcome
apply_operation p (set v) d = set_at_path p v d
apply_operation p (append vs) d = append_at_path p vs d
apply_operation p (replace v) d = set_at_path p v d
apply_operation p remove d = remove_at_path p d

abbrev pub apply_patch : JsonPatch → JsonData → Outcome
apply_patch p d = apply_operation p.path p.operation d

-- The loop over the patches of a frame: the document and the number applied when it ends, and the
-- paths or the error at which it stopped.
unfoldable pub apply_patches :
    List JsonPatch → JsonData → ℕ → JsonData × ℕ × Result Error (List JsonPath)
apply_patches [] d applied = (d, applied, ok [])
apply_patches (p ∷ ps) d applied = elim (apply_patch p d) [
  | err e ↦ (d, applied, err e)
  | ok d' ↦
      let (final, count, rest) = apply_patches ps d' (add_u32 applied 1) in
      (final, count, rest >>= λ paths. ok (p.path ∷ paths))
]

abbrev pub counted : JsonReconstructor → JsonReconstructor
counted r = record r {
  stats = record r.stats { frames_processed = add_u32 r.stats.frames_processed 1 };
}

abbrev pub patched :
    JsonReconstructor
    → Priority
    → JsonData × ℕ × Result Error (List JsonPath)
    → JsonReconstructor × Result Error ProcessResult
patched r priority (d, applied, paths) = (
  record r { current_state = d; stats = record r.stats { patches_applied = applied } },
  paths >>= λ ps. ok (patches_applied (length ps) priority ps),
)

unfoldable pub process_frame :
    JsonReconstructor → PriorityStreamFrame → ℕ → JsonReconstructor × Result Error ProcessResult
process_frame r (skeleton d priority done) now =
    let n = add_u32 r.stats.skeleton_frames 1 in
    let c = counted r in
    (
      record c { current_state = d; stats = record c.stats { skeleton_frames = n } },
      ok skeleton_applied,
    )
process_frame r (patch ps priority) now =
    let n = add_u32 r.stats.patch_frames 1 in
    let c = counted r in
    patched (record c { stats = record c.stats { patch_frames = n } }) priority
      (apply_patches ps r.current_state r.stats.patches_applied)
process_frame r (complete sum) now =
    let c = counted r in
    (
      record c { is_complete = true; stats = record c.stats { end_time = some now } },
      ok reconstruction_complete,
    )

abbrev pub process_first :
    JsonReconstructor
    → List PriorityStreamFrame
    → ℕ
    → JsonReconstructor × Result Error ProcessResult
process_first r [] now = (r, ok no_frames)
process_first r (f ∷ fs) now = process_frame (record r { frame_queue = fs }) f now

unfoldable pub process_next_frame :
    JsonReconstructor → ℕ → JsonReconstructor × Result Error ProcessResult
process_next_frame r now = process_first r r.frame_queue now

-- The queue is emptied from the front until it is empty or a frame fails; what stands behind a failing
-- frame stays queued.
unfoldable pub process_queue :
    JsonReconstructor
    → List PriorityStreamFrame
    → ℕ
    → JsonReconstructor × Result Error (List ProcessResult)
process_queue r [] now = (record r { frame_queue = [] }, ok [])
process_queue r (f ∷ fs) now =
    let (r', result) = process_frame (record r { frame_queue = fs }) f now in
    let (final, rest) = process_queue r' fs now in
    elim result [ err e ↦ (r', err e) | ok x ↦ (final, rest >>= λ xs. ok (x ∷ xs)) ]

unfoldable pub process_all_frames :
    JsonReconstructor → ℕ → JsonReconstructor × Result Error (List ProcessResult)
unfolding process_queue
process_all_frames r now = process_queue r r.frame_queue now

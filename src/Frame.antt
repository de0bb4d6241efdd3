-- ===== src/Frame.antt =====
-- crates/pjs-domain/src/entities/frame.rs: frames, their constructors, their size and validation.
-- Each constructor reads the clock once, and is given the reading.
pub mod Validity
use pjs.Prelude.{
  ℕ, suc, ◌+◌, List, [], ◌∷◌, Bool, true, false, Option, none, some, is_empty, map, not,
  if◌then◌else◌, text_eq,
}
use pjs.Prelude.Map
use pjs.Prelude.Text.{Text, codes, len}
use pjs.Outcome.{DomainResult, ok, err, ◌>>=◌, ◌>>◌, guard, invalid_frame}
use pjs.F64.{Float}
use pjs.Priority.{Priority, critical}
use pjs.Priority
use pjs.JsonPath.{JsonPath}
use pjs.JsonPath
use pjs.JsonData.{
  JsonData, null, string, array, object, Items, nil, cons, Fields, end, field, insert, get, display,
  is_object, is_array, is_string,
}

pub data FrameType : Type 0 where
  skeleton patch complete error : FrameType

pub data PatchOperation : Type 0 where
  set append merge delete : PatchOperation

pub record FramePatch : Type 0 where
  pub path : JsonPath
  pub operation : PatchOperation
  pub value : JsonData

pub record Frame : Type 0 where
  pub stream_id : ℕ
  pub frame_type : FrameType
  pub priority : Priority
  pub sequence : ℕ
  pub timestamp : ℕ
  pub payload : JsonData
  pub metadata : List (Text × Text)

abbrev pub set_patch : JsonPath → JsonData → FramePatch
set_patch p v = record { path = p; operation = set; value = v }

abbrev pub append_patch : JsonPath → JsonData → FramePatch
append_patch p v = record { path = p; operation = append; value = v }

abbrev pub merge_patch : JsonPath → JsonData → FramePatch
merge_patch p v = record { path = p; operation = merge; value = v }

abbrev pub delete_patch : JsonPath → FramePatch
delete_patch p = record { path = p; operation = delete; value = null }

abbrev pub operation_text : PatchOperation → Text
operation_text set = codes "set"
operation_text append = codes "append"
operation_text merge = codes "merge"
operation_text delete = codes "delete"

unfoldable pub patch_object : FramePatch → JsonData
patch_object p = object (
    insert (codes "value") p.value (
      insert (codes "operation") (string (operation_text p.operation))
        (insert (codes "path") (string (JsonPath.display p.path)) end)))

unfoldable pub patch_items : List FramePatch → Items
unfolding patch_object
patch_items [] = nil
patch_items (p ∷ ps) = cons (patch_object p) (patch_items ps)

abbrev pub frame_of : ℕ → FrameType → Priority → ℕ → ℕ → JsonData → Frame
frame_of id kind priority sequence now payload = record {
  stream_id = id;
  frame_type = kind;
  priority = priority;
  sequence = sequence;
  timestamp = now;
  payload = payload;
  metadata = [];
}

-- `Frame::skeleton`, `Frame::patch`, `Frame::complete` and `Frame::error`.
unfoldable pub new_skeleton : ℕ → ℕ → JsonData → ℕ → Frame
new_skeleton id sequence payload now = frame_of id skeleton critical sequence now payload

unfoldable pub new_patch : ℕ → ℕ → Priority → List FramePatch → ℕ → DomainResult Frame
new_patch id sequence priority patches now =
    guard (not (is_empty patches)) invalid_frame
    >> ok (
        frame_of id patch priority sequence now
          (object (insert (codes "patches") (array (patch_items patches)) end)))

abbrev pub checksum_payload : Option Text → JsonData
checksum_payload (some checksum) = object (insert (codes "checksum") (string checksum) end)
checksum_payload none = object end

unfoldable pub new_complete : ℕ → ℕ → Option Text → ℕ → Frame
new_complete id sequence checksum now =
    frame_of id complete critical sequence now (checksum_payload checksum)

abbrev pub error_payload : Text → Option Text → JsonData
error_payload message (some code) =
    object (insert (codes "code") (string code) (insert (codes "message") (string message) end))
error_payload message none = object (insert (codes "message") (string message) end)

unfoldable pub new_error : ℕ → ℕ → Text → Option Text → ℕ → Frame
new_error id sequence message code now =
    frame_of id error critical sequence now (error_payload message code)

unfoldable pub with_metadata : Frame → Text → Text → Frame
with_metadata f k v = record f { metadata = Map.insert k v f.metadata }

abbrev pub is_critical : Frame → Bool
is_critical f = Priority.is_critical f.priority

abbrev pub is_high_priority : Frame → Bool
is_high_priority f = Priority.is_high_or_above f.priority

unfoldable pub metadata_size : List (Text × Text) → ℕ
metadata_size [] = 0
metadata_size ((k, v) ∷ m) = len k + len v + 4 + metadata_size m

unfoldable pub estimated_size : Float → Frame → ℕ
unfolding metadata_size
estimated_size h f = len (display h f.payload) + metadata_size f.metadata + 200

abbrev pub is_some_and : Option JsonData → (JsonData → Bool) → Bool
is_some_and none t = false
is_some_and (some v) t = t v

unfoldable pub validate_as : FrameType → Frame → DomainResult (Unit {0})
validate_as skeleton f = guard (is_critical f) invalid_frame
validate_as patch f =
    guard (is_object f.payload) invalid_frame
    >> guard (is_some_and (get (codes "patches") f.payload) is_array) invalid_frame
validate_as complete f = guard (is_critical f) invalid_frame
validate_as error f =
    guard (is_critical f) invalid_frame
    >> guard (is_some_and (get (codes "message") f.payload) is_string) invalid_frame

unfoldable pub validate : Frame → DomainResult (Unit {0})
unfolding validate_as
validate f = validate_as f.frame_type f

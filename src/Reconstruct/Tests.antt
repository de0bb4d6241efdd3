-- ===== src/Reconstruct/Tests.antt =====
-- Patches and frames on concrete documents.
use pjs.Prelude.{◌≡◌, ◌↔◌, true, refl, arith, inl, [], ◌∷◌, false, none, some}
use pjs.Prelude.Text.{codes}
use pjs.Prelude.Int.{pos}
use pjs.Prelude.Result.{err, is_ok}
use pjs.Priority.{critical}
use pjs.JsonPath.{JsonPath, key, index, last_key}
use pjs.JsonData.{JsonData, null, integer, array, object, nil, cons, end, field, insert, find}
use pjs.Words.{parse_usize}
use pjs.Streamer.{JsonPatch, set, remove, skeleton, patch, complete}
use pjs.Reconstruct.{
  JsonReconstructor, new, other, set_at_path, process_all_frames, at_path, set_child,
  apply_operation, remove_at_path, remove_child,
}
use pjs.Reconstruct.Laws.{read}
use pjs.Reconstruct.Patches.{
  IsSetIn, set_at_path-IsSetIn, apply_patch-beside, IsSettable, set_at_path_iff,
}
use pjs.Reconstruct.Queue.{IsAccounted, process_all_frames-IsAccounted}

abbrev a_b : JsonPath
a_b = record { segments = key (codes "a") ∷ key (codes "b") ∷ [] }

abbrev before : JsonData
before = object (field (codes "a") (object end) (field (codes "cc") null end))

abbrev after : JsonData
after = object (
    field (codes "a") (object (field (codes "b") (integer (pos 1)) end))
      (field (codes "cc") null end))

abbrev patch_a_b : JsonPatch
patch_a_b = record { path = a_b; operation = set (integer (pos 1)); priority = critical }

set_at_path-IsSetIn_example :
    (x : JsonData) × (y : JsonData) × (read (key (codes "a") ∷ []) before ≡ some x)
    × IsSetIn (codes "b") (integer (pos 1)) x y
    × (read (key (codes "a") ∷ []) after ≡ some y)
unfolding set_at_path last_key at_path find set_child insert read
set_at_path-IsSetIn_example =
    set_at_path-IsSetIn a_b (codes "b") (integer (pos 1)) before after refl refl refl

abbrev remove_a : JsonPatch
remove_a = record {
  path = record { segments = key (codes "a") ∷ [] };
  operation = remove;
  priority = critical;
}

abbrev without_a : JsonData
without_a = object (field (codes "cc") null end)

-- A remove just below the root leaves the sibling.
apply_patch-beside_example :
    read (key (codes "cc") ∷ []) without_a ≡ read (key (codes "cc") ∷ []) before
unfolding apply_operation remove_at_path last_key at_path remove_child read
apply_patch-beside_example =
    apply_patch-beside remove_a (key (codes "cc") ∷ []) before without_a refl (inl (λ e. cc e)) refl

abbrev xs_0 : JsonPath
xs_0 = record { segments = key (codes "xs") ∷ index 0 ∷ [] }

abbrev one_item : JsonData
one_item = object (field (codes "xs") (array (cons null nil)) end)

-- The item is there, but the last key is the name of the array.
index_refused : set_at_path xs_0 (integer (pos 1)) one_item ≡ err other
unfolding set_at_path last_key at_path find set_child parse_usize
index_refused = refl

set_at_path_iff_example :
    (is_ok (set_at_path a_b (integer (pos 1)) before) ≡ true) ↔ IsSettable a_b before
set_at_path_iff_example = set_at_path_iff a_b (integer (pos 1)) before

abbrev queued : JsonReconstructor
queued = record new {
  frame_queue =
      skeleton before critical false ∷ patch (patch_a_b ∷ []) critical ∷ complete none ∷ [];
}

process_all_frames-IsAccounted_example :
    IsAccounted queued queued.frame_queue (process_all_frames queued 5)
process_all_frames-IsAccounted_example = process_all_frames-IsAccounted queued 5 (omega arith)

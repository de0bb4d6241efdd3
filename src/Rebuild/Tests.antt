-- ===== src/Rebuild/Tests.antt =====
-- A document whose patches are sent in another order than they are found.
use pjs.Prelude.{◌≡◌, refl, arith, List, some}
use pjs.Prelude.Int.{pos}
use pjs.Prelude.Text.{codes}
use pjs.JsonPath.{append_key, validate_key, contains}
use pjs.JsonData.{JsonData, null, integer, string, array, object, cons, nil, field, end, find}
use pjs.Streamer.{PriorityStreamFrame, default_config, analyze}
use pjs.Reconstruct.{new, process_all_frames}
use pjs.Rebuild.{HasKeys, IsStreamable, add_frames}
use pjs.Rebuild.Frames.{HasReceived}
use pjs.Rebuild.Delivery.{analyze-HasReceived}

-- The identifier inside is sent before the value that holds it, and both before the reviews.
abbrev shop : JsonData
shop = object (
    field (codes "reviews") (array (cons null (cons (integer (pos 2)) nil))) (
      field (codes "item")
        (object (
          field (codes "tags") (array (cons (string (codes "new")) nil))
            (field (codes "id") (integer (pos 7)) end)))
        end))

shop-IsStreamable : IsStreamable shop
unfolding HasKeys append_key validate_key contains find
shop-IsStreamable = (refl, refl, tt, (refl, refl, (refl, refl, tt, (refl, refl, tt, tt)), tt))

analyze-HasReceived_example :
    (frames : List PriorityStreamFrame) × (analyze default_config shop ≡ some frames)
    × HasReceived shop (process_all_frames (add_frames new frames 5) 5)
analyze-HasReceived_example =
    analyze-HasReceived default_config shop new 5 (omega arith) shop-IsStreamable refl

-- ===== src/Frame/Validity.antt =====
-- The frame constructors against `validate`.
use pjs.Prelude.{ℕ, ◌≡◌, ◌⊎◌, refl, inl, inr, List, [], ◌∷◌, Option, none, some, arith, length}
use pjs.Prelude.Text.{Text, codes}
use pjs.Outcome.{ok, err, invalid_frame}
use pjs.Priority.{Priority}
use pjs.Priority
use pjs.JsonData.{JsonData, array, insert, find, get, count_items}
use pjs.Frame.{
  Frame, FramePatch, new_skeleton, new_patch, new_complete, new_error, validate, patch_items,
}

count-patch_items : (ps : List FramePatch) → count_items (patch_items ps) ≡ length ps
unfolding patch_items count_items
count-patch_items [] = refl
count-patch_items (p ∷ ps) = ground (arith, count-patch_items ps)

new_error-validate :
    (id sequence now : ℕ) (message : Text) (code : Option Text)
    → validate (new_error id sequence message code now) ≡ ok tt
unfolding new_error validate Priority.is_critical get insert find
new_error-validate id sequence now message none = refl
new_error-validate id sequence now message (some code) = refl

-- The four constructors. `Frame::patch` refuses an empty list of patches and nothing else; its
-- payload carries one entry for each patch.
pub constructors-validate :
    (id sequence now : ℕ) (payload : JsonData) (p : Priority) (ps : List FramePatch)
    (checksum code : Option Text) (message : Text)
    → (validate (new_skeleton id sequence payload now) ≡ ok tt)
      × (validate (new_complete id sequence checksum now) ≡ ok tt)
      × (validate (new_error id sequence message code now) ≡ ok tt)
      × ((ps ≡ []) × (new_patch id sequence p ps now ≡ err invalid_frame)
          ⊎ ((f : Frame) × (new_patch id sequence p ps now ≡ ok f)
              × (validate f ≡ ok tt)
              × (get (codes "patches") f.payload ≡ some (array (patch_items ps)))
              × (count_items (patch_items ps) ≡ length ps)))
unfolding new_skeleton new_complete new_error new_patch validate Priority.is_critical get insert
    find
constructors-validate id sequence now payload p [] checksum code message =
    (refl, refl, new_error-validate id sequence now message code, inl (refl, refl))
constructors-validate id sequence now payload p (x ∷ ps) checksum code message = (
  refl,
  refl,
  new_error-validate id sequence now message code,
  inr (_, refl, refl, refl, count-patch_items (x ∷ ps)),
)

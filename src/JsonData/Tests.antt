-- ===== src/JsonData/Tests.antt =====
-- Runs of the accessors and of the visitor.
use pjs.Prelude.{◌≡◌, ◌↔◌, ◌≤◌, ◌⊎◌, refl, inl, inr, true, false, some, is_some, list_beq_iff}
use pjs.Prelude.Text.{codes}
use pjs.Prelude.Int.{pos}
use pjs.F64.Tests.{test_float}
use pjs.JsonData.{
  JsonData, null, integer, array, object, nil, cons, end, field, path, set_path, split,
}
use pjs.JsonData.Paths.{Diverges, path-set_path}
use pjs.JsonData.Deserialize.{
  Input, unit, u64, seq, mapping, done, next, stop, entry, deserialize, max_deserialize_depth,
}
use pjs.JsonData.Deserialize.Depth.{input_nesting, all_finite, deserialize-accepts}

abbrev sample : JsonData
sample = object (field (codes "a") (object (field (codes "c") null end)) end)

a_b-Diverges : Diverges (split (codes "a.b")) (split (codes "a.c"))
unfolding split
a_b-Diverges = inr (refl, inl (λ e. cc ((list_beq_iff (codes "b") (codes "c")).1 e)))

path-set_path_example :
    (((set_path (codes "a.b") null sample).1 ≡ true)
        × (path (codes "a.b") (set_path (codes "a.b") null sample).0 ≡ some null)
      ⊎ ((set_path (codes "a.b") null sample).1 ≡ false)
        × ((set_path (codes "a.b") null sample).0 ≡ sample))
    × (path (codes "a.c") (set_path (codes "a.b") null sample).0 ≡ path (codes "a.c") sample)
path-set_path_example = path-set_path (codes "a.b") (codes "a.c") null sample a_b-Diverges

abbrev input : Input
input = mapping (entry (codes "k") (seq (next (u64 5) (next unit done))) stop)

deserialize-accepts_example :
    (is_some (deserialize test_float input) ≡ true)
    ↔ ((input_nesting input ≤ max_deserialize_depth) × (all_finite input ≡ true))
deserialize-accepts_example = deserialize-accepts test_float input

abbrev value : JsonData
value = object (field (codes "k") (array (cons (integer (pos 5)) (cons null nil))) end)

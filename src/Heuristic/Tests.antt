-- ===== src/Heuristic/Tests.antt =====
-- Runs of the heuristic at concrete paths.
use pjs.Prelude.{ℕ, [], ◌∷◌}
use pjs.Prelude.Text.{Text, codes}
use pjs.Priority.{Priority, critical}
use pjs.JsonPath.{JsonPath, key, index}
use pjs.JsonData.{null, Items, nil, cons}
use pjs.Heuristic.{PriorityHeuristicConfig, default_config}

abbrev at_key : Text → JsonPath
at_key k = record { segments = key k ∷ [] }

abbrev with_override : PriorityHeuristicConfig
with_override = record default_config { overrides = (codes "hot", critical) ∷ [] }

abbrev nulls : ℕ → Items
nulls ℕ.zero = nil
nulls (ℕ.suc n) = cons null (nulls n)

-- `$[0][0][0][0][0][0]`
abbrev deep : JsonPath
deep = record { segments = index 0 ∷ index 0 ∷ index 0 ∷ index 0 ∷ index 0 ∷ index 0 ∷ [] }

-- ===== src/JsonPath/Parse.antt =====
-- The parser `from_str`: its end, and the paths that it accepts.
use pjs.Prelude.{
  ℕ, zero, suc, ◌≤◌, ◌<◌, ◌≡◌, ◌≢◌, refl, inl, inr, List, [], ◌∷◌, ◌++◌, some, none, arith, length,
}
use pjs.Prelude.Text.{Text}
use pjs.Outcome.{DomainResult, ok, err, DomainResult-cases}
use pjs.JsonPath.{JsonPath, PathSegment, parse_segment, parse_loop, from_str}
use pjs.JsonPath.Keys.{length-take_key, length-take_index}

parse_segment-length :
    (c : ℕ) (s : Text) (g : PathSegment) (rest : Text)
    → parse_segment c s ≡ ok (g, rest)
    → length rest ≤ length s
unfolding parse_segment
parse_segment-length c s g rest h = ground (arith, length-take_key s, length-take_index s)

parse_loop-total :
    (f : ℕ) (s : Text) (acc : List PathSegment)
    → length s < f
    → (r : DomainResult JsonPath) × (parse_loop f s acc ≡ some r)
unfolding parse_loop
parse_loop-total zero s acc h = absurd (omega arith)
parse_loop-total (suc f) [] acc h = (_, refl)
parse_loop-total (suc f) (c ∷ s) acc h = elim (DomainResult-cases (parse_segment c s)) [
  | inl ((g, rest), e) ↦
      rw (e, parse_loop)
        (parse_loop-total f rest (acc ++ g ∷ []) (omega (arith, parse_segment-length c s g rest e)))
  | inr (x, e) ↦ (err x, rw (e, parse_loop))
]

-- The parser ends on every text, with a path or an error: its fuel never runs out.
pub from_str-total : (s : Text) → from_str s ≢ none
unfolding from_str
from_str-total [] = λ e. cc
from_str-total (c ∷ s) = total (parse_loop-total (suc (length s)) s [] (omega arith))
  where
    total :
        (x : DomainResult JsonPath) × (parse_loop (suc (length s)) s [] ≡ some x)
        → from_str (c ∷ s) ≢ none
    total (r, e) = ground arith

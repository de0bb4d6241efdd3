-- ===== src/JsonPath.antt =====
-- crates/pjs-domain/src/value_objects/json_path.rs: the path value object, its constructors,
-- accessors, textual form and parser. A `usize` index is a native number.
pub mod Keys
pub mod Parse
pub mod RoundTrip
pub mod Laws
mod Tests
use mathlib.Core.List.{reverse}
use pjs.Prelude.{
  ℕ, zero, suc, ◌+◌, ◌-◌, ◌≤◌, ◌<◌, ◌≡◌, List, [], ◌∷◌, ◌++◌, Bool, true, false, Option, none, some,
  ltb, ◌==◌, ◌||◌, ◌&&◌, if◌then◌else◌, length, take, is_empty, list_beq,
}
use pjs.Prelude.Text.{Text, codes, len}
use pjs.Outcome.{DomainResult, ok, err, ◌>>=◌, ◌>>◌, guard, invalid_path}
use pjs.Words.{to_text, parse_usize}

pub data PathSegment : Type 0 where
  key : Text → PathSegment
  index : ℕ → PathSegment

pub record JsonPath : Type 0 where
  pub segments : List PathSegment

-- `key.contains(c)`.
unfoldable pub contains : Text → ℕ → Bool
contains [] c = false
contains (x ∷ s) c = x == c || contains s c

unfoldable pub validate_key : Text → DomainResult (Unit {0})
validate_key k =
    if is_empty k
    then err invalid_path
    else if contains k b'.' || (contains k b'[' || contains k b']')
    then err invalid_path
    else ok tt

abbrev pub root : JsonPath
root = record { segments = [] }

unfoldable pub validate_segments : List PathSegment → DomainResult (Unit {0})
validate_segments [] = ok tt
validate_segments (key k ∷ s) = validate_key k >> validate_segments s
validate_segments (index i ∷ s) = validate_segments s

unfoldable pub from_segments : List PathSegment → DomainResult JsonPath
unfolding validate_segments
from_segments s = validate_segments s >> ok (record { segments = s })

unfoldable pub append_key : JsonPath → Text → DomainResult JsonPath
append_key p k = validate_key k >> ok (record { segments = p.segments ++ key k ∷ [] })

unfoldable pub append_index : JsonPath → ℕ → JsonPath
append_index p i = record { segments = p.segments ++ index i ∷ [] }

abbrev pub depth : JsonPath → ℕ
depth p = length p.segments

unfoldable pub parent : JsonPath → Option JsonPath
parent p =
    if is_empty p.segments
    then none
    else some (record { segments = take (length p.segments - 1) p.segments })

unfoldable pub last : List PathSegment → Option PathSegment
last [] = none
last (s ∷ []) = some s
last (s ∷ t ∷ r) = last (t ∷ r)

abbrev pub last_segment : JsonPath → Option PathSegment
last_segment p = last p.segments

-- `find_map` over the segments in reverse.
unfoldable pub find_key : List PathSegment → Option Text
find_key [] = none
find_key (key k ∷ s) = some k
find_key (index i ∷ s) = find_key s

unfoldable pub last_key : JsonPath → Option Text
unfolding find_key
last_key p = find_key (reverse p.segments)

segment_beq : PathSegment → PathSegment → Bool
segment_beq (key a) (key b) = list_beq a b
segment_beq (index i) (index j) = i == j
segment_beq _ _ = false

-- `other.starts_with(self)`.
starts_with : List PathSegment → List PathSegment → Bool
unfolding segment_beq
starts_with other [] = true
starts_with [] (s ∷ self) = false
starts_with (o ∷ other) (s ∷ self) = segment_beq o s && starts_with other self

unfoldable pub is_prefix_of : JsonPath → JsonPath → Bool
unfolding starts_with
is_prefix_of self other =
    ltb (length self.segments) (length other.segments) && starts_with other.segments self.segments

unfoldable pub pointer_segments : List PathSegment → Text
pointer_segments [] = []
pointer_segments (key k ∷ s) = b'/' ∷ (k ++ pointer_segments s)
pointer_segments (index i ∷ s) = b'/' ∷ (to_text i ++ pointer_segments s)

unfoldable pub to_json_pointer : JsonPath → Text
unfolding pointer_segments
to_json_pointer p = if is_empty p.segments then codes "/" else pointer_segments p.segments

-- The loop of `Display`, after the leading `$`.
unfoldable pub display_segments : List PathSegment → Text
display_segments [] = []
display_segments (key k ∷ s) = b'.' ∷ (k ++ display_segments s)
display_segments (index i ∷ s) = b'[' ∷ (to_text i ++ b']' ∷ display_segments s)

unfoldable pub display : JsonPath → Text
display p = b'$' ∷ display_segments p.segments

-- The inner loops of `from_str`: what they consume, and the rest. A key stops before `.` or `[`; an
-- index stops after `]`, or at the end of the text.
unfoldable pub take_key : Text → Text × Text
take_key [] = ([], [])
take_key (c ∷ s) =
    let (k, rest) = take_key s in if c == b'.' || c == b'[' then ([], c ∷ s) else (c ∷ k, rest)

unfoldable pub take_index : Text → Text × Text
take_index [] = ([], [])
take_index (c ∷ s) = let (i, rest) = take_index s in if c == b']' then ([], s) else (c ∷ i, rest)

abbrev pub parse_index : Text → DomainResult ℕ
parse_index s =
    if is_empty s
    then err invalid_path
    else elim (parse_usize s) [ none ↦ err invalid_path | some i ↦ ok i ]

-- One round of the `while let` loop: the segment that begins at the character `c`, and the text
-- that is left.
unfoldable pub parse_segment : ℕ → Text → DomainResult (PathSegment × Text)
parse_segment c s =
    if c == b'.'
    then (validate_key (take_key s).0 >> ok (key (take_key s).0, (take_key s).1))
    else if c == b'['
    then (parse_index (take_index s).0 >>= λ n. ok (index n, (take_index s).1))
    else err invalid_path

-- The loop on fuel; `none` means that the fuel ran out.
unfoldable pub parse_loop : ℕ → Text → List PathSegment → Option (DomainResult JsonPath)
parse_loop zero s segments = none
parse_loop (suc f) [] segments = some (ok (record { segments = segments }))
parse_loop (suc f) (c ∷ s) segments = elim (parse_segment c s) [
  | ok (segment, rest) ↦ parse_loop f rest (segments ++ segment ∷ [])
  | err e ↦ some (err e)
]

-- A text of `n` characters takes at most `n` rounds.
unfoldable pub from_str : Text → Option (DomainResult JsonPath)
unfolding parse_loop parse_segment take_key take_index parse_usize validate_key contains
from_str [] = some (err invalid_path)
from_str (c ∷ s) =
    if c == b'$'
    then if len (c ∷ s) == 1 then some (ok root) else parse_loop (suc (length s)) s []
    else some (err invalid_path)

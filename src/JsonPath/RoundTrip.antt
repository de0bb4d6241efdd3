-- ===== src/JsonPath/RoundTrip.antt =====
-- `display` against `from_str` (JP-1 of the source).
use mathlib.Core.List.{append_assoc, append-nil}
use pjs.Prelude.{
  ℕ, zero, suc, ◌≤◌, ◌<◌, ◌≡◌, refl, sym, ◌∙◌, inl, inr, List, [], ◌∷◌, ◌++◌, some, true, arith,
  All, length, length-append, Bool-cases, ◌==◌,
}
use pjs.Prelude.Text.{Text, len}
use pjs.Outcome.{ok}
use pjs.Words.{to_text}
use pjs.Words.Decimal.{parse_usize-to_text, to_text-IsDigit, to_text-cons}
use pjs.JsonPath.{
  JsonPath, root, PathSegment, key, index, display, display_segments, parse_segment, parse_loop,
  from_str,
}
use pjs.JsonPath.Keys.{
  SegmentOk, IsValid, Stops, validate_key-IsPlain, take_key-append, take_index-append,
}

display_segments-Stops : (s : List PathSegment) → Stops (display_segments s)
unfolding display_segments
display_segments-Stops [] = tt
display_segments-Stops (key k ∷ s) = inl refl
display_segments-Stops (index i ∷ s) = inr refl

length-display_segments : (s : List PathSegment) → length s ≤ length (display_segments s)
unfolding display_segments
length-display_segments [] = omega arith
length-display_segments (key k ∷ s) =
    omega (arith, length-append k (display_segments s), length-display_segments s)
length-display_segments (index i ∷ s) =
    omega (arith, length-append (to_text i) (b']' ∷ display_segments s), length-display_segments s)

parse_segment-key :
    (k rest : Text)
    → SegmentOk (key k)
    → Stops rest
    → parse_segment b'.' (k ++ rest) ≡ ok (key k, rest)
unfolding parse_segment
parse_segment-key k rest v h = rw (take_key-append k rest (validate_key-IsPlain k v) h, v)

parse_segment-index :
    (i : ℕ) (rest : Text)
    → SegmentOk (index i)
    → parse_segment b'[' (to_text i ++ b']' ∷ rest) ≡ ok (index i, rest)
unfolding parse_segment
parse_segment-index i rest v =
    let (c, s, e) = to_text-cons i in
    rw (take_index-append (to_text i) rest (to_text-IsDigit i), parse_usize-to_text i v) (rw e)

parse_loop-display :
    (f : ℕ) (s acc : List PathSegment)
    → length s < f
    → All SegmentOk s
    → parse_loop f (display_segments s) acc ≡ some (ok (record { segments = acc ++ s }))
unfolding parse_loop display_segments
parse_loop-display zero s acc h v = absurd (omega arith)
parse_loop-display (suc f) [] acc h v = rw append-nil
parse_loop-display (suc f) (key k ∷ s) acc h (v, vs) =
    rw (parse_segment-key k (display_segments s) v (display_segments-Stops s), parse_loop)
      (parse_loop-display f s (acc ++ key k ∷ []) (omega arith) vs ∙ rw append_assoc)
parse_loop-display (suc f) (index i ∷ s) acc h (v, vs) =
    rw (parse_segment-index i (display_segments s) v, parse_loop)
      (parse_loop-display f s (acc ++ index i ∷ []) (omega arith) vs ∙ rw append_assoc)

only_root : (s : List PathSegment) → (len (b'$' ∷ display_segments s) == 1) ≡ true → s ≡ []
unfolding len display_segments
only_root [] h = refl
only_root (key k ∷ s) h = absurd (ground arith)
only_root (index i ∷ s) h = absurd (ground arith)

-- The text of every valid path parses, and to that path.
pub from_str-display : (p : JsonPath) → IsValid p → from_str (display p) ≡ some (ok p)
unfolding from_str display
from_str-display p v = elim (Bool-cases (len (b'$' ∷ display_segments p.segments) == 1)) [
  | inl alone ↦
      let e = only_root p.segments alone in
      let r : root ≡ p = λ i. record { segments = sym e i } in rw alone (cc)
  | inr more ↦ rw more (
      parse_loop-display (suc (length (display_segments p.segments))) p.segments []
        (omega (arith, length-display_segments p.segments)) v)
]

-- So distinct valid paths have distinct texts.
pub display-injective : (p q : JsonPath) → IsValid p → IsValid q → display p ≡ display q → p ≡ q
display-injective p q vp vq e = cc (from_str-display p vp, from_str-display q vq)

-- ===== src/JsonPath/Laws.antt =====
-- How the accessors read what the constructors build.
use mathlib.Core.List.{reverse-append}
use pjs.Prelude.{
  ℕ, ◌+◌, ◌-◌, ◌<◌, ◌≡◌, ◌↔◌, refl, ap, inl, inr, List, [], ◌∷◌, ◌++◌, true, false, some, arith,
  length, length-append, take, is_empty, list_beq_iff, ltb, lt→ltb, ◌&&◌, &&_parts, ltb→lt,
}
use pjs.Prelude.Text.{Text}
use pjs.Outcome.{ok, DomainResult-cases}
use pjs.JsonPath.{
  JsonPath, PathSegment, key, index, validate_key, append_key, append_index, parent, last,
  last_segment, last_key, is_prefix_of, starts_with, segment_beq, depth,
}

last-append : (s : List PathSegment) (g : PathSegment) → last (s ++ g ∷ []) ≡ some g
unfolding last
last-append [] g = refl
last-append (a ∷ []) g = refl
last-append (a ∷ b ∷ s) g = last-append (b ∷ s) g

pub take-append_left : (s t : List PathSegment) → take (length s) (s ++ t) ≡ s
take-append_left [] t = refl
take-append_left (a ∷ s) t = ap (◌∷◌ a) (take-append_left s t)

pub is_empty-append : (s : List PathSegment) (g : PathSegment) → is_empty (s ++ g ∷ []) ≡ false
is_empty-append [] g = refl
is_empty-append (a ∷ s) g = refl

parent_of :
    (p : JsonPath) (g : PathSegment) → parent (record { segments = p.segments ++ g ∷ [] }) ≡ some p
unfolding parent
parent_of p g =
    let n : length (p.segments ++ g ∷ []) - 1 ≡ length p.segments =
      omega (arith, length-append p.segments (g ∷ [])) in
    rw (is_empty-append p.segments g, n, take-append_left p.segments (g ∷ []))

-- A key that `append_key` accepts becomes the last segment and the last key, one level deeper, and
-- `parent` takes it off again. An index becomes the last segment, and `last_key` looks past it.
pub parent-append :
    (p : JsonPath) (k : Text) (q : JsonPath) (i : ℕ)
    → append_key p k ≡ ok q
    → (parent q ≡ some p)
      × (last_segment q ≡ some (key k))
      × (last_key q ≡ some k)
      × (depth q ≡ depth p + 1)
      × (parent (append_index p i) ≡ some p)
      × (last_segment (append_index p i) ≡ some (index i))
      × (last_key (append_index p i) ≡ last_key p)
unfolding append_key append_index last_key
parent-append p k q i h = elim (DomainResult-cases (validate_key k)) [
  | inr (x, e) ↦ absurd (cc (rw (e, append_key) at h))
  | inl (u, e) ↦
      let r : record { segments = p.segments ++ key k ∷ [] } ≡ q = cc (rw (e, append_key) at h) in
      rw (← r) (
        parent_of p (key k),
        last-append p.segments (key k),
        rw (reverse-append p.segments (key k ∷ [])),
        omega (arith, length-append p.segments (key k ∷ [])),
        parent_of p (index i),
        last-append p.segments (index i),
        rw (reverse-append p.segments (index i ∷ [])),
      )
]

segment_beq_iff : (a b : PathSegment) → (segment_beq a b ≡ true) ↔ (a ≡ b)
unfolding segment_beq
segment_beq_iff (key a) (key b) = ground (arith, list_beq_iff a b)
segment_beq_iff (index i) (index j) = ground arith
segment_beq_iff (key a) (index j) = ground arith
segment_beq_iff (index i) (key b) = ground arith

starts_with-split :
    (other self : List PathSegment)
    → starts_with other self ≡ true
    → (t : List PathSegment) × (other ≡ self ++ t)
unfolding starts_with
starts_with-split other [] h = (other, refl)
starts_with-split [] (s ∷ self) h = absurd (cc)
starts_with-split (o ∷ other) (s ∷ self) h =
    let (e, r) = &&_parts (segment_beq o s) (starts_with other self) h in
    let (t, q) = starts_with-split other self r in (t, cc ((segment_beq_iff o s).0 e))

starts_with-append : (s t : List PathSegment) → starts_with (s ++ t) s ≡ true
unfolding starts_with
starts_with-append [] [] = refl
starts_with-append [] (g ∷ t) = refl
starts_with-append (g ∷ s) t = rw ((segment_beq_iff g g).1 refl) (starts_with-append s t)

-- `is_prefix_of` holds exactly when the other path goes on below this one by at least one segment.
pub is_prefix_of_iff :
    (p q : JsonPath)
    → (is_prefix_of p q ≡ true)
      ↔ ((g : PathSegment) × (t : List PathSegment) × (q.segments ≡ p.segments ++ g ∷ t))
unfolding is_prefix_of
is_prefix_of_iff p q = (split, join)
  where
    longer :
        (t : List PathSegment)
        → length p.segments < length q.segments
        → q.segments ≡ p.segments ++ t
        → (g : PathSegment) × (r : List PathSegment) × (q.segments ≡ p.segments ++ g ∷ r)
    longer [] h e = absurd (omega (arith, ap length e, length-append p.segments []))
    longer (g ∷ r) h e = (g, r, e)

    split :
        (ltb (length p.segments) (length q.segments) && starts_with q.segments p.segments) ≡ true
        → (g : PathSegment) × (t : List PathSegment) × (q.segments ≡ p.segments ++ g ∷ t)
    split h =
        let (less, begins) =
          &&_parts (ltb (length p.segments) (length q.segments)) (starts_with q.segments p.segments)
            h in
        let (t, e) = starts_with-split q.segments p.segments begins in
        longer t (ltb→lt (length p.segments) (length q.segments) less) e

    join :
        ((g : PathSegment) × (t : List PathSegment) × (q.segments ≡ p.segments ++ g ∷ t))
        → (ltb (length p.segments) (length q.segments) && starts_with q.segments p.segments) ≡ true
    join (g, t, e) =
        rw
          (
            e,
            lt→ltb (length p.segments) (length (p.segments ++ g ∷ t))
                (omega (arith, length-append p.segments (g ∷ t))),
          )
          (starts_with-append p.segments (g ∷ t))

-- ===== src/JsonData/Deserialize.antt =====
-- The visitor of `Deserialize`: what it builds from the calls that a self-describing format makes,
-- and the bound on the depth of containers. An error of the format is `none`.
pub mod Depth
pub mod Capacity
use mathlib.Core.Option
use Prim.Native.Nat.{max}
use pjs.Prelude.{
  ℕ, suc, ◌+◌, ◌-◌, ◌*◌, ◌/◌, ◌^◌, ◌≤◌, ◌<◌, ◌≡◌, ◌↔◌, refl, ap, inl, inr, Bool, true, false,
  Option, none, some, arith, if◌then◌else◌, leb, ltb, min, Bool-cases, Option-cases, ◌||◌,
}
use pjs.Prelude.Text.{Text}
use pjs.Prelude.Int.{ℤ, pos}
use pjs.F64.{Float, is_nan, is_infinite}
use pjs.JsonData.{
  JsonData, null, bool, integer, float, string, array, object, Items, nil, cons, Fields, end, field,
  insert,
}

abbrev pub max_deserialize_depth : ℕ
max_deserialize_depth = 64

abbrev pub max_prealloc_bytes : ℕ
max_prealloc_bytes = 1024 * 1024

-- The capacity reserved before any element is read, for elements of `size` bytes.
unfoldable pub cautious_capacity : ℕ → Option ℕ → ℕ
cautious_capacity size (some hint) = min hint (max_prealloc_bytes / max size 1)
cautious_capacity size none = 0

-- What the format presents to the visitor: one constructor for each of its methods.
mutual
  pub data Input : Type 0 where
    unit : Input
    absent : Input
    present : Input → Input
    boolean : Bool → Input
    i64 : ℤ → Input
    u64 : ℕ → Input
    f64 : ℕ → Input
    str : Text → Input
    seq : Elements → Input
    mapping : Entries → Input

  pub data Elements : Type 0 where
    done : Elements
    next : Input → Elements → Elements

  pub data Entries : Type 0 where
    stop : Entries
    entry : Text → Input → Entries → Entries

abbrev pub i64_max : ℕ
i64_max = 2 ^ 63 - 1

-- `enter`: the depth of the children, or an error at the bound.
unfoldable pub enter : ℕ → Option ℕ
enter d = if leb max_deserialize_depth d then none else some (d + 1)

abbrev pub visit_u64 : Float → ℕ → JsonData
visit_u64 h v = if leb v i64_max then integer (pos v) else float (h.of_nat v)

abbrev pub visit_f64 : ℕ → Option JsonData
visit_f64 v = if is_nan v || is_infinite v then none else some (float v)

unfoldable mutual
  pub visit : Float → ℕ → Input → Option JsonData
  visit h d unit = some null
  visit h d absent = some null
  visit h d (present x) = visit h d x
  visit h d (boolean b) = some (bool b)
  visit h d (i64 v) = some (integer v)
  visit h d (u64 v) = some (visit_u64 h v)
  visit h d (f64 v) = visit_f64 v
  visit h d (str v) = some (string v)
  visit h d (seq xs) = elim (enter d) [
    | none ↦ none
    | some deeper ↦ Option.map array (visit_seq h deeper xs)
  ]
  visit h d (mapping es) = elim (enter d) [
    | none ↦ none
    | some deeper ↦ Option.map object (visit_map h deeper end es)
  ]

  pub visit_seq : Float → ℕ → Elements → Option Items
  visit_seq h d done = some nil
  visit_seq h d (next x xs) = elim (visit h d x) [
    | none ↦ none
    | some v ↦ Option.map (cons v) (visit_seq h d xs)
  ]

  -- The loop over the entries, with the object so far: a later entry of a key replaces the earlier.
  pub visit_map : Float → ℕ → Fields → Entries → Option Fields
  visit_map h d o stop = some o
  visit_map h d o (entry k x es) = elim (visit h d x) [
    | none ↦ none
    | some v ↦ visit_map h d (insert k v o) es
  ]

-- `JsonData::deserialize`.
unfoldable pub deserialize : Float → Input → Option JsonData
unfolding visit
deserialize h x = visit h 0 x

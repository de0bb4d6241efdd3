-- ===== src/JsonData/Deserialize/Depth.antt =====
-- Which inputs the visitor accepts, and how deep its results are.

use Prim.Native.Nat.{max}
use pjs.Prelude.{
  ℕ, suc, ◌+◌, ◌≤◌, ◌≡◌, ◌↔◌, inl, inr, Bool, true, false, some, arith, if◌then◌else◌, Option-cases,
  ◌||◌, leb, is_some,
}
use pjs.F64.{Float, is_nan, is_infinite}
use pjs.JsonData.{
  JsonData, null, bool, integer, float, string, array, object, Items, nil, cons, Fields, end, field,
  insert,
}
use pjs.JsonData.Deserialize.{
  Input, unit, absent, present, boolean, i64, u64, f64, str, seq, mapping, Elements, done, next,
  Entries, stop, entry, enter, visit, visit_seq, visit_map, deserialize, max_deserialize_depth,
}

-- How many containers stand inside one another.
mutual
  pub nesting : JsonData → ℕ
  nesting null = 0
  nesting (bool b) = 0
  nesting (integer i) = 0
  nesting (float f) = 0
  nesting (string s) = 0
  nesting (array a) = suc (nesting_items a)
  nesting (object o) = suc (nesting_fields o)

  pub nesting_items : Items → ℕ
  nesting_items nil = 0
  nesting_items (cons v rest) = max (nesting v) (nesting_items rest)

  pub nesting_fields : Fields → ℕ
  nesting_fields end = 0
  nesting_fields (field k v rest) = max (nesting v) (nesting_fields rest)

mutual
  pub input_nesting : Input → ℕ
  input_nesting unit = 0
  input_nesting absent = 0
  input_nesting (present x) = input_nesting x
  input_nesting (boolean b) = 0
  input_nesting (i64 v) = 0
  input_nesting (u64 v) = 0
  input_nesting (f64 v) = 0
  input_nesting (str v) = 0
  input_nesting (seq xs) = suc (elements_nesting xs)
  input_nesting (mapping es) = suc (entries_nesting es)

  pub elements_nesting : Elements → ℕ
  elements_nesting done = 0
  elements_nesting (next x xs) = max (input_nesting x) (elements_nesting xs)

  pub entries_nesting : Entries → ℕ
  entries_nesting stop = 0
  entries_nesting (entry k x es) = max (input_nesting x) (entries_nesting es)

-- Every float of the input is finite.
mutual
  pub all_finite : Input → Bool
  all_finite unit = true
  all_finite absent = true
  all_finite (present x) = all_finite x
  all_finite (boolean b) = true
  all_finite (i64 v) = true
  all_finite (u64 v) = true
  all_finite (f64 v) = if is_nan v || is_infinite v then false else true
  all_finite (str v) = true
  all_finite (seq xs) = finite_elements xs
  all_finite (mapping es) = finite_entries es

  pub finite_elements : Elements → Bool
  finite_elements done = true
  finite_elements (next x xs) = if all_finite x then finite_elements xs else false

  pub finite_entries : Entries → Bool
  finite_entries stop = true
  finite_entries (entry k x es) = if all_finite x then finite_entries es else false

-- The test that decides an input at depth `d`.
abbrev fits : ℕ → ℕ → Bool → Bool
fits d n finite = if finite then leb (d + n) max_deserialize_depth else false

mutual
  unfolding visit enter input_nesting all_finite

  visit-fits :
      (h : Float) (d : ℕ) (x : Input)
      → d ≤ max_deserialize_depth
      → is_some (visit h d x) ≡ fits d (input_nesting x) (all_finite x)
  visit-fits h d unit b = ground arith
  visit-fits h d absent b = ground arith
  visit-fits h d (present x) b = visit-fits h d x b
  visit-fits h d (boolean v) b = ground arith
  visit-fits h d (i64 v) b = ground arith
  visit-fits h d (u64 v) b = ground arith
  visit-fits h d (f64 v) b = ground arith
  visit-fits h d (str v) b = ground arith
  visit-fits h d (seq xs) b = ground (arith, visit_seq-fits h (d + 1) xs)
  visit-fits h d (mapping es) b = ground (arith, visit_map-fits h (d + 1) end es)

  visit_seq-fits :
      (h : Float) (d : ℕ) (xs : Elements)
      → d ≤ max_deserialize_depth
      → is_some (visit_seq h d xs) ≡ fits d (elements_nesting xs) (finite_elements xs)
  visit_seq-fits h d done b = ground arith
  visit_seq-fits h d (next x xs) b = ground (arith, visit-fits h d x b, visit_seq-fits h d xs b)

  visit_map-fits :
      (h : Float) (d : ℕ) (o : Fields) (es : Entries)
      → d ≤ max_deserialize_depth
      → is_some (visit_map h d o es) ≡ fits d (entries_nesting es) (finite_entries es)
  visit_map-fits h d o stop b = ground arith
  visit_map-fits h d o (entry k x es) b = elim (Option-cases (visit h d x)) [
    | inl e ↦ ground (arith, visit-fits h d x b)
    | inr (v, e) ↦ ground (arith, visit-fits h d x b, visit_map-fits h d (insert k v o) es b)
  ]

insert-nesting :
    (k v : _) (o : Fields) → nesting_fields (insert k v o) ≤ max (nesting v) (nesting_fields o)
unfolding insert nesting
insert-nesting k v end = omega arith
insert-nesting k v (field j w o) = ground (arith, insert-nesting k v o)

mutual
  unfolding visit enter input_nesting nesting

  visit-nesting :
      (h : Float) (d : ℕ) (x : Input) (v : JsonData)
      → visit h d x ≡ some v
      → nesting v ≤ input_nesting x
  visit-nesting h d unit v e = ground arith
  visit-nesting h d absent v e = ground arith
  visit-nesting h d (present x) v e = visit-nesting h d x v e
  visit-nesting h d (boolean b) v e = ground arith
  visit-nesting h d (i64 b) v e = ground arith
  visit-nesting h d (u64 b) v e = ground arith
  visit-nesting h d (f64 b) v e = ground arith
  visit-nesting h d (str b) v e = ground arith
  visit-nesting h d (seq xs) v e = elim (Option-cases (visit_seq h (d + 1) xs)) [
    | inl n ↦ absurd (ground arith)
    | inr (a, s) ↦ ground (arith, visit_seq-nesting h (d + 1) xs a s)
  ]
  visit-nesting h d (mapping es) v e = elim (Option-cases (visit_map h (d + 1) end es)) [
    | inl n ↦ absurd (ground arith)
    | inr (o, s) ↦ ground (arith, visit_map-nesting h (d + 1) end es o s)
  ]

  visit_seq-nesting :
      (h : Float) (d : ℕ) (xs : Elements) (a : Items)
      → visit_seq h d xs ≡ some a
      → nesting_items a ≤ elements_nesting xs
  visit_seq-nesting h d done a e = ground arith
  visit_seq-nesting h d (next x xs) a e = elim (Option-cases (visit h d x)) [
    | inl n ↦ absurd (ground arith)
    | inr (v, s) ↦ elim (Option-cases (visit_seq h d xs)) [
      | inl n ↦ absurd (ground arith)
      | inr (r, t) ↦ ground (arith, visit-nesting h d x v s, visit_seq-nesting h d xs r t)
    ]
  ]

  visit_map-nesting :
      (h : Float) (d : ℕ) (o : Fields) (es : Entries) (r : Fields)
      → visit_map h d o es ≡ some r
      → nesting_fields r ≤ max (nesting_fields o) (entries_nesting es)
  visit_map-nesting h d o stop r e = ground arith
  visit_map-nesting h d o (entry k x es) r e = elim (Option-cases (visit h d x)) [
    | inl n ↦ absurd (ground arith)
    | inr (v, s) ↦ ground (
      arith,
      insert-nesting k v o,
      visit-nesting h d x v s,
      visit_map-nesting h d (insert k v o) es r,
    )
  ]

-- `deserialize` accepts exactly the inputs whose containers nest at most 64 deep and whose floats
-- are all finite.
pub deserialize-accepts :
    (h : Float) (x : Input)
    → (is_some (deserialize h x) ≡ true)
      ↔ ((input_nesting x ≤ max_deserialize_depth) × (all_finite x ≡ true))
unfolding deserialize
deserialize-accepts h x =
    let f = visit-fits h 0 x (omega arith) in
    (λ a. (ground arith, ground arith), λ (b, c). ground arith)

-- What `deserialize` returns nests at most 64 deep, so that a recursion over it is bounded.
pub deserialize-nesting :
    (h : Float) (x : Input) (v : JsonData)
    → deserialize h x ≡ some v
    → nesting v ≤ max_deserialize_depth
unfolding deserialize
deserialize-nesting h x v e =
    let f = visit-fits h 0 x (omega arith) in let n = visit-nesting h 0 x v e in ground arith

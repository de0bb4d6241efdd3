-- ===== src/Heuristic/Laws.antt =====
-- The range of the computed priorities, the precedence of its sources, and what it does not read.
use pjs.Prelude.{
  ℕ, ◌<◌, ◌≡◌, inl, inr, false, Option, none, some, arith, All, Option-cases, text_eq,
}
use pjs.Prelude.Map.{lookup, All-lookup}
use pjs.Prelude.Text.{Text}
use pjs.Priority.{Priority, medium, background, decrease_by, ge}
use pjs.Priority.Bounds.{IsPriority, increase_by-IsPriority, decrease_by-IsPriority}
use pjs.JsonPath.{JsonPath, key, depth, last_segment}
use pjs.JsonData.{JsonData, string, array, object, count_items, Items}
use pjs.Heuristic.{
  PriorityHeuristicConfig, key_priority, tier_of, by_depth, by_shape, fallback, key_of, key_tier,
  or_else, compute_priority, to_ascii_lowercase, default_config,
}

medium-IsPriority : IsPriority medium
medium-IsPriority = omega arith

tier_of-IsPriority :
    (c : PriorityHeuristicConfig) (t : Text) (p : Priority) → tier_of c t ≡ some p → IsPriority p
unfolding tier_of
tier_of-IsPriority c t p h = ground arith

key_priority-IsPriority :
    (c : PriorityHeuristicConfig) (k : Text) (p : Priority)
    → All (λ e. IsPriority e.1) c.overrides
    → key_priority c k ≡ some p
    → IsPriority p
unfolding key_priority
key_priority-IsPriority c k p v h = elim (Option-cases (lookup k c.overrides)) [
  | inl e ↦ tier_of-IsPriority c (to_ascii_lowercase k) p (ground arith)
  | inr (q, e) ↦
      let r : q ≡ p = ground arith in All-lookup IsPriority k p c.overrides v (ground arith)
]

by_depth-IsPriority : (d : ℕ) → IsPriority (by_depth d medium)
unfolding by_depth
by_depth-IsPriority d = ground (
  arith,
  increase_by-IsPriority medium 20,
  increase_by-IsPriority medium 10,
  decrease_by-IsPriority medium 10,
)

by_shape-IsPriority :
    (c : PriorityHeuristicConfig) (v : JsonData) (p : Priority)
    → IsPriority p
    → IsPriority (by_shape c v p)
unfolding by_shape
by_shape-IsPriority c (string s) p h =
    ground (arith, decrease_by-IsPriority p 20 h, increase_by-IsPriority p 5 h)
by_shape-IsPriority c (array a) p h =
    ground (arith, decrease_by-IsPriority p 40 h, decrease_by-IsPriority p 15 h)
by_shape-IsPriority c (object o) p h = ground (arith, decrease_by-IsPriority p 10 h)
by_shape-IsPriority c _ p h = h

-- A computed priority lies within 1 to 255 if the overrides do.
pub compute_priority-IsPriority :
    (c : PriorityHeuristicConfig) (p : JsonPath) (v : JsonData)
    → All (λ e. IsPriority e.1) c.overrides
    → IsPriority (compute_priority c p v)
unfolding compute_priority fallback
compute_priority-IsPriority c p v h = elim (Option-cases (key_tier c (key_of (last_segment p)))) [
  | inl e ↦ rw (e, or_else) (by_shape-IsPriority c v _ (by_depth-IsPriority (depth p)))
  | inr (q, e) ↦ rw (e, or_else) (of_key (key_of (last_segment p)) q e)
]
  where
    of_key : (k : Option Text) (q : Priority) → key_tier c k ≡ some q → IsPriority q
    of_key none q e = absurd (cc)
    of_key (some k) q e = key_priority-IsPriority c k q h e

-- The case of a key does not matter where no override names it: two paths that end in keys with the
-- same lower-case text, at the same depth, give every value the same priority.
pub compute_priority_case :
    (c : PriorityHeuristicConfig) (p q : JsonPath) (j k : Text) (v : JsonData)
    → last_segment p ≡ some (key j)
    → last_segment q ≡ some (key k)
    → depth p ≡ depth q
    → to_ascii_lowercase j ≡ to_ascii_lowercase k
    → lookup j c.overrides ≡ none
    → lookup k c.overrides ≡ none
    → compute_priority c p v ≡ compute_priority c q v
unfolding compute_priority fallback key_priority
compute_priority_case c p q j k v ep eq d l nj nk = ground arith

-- A long array far from the root, under no key that the default lists name, falls to 1, which is
-- below `background`: a threshold of `background` does not admit every value.
pub below_background :
    (p : JsonPath) (a : Items)
    → key_tier default_config (key_of (last_segment p)) ≡ none
    → 5 < depth p
    → 100 < count_items a
    → (compute_priority default_config p (array a) ≡ record { byte = 1 })
      × (ge (compute_priority default_config p (array a)) background ≡ false)
unfolding compute_priority fallback by_depth by_shape decrease_by
below_background p a n d l = ground arith

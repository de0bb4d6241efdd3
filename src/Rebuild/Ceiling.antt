-- ===== src/Rebuild/Ceiling.antt =====
-- The priority of a set: at least its own, and at least that of every append below it.
use pjs.Prelude.{
  ℕ, ◌≤◌, ◌≡◌, refl, List, [], ◌∷◌, true, Option, none, some, arith, inl, inr, All, Bool-cases,
}
use pjs.Priority.{Priority}
use pjs.Streamer.{JsonPatch, is_append, append_ceiling, higher_of}

own_le : (p : Priority) (o : Option Priority) → p.byte ≤ (higher_of p o).byte
own_le p none = omega arith
own_le p (some q) = ground arith

ceiling_le : (p q : Priority) (o : Option Priority) → o ≡ some q → q.byte ≤ (higher_of p o).byte
ceiling_le p q none e = absurd (cc)
ceiling_le p q (some r) e = ground arith

appends_le :
    (m : ℕ) (ps : List JsonPatch)
    → ((c : Priority) → append_ceiling ps ≡ some c → c.byte ≤ m)
    → All (λ q. is_append q.operation ≡ true → q.priority.byte ≤ m) ps
unfolding append_ceiling
appends_le m [] h = tt
appends_le m (p ∷ ps) h = elim (Bool-cases (is_append p.operation)) [
  | inl yes_append ↦
      let top = higher_of p.priority (append_ceiling ps) in
      let bound : top.byte ≤ m = h top (rw yes_append refl) in
      (
        λ e. omega (arith, bound, own_le p.priority (append_ceiling ps)),
        appends_le m ps
            (λ c e. omega (arith, bound, ceiling_le p.priority c (append_ceiling ps) e)),
      )
  | inr other ↦ (λ e. absurd (cc), appends_le m ps (λ c e. h c (rw other e)))
]

pub ceiling-appends :
    (p : Priority) (ps : List JsonPatch)
    → All
        (λ q.
          is_append q.operation ≡ true → q.priority.byte ≤ (higher_of p (append_ceiling ps)).byte)
        ps
ceiling-appends p ps =
    appends_le (higher_of p (append_ceiling ps)).byte ps
      (λ c e. ceiling_le p c (append_ceiling ps) e)

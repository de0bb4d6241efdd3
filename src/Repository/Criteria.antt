-- ===== src/Repository/Criteria.antt =====
-- What the criteria of a query ask of a session, as conditions on its fields.
use pjs.Prelude.{
  ℕ, suc, ◌≤◌, ◌≡◌, ◌↔◌, ◌⊎◌, refl, arith, Bool, true, false, ◌&&◌, List, [], ◌∷◌, ◌++◌, Option,
  none, some, length, list_beq_iff, Bool-cases, inl, inr, ap, &&_parts, ==_iff, ◌==◌,
}
use pjs.Prelude.Map.{tally}
use pjs.Prelude.Text.{Text}
use pjs.Heuristic.{eq_ignore_ascii_case, to_ascii_lowercase}
use pjs.Streamer.{has_part, starts}
use pjs.Stream
use pjs.Session.{StreamSession, SessionState}
use pjs.Session.Basics.{is_expired}
use pjs.Store.{filter}
use pjs.Repository.Queries.{
  SessionQueryCriteria, as_str, any_state, below, above, state_refused, activity_refused,
  info_refused, matches_criteria,
}

-- A name of the list is the name of the state, in any case of its ASCII letters.
abbrev pub IsNamed : List Text → Text → Type 0
IsNamed [] name = ⊥
IsNamed (s ∷ ss) name = (to_ascii_lowercase s ≡ to_ascii_lowercase name) ⊎ IsNamed ss name

abbrev pub InStates : Option (List Text) → SessionState → Type 0
InStates none state = Unit
InStates (some names) state = IsNamed names (as_str state)

abbrev pub IsFrom : Option ℕ → ℕ → Type 0
IsFrom none n = Unit
IsFrom (some low) n = low ≤ n

abbrev pub IsUpTo : Option ℕ → ℕ → Type 0
IsUpTo none n = Unit
IsUpTo (some high) n = n ≤ high

abbrev pub HasActivity : Option Bool → ℕ → Type 0
HasActivity none active = Unit
HasActivity (some true) active = 1 ≤ active
HasActivity (some false) active = active ≡ 0

abbrev pub IsPart : Text → Text → Type 0
IsPart t s = (before : Text) × (after : Text) × (s ≡ before ++ (t ++ after))

-- The text of the pattern as it is, a `*` included.
abbrev pub HasInfo : (Text → Text) → Option Text → Option Text → Type 0
HasInfo to_lowercase none info = Unit
HasInfo to_lowercase (some pattern) none = ⊥
HasInfo to_lowercase (some pattern) (some info) = IsPart (to_lowercase pattern) (to_lowercase info)

abbrev pub IsAlive : Bool → ℕ → ℕ → Type 0
IsAlive false expires_at now = Unit
IsAlive true expires_at now = now ≤ expires_at

pub record Meets (to_lowercase : Text → Text) (c : SessionQueryCriteria) (s : StreamSession)
    (now : ℕ) : Type 0 where
  pub states : InStates c.states s.state
  pub alive : IsAlive c.exclude_expired s.expires_at now
  pub after : IsFrom c.created_after s.created_at
  pub before : IsUpTo c.created_before s.created_at
  pub activity : HasActivity c.has_active_streams (tally Stream.is_active s.streams)
  pub at_least : IsFrom c.min_stream_count (length s.streams)
  pub at_most : IsUpTo c.max_stream_count (length s.streams)
  pub info : HasInfo to_lowercase c.client_info_pattern s.client_info

-- A test that refuses exactly what does not meet a condition.
abbrev Refuses : Bool → Type 0 → Type 0
Refuses b P = (b ≡ false) ↔ P

any_state_iff : (ss : List Text) (name : Text) → (any_state ss name ≡ true) ↔ IsNamed ss name
unfolding eq_ignore_ascii_case
any_state_iff [] name = ground arith
any_state_iff (s ∷ ss) name =
    ground
      (arith, list_beq_iff (to_ascii_lowercase s) (to_ascii_lowercase name), any_state_iff ss name)

state_refused_iff :
    (states : Option (List Text)) (state : SessionState)
    → Refuses (state_refused states state) (InStates states state)
state_refused_iff none state = ground arith
state_refused_iff (some names) state = ground (arith, any_state_iff names (as_str state))

not_expired_iff :
    (exclude : Bool) (s : StreamSession) (now : ℕ)
    → Refuses (exclude && is_expired s now) (IsAlive exclude s.expires_at now)
not_expired_iff true s now = ground arith
not_expired_iff false s now = ground arith

below_iff : (bound : Option ℕ) (n : ℕ) → Refuses (below bound n) (IsFrom bound n)
below_iff none n = ground arith
below_iff (some low) n = ground arith

above_iff : (bound : Option ℕ) (n : ℕ) → Refuses (above bound n) (IsUpTo bound n)
above_iff none n = ground arith
above_iff (some high) n = ground arith

activity_iff :
    (wanted : Option Bool) (n : ℕ) → Refuses (activity_refused wanted n) (HasActivity wanted n)
activity_iff none n = ground arith
activity_iff (some true) n = ground (arith, ==_iff n 0)
activity_iff (some false) n = ground arith

starts-append : (t after : Text) → starts t (t ++ after) ≡ true
starts-append [] after = refl
starts-append (c ∷ t) after = ground (arith, ==_iff c c, starts-append t after)

starts-rest : (t s : Text) → starts t s ≡ true → (after : Text) × (s ≡ t ++ after)
starts-rest [] s e = (s, refl)
starts-rest (c ∷ t) [] e = absurd (cc)
starts-rest (c ∷ t) (d ∷ s) e =
    let (same, rest) = &&_parts (c == d) (starts t s) e in
    let (after, is) = starts-rest t s rest in
    let here : c ≡ d = (==_iff c d).0 same in (after, rw (here, is) refl)

has_part_found : (t s : Text) → has_part t s ≡ true → IsPart t s
unfolding has_part
has_part_found [] [] e = ([], [], refl)
has_part_found (c ∷ t) [] e = absurd (cc)
has_part_found t (d ∷ s) e = elim (Bool-cases (starts t (d ∷ s))) [
  | inl here ↦ let (after, is) = starts-rest t (d ∷ s) here in ([], after, is)
  | inr later ↦
      let (before, after, is) = has_part_found t s (rw later at e) in
      (d ∷ before, after, ap (◌∷◌ d) is)
]

has_part-append : (t before after s : Text) → s ≡ before ++ (t ++ after) → has_part t s ≡ true
unfolding has_part
has_part-append [] before after [] is = refl
has_part-append (c ∷ t) [] after [] is = absurd (cc)
has_part-append (c ∷ t) (b ∷ before) after [] is = absurd (cc)
has_part-append t [] after (d ∷ s) is = rw (is, starts-append t after) refl
has_part-append t (b ∷ before) after (d ∷ s) is =
    ground (arith, has_part-append t before after s (cc))

info_refused_iff :
    (to_lowercase : Text → Text) (pattern info : Option Text)
    → Refuses (info_refused to_lowercase pattern info) (HasInfo to_lowercase pattern info)
info_refused_iff to_lowercase none info = ground arith
info_refused_iff to_lowercase (some pattern) none = ground arith
info_refused_iff to_lowercase (some pattern) (some info) = (
  λ e. has_part_found (to_lowercase pattern) (to_lowercase info) (ground arith),
  λ p. rw (has_part-append (to_lowercase pattern) p.0 p.1 (to_lowercase info) p.2) refl,
)

pub matches_criteria_iff :
    (to_lowercase : Text → Text) (c : SessionQueryCriteria) (s : StreamSession) (now : ℕ)
    → (matches_criteria to_lowercase c s now ≡ true) ↔ Meets to_lowercase c s now
unfolding matches_criteria
matches_criteria_iff to_lowercase c s now =
    let a = state_refused_iff c.states s.state in
    let b = not_expired_iff c.exclude_expired s now in
    let d = below_iff c.created_after s.created_at in
    let e = above_iff c.created_before s.created_at in
    let f = activity_iff c.has_active_streams (tally Stream.is_active s.streams) in
    let g = below_iff c.min_stream_count (length s.streams) in
    let h = above_iff c.max_stream_count (length s.streams) in
    let i = info_refused_iff to_lowercase c.client_info_pattern s.client_info in
    (
      λ m. record {
        states = a.0 (ground arith);
        alive = b.0 (ground arith);
        after = d.0 (ground arith);
        before = e.0 (ground arith);
        activity = f.0 (ground arith);
        at_least = g.0 (ground arith);
        at_most = h.0 (ground arith);
        info = i.0 (ground arith);
      },
      λ m.
          rw
            (
              a.1 m.states,
              b.1 m.alive,
              d.1 m.after,
              e.1 m.before,
              f.1 m.activity,
              g.1 m.at_least,
              h.1 m.at_most,
              i.1 m.info,
            )
            refl,
    )

-- The values of a store, looked at from the `i`-th reading of the clock on, that satisfy a predicate: each of
-- them, once, in the order of the store.
pub data Selects {S : Type 0} (P : ℕ → S → Type 0) : ℕ → List (ℕ × S) → List S → Type 0 where
  nothing : (i : ℕ) → Selects P i [] []
  takes :
      (i id : ℕ) (s : S) (rest : List (ℕ × S)) (found : List S)
      → P i s
      → Selects P (suc i) rest found
      → Selects P i ((id, s) ∷ rest) (s ∷ found)
  leaves :
      (i id : ℕ) (s : S) (rest : List (ℕ × S)) (found : List S)
      → (P i s → ⊥)
      → Selects P (suc i) rest found
      → Selects P i ((id, s) ∷ rest) found

pub filter-Selects :
    {S : Type 0} (test : ℕ → S → Bool) (P : ℕ → S → Type 0)
    → ((i : ℕ) (s : S) → (test i s ≡ true) ↔ P i s)
    → (i : ℕ) (m : List (ℕ × S)) → Selects P i m (filter test i m)
unfolding filter
filter-Selects test P decides i [] = nothing i
filter-Selects test P decides i ((id, s) ∷ m) =
    let rest = filter-Selects test P decides (suc i) m in
    elim (Bool-cases (test i s)) [
      | inl hit ↦ rw hit (takes i id s m (filter test (suc i) m) ((decides i s).0 hit) rest)
      | inr miss ↦
          rw miss (leaves i id s m (filter test (suc i) m) (λ p. cc ((decides i s).1 p, miss)) rest)
    ]

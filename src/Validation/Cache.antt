-- ===== src/Validation/Cache.antt =====
-- The cache of compiled patterns of `ValidationService`, as `validate_string` uses it: flushed when it is
-- full, asked, and filled with what compiles.
use pjs.Prelude.{
  ℕ, suc, ◌≤◌, ◌≡◌, refl, arith, Bool, Option, none, some, List, [], ◌∷◌, if◌then◌else◌, leb,
  text_eq, length, Bool-cases, Option-cases, inl, inr, list_beq, list_beq_iff, sym,
}
use pjs.Prelude.Text.{Text}
use pjs.Prelude.Map.{lookup, insert, lookup-insert, length-insert}
use pjs.Validation.{Host}

abbrev pub RegexCache : Type 0
RegexCache = List (Text × (Text → Bool))

abbrev pub max_regex_cache_entries : ℕ
max_regex_cache_entries = 64

abbrev pub flushed : RegexCache → RegexCache
flushed cache = if leb max_regex_cache_entries (length cache) then [] else cache

abbrev pub filled : Option (Text → Bool) → Text → RegexCache → RegexCache × Option (Text → Bool)
filled none pat cache = (cache, none)
filled (some re) pat cache = (insert pat re cache, some re)

-- `or_try_insert_with` on a cache that is not full.
abbrev pub or_try_insert_with : Host → RegexCache → Text → RegexCache × Option (Text → Bool)
or_try_insert_with h cache pat = elim (lookup pat cache) [
  | none ↦ filled (h.compile pat) pat cache
  | some re ↦ (cache, some re)
]

unfoldable pub cached_regex : Host → RegexCache → Text → RegexCache × Option (Text → Bool)
cached_regex h cache pat = or_try_insert_with h (flushed cache) pat

-- The calls one after the other.
unfoldable pub after_patterns : Host → RegexCache → List Text → RegexCache
unfolding cached_regex
after_patterns h cache [] = cache
after_patterns h cache (pat ∷ pats) = after_patterns h (cached_regex h cache pat).0 pats

-- Each entry is what its pattern compiles to, and there are no more than the maximum.
record IsCoherent (h : Host) (cache : RegexCache) : Type 0 where
  compiled : (pat : Text) (re : Text → Bool) → lookup pat cache ≡ some re → h.compile pat ≡ some re
  few : length cache ≤ max_regex_cache_entries

flushed-IsCoherent :
    (h : Host) (cache : RegexCache)
    → IsCoherent h cache
    → ((pat : Text) (re : Text → Bool)
        → lookup pat (flushed cache) ≡ some re
        → h.compile pat ≡ some re)
      × (suc (length (flushed cache)) ≤ max_regex_cache_entries)
unfolding lookup
flushed-IsCoherent h cache c = elim (Bool-cases (leb max_regex_cache_entries (length cache))) [
  | inl full ↦ rw full (λ pat re e. absurd (cc e), omega arith)
  | inr room ↦ rw room (c.compiled, ground arith)
]

compiled-insert :
    (h : Host) (cache : RegexCache) (pat p : Text) (re r : Text → Bool)
    → ((q : Text) (f : Text → Bool) → lookup q cache ≡ some f → h.compile q ≡ some f)
    → h.compile pat ≡ some re
    → lookup p (insert pat re cache) ≡ some r
    → h.compile p ≡ some r
compiled-insert h cache pat p re r compiled good e = elim (Bool-cases (list_beq pat p)) [
  | inl hit ↦
      let same : some re ≡ some r = rw (lookup-insert pat p re cache, hit) at e in
      rw (← (list_beq_iff pat p).0 hit, good) same
  | inr miss ↦ compiled p r (rw (lookup-insert pat p re cache, miss) at e)
]

or_try_insert_with-IsCoherent :
    (h : Host) (cache : RegexCache) (pat : Text)
    → ((q : Text) (f : Text → Bool) → lookup q cache ≡ some f → h.compile q ≡ some f)
    → suc (length cache) ≤ max_regex_cache_entries
    → IsCoherent h (or_try_insert_with h cache pat).0
      × ((or_try_insert_with h cache pat).1 ≡ h.compile pat)
or_try_insert_with-IsCoherent h cache pat compiled room = elim (Option-cases (lookup pat cache)) [
  | inr (re, hit) ↦
      rw (or_try_insert_with, hit)
        (record { compiled = compiled; few = omega (arith, room) }, sym (compiled pat re hit))
  | inl miss ↦ elim (Option-cases (h.compile pat)) [
    | inl bad ↦
        rw (or_try_insert_with, miss, bad)
          (record { compiled = compiled; few = omega (arith, room) }, refl)
    | inr (re, good) ↦
        rw (or_try_insert_with, miss, good)
          (
            record {
              compiled = λ p r e. compiled-insert h cache pat p re r compiled good e;
              few = rw (length-insert pat re cache miss) room;
            },
            refl,
          )
  ]
]

cached_regex-IsCoherent :
    (h : Host) (cache : RegexCache) (pat : Text)
    → IsCoherent h cache
    → IsCoherent h (cached_regex h cache pat).0 × ((cached_regex h cache pat).1 ≡ h.compile pat)
unfolding cached_regex
cached_regex-IsCoherent h cache pat c =
    let (compiled, room) = flushed-IsCoherent h cache c in
    or_try_insert_with-IsCoherent h (flushed cache) pat compiled room

after_patterns-IsCoherent :
    (h : Host) (cache : RegexCache) (pats : List Text)
    → IsCoherent h cache
    → IsCoherent h (after_patterns h cache pats)
unfolding after_patterns
after_patterns-IsCoherent h cache [] c = c
after_patterns-IsCoherent h cache (pat ∷ pats) c =
    after_patterns-IsCoherent h (cached_regex h cache pat).0 pats
      (cached_regex-IsCoherent h cache pat c).0

-- After any patterns, the cache answers for the next pattern what the compiler answers, a failure
-- included, and it holds no more than 64 patterns, before and after.
pub cached_regex-compile :
    (h : Host) (pats : List Text) (pat : Text)
    → let cache = after_patterns h [] pats in
      ((cached_regex h cache pat).1 ≡ h.compile pat)
      × (length cache ≤ max_regex_cache_entries)
      × (length (cached_regex h cache pat).0 ≤ max_regex_cache_entries)
unfolding lookup
cached_regex-compile h pats pat =
    let start : IsCoherent h [] = record { compiled = λ p r e. absurd (cc e); few = omega arith } in
    let before = after_patterns-IsCoherent h [] pats start in
    let (after, same) = cached_regex-IsCoherent h (after_patterns h [] pats) pat before in
    (same, before.few, after.few)

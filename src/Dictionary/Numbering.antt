-- ===== src/Dictionary/Numbering.antt =====
-- The dictionary that is built numbers its strings from zero, within a `u16`.
use pjs.Prelude.{
  ℕ, suc, ◌+◌, ◌≤◌, ◌<◌, ◌≡◌, refl, arith, inl, inr, List, [], ◌∷◌, false, none, some, ltb, ◌==◌,
  length, list_beq, text_eq, Bool-cases,
}
use pjs.Prelude.Map.{lookup, insert, length-insert}
use pjs.Prelude.Map.Unique.{Unique, Fresh, Fresh-nil, Fresh-insert}
use pjs.Prelude.Sort.By.{sort_by, Unique-sort_by}
use pjs.Prelude.Text.{Text}
use pjs.Dictionary.{
  CompressionConfig, Building, nothing_kept, keep, keep_entries, build_dictionary, is_candidate,
  candidates, comes_first, cost, gain, max_u16,
}

-- The indices count up from `k`.
abbrev pub Numbered : ℕ → List (Text × ℕ) → Type 0
Numbered k [] = Unit
Numbered k ((s, i) ∷ d) = (i ≡ k) × Numbered (suc k) d

Numbered-insert :
    (k n : ℕ) (s : Text) (d : List (Text × ℕ))
    → Numbered k d
    → lookup s d ≡ none
    → n ≡ k + length d
    → Numbered k (insert s n d)
unfolding lookup insert
Numbered-insert k n s [] h f e = (omega arith, tt)
Numbered-insert k n s ((t, i) ∷ d) h f e = elim (Bool-cases (list_beq t s)) [
  | inl hit ↦ absurd (ground arith)
  | inr miss ↦ rw miss (h.0, Numbered-insert (suc k) n s d h.1 (rw miss at f) (omega arith))
]

pub lookup-lt :
    (k i : ℕ) (s : Text) (d : List (Text × ℕ))
    → Numbered k d
    → lookup s d ≡ some i
    → i < k + length d
unfolding lookup
lookup-lt k i s [] h l = absurd (cc)
lookup-lt k i s ((t, j) ∷ d) h l = ground (arith, h.0, lookup-lt (suc k) i s d h.1)

-- The next index is the number of the strings kept.
abbrev pub Kept : Building → Type 0
Kept b = Numbered 0 b.dictionary × (b.index ≡ length b.dictionary) × (b.index ≤ max_u16)

Kept-keep :
    (s : Text) (count : ℕ) (b : Building)
    → Kept b
    → lookup s b.dictionary ≡ none
    → (b.index == max_u16) ≡ false
    → Kept (keep s count b)
Kept-keep s count b (numbered, next, small) f room = (
  Numbered-insert 0 b.index s b.dictionary numbered f (omega arith),
  ground (arith, length-insert s b.index b.dictionary f),
  ground arith,
)

Kept-keep_entries :
    (rest : List (Text × ℕ)) (b : Building)
    → Unique rest
    → Fresh rest b.dictionary
    → Kept b
    → Kept (keep_entries rest b)
unfolding keep_entries
Kept-keep_entries [] b u f h = h
Kept-keep_entries ((s, count) ∷ rest) b u f h = elim (Bool-cases (b.index == max_u16)) [
  | inl full ↦ rw full h
  | inr room ↦ rw room (elim (Bool-cases (ltb (cost s) (gain s count b.index))) [
    | inl pays ↦ rw pays (
        Kept-keep_entries rest (keep s count b) u.1
          (Fresh-insert s b.index rest b.dictionary u.0 f.1) (Kept-keep s count b h f.0 room))
    | inr loses ↦ rw loses (Kept-keep_entries rest b u.1 f.1 h)
  ])
]

lookup-candidates :
    (c : CompressionConfig) (s : Text) (m : List (Text × ℕ))
    → lookup s m ≡ none
    → lookup s (candidates c m) ≡ none
unfolding lookup
lookup-candidates c s [] h = refl
lookup-candidates c s ((t, n) ∷ m) h = ground (arith, lookup-candidates c s m)

Unique-candidates :
    (c : CompressionConfig) (m : List (Text × ℕ)) → Unique m → Unique (candidates c m)
Unique-candidates c [] u = tt
Unique-candidates c ((s, n) ∷ m) u = elim (Bool-cases (is_candidate c (s, n))) [
  | inl counts ↦ rw counts (lookup-candidates c s m u.0, Unique-candidates c m u.1)
  | inr drops ↦ rw drops (Unique-candidates c m u.1)
]

-- The strings of the dictionary have the indices from zero on, all below the greatest `u16`.
pub build_dictionary-Numbered :
    (repetitions : List (Text × ℕ)) (c : CompressionConfig)
    → Unique repetitions
    → Numbered 0 (build_dictionary repetitions c).0
      × (length (build_dictionary repetitions c).0 ≤ max_u16)
unfolding build_dictionary
build_dictionary-Numbered repetitions c u =
    let sorted = sort_by comes_first (candidates c repetitions) in
    let (numbered, next, small) =
      Kept-keep_entries sorted nothing_kept
        (Unique-sort_by comes_first (candidates c repetitions) (Unique-candidates c repetitions u))
        (Fresh-nil sorted) (tt, refl, omega arith) in
    (numbered, omega arith)

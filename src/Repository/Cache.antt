-- ===== src/Repository/Cache.antt =====
-- The cache of the frames of a session never answers a wrong number.
use pjs.Prelude.{
  ℕ, ◌≡◌, refl, sym, ◌∙◌, subst, List, true, false, Option, none, some, inl, inr, Bool-cases,
  Option-cases, nat_eq,
}
use pjs.Prelude.Map.{lookup, insert, update, remove, lookup-insert, lookup-update_self}
use pjs.Prelude.Map.Unique.{
  Unique, Unique-insert, Unique-remove, Unique-update, lookup-remove_self, lookup-remove_ne,
  lookup-update_same,
}
use pjs.Outcome.{DomainResult, ok, err}
use pjs.Session.{StreamSession}
use pjs.Store.{update_with}
use pjs.Repository.{
  GatInMemoryStreamRepository, CachedSessionStats, is_valid, sum_frames, get_cached_total_frames,
  atomic_session_update, settled, recount, save_session, remove_session,
}

-- The number that a cached entry should hold.
abbrev Right : Option CachedSessionStats → Option StreamSession → Type 0
Right (some c) (some s) = c.total_frames ≡ sum_frames 0 s.streams
Right _ _ = Unit

abbrev Under : ℕ → Option StreamSession → Type 0
Under id (some s) = s.id ≡ id
Under id none = Unit

-- What holds of a repository: a session stands under its own identifier, and what is cached of it is right.
pub record Sound (r : GatInMemoryStreamRepository) : Type 0 where
  pub one_session : Unique r.store
  pub one_entry : Unique r.stats_cache
  pub keyed : (id : ℕ) → Under id (lookup id r.store)
  pub right : (id : ℕ) → Right (lookup id r.stats_cache) (lookup id r.store)

-- What a step under the lock does: the identifier stays, and an error leaves the number of frames.
abbrev pub Kept : {T : Type 0} → StreamSession → StreamSession × DomainResult T → Type 0
Kept s (s', ok t) = s'.id ≡ s.id
Kept s (s', err e) = (s'.id ≡ s.id) × (sum_frames 0 s'.streams ≡ sum_frames 0 s.streams)

same_key : (id j : ℕ) → nat_eq.beq id j ≡ true → id ≡ j
same_key id j e = (nat_eq.beq_iff id j).0 e

-- An entry is dropped from the cache.
Right-remove :
    (id j : ℕ) (cache : List (ℕ × CachedSessionStats)) (o : Option StreamSession)
    → Unique cache
    → (nat_eq.beq id j ≡ false → Right (lookup j cache) o)
    → Right (lookup j (remove id cache)) o
Right-remove id j cache o one h = elim (Bool-cases (nat_eq.beq id j)) [
  | inl hit ↦
      subst (λ i. Right (lookup i (remove id cache)) o) (same_key id j hit)
        (rw (lookup-remove_self id cache one) tt)
  | inr miss ↦ rw (lookup-remove_ne id j cache miss) (h miss)
]

-- The session under `id` is replaced by `s'`.
Under-update :
    (id j : ℕ) (s s' : StreamSession) (m : List (ℕ × StreamSession))
    → lookup id m ≡ some s
    → s'.id ≡ s.id
    → ((i : ℕ) → Under i (lookup i m))
    → Under j (lookup j (update id s' m))
Under-update id j s s' m found same keyed = elim (Bool-cases (nat_eq.beq id j)) [
  | inl hit ↦
      let own : s.id ≡ id = rw found at (keyed id) in
      rw (lookup-update_same id j s' s m found, hit) (same ∙ (own ∙ same_key id j hit))
  | inr miss ↦ rw (lookup-update_same id j s' s m found, miss) (keyed j)
]

Right-same :
    (c : Option CachedSessionStats) (s s' : StreamSession)
    → sum_frames 0 s'.streams ≡ sum_frames 0 s.streams
    → Right c (some s)
    → Right c (some s')
Right-same none s s' total h = tt
Right-same (some c) s s' total h = h ∙ sym total

Sound-settled :
    {T : Type 0} (r : GatInMemoryStreamRepository) (id : ℕ) (s : StreamSession)
    (x : StreamSession × DomainResult T)
    → Sound r
    → lookup id r.store ≡ some s
    → Kept s x
    → Sound (settled id (record r { store = update id x.0 r.store }, x.1)).0
Sound-settled r id s (s', ok t) v found same = record {
  one_session = Unique-update id s' r.store v.one_session;
  one_entry = Unique-remove id r.stats_cache v.one_entry;
  keyed = λ j. Under-update id j s s' r.store found same v.keyed;
  right = λ j.
      Right-remove id j r.stats_cache (lookup j (update id s' r.store)) v.one_entry
        (λ miss. rw (lookup-update_same id j s' s r.store found, miss) (v.right j));
}
Sound-settled r id s (s', err e) v found (same, total) = record {
  one_session = Unique-update id s' r.store v.one_session;
  one_entry = v.one_entry;
  keyed = λ j. Under-update id j s s' r.store found same v.keyed;
  right = λ j. elim (Bool-cases (nat_eq.beq id j)) [
    | inl hit ↦
        subst (λ i. Right (lookup i r.stats_cache) (lookup i (update id s' r.store)))
          (same_key id j hit)
          (rw (lookup-update_self id s' s r.store found)
            (Right-same (lookup id r.stats_cache) s s' total (rw found at (v.right id))))
    | inr miss ↦ rw (lookup-update_same id j s' s r.store found, miss) (v.right j)
  ];
}

pub Sound-atomic :
    {T : Type 0} (r : GatInMemoryStreamRepository) (id : ℕ)
    (f : StreamSession → StreamSession × DomainResult T)
    → Sound r
    → ((s : StreamSession) → Kept s (f s))
    → Sound (settled id (atomic_session_update r id f)).0
unfolding atomic_session_update update_with
Sound-atomic r id f v kept = elim (Option-cases (lookup id r.store)) [
  | inl gone ↦ rw (gone, update_with) v
  | inr (s, found) ↦ rw (found, update_with) (Sound-settled r id s (f s) v found (kept s))
]

-- An entry that is dropped, or made anew.
pub Sound-remove :
    (r : GatInMemoryStreamRepository) (id : ℕ) → Sound r → Sound (remove_session r id)
unfolding remove_session
Sound-remove r id v = record {
  one_session = Unique-remove id r.store v.one_session;
  one_entry = Unique-remove id r.stats_cache v.one_entry;
  keyed = λ j. elim (Bool-cases (nat_eq.beq id j)) [
    | inl hit ↦
        subst (λ i. Under i (lookup i (remove id r.store))) (same_key id j hit)
          (rw (lookup-remove_self id r.store v.one_session) tt)
    | inr miss ↦ rw (lookup-remove_ne id j r.store miss) (v.keyed j)
  ];
  right = λ j.
      Right-remove id j r.stats_cache (lookup j (remove id r.store)) v.one_entry
        (λ miss. rw (lookup-remove_ne id j r.store miss) (v.right j));
}

pub Sound-save :
    (r : GatInMemoryStreamRepository) (s : StreamSession) → Sound r → Sound (save_session r s)
unfolding save_session
Sound-save r s v = record {
  one_session = Unique-insert s.id s r.store v.one_session;
  one_entry = Unique-remove s.id r.stats_cache v.one_entry;
  keyed = λ j. elim (Bool-cases (nat_eq.beq s.id j)) [
    | inl hit ↦ rw (lookup-insert s.id j s r.store, hit) (same_key s.id j hit)
    | inr miss ↦ rw (lookup-insert s.id j s r.store, miss) (v.keyed j)
  ];
  right = λ j.
      Right-remove s.id j r.stats_cache (lookup j (insert s.id s r.store)) v.one_entry
        (λ miss. rw (lookup-insert s.id j s r.store, miss) (v.right j));
}

Sound-recount :
    (r : GatInMemoryStreamRepository) (s : StreamSession) (current : ℕ)
    → Sound r
    → lookup s.id r.store ≡ some s
    → Sound (recount r s current).0
Sound-recount r s current v found =
    let c : CachedSessionStats = record {
      total_frames = sum_frames 0 s.streams;
      computed_at_secs = current;
    } in
    record {
      one_session = v.one_session;
      one_entry = Unique-insert s.id c r.stats_cache v.one_entry;
      keyed = v.keyed;
      right = λ j. elim (Bool-cases (nat_eq.beq s.id j)) [
        | inl hit ↦
            rw (lookup-insert s.id j c r.stats_cache, hit)
              (subst (λ i. Right (some c) (lookup i r.store)) (same_key s.id j hit) (rw found refl))
        | inr miss ↦ rw (lookup-insert s.id j c r.stats_cache, miss) (v.right j)
      ];
    }

-- The number that is answered, from the cache or not.
pub cached_frames :
    (r : GatInMemoryStreamRepository) (s : StreamSession) (secs : ℕ → ℕ)
    → Sound r
    → lookup s.id r.store ≡ some s
    → Sound (get_cached_total_frames r s secs).0
      × ((get_cached_total_frames r s secs).1 ≡ sum_frames 0 s.streams)
unfolding get_cached_total_frames
cached_frames r s secs v found = elim (Option-cases (lookup s.id r.stats_cache)) [
  | inl gone ↦ rw (gone, get_cached_total_frames) (Sound-recount r s (secs 0) v found, refl)
  | inr (c, entry) ↦ elim (Bool-cases (is_valid c (secs 0))) [
    | inl valid ↦
        rw (entry, get_cached_total_frames, valid) (v, rw (entry, found) at (v.right s.id))
    | inr old ↦ rw (entry, get_cached_total_frames, old) (Sound-recount r s (secs 1) v found, refl)
  ]
]

pub found_own :
    (r : GatInMemoryStreamRepository) (id : ℕ) (s : StreamSession)
    → Sound r
    → lookup id r.store ≡ some s
    → lookup s.id r.store ≡ some s
found_own r id s v found =
    subst (λ i. lookup i r.store ≡ some s) (sym (rw found at (v.keyed id))) found

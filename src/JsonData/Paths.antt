-- ===== src/JsonData/Paths.antt =====
-- `path` against `set_path`.
use pjs.Prelude.{
  ◌≡◌, ◌≢◌, ◌⊎◌, refl, ap, ◌∙◌, inl, inr, List, [], ◌∷◌, true, false, some, arith, if◌then◌else◌,
  Bool-cases, Option-cases, list_beq, list_beq_iff,
}
use pjs.Prelude.Text.{Text}
use pjs.JsonData.{
  JsonData, object, Fields, end, field, find, insert, path, path_parts, set_parts, set_path, split,
  child_or_new,
}

pub find-insert :
    (k j : Text) (v : JsonData) (o : Fields)
    → find j (insert k v o) ≡ (if list_beq k j then some v else find j o)
unfolding find insert
find-insert k j v end = refl
find-insert k j v (field i w o) =
    ground (arith, list_beq_iff k j, list_beq_iff i k, list_beq_iff i j, find-insert k j v o)

find-insert_self : (k : Text) (v : JsonData) (o : Fields) → find k (insert k v o) ≡ some v
find-insert_self k v o = ground (arith, find-insert k k v o, list_beq_iff k k)

find-insert_ne : (k j : Text) (v : JsonData) (o : Fields) → k ≢ j → find j (insert k v o) ≡ find j o
find-insert_ne k j v o h = ground (arith, find-insert k j v o, list_beq_iff k j)

insert_same : (k : Text) (v : JsonData) (o : Fields) → find k o ≡ some v → insert k v o ≡ o
unfolding find insert
insert_same k v end h = absurd (cc)
insert_same k v (field i w o) h = ground (arith, insert_same k v o)

-- A fresh object takes any write.
set_parts_new :
    (k : Text) (ks : List Text) (v : JsonData) → (set_parts (k ∷ ks) v (object end)).1 ≡ true
unfolding set_parts find
set_parts_new k [] v = refl
set_parts_new k (j ∷ ks) v = set_parts_new j ks v

set_parts_refused :
    (ps : List Text) (v d : JsonData) → (set_parts ps v d).1 ≡ false → (set_parts ps v d).0 ≡ d
unfolding set_parts
set_parts_refused [] v d h = refl
set_parts_refused (k ∷ []) v (object o) h = absurd (cc)
set_parts_refused (k ∷ j ∷ ks) v (object o) h = elim (Option-cases (find k o)) [
  | inl e ↦ absurd (cc (set_parts_new j ks v, rw e at h))
  | inr (w, e) ↦
      let same = set_parts_refused (j ∷ ks) v w (rw e at h) in
      rw e (ap object (rw same (insert_same k w o e)))
]
set_parts_refused (k ∷ []) v _ h = refl
set_parts_refused (k ∷ j ∷ ks) v _ h = refl

set_parts_read :
    (ps : List Text) (v d : JsonData)
    → (set_parts ps v d).1 ≡ true
    → path_parts ps (set_parts ps v d).0 ≡ some v
unfolding set_parts path_parts
set_parts_read [] v d h = absurd (cc)
set_parts_read (k ∷ []) v (object o) h = rw (find-insert_self k v o, path_parts)
set_parts_read (k ∷ j ∷ ks) v (object o) h =
    let c = set_parts (j ∷ ks) v (child_or_new (find k o)) in
    rw (find-insert_self k c.0 o, path_parts)
      (set_parts_read (j ∷ ks) v (child_or_new (find k o)) h)
set_parts_read (k ∷ []) v _ h = absurd (cc)
set_parts_read (k ∷ j ∷ ks) v _ h = absurd (cc)

-- Two paths part at some level: neither is a prefix of the other.
abbrev pub Diverges : List Text → List Text → Type 0
Diverges (k ∷ ks) (j ∷ js) = (k ≢ j) ⊎ ((k ≡ j) × Diverges ks js)
Diverges _ _ = ⊥

path_parts_new :
    (j : Text) (js : List Text) (k : Text) (o : Fields)
    → path_parts (j ∷ js) (child_or_new (find k o)) ≡ path_parts (k ∷ j ∷ js) (object o)
unfolding path_parts find
path_parts_new j js k o = elim (Option-cases (find k o)) [
  | inl e ↦ rw (e, path_parts)
  | inr (w, e) ↦ rw (e, path_parts)
]

set_parts_beside :
    (ps qs : List Text) (v d : JsonData)
    → Diverges ps qs
    → path_parts qs (set_parts ps v d).0 ≡ path_parts qs d
unfolding set_parts path_parts
set_parts_beside [] qs v d h = absurd h
set_parts_beside (k ∷ ks) [] v d h = absurd h
set_parts_beside (k ∷ []) (i ∷ is) v (object o) (inl ne) =
    rw (find-insert_ne k i v o ne, path_parts)
set_parts_beside (k ∷ []) (i ∷ is) v (object o) (inr (e, h)) = absurd h
set_parts_beside (k ∷ j ∷ ks) (i ∷ is) v (object o) (inl ne) =
    rw (find-insert_ne k i (set_parts (j ∷ ks) v (child_or_new (find k o))).0 o ne, path_parts)
set_parts_beside (k ∷ j ∷ ks) (i ∷ []) v (object o) (inr (e, h)) = absurd h
set_parts_beside (k ∷ j ∷ ks) (i ∷ l ∷ is) v (object o) (inr (e, h)) =
    let child = child_or_new (find k o) in
    rw (← e, find-insert_self k (set_parts (j ∷ ks) v child).0 o, path_parts)
      (set_parts_beside (j ∷ ks) (l ∷ is) v child h ∙ path_parts_new l is k o)
set_parts_beside (k ∷ []) (i ∷ is) v _ h = refl
set_parts_beside (k ∷ j ∷ ks) (i ∷ is) v _ h = refl

-- `set_path` either writes or refuses. When it answers `true`, `path` reads the new value back. When
-- it answers `false`, the value is as it was. In both cases a path that parts from the written one
-- reads as before.
pub path-set_path :
    (s q : Text) (v d : JsonData)
    → Diverges (split s) (split q)
    → (((set_path s v d).1 ≡ true) × (path s (set_path s v d).0 ≡ some v)
        ⊎ ((set_path s v d).1 ≡ false) × ((set_path s v d).0 ≡ d))
      × (path q (set_path s v d).0 ≡ path q d)
unfolding set_path path
path-set_path s q v d h = (
  elim (Bool-cases (set_parts (split s) v d).1) [
    | inl yes_done ↦ inl (yes_done, set_parts_read (split s) v d yes_done)
    | inr refused ↦ inr (refused, set_parts_refused (split s) v d refused)
  ],
  set_parts_beside (split s) (split q) v d h,
)

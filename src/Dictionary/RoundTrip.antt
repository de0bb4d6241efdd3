-- ===== src/Dictionary/RoundTrip.antt =====
-- Decoding with the dictionary of the frame gives the document back.
use pjs.Prelude.{
  ℕ, zero, suc, ◌+◌, ◌≤◌, ◌<◌, ◌≡◌, refl, ap, ◌∙◌, arith, inl, inr, List, [], ◌∷◌, ◌++◌, Option,
  none, some, length, list_beq, list_beq_iff, text_eq, nat_eq, length-append, Bool-cases,
  Option-cases,
}
use mathlib.Core.List.{append_assoc}
use pjs.Prelude.Map.{lookup, lookup-insert}
use pjs.Prelude.Map.Unique.{Unique}
use pjs.Prelude.Text.{Text}
use pjs.Outcome.{ok, ◌>>=◌}
use pjs.Words.{to_text}
use pjs.Words.Decimal.{to_text-IsDigit, to_text-cons, parse_usize-to_text}
use pjs.JsonData.{
  JsonData, null, bool, integer, float, string, array, object, Items, nil, cons, Fields, end, field,
}
use pjs.Dictionary.{
  CompressionConfig, dict_sentinel, max_u16, build_dictionary, empty_slots, set_slot, fill_slots,
  slot_items, dictionary_metadata, escape, encode_string, substitute_dictionary_strings,
  substitute_items, substitute_fields, compress_with_dictionary, dictionary_entry,
  dictionary_entries, read_dict, dictionary_map, marker_or, within_u16, parse_u16, decode_marker,
  decode_dictionary_string, decompress_dictionary, decompress_items, decompress_fields,
  decompress_data,
}
use pjs.Dictionary.Numbering.{Numbered, lookup-lt, build_dictionary-Numbered}

-- The array of the strings, in the order of the dictionary.
abbrev text_items : List (Text × ℕ) → Items
text_items [] = nil
text_items ((s, i) ∷ d) = cons (string s) (text_items d)

abbrev filled : List (Text × ℕ) → List (Option Text)
filled [] = []
filled ((s, i) ∷ d) = some s ∷ filled d

set_slot-append :
    (i : ℕ) (s : Text) (before after : List (Option Text))
    → i ≡ length before
    → set_slot i s (before ++ none ∷ after) ≡ before ++ some s ∷ after
set_slot-append zero s [] after e = refl
set_slot-append zero s (x ∷ before) after e = absurd (omega arith)
set_slot-append (suc i) s [] after e = absurd (omega arith)
set_slot-append (suc i) s (x ∷ before) after e =
    ap (◌∷◌ x) (set_slot-append i s before after (omega arith))

fill_slots-Numbered :
    (k : ℕ) (before : List (Option Text)) (d : List (Text × ℕ))
    → Numbered k d
    → k ≡ length before
    → fill_slots d (before ++ empty_slots (length d)) ≡ before ++ filled d
fill_slots-Numbered k before [] h e = refl
fill_slots-Numbered k before ((s, i) ∷ d) h e =
    let placed = set_slot-append i s before (empty_slots (length d)) (h.0 ∙ e) in
    rw (placed, ← append_assoc before (some s ∷ []) (empty_slots (length d)))
      (fill_slots-Numbered (suc k) (before ++ some s ∷ []) d h.1
          (omega (arith, e, length-append before (some s ∷ [])))
        ∙ append_assoc before (some s ∷ []) (filled d))

slot_items-filled : (d : List (Text × ℕ)) → slot_items (filled d) ≡ text_items d
slot_items-filled [] = refl
slot_items-filled ((s, i) ∷ d) = ap (cons (string s)) (slot_items-filled d)

dictionary_metadata-Numbered :
    (d : List (Text × ℕ)) → Numbered 0 d → dictionary_metadata d ≡ array (text_items d)
unfolding dictionary_metadata
dictionary_metadata-Numbered d h =
    ap (λ v. array (slot_items v)) (fill_slots-Numbered 0 [] d h refl)
    ∙ ap array (slot_items-filled d)

-- Later entries have greater indices.
lookup-dictionary_entries :
    (n i : ℕ) (d : List (Text × ℕ)) (m : List (ℕ × Text))
    → i < n
    → lookup i (dictionary_entries n (text_items d) m) ≡ lookup i m
unfolding dictionary_entries
lookup-dictionary_entries n i [] m h = refl
lookup-dictionary_entries n i ((s, j) ∷ d) m h =
    lookup-dictionary_entries (suc n) i d (dictionary_entry n (string s) m) (omega arith)
    ∙ ground (arith, lookup-insert n i s m)

dictionary_entries-lookup :
    (n i : ℕ) (s : Text) (d : List (Text × ℕ)) (m : List (ℕ × Text))
    → Numbered n d
    → n + length d ≤ suc max_u16
    → lookup s d ≡ some i
    → lookup i (dictionary_entries n (text_items d) m) ≡ some s
unfolding dictionary_entries lookup
dictionary_entries-lookup n i s [] m h small l = absurd (cc)
dictionary_entries-lookup n i s ((t, j) ∷ d) m h small l = elim (Bool-cases (list_beq t s)) [
  | inl hit ↦
      let e : i ≡ n = ground (arith, h.0) in
      let same : t ≡ s = (list_beq_iff t s).0 hit in
      lookup-dictionary_entries (suc n) i d (dictionary_entry n (string t) m) (omega arith)
      ∙ ground (arith, lookup-insert n i t m)
  | inr miss ↦
      dictionary_entries-lookup (suc n) i s d (dictionary_entry n (string t) m) h.1 (omega arith)
        (rw miss at l)
]

parse_u16-to_text : (i : ℕ) → i ≤ max_u16 → parse_u16 (to_text i) ≡ some i
unfolding parse_u16
parse_u16-to_text i h = ap within_u16 (parse_usize-to_text i (omega arith)) ∙ ground arith

-- A marker is the sentinel and digits, so that it is not taken for an escaped text.
decode_dictionary_string-marker :
    (m : List (ℕ × Text)) (i : ℕ)
    → decode_dictionary_string m (dict_sentinel ∷ to_text i) ≡ decode_marker m (to_text i)
unfolding decode_dictionary_string
decode_dictionary_string-marker m i =
    let (c, s, e) = to_text-cons i in
    let (digit, rest) = rw e at (to_text-IsDigit i) in rw e (ground (arith, digit))

decode_marker-to_text :
    (m : List (ℕ × Text)) (i : ℕ) (s : Text)
    → i ≤ max_u16
    → lookup i m ≡ some s
    → decode_marker m (to_text i) ≡ ok s
unfolding decode_marker
decode_marker-to_text m i s h l = rw (parse_u16-to_text i h, l) refl

decode_dictionary_string-escape :
    (m : List (ℕ × Text)) (s : Text) → decode_dictionary_string m (escape s) ≡ ok s
unfolding decode_dictionary_string
decode_dictionary_string-escape m [] = refl
decode_dictionary_string-escape m (c ∷ []) = ground arith
decode_dictionary_string-escape m (c ∷ d ∷ s) = ground arith

-- What a client finds in its map for a string of the dictionary.
abbrev Finds : List (Text × ℕ) → List (ℕ × Text) → Type 0
Finds d m = (s : Text) (i : ℕ) → lookup s d ≡ some i → (i ≤ max_u16) × (lookup i m ≡ some s)

decode-encode :
    (d : List (Text × ℕ)) (m : List (ℕ × Text)) (s : Text)
    → Finds d m
    → decode_dictionary_string m (encode_string d s) ≡ ok s
unfolding encode_string
decode-encode d m s finds = elim (Option-cases (lookup s d)) [
  | inl absent ↦
      ap (λ o. decode_dictionary_string m (marker_or o s)) absent
      ∙ decode_dictionary_string-escape m s
  | inr (i, found) ↦
      let (small, l) = finds s i found in
      ap (λ o. decode_dictionary_string m (marker_or o s)) found
      ∙ (decode_dictionary_string-marker m i ∙ decode_marker-to_text m i s small l)
]

mutual
  unfolding decompress_dictionary substitute_dictionary_strings

  decompress-substitute :
      (d : List (Text × ℕ)) (m : List (ℕ × Text)) (v : JsonData)
      → Finds d m
      → decompress_dictionary m (substitute_dictionary_strings d v) ≡ ok v
  decompress-substitute d m null finds = refl
  decompress-substitute d m (bool b) finds = refl
  decompress-substitute d m (integer i) finds = refl
  decompress-substitute d m (float f) finds = refl
  decompress-substitute d m (string s) finds =
      ap (λ r. r >>= λ s'. ok (string s')) (decode-encode d m s finds)
  decompress-substitute d m (array a) finds =
      ap (λ r. r >>= λ a'. ok (array a')) (decompress_items-substitute d m a finds)
  decompress-substitute d m (object o) finds =
      ap (λ r. r >>= λ o'. ok (object o')) (decompress_fields-substitute d m o finds)

  decompress_items-substitute :
      (d : List (Text × ℕ)) (m : List (ℕ × Text)) (a : Items)
      → Finds d m
      → decompress_items m (substitute_items d a) ≡ ok a
  decompress_items-substitute d m nil finds = refl
  decompress_items-substitute d m (cons v rest) finds =
      rw (decompress-substitute d m v finds, decompress_items-substitute d m rest finds) refl

  decompress_fields-substitute :
      (d : List (Text × ℕ)) (m : List (ℕ × Text)) (o : Fields)
      → Finds d m
      → decompress_fields m (substitute_fields d o) ≡ ok o
  decompress_fields-substitute d m end finds = refl
  decompress_fields-substitute d m (field k v rest) finds =
      rw (decompress-substitute d m v finds, decompress_fields-substitute d m rest finds) refl

dictionary_map-metadata :
    (data' : JsonData) (d : List (Text × ℕ))
    → Numbered 0 d
    → dictionary_map (compress_with_dictionary data' d).1 []
      ≡ dictionary_entries 0 (text_items d) []
unfolding dictionary_map compress_with_dictionary
dictionary_map-metadata data' d h = ap (λ v. read_dict v []) (dictionary_metadata-Numbered d h)

-- A document that is compressed with the dictionary that is built of any counts, whatever the thresholds
-- of the configuration are, and decoded with the dictionary of its own metadata, is the document
-- again, when the counts have one entry for each string. It may hold texts that look like markers.
pub decompress_data-compress :
    (repetitions : List (Text × ℕ)) (c : CompressionConfig) (data' : JsonData)
    → Unique repetitions
    → decompress_data (compress_with_dictionary data' (build_dictionary repetitions c).0) ≡ ok data'
unfolding compress_with_dictionary decompress_data
decompress_data-compress repetitions c data' u =
    let d = (build_dictionary repetitions c).0 in
    let (numbered, small) = build_dictionary-Numbered repetitions c u in
    let finds : Finds d (dictionary_entries 0 (text_items d) []) = λ s i l. (
      omega (arith, lookup-lt 0 i s d numbered l),
      dictionary_entries-lookup 0 i s d [] numbered (omega arith) l,
    ) in
    rw (dictionary_map-metadata data' d numbered) (decompress-substitute d _ data' finds)

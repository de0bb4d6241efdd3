-- ===== src/Dictionary.antt =====
-- crates/pjs-core/src/compression/mod.rs and crates/pjs-core/src/stream/compression_integration.rs:
-- the dictionary scheme, from the count of the strings to the decoded document. A `serde_json::Value`
-- is a `JsonData`; a map that is rebuilt under its own keys is rebuilt entry by entry. Sizes as the
-- source adds them up in an `i64` are unbounded here, and the measured wire size is left out.
pub mod Numbering
pub mod RoundTrip
mod Tests
use pjs.Prelude.{
  ℕ, zero, suc, ◌+◌, ◌-◌, ◌*◌, List, [], ◌∷◌, Bool, true, false, ◌&&◌, ◌||◌, Option, none, some,
  ltb, ◌==◌, if◌then◌else◌, length, is_empty, list_beq, text_eq, nat_eq,
}
use pjs.Prelude.Map.{lookup, insert}
use pjs.Prelude.Sort.By.{sort_by}
use pjs.Prelude.Int.{ℤ, pos, sub_ℕ}
use pjs.Prelude.Text.{Text, codes, len, text_le}
use pjs.Outcome.{DomainResult, ok, err, ◌>>=◌, ok_or, compression_error}
use pjs.Words.{to_text, parse_usize}
use pjs.JsonData.{JsonData, string, array, object, Items, nil, cons, Fields, end, field}

abbrev pub dict_sentinel : ℕ
dict_sentinel = 0x7f

abbrev pub max_u16 : ℕ
max_u16 = 65535

-- The fields that the dictionary scheme reads.
pub record CompressionConfig : Type 0 where
  pub min_string_length : ℕ
  pub min_frequency_count : ℕ

abbrev pub decimal_digits : ℕ → ℕ
decimal_digits n = len (to_text n)

-- Whether a string is repeated often enough, and long enough.
abbrev pub is_candidate : CompressionConfig → Text × ℕ → Bool
is_candidate c (s, count) = ltb c.min_frequency_count count && ltb c.min_string_length (len s)

abbrev pub candidates : CompressionConfig → List (Text × ℕ) → List (Text × ℕ)
candidates c [] = []
candidates c (entry ∷ rest) =
    if is_candidate c entry then entry ∷ candidates c rest else candidates c rest

abbrev pub payoff : Text × ℕ → ℕ
payoff (s, count) = count * len s

-- The order of the candidates: the greatest payoff first, then by the text.
abbrev pub comes_first : Text × ℕ → Text × ℕ → Bool
comes_first p q = ltb (payoff q) (payoff p) || ((payoff p == payoff q) && text_le p.0 q.0)

-- `count * (len - marker)`; a string shorter than its marker has no gain, and is not kept.
abbrev pub gain : Text → ℕ → ℕ → ℕ
gain s count index = count * (len s - (1 + decimal_digits index))

abbrev pub cost : Text → ℕ
cost s = len s + 3

pub record Building : Type 0 where
  pub dictionary : List (Text × ℕ)
  pub net : ℕ
  pub index : ℕ

abbrev pub nothing_kept : Building
nothing_kept = record { dictionary = []; net = 0; index = 0 }

abbrev pub keep : Text → ℕ → Building → Building
keep s count b = record {
  dictionary = insert s b.index b.dictionary;
  net = b.net + (gain s count b.index - cost s);
  index = suc b.index;
}

abbrev pub keep_entry : Text → ℕ → Building → Building
keep_entry s count b = if ltb (cost s) (gain s count b.index) then keep s count b else b

unfoldable pub keep_entries : List (Text × ℕ) → Building → Building
unfolding insert
keep_entries [] b = b
keep_entries ((s, count) ∷ rest) b =
    let more = keep_entries rest (keep_entry s count b) in if b.index == max_u16 then b else more

-- The envelope of the metadata is subtracted once.
abbrev pub net_saving : Building → ℤ
net_saving b = if is_empty b.dictionary then pos b.net else sub_ℕ b.net 10

unfoldable pub build_dictionary : List (Text × ℕ) → CompressionConfig → List (Text × ℕ) × ℤ
unfolding keep_entries sort_by
build_dictionary repetitions c =
    let b = keep_entries (sort_by comes_first (candidates c repetitions)) nothing_kept in
    (b.dictionary, net_saving b)

abbrev pub empty_slots : ℕ → List (Option Text)
empty_slots zero = []
empty_slots (suc n) = none ∷ empty_slots n

-- `get_mut` and a write: nothing out of range.
abbrev pub set_slot : ℕ → Text → List (Option Text) → List (Option Text)
set_slot i s [] = []
set_slot zero s (slot ∷ slots) = some s ∷ slots
set_slot (suc i) s (slot ∷ slots) = slot ∷ set_slot i s slots

abbrev pub fill_slots : List (Text × ℕ) → List (Option Text) → List (Option Text)
fill_slots [] slots = slots
fill_slots ((s, i) ∷ dictionary) slots = fill_slots dictionary (set_slot i s slots)

abbrev pub unwrap_or_default : Option Text → Text
unwrap_or_default none = []
unwrap_or_default (some s) = s

abbrev pub slot_items : List (Option Text) → Items
slot_items [] = nil
slot_items (slot ∷ slots) = cons (string (unwrap_or_default slot)) (slot_items slots)

unfoldable pub dictionary_metadata : List (Text × ℕ) → JsonData
dictionary_metadata dictionary =
    array (slot_items (fill_slots dictionary (empty_slots (length dictionary))))

abbrev pub escape : Text → Text
escape [] = []
escape (c ∷ s) = if c == dict_sentinel then dict_sentinel ∷ c ∷ s else c ∷ s

abbrev pub marker_or : Option ℕ → Text → Text
marker_or (some index) s = dict_sentinel ∷ to_text index
marker_or none s = escape s

unfoldable pub encode_string : List (Text × ℕ) → Text → Text
unfolding lookup
encode_string dictionary s = marker_or (lookup s dictionary) s

unfoldable mutual
  unfolding encode_string

  pub substitute_dictionary_strings : List (Text × ℕ) → JsonData → JsonData
  substitute_dictionary_strings d (object o) = object (substitute_fields d o)
  substitute_dictionary_strings d (array a) = array (substitute_items d a)
  substitute_dictionary_strings d (string s) = string (encode_string d s)
  substitute_dictionary_strings d v = v

  pub substitute_items : List (Text × ℕ) → Items → Items
  substitute_items d nil = nil
  substitute_items d (cons v rest) =
      cons (substitute_dictionary_strings d v) (substitute_items d rest)

  pub substitute_fields : List (Text × ℕ) → Fields → Fields
  substitute_fields d end = end
  substitute_fields d (field k v rest) =
      field k (substitute_dictionary_strings d v) (substitute_fields d rest)

-- The data and the metadata of the compressed value.
unfoldable pub compress_with_dictionary :
    JsonData → List (Text × ℕ) → JsonData × List (Text × JsonData)
unfolding substitute_dictionary_strings dictionary_metadata
compress_with_dictionary data' dictionary = (
  substitute_dictionary_strings dictionary data',
  (codes "dict", dictionary_metadata dictionary) ∷ [],
)

-- One entry of the `dict` array: what is no string, or has no index in a `u16`, is skipped.
abbrev pub dictionary_entry : ℕ → JsonData → List (ℕ × Text) → List (ℕ × Text)
dictionary_entry i (string s) m = if ltb max_u16 i then m else insert i s m
dictionary_entry i v m = m

unfoldable pub dictionary_entries : ℕ → Items → List (ℕ × Text) → List (ℕ × Text)
unfolding insert
dictionary_entries i nil m = m
dictionary_entries i (cons v rest) m = dictionary_entries (suc i) rest (dictionary_entry i v m)

abbrev pub read_dict : JsonData → List (ℕ × Text) → List (ℕ × Text)
unfolding dictionary_entries
read_dict (array entries) m = dictionary_entries 0 entries m
read_dict v m = m

-- The dictionary that a client makes of the metadata; the bases of the delta scheme are left out.
unfoldable pub dictionary_map : List (Text × JsonData) → List (ℕ × Text) → List (ℕ × Text)
unfolding dictionary_entries
dictionary_map [] m = m
dictionary_map ((key, value) ∷ rest) m =
    dictionary_map rest (if list_beq key (codes "dict") then read_dict value m else m)

-- `str::parse::<u16>`.
abbrev pub within_u16 : Option ℕ → Option ℕ
within_u16 none = none
within_u16 (some n) = if ltb max_u16 n then none else some n

unfoldable pub parse_u16 : Text → Option ℕ
unfolding parse_usize
parse_u16 s = within_u16 (parse_usize s)

unfoldable pub decode_marker : List (ℕ × Text) → Text → DomainResult Text
unfolding parse_u16 lookup
decode_marker m rest =
    ok_or (parse_u16 rest) compression_error >>= λ i. ok_or (lookup i m) compression_error

unfoldable pub decode_dictionary_string : List (ℕ × Text) → Text → DomainResult Text
unfolding decode_marker
decode_dictionary_string m [] = ok []
decode_dictionary_string m (c ∷ []) = if c == dict_sentinel then decode_marker m [] else ok (c ∷ [])
decode_dictionary_string m (c ∷ d ∷ s) =
    if c == dict_sentinel
    then (if d == dict_sentinel then ok (d ∷ s) else decode_marker m (d ∷ s))
    else ok (c ∷ d ∷ s)

unfoldable mutual
  unfolding decode_dictionary_string

  pub decompress_dictionary : List (ℕ × Text) → JsonData → DomainResult JsonData
  decompress_dictionary m (object o) = decompress_fields m o >>= λ o'. ok (object o')
  decompress_dictionary m (array a) = decompress_items m a >>= λ a'. ok (array a')
  decompress_dictionary m (string s) = decode_dictionary_string m s >>= λ s'. ok (string s')
  decompress_dictionary m v = ok v

  pub decompress_items : List (ℕ × Text) → Items → DomainResult Items
  decompress_items m nil = ok nil
  decompress_items m (cons v rest) =
      decompress_dictionary m v >>= λ v'. decompress_items m rest >>= λ rest'. ok (cons v' rest')

  pub decompress_fields : List (ℕ × Text) → Fields → DomainResult Fields
  decompress_fields m end = ok end
  decompress_fields m (field k v rest) = decompress_dictionary m v >>= λ v'.
      decompress_fields m rest >>= λ rest'. ok (field k v' rest')

-- `decompress_data` of a value compressed with a dictionary: the frame's own dictionary decodes it.
unfoldable pub decompress_data : JsonData × List (Text × JsonData) → DomainResult JsonData
unfolding decompress_dictionary dictionary_map
decompress_data (data', metadata) = decompress_dictionary (dictionary_map metadata []) data'

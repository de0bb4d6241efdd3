-- ===== src/Dictionary/Tests.antt =====
-- The dictionary scheme on a small document.
use pjs.Prelude.{◌≡◌, refl, List, [], ◌∷◌, ℕ, text_eq}
use pjs.Prelude.Map.{lookup}
use pjs.Prelude.Text.{Text, codes}
use pjs.Prelude.Int.{pos}
use pjs.Outcome.{ok, err, compression_error}
use pjs.JsonData.{JsonData, string, array, object, nil, cons, end, field}
use pjs.Dictionary.{
  CompressionConfig, dict_sentinel, build_dictionary, compress_with_dictionary,
  decode_dictionary_string, decompress_data,
}
use pjs.Dictionary.RoundTrip.{decompress_data-compress}

abbrev default_config : CompressionConfig
default_config = record { min_string_length = 3; min_frequency_count = 1 }

-- The short text does not pay for itself.
abbrev counts : List (Text × ℕ)
counts = (codes "active", 2) ∷ (codes "waiting for review", 3) ∷ []

-- The second text looks like a marker.
abbrev document : JsonData
document = object (
    field (codes "state") (string (codes "waiting for review")) (
      field (codes "items")
        (array (cons (string (dict_sentinel ∷ b'0' ∷ [])) (cons (string (codes "active")) nil)))
        end))

one_entry : build_dictionary counts default_config ≡ ((codes "waiting for review", 0) ∷ [], pos 17)
unfolding build_dictionary pjs.Prelude.Text.len pjs.Words.to_text
one_entry = refl

unknown_marker : decode_dictionary_string [] (dict_sentinel ∷ b'7' ∷ []) ≡ err compression_error
unfolding decode_dictionary_string
unknown_marker = refl

decompress_data-compress_example :
    decompress_data (compress_with_dictionary document (build_dictionary counts default_config).0)
    ≡ ok document
unfolding lookup
decompress_data-compress_example =
    decompress_data-compress counts default_config document (refl, (refl, tt))

-- ===== src/Decompression/Success.antt =====
-- What it means that decompression succeeds, and that it does for what the compressor made.
use mathlib.Core.List.{append_assoc, append-nil}
use pjs.Prelude.{
  ℕ, ◌≤◌, ◌≡◌, refl, sym, ◌∙◌, arith, true, false, ◌&&◌, Option, [], ◌∷◌, ◌++◌, ltb, length, inl,
  inr,
}
use pjs.Prelude.Result.{Result, ok, err, >>=-eq-ok, is_ok, Result-cases}
use pjs.Decompression.{
  Ratio, Error, CompressionBombConfig, CompressionBombProtector, ratio_too_high, read, Bytes,
  Decoder, read_to_end, validate_pre_decompression, validate_result, protect, finished,
  decode_with_protection, SecureCompressedData, decoded, decompress,
}

-- The bytes that a decoder gives up to its end.
abbrev pub contents : Decoder → Bytes
contents [] = []
contents (err e ∷ chunks) = []
contents (ok [] ∷ chunks) = []
contents (ok (b ∷ bytes) ∷ chunks) = b ∷ bytes ++ contents chunks

read_to_end-contents :
    (r : Ratio) (p : CompressionBombProtector) (out : Bytes) (decoder : Decoder)
    → is_ok (read_to_end r p out decoder).1 ≡ true
    → (read_to_end r p out decoder).0 ≡ out ++ contents decoder
unfolding read_to_end
read_to_end-contents r p out [] e = sym (append-nil out)
read_to_end-contents r p out (err x ∷ chunks) e = absurd (cc e)
read_to_end-contents r p out (ok [] ∷ chunks) e = sym (append-nil out)
read_to_end-contents r p out (ok (b ∷ bytes) ∷ chunks) e =
    elim (Result-cases (read r p (length (b ∷ bytes))).1) [
      | inr (x, failed) ↦ absurd (cc (rw (failed, read_to_end) at e))
      | inl (u, worked) ↦
          let q = (read r p (length (b ∷ bytes))).0 in
          rw (worked, read_to_end)
            (read_to_end-contents r q (out ++ b ∷ bytes) chunks (rw (worked, read_to_end) at e)
              ∙ append_assoc out (b ∷ bytes) (contents chunks))
    ]

-- The limits that a result has met.
abbrev pub IsWithin : Ratio → CompressionBombConfig → ℕ → Bytes → Type 0
IsWithin r c compressed_size out =
    (compressed_size ≤ c.max_compressed_size)
    × (length out ≤ c.max_decompressed_size)
    × ((ltb 0 compressed_size && ratio_too_high r c compressed_size (length out)) ≡ false)

finished-ok :
    (r : Ratio) (c : CompressionBombConfig) (size : ℕ) (answer : Bytes × Result Error (Unit {0}))
    (out : Bytes)
    → finished r c size answer ≡ ok out
    → (is_ok answer.1 ≡ true) × (answer.0 ≡ out) × (validate_result r c size (length out) ≡ ok tt)
finished-ok r c size (found, err e) out f = absurd (cc f)
finished-ok r c size (found, ok u) out f =
    let (u', valid, same) = >>=-eq-ok (validate_result r c size (length found)) (λ u. ok found) f in
    let whole : found ≡ out = cc same in (refl, whole, rw (← whole) valid)

validate_result-ok :
    (r : Ratio) (c : CompressionBombConfig) (size n : ℕ)
    → validate_result r c size n ≡ ok tt
    → (n ≤ c.max_decompressed_size) × ((ltb 0 size && ratio_too_high r c size n) ≡ false)
unfolding validate_result
validate_result-ok r c size n e = ground arith

validate_pre-ok :
    (c : CompressionBombConfig) (size : ℕ) (u : Unit {0})
    → validate_pre_decompression c size ≡ ok u
    → size ≤ c.max_compressed_size
unfolding validate_pre_decompression
validate_pre-ok c size u e = ground arith

decode_with_protection-ok :
    (r : Ratio) (c : CompressionBombConfig) (decoder : Decoder) (size : ℕ) (depth : Option ℕ)
    (out : Bytes)
    → decode_with_protection r c decoder size depth ≡ ok out
    → (out ≡ contents decoder)
      × (length out ≤ c.max_decompressed_size)
      × ((ltb 0 size && ratio_too_high r c size (length out)) ≡ false)
unfolding decode_with_protection
decode_with_protection-ok r c decoder size depth out e =
    let (p, opened, f) =
      >>=-eq-ok (protect c size depth) (λ p. finished r c size (read_to_end r p [] decoder)) e in
    let (well, same, valid) = finished-ok r c size (read_to_end r p [] decoder) out f in
    let (few, flat) = validate_result-ok r c size (length out) valid in
    (sym same ∙ read_to_end-contents r p [] decoder well, few, flat)

decoded-ok :
    (r : Ratio) (c : CompressionBombConfig) (opened : Result (Unit {0}) Decoder) (size : ℕ)
    (depth : Option ℕ) (out : Bytes)
    → decoded r c opened size depth ≡ ok out
    → (decoder : Decoder) × (opened ≡ ok decoder)
      × (decode_with_protection r c decoder size depth ≡ ok out)
decoded-ok r c (err e) size depth out f = absurd (cc f)
decoded-ok r c (ok decoder) size depth out f = (decoder, refl, f)

-- When decompression succeeds, nested or not, the compressed bytes were within their limit, the result is all
-- that the codec's decoder gives for them, and it is within the limits of size and ratio.
pub decompress-IsWithin :
    (r : Ratio) (c : CompressionBombConfig) (d : SecureCompressedData) (depth : Option ℕ)
    (out : Bytes)
    → decompress r c d depth ≡ ok out
    → (decoder : Decoder) × (d.codec.open_decoder d.payload ≡ ok decoder)
      × (out ≡ contents decoder)
      × IsWithin r c (length d.payload) out
unfolding decompress
decompress-IsWithin r c d depth out e =
    let (u, small, f) =
      >>=-eq-ok (validate_pre_decompression c (length d.payload))
        (λ u. decoded r c (d.codec.open_decoder d.payload) (length d.payload) depth) e in
    let (decoder, opened, done) =
      decoded-ok r c (d.codec.open_decoder d.payload) (length d.payload) depth out f in
    let (same, few, flat) =
      decode_with_protection-ok r c decoder (length d.payload) depth out done in
    (decoder, opened, same, (validate_pre-ok c (length d.payload) u small, few, flat))

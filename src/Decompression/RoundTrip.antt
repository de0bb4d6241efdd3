-- ===== src/Decompression/RoundTrip.antt =====
-- What the compressor made is decompressed to what it was, within the limits.
use mathlib.Core.List.{append_assoc, append-nil}
use pjs.Prelude.{
  ℕ, ◌+◌, ◌≤◌, ◌<◌, ◌^◌, ◌≡◌, refl, ap, ◌∙◌, arith, false, none, [], ◌∷◌, ◌++◌, ltb, length,
  length-append, inl, inr, le→not-ltb, All,
}
use pjs.Prelude.Result.{Result, ok, err, >>=-eq-ok, Result-cases}
use pjs.Decompression.{
  Ratio, Error, CompressionBombConfig, CompressionBombProtector, new, check_limits, ratio_too_high,
  read, Bytes, Decoder, read_to_end, validate_pre_decompression, validate_result, finished,
  decode_with_protection, ByteCodec, SecureCompressedData, compress, compressed, decompress,
}
use pjs.Decompression.Success.{contents}

-- Reads that give bytes.
abbrev pub IsChunk : Result (Unit {0}) Bytes → Type 0
IsChunk (ok (b ∷ bytes)) = Unit
IsChunk _ = ⊥

-- A codec whose decoder gives back what was encoded.
abbrev pub IsLossless : ByteCodec → Type 0
IsLossless codec =
    (bytes z : Bytes)
    → codec.encode bytes ≡ ok z
    → (decoder : Decoder) × (codec.open_decoder z ≡ ok decoder)
      × All IsChunk decoder
      × (contents decoder ≡ bytes)

-- No size up to the total has a ratio above the limit.
abbrev pub IsFlat : Ratio → CompressionBombConfig → ℕ → ℕ → Type 0
IsFlat r c size total = (n : ℕ) → n ≤ total → ratio_too_high r c size n ≡ false

module _ (r : Ratio) (c : CompressionBombConfig) (size total : ℕ) (flat : IsFlat r c size total)
    (fits : total ≤ c.max_decompressed_size) (word : c.max_decompressed_size < 2 ^ 64) where
  read-ok :
      (p : CompressionBombProtector) (n : ℕ)
      → p.config ≡ c
      → p.compressed_size ≡ size
      → p.decompressed_size + n ≤ total
      → (read r p n).1 ≡ ok tt
  unfolding read check_limits
  read-ok p n same sized room = ground (arith, flat (p.decompressed_size + n) room)

  read-keeps :
      (p : CompressionBombProtector) (n : ℕ)
      → p.config ≡ c
      → p.decompressed_size + n ≤ total
      → ((read r p n).0.config ≡ p.config)
        × ((read r p n).0.compressed_size ≡ p.compressed_size)
        × ((read r p n).0.decompressed_size ≡ p.decompressed_size + n)
  unfolding read check_limits
  read-keeps p n same room = ground arith

  read_to_end-ok :
      (p : CompressionBombProtector) (out : Bytes) (decoder : Decoder)
      → All IsChunk decoder
      → p.config ≡ c
      → p.compressed_size ≡ size
      → p.decompressed_size + length (contents decoder) ≤ total
      → read_to_end r p out decoder ≡ (out ++ contents decoder, ok tt)
  unfolding read_to_end
  read_to_end-ok p out [] chunks same sized room =
      rw (read-ok p 0 same sized room, append-nil out) refl
  read_to_end-ok p out (err e ∷ decoder) chunks same sized room = absurd chunks.0
  read_to_end-ok p out (ok [] ∷ decoder) chunks same sized room = absurd chunks.0
  read_to_end-ok p out (ok (b ∷ bytes) ∷ decoder) chunks same sized room =
      let n = length (b ∷ bytes) in
      let here : p.decompressed_size + n ≤ total =
        omega (arith, room, length-append (b ∷ bytes) (contents decoder)) in
      let (kept, kept_size, grown) = read-keeps p n same here in
      let q = (read r p n).0 in
      let next : q.decompressed_size + length (contents decoder) ≤ total =
        omega (arith, room, grown, length-append (b ∷ bytes) (contents decoder)) in
      rw
        (
          read-ok p n same sized here,
          read_to_end,
          ← append_assoc out (b ∷ bytes) (contents decoder),
        )
        (read_to_end-ok q (out ++ b ∷ bytes) decoder chunks.1 (kept ∙ same) (kept_size ∙ sized)
          next)

  finished-validate_result :
      (bytes : Bytes) → length bytes ≤ total → finished r c size (bytes, ok tt) ≡ ok bytes
  unfolding validate_result
  finished-validate_result bytes few = ground (arith, flat (length bytes) few)

success-eq :
    {a b : SecureCompressedData} {x y : Result Error SecureCompressedData}
    → x ≡ ok a
    → y ≡ ok b
    → x ≡ y
    → a ≡ b
success-eq e f g = cc (e, f, g)

compress-ok :
    (r : Ratio) (c : CompressionBombConfig) (codec : ByteCodec) (bytes : Bytes)
    (d : SecureCompressedData)
    → compress r c codec bytes ≡ ok d
    → (codec.encode bytes ≡ ok d.payload) × (codec ≡ d.codec)
unfolding compress
compress-ok r c codec bytes d e =
    let (u, small, f) =
      >>=-eq-ok (validate_pre_decompression c (length bytes))
        (λ u. compressed r codec bytes (codec.encode bytes)) e in
    elim (Result-cases (codec.encode bytes)) [
      | inr (x, failed) ↦ absurd (cc (rw (failed, compressed) at f))
      | inl (z, encoded) ↦
          let made = rw (encoded, compressed) at f in
          (
            encoded ∙ ap (λ x. ok x.payload) (success-eq refl refl made),
            ap (λ x. x.codec) (success-eq refl refl made),
          )
    ]

-- With a codec whose decoder gives back what was encoded, and sizes of `usize`: what was compressed is
-- decompressed to what it was, if the compressed bytes and the result are within their limits and no size up to
-- that of the result has too high a ratio.
pub decompress-compress :
    (r : Ratio) (c : CompressionBombConfig) (codec : ByteCodec) (bytes : Bytes)
    (d : SecureCompressedData)
    → IsLossless codec
    → c.max_decompressed_size < 2 ^ 64
    → compress r c codec bytes ≡ ok d
    → length d.payload ≤ c.max_compressed_size
    → length bytes ≤ c.max_decompressed_size
    → IsFlat r c (length d.payload) (length bytes)
    → decompress r c d none ≡ ok bytes
unfolding decompress decode_with_protection validate_pre_decompression
decompress-compress r c codec bytes d lossless word made small few flat =
    let (encoded, same) = compress-ok r c codec bytes d made in
    let (decoder, opened, chunks, whole) = lossless bytes d.payload encoded in
    let size = length d.payload in
    let total = length bytes in
    let start = new c size in
    let all =
      read_to_end-ok r c size total flat few word start [] decoder chunks refl refl
        (rw whole (omega arith)) in
    let open_now : d.codec.open_decoder d.payload ≡ ok decoder = rw (← same) opened in
    let allowed : ltb c.max_compressed_size size ≡ false =
      le→not-ltb c.max_compressed_size size small in
    rw (allowed, open_now, all, whole)
      (finished-validate_result r c size total flat few word bytes (omega arith))

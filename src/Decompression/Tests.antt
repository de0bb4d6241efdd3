-- ===== src/Decompression/Tests.antt =====
-- The compressor with the codec that leaves its bytes as they are.
use mathlib.Core.List.{append-nil}
use pjs.Prelude.{◌<◌, ◌≡◌, refl, sym, ◌∙◌, arith, false, none, [], ◌∷◌, length, All}
use pjs.Prelude.Result.{ok, err}
use pjs.Decompression.{
  Ratio, size_exceeded, CompressionBombConfig, ByteCodec, SecureCompressedData, Decoder, Bytes,
  new_at, read_to_end, compress, decompress, default_config, ratio_too_high,
}
use pjs.Decompression.Limits.{read_to_end-bounded}
use pjs.Decompression.Success.{contents, IsWithin, decompress-IsWithin}
use pjs.Decompression.RoundTrip.{IsLossless, IsChunk, decompress-compress}

abbrev all_flat : Ratio
all_flat = record { quotient = λ a b. 0; gt = λ a b. false }

abbrev small_limits : CompressionBombConfig
small_limits = record default_config {
  max_decompressed_size = 4;
  max_compressed_size = 8;
  check_interval_bytes = 2;
}

abbrev as_read : Bytes → Decoder
as_read [] = []
as_read (b ∷ bytes) = ok (b ∷ bytes) ∷ []

-- `ByteCodec::None`.
abbrev plain : ByteCodec
plain = record { encode = λ bytes. ok bytes; open_decoder = λ bytes. ok (as_read bytes) }

as_read-lossless :
    (bytes : Bytes) → All IsChunk (as_read bytes) × (contents (as_read bytes) ≡ bytes)
as_read-lossless [] = (tt, refl)
as_read-lossless (b ∷ bytes) = ((tt, tt), append-nil (b ∷ bytes))

plain-IsLossless : IsLossless plain
plain-IsLossless bytes z e =
    let (chunks, whole) = as_read-lossless z in
    let same : bytes ≡ z = cc e in (as_read z, refl, chunks, whole ∙ sym same)

abbrev three : Bytes
three = 1 ∷ 2 ∷ 3 ∷ []

abbrev packed : SecureCompressedData
packed = record { payload = three; original_size = 3; compression_ratio = 0; codec = plain }

-- One byte more than the limit comes between two checks.
abbrev drip : Decoder
drip = ok (1 ∷ 2 ∷ 3 ∷ 4 ∷ []) ∷ ok (5 ∷ []) ∷ ok (6 ∷ 7 ∷ []) ∷ []

stopped_late :
    read_to_end all_flat (new_at small_limits 3 0) [] drip
    ≡ (1 ∷ 2 ∷ 3 ∷ 4 ∷ 5 ∷ [], err (size_exceeded 7 4))
unfolding read_to_end ratio_too_high
stopped_late = refl

read_to_end-bounded_example : length (read_to_end all_flat (new_at small_limits 3 0) [] drip).0 < 6
read_to_end-bounded_example =
    read_to_end-bounded all_flat small_limits 3 0 drip (omega arith) (omega arith)
      (omega arith, (omega arith, (omega arith, tt)))

decompress-IsWithin_example :
    (decoder : Decoder) × (plain.open_decoder three ≡ ok decoder)
    × (three ≡ contents decoder)
    × IsWithin all_flat small_limits 3 three
unfolding decompress ratio_too_high
decompress-IsWithin_example = decompress-IsWithin all_flat small_limits packed none three refl

decompress-compress_example : decompress all_flat small_limits packed none ≡ ok three
unfolding compress ratio_too_high
decompress-compress_example =
    decompress-compress all_flat small_limits plain three packed plain-IsLossless (omega arith) refl
      (omega arith) (omega arith) (λ n few. refl)

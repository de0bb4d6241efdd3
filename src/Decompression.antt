-- ===== src/Decompression.antt =====
-- crates/pjs-core/src/security/compression_bomb.rs and crates/pjs-core/src/compression/secure.rs: the limits on
-- decompression and the compressor that keeps them. A byte string is a list of its bytes, an error keeps its
-- variant. The codecs are third-party: an encoder is a function, a decoder the list of what its reads give one
-- after the other, whatever the buffers are; the end is a read of nothing. The quotient of
-- two sizes as `f64` and the comparison are fields of `Ratio`.
pub mod Limits
pub mod Success
pub mod RoundTrip
mod Tests
use pjs.Prelude.{
  ℕ, ◌+◌, ◌-◌, ◌*◌, ◌^◌, ◌%◌, max, Bool, true, false, ◌&&◌, Option, none, some, List, [], ◌∷◌, ◌++◌,
  ltb, leb, if◌then◌else◌, length,
}
use pjs.Prelude.Result.{Result, ok, err, ◌>>=◌, require}

pub record Ratio : Type 0 where
  pub quotient : ℕ → ℕ → ℕ
  pub gt : ℕ → ℕ → Bool

-- `ratio_exceeded`, `size_exceeded` and `depth_exceeded` are those of `CompressionBombError`.
pub data Error : Type 0 where
  ratio_exceeded compressed_size_exceeded decompression_failed compression_error too_many_streams :
      Error
  size_exceeded depth_exceeded : ℕ → ℕ → Error

-- `max_ratio` is the bits of an `f64`.
pub record CompressionBombConfig : Type 0 where
  pub max_ratio : ℕ
  pub max_decompressed_size : ℕ
  pub max_compressed_size : ℕ
  pub max_compression_depth : ℕ
  pub check_interval_bytes : ℕ

abbrev pub mib : ℕ
mib = 1024 * 1024

abbrev pub default_config : CompressionBombConfig
default_config = record {
  max_ratio = 0x4072c00000000000;
  max_decompressed_size = 100 * mib;
  max_compressed_size = 100 * mib;
  max_compression_depth = 3;
  check_interval_bytes = 64 * 1024;
}

abbrev pub high_security : CompressionBombConfig
high_security = record {
  max_ratio = 0x4034000000000000;
  max_decompressed_size = 10 * mib;
  max_compressed_size = 10 * mib;
  max_compression_depth = 2;
  check_interval_bytes = 32 * 1024;
}

abbrev pub low_memory : CompressionBombConfig
low_memory = record {
  max_ratio = 0x4049000000000000;
  max_decompressed_size = 5 * mib;
  max_compressed_size = 5 * mib;
  max_compression_depth = 2;
  check_interval_bytes = 16 * 1024;
}

abbrev pub high_throughput : CompressionBombConfig
high_throughput = record {
  max_ratio = 0x408f400000000000;
  max_decompressed_size = 500 * mib;
  max_compressed_size = 500 * mib;
  max_compression_depth = 5;
  check_interval_bytes = 128 * 1024;
}

-- The protector without its reader.
pub record CompressionBombProtector : Type 0 where
  pub config : CompressionBombConfig
  pub compressed_size : ℕ
  pub decompressed_size : ℕ
  pub bytes_since_check : ℕ
  pub compression_depth : ℕ

abbrev pub new_at : CompressionBombConfig → ℕ → ℕ → CompressionBombProtector
new_at c compressed_size depth = record {
  config = c;
  compressed_size = compressed_size;
  decompressed_size = 0;
  bytes_since_check = 0;
  compression_depth = depth;
}

abbrev pub new : CompressionBombConfig → ℕ → CompressionBombProtector
new c compressed_size = new_at c compressed_size 0

unfoldable pub with_depth : CompressionBombConfig → ℕ → ℕ → Result Error CompressionBombProtector
with_depth c compressed_size depth =
    if ltb c.max_compression_depth depth
    then err (depth_exceeded depth c.max_compression_depth)
    else ok (new_at c compressed_size depth)

unfoldable pub ratio_too_high : Ratio → CompressionBombConfig → ℕ → ℕ → Bool
ratio_too_high r c compressed_size decompressed_size =
    r.gt (r.quotient decompressed_size compressed_size) c.max_ratio

unfoldable pub check_limits : Ratio → CompressionBombProtector → Result Error (Unit {0})
check_limits r p =
    if ltb p.config.max_decompressed_size p.decompressed_size
    then err (size_exceeded p.decompressed_size p.config.max_decompressed_size)
    else if ltb 0 p.compressed_size
        && ltb 0 p.decompressed_size
        && ratio_too_high r p.config p.compressed_size p.decompressed_size
    then err ratio_exceeded
    else ok tt

abbrev pub add_usize : ℕ → ℕ → ℕ
add_usize a b = (a + b) % 2 ^ 64

abbrev pub checked :
    CompressionBombProtector
    → Result Error (Unit {0})
    → CompressionBombProtector × Result Error (Unit {0})
checked p (ok u) = (record p { bytes_since_check = 0 }, ok tt)
checked p (err e) = (p, err e)

-- `read`, when the reader inside gave that many bytes.
unfoldable pub read :
    Ratio → CompressionBombProtector → ℕ → CompressionBombProtector × Result Error (Unit {0})
unfolding check_limits
read r p bytes_read =
    let q = record p {
      decompressed_size = add_usize p.decompressed_size bytes_read;
      bytes_since_check = add_usize p.bytes_since_check bytes_read;
    } in
    if leb p.config.check_interval_bytes q.bytes_since_check
    then checked q (check_limits r q)
    else (q, ok tt)

abbrev pub Bytes : Type 0
Bytes = List ℕ

-- What a read of a decoder gives: bytes, or an error of its own.
abbrev pub Decoder : Type 0
Decoder = List (Result (Unit {0}) Bytes)

-- `read_to_end` on the protected decoder: the bytes collected, and how it ended.
unfoldable pub read_to_end :
    Ratio → CompressionBombProtector → Bytes → Decoder → Bytes × Result Error (Unit {0})
unfolding read
read_to_end r p out [] = (out, (read r p 0).1)
read_to_end r p out (err e ∷ chunks) = (out, err decompression_failed)
read_to_end r p out (ok [] ∷ chunks) = (out, (read r p 0).1)
read_to_end r p out (ok (b ∷ bytes) ∷ chunks) =
    let (q, answer) = read r p (length (b ∷ bytes)) in
    let rest = read_to_end r q (out ++ b ∷ bytes) chunks in
    elim answer [ ok u ↦ rest | err e ↦ (out, err e) ]

unfoldable pub validate_pre_decompression : CompressionBombConfig → ℕ → Result Error (Unit {0})
validate_pre_decompression c compressed_size =
    if ltb c.max_compressed_size compressed_size then err compressed_size_exceeded else ok tt

unfoldable pub validate_result : Ratio → CompressionBombConfig → ℕ → ℕ → Result Error (Unit {0})
validate_result r c compressed_size decompressed_size =
    if ltb c.max_decompressed_size decompressed_size
    then err (size_exceeded decompressed_size c.max_decompressed_size)
    else if ltb 0 compressed_size && ratio_too_high r c compressed_size decompressed_size
    then err ratio_exceeded
    else ok tt

-- The protector for a run, with the depth if there is one.
abbrev pub protect : CompressionBombConfig → ℕ → Option ℕ → Result Error CompressionBombProtector
protect c compressed_size none = ok (new c compressed_size)
protect c compressed_size (some depth) = with_depth c compressed_size depth

abbrev pub finished :
    Ratio → CompressionBombConfig → ℕ → Bytes × Result Error (Unit {0}) → Result Error Bytes
finished r c compressed_size (out, err e) = err decompression_failed
finished r c compressed_size (out, ok u) =
    validate_result r c compressed_size (length out) >>= λ u. ok out

unfoldable pub decode_with_protection :
    Ratio → CompressionBombConfig → Decoder → ℕ → Option ℕ → Result Error Bytes
unfolding read_to_end with_depth validate_result
decode_with_protection r c decoder compressed_size depth = protect c compressed_size depth >>= λ p.
    finished r c compressed_size (read_to_end r p [] decoder)

-- A codec: the encoder, and the decoder that it opens on compressed bytes, if it can.
pub record ByteCodec : Type 0 where
  pub encode : Bytes → Result (Unit {0}) Bytes
  pub open_decoder : Bytes → Result (Unit {0}) Decoder

pub record SecureCompressedData : Type 0 where
  pub payload : Bytes
  pub original_size : ℕ
  pub compression_ratio : ℕ
  pub codec : ByteCodec

abbrev pub compressed :
    Ratio → ByteCodec → Bytes → Result (Unit {0}) Bytes → Result Error SecureCompressedData
compressed r codec bytes (err e) = err compression_error
compressed r codec bytes (ok shorter) = ok (record {
  payload = shorter;
  original_size = length bytes;
  compression_ratio = r.quotient (length bytes) (max (length shorter) 1);
  codec = codec;
})

unfoldable pub compress :
    Ratio → CompressionBombConfig → ByteCodec → Bytes → Result Error SecureCompressedData
unfolding validate_pre_decompression
compress r c codec bytes = validate_pre_decompression c (length bytes) >>= λ u.
    compressed r codec bytes (codec.encode bytes)

abbrev pub decoded :
    Ratio → CompressionBombConfig → Result (Unit {0}) Decoder → ℕ → Option ℕ → Result Error Bytes
decoded r c (err e) size depth = err compression_error
decoded r c (ok decoder) size depth = decode_with_protection r c decoder size depth

-- `decompress_protected` has no depth, `decompress_nested` one.
unfoldable pub decompress :
    Ratio → CompressionBombConfig → SecureCompressedData → Option ℕ → Result Error Bytes
unfolding validate_pre_decompression decode_with_protection
decompress r c d depth = validate_pre_decompression c (length d.payload) >>= λ u.
    decoded r c (d.codec.open_decoder d.payload) (length d.payload) depth

pub record SecureDecompressionContext : Type 0 where
  pub config : CompressionBombConfig
  pub current_depth : ℕ
  pub max_concurrent_streams : ℕ
  pub active_streams : ℕ

abbrev pub new_context : CompressionBombConfig → ℕ → SecureDecompressionContext
new_context c most = record {
  config = c;
  current_depth = 0;
  max_concurrent_streams = most;
  active_streams = 0;
}

-- The stream starts with an empty reader.
unfoldable pub start_stream :
    SecureDecompressionContext
    → ℕ
    → SecureDecompressionContext × Result Error CompressionBombProtector
unfolding with_depth
start_stream x compressed_size =
    if leb x.max_concurrent_streams x.active_streams
    then (x, err too_many_streams)
    else elim (with_depth x.config compressed_size x.current_depth) [
      | err e ↦ (x, err e)
      | ok p ↦ (record x { active_streams = add_usize x.active_streams 1 }, ok p)
    ]

unfoldable pub finish_stream : SecureDecompressionContext → SecureDecompressionContext
finish_stream x =
    if ltb 0 x.active_streams then record x { active_streams = x.active_streams - 1 } else x

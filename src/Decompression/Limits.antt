-- ===== src/Decompression/Limits.antt =====
-- What the limits guarantee: how much is collected at most, and what a success is.
use pjs.Prelude.{
  ℕ, ◌+◌, ◌≤◌, ◌<◌, ◌^◌, ◌≡◌, refl, arith, true, [], ◌∷◌, ◌++◌, length, length-append, inl, inr,
  All,
}
use pjs.Prelude.Result.{Result, ok, err, is_ok, Result-cases}
use pjs.Decompression.{
  Ratio, CompressionBombConfig, CompressionBombProtector, new_at, check_limits, read, Bytes,
  Decoder, read_to_end,
}

-- A slice is shorter than half of the address space.
abbrev pub IsSlice : Result (Unit {0}) Bytes → Type 0
IsSlice (ok bytes) = length bytes < 2 ^ 63
IsSlice (err e) = Unit

-- Since the last check fewer bytes than the interval came, and at that check the size was in its limit.
abbrev IsGuarded : CompressionBombConfig → CompressionBombProtector → Type 0
IsGuarded c p =
    (p.config ≡ c)
    × (p.bytes_since_check < c.check_interval_bytes)
    × (p.decompressed_size ≤ c.max_decompressed_size + p.bytes_since_check)

read-IsGuarded :
    (r : Ratio) (c : CompressionBombConfig) (p : CompressionBombProtector) (n : ℕ)
    → c.max_decompressed_size + c.check_interval_bytes ≤ 2 ^ 63
    → n < 2 ^ 63
    → IsGuarded c p
    → is_ok (read r p n).1 ≡ true
    → IsGuarded c (read r p n).0 × ((read r p n).0.decompressed_size ≡ p.decompressed_size + n)
unfolding read check_limits
read-IsGuarded r c p n room slice g e = ground (arith, g.0)

read_to_end-lt :
    (r : Ratio) (c : CompressionBombConfig) (p : CompressionBombProtector) (out : Bytes)
    (decoder : Decoder)
    → c.max_decompressed_size + c.check_interval_bytes ≤ 2 ^ 63
    → All IsSlice decoder
    → IsGuarded c p
    → length out ≡ p.decompressed_size
    → length (read_to_end r p out decoder).0 < c.max_decompressed_size + c.check_interval_bytes
unfolding read_to_end
read_to_end-lt r c p out [] room slices g same = omega (arith, g.1, g.2, same)
read_to_end-lt r c p out (err e ∷ chunks) room slices g same = omega (arith, g.1, g.2, same)
read_to_end-lt r c p out (ok [] ∷ chunks) room slices g same = omega (arith, g.1, g.2, same)
read_to_end-lt r c p out (ok (b ∷ bytes) ∷ chunks) room slices g same =
    let n = length (b ∷ bytes) in
    elim (Result-cases (read r p n).1) [
      | inr (e, failed) ↦ rw (failed, read_to_end) (omega (arith, g.1, g.2, same))
      | inl (u, worked) ↦
          let (g', grown) = read-IsGuarded r c p n room slices.0 g (rw worked refl) in
          let longer : length (out ++ b ∷ bytes) ≡ (read r p n).0.decompressed_size =
            omega (arith, length-append out (b ∷ bytes), grown, same) in
          rw (worked, read_to_end)
            (read_to_end-lt r c (read r p n).0 (out ++ b ∷ bytes) chunks room slices.1 g' longer)
    ]

-- While a decoder is read to its end under protection, fewer bytes are collected than the maximum
-- decompressed size and the check interval together, however it ends, if the interval is above zero,
-- the two sizes together are at most half of the address space, and each read gives a slice of less than that.
pub read_to_end-bounded :
    (r : Ratio) (c : CompressionBombConfig) (compressed_size depth : ℕ) (decoder : Decoder)
    → 0 < c.check_interval_bytes
    → c.max_decompressed_size + c.check_interval_bytes ≤ 2 ^ 63
    → All IsSlice decoder
    → length (read_to_end r (new_at c compressed_size depth) [] decoder).0
      < c.max_decompressed_size + c.check_interval_bytes
read_to_end-bounded r c compressed_size depth decoder some_bytes room slices =
    read_to_end-lt r c (new_at c compressed_size depth) [] decoder room slices
      (refl, some_bytes, omega arith) refl

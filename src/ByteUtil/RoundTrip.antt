-- ===== src/ByteUtil/RoundTrip.antt =====
-- util/ByteUtil.java: the conversions are inverse to one another.
use logful_api.Base.{ℕ, ◌<◌, ◌≡◌, arith, [], ◌∷◌, ◌++◌, some}
use logful_api.Base.Int.{ℤ, InRange, pattern_of, short_half, int_half, long_half}
use logful_api.ByteUtil.{
  Bytes, IsByte, bytes_to_short, bytes_to_int, bytes_to_long, short_to_bytes, int_to_bytes,
  long_to_bytes,
}

pattern_short-lt : (z : ℤ) → InRange short_half z → pattern_of short_half z < 0x1_0000
pattern_short-lt z r = ground arith

pattern_long-lt : (z : ℤ) → InRange long_half z → pattern_of long_half z < 0x1_0000_0000_0000_0000
pattern_long-lt z r = ground arith

-- A short is read back from its two bytes, whatever follows them.
pub bytes_to_short-short_to_bytes :
    (z : ℤ) (rest : Bytes)
    → InRange short_half z
    → bytes_to_short (short_to_bytes z ++ rest) ≡ some z
unfolding bytes_to_short short_to_bytes
bytes_to_short-short_to_bytes z rest r = ground arith

pub bytes_to_int-int_to_bytes :
    (z : ℤ) (rest : Bytes) → InRange int_half z → bytes_to_int (int_to_bytes z ++ rest) ≡ some z
unfolding bytes_to_int int_to_bytes
bytes_to_int-int_to_bytes z rest r = ground arith

-- A long is read back from its eight bytes, whatever follows them.
pub bytes_to_long-long_to_bytes :
    (z : ℤ) (rest : Bytes) → InRange long_half z → bytes_to_long (long_to_bytes z ++ rest) ≡ some z
unfolding bytes_to_long long_to_bytes
bytes_to_long-long_to_bytes z rest r = ground arith

-- The short that is read from two bytes is written as the same two bytes.
pub short_to_bytes-bytes_to_short :
    (a b : ℕ) (z : ℤ)
    → IsByte a
    → IsByte b
    → bytes_to_short (a ∷ b ∷ []) ≡ some z
    → short_to_bytes z ≡ a ∷ b ∷ []
unfolding bytes_to_short short_to_bytes
short_to_bytes-bytes_to_short a b z ha hb e = ground arith

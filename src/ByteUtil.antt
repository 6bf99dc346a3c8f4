-- ===== src/ByteUtil.antt =====
-- util/ByteUtil.java: big-endian conversions between byte arrays and Java's integers. An array is
-- the list of its bytes as numbers below 256.
pub mod RoundTrip
use logful_api.Base.{ℕ, zero, suc, ◌+◌, ◌*◌, ◌/◌, ◌%◌, ◌<◌, List, [], ◌∷◌, ◌++◌, Option, none, some}
use logful_api.Base.Int.{ℤ, signed, pattern_of, short_half, int_half, long_half}

abbrev pub Bytes : Type 0
Bytes = List ℕ

abbrev pub IsByte : ℕ → Type 0
IsByte b = b < 256

-- `ByteBuffer.getShort`, `getInt` and `getLong` read the first bytes of what is wrapped, and throw
-- a BufferUnderflowException, here `none`, on a shorter array.
unfoldable pub bytes_to_short : Bytes → Option ℤ
bytes_to_short (a ∷ b ∷ _) = some (signed short_half (a * 0x100 + b))
bytes_to_short _ = none

unfoldable pub bytes_to_int : Bytes → Option ℤ
bytes_to_int (a ∷ b ∷ c ∷ d ∷ _) =
    some (signed int_half (a * 0x100_0000 + b * 0x1_0000 + c * 0x100 + d))
bytes_to_int _ = none

abbrev word : ℕ → ℕ → ℕ → ℕ → ℕ
word a b c d = a * 0x100_0000 + b * 0x1_0000 + c * 0x100 + d

unfoldable pub bytes_to_long : Bytes → Option ℤ
bytes_to_long (a ∷ b ∷ c ∷ d ∷ e ∷ f ∷ g ∷ h ∷ _) =
    some (signed long_half (word a b c d * 0x1_0000_0000 + word e f g h))
bytes_to_long _ = none

-- The four bytes of the low 32 bits of `v`, highest first.
abbrev pub word_bytes : ℕ → Bytes
word_bytes v =
    (v / 0x100_0000 % 0x100) ∷ (v / 0x1_0000 % 0x100) ∷ (v / 0x100 % 0x100) ∷ (v % 0x100) ∷ []

-- `ByteBuffer.putShort` and `putLong` write the bits of the value, highest byte first.
unfoldable pub short_to_bytes : ℤ → Bytes
short_to_bytes z = let v = pattern_of short_half z in (v / 0x100 % 0x100) ∷ (v % 0x100) ∷ []

-- The client's side of `bytes_to_int`; ByteUtil.java has no such method.
unfoldable pub int_to_bytes : ℤ → Bytes
int_to_bytes z = word_bytes (pattern_of int_half z)

unfoldable pub long_to_bytes : ℤ → Bytes
long_to_bytes z = let v = pattern_of long_half z in word_bytes (v / 0x1_0000_0000) ++ word_bytes v

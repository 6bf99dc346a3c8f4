-- ===== src/Base/Int.antt =====
-- Java's signed integers. A value of type short, int or long is the integer that it stands for;
-- `pattern_of` and `signed` go between it and its two's complement bits.
use logful_api.Base.{ℕ, ◌+◌, ◌-◌, ◌%◌, ◌<◌, ◌≡◌, Bool, true, false, arith, ltb, ◌==◌, if◌then◌else◌}

-- `negsuc n` is -(n + 1).
pub data ℤ : Type 0 where
  pos : ℕ → ℤ
  negsuc : ℕ → ℤ

abbrev pub eq_ℤ : ℤ → ℤ → Bool
eq_ℤ (pos a) (pos b) = a == b
eq_ℤ (negsuc a) (negsuc b) = a == b
eq_ℤ _ _ = false

abbrev pub ltb_ℤ : ℤ → ℤ → Bool
ltb_ℤ (pos a) (pos b) = ltb a b
ltb_ℤ (pos a) (negsuc b) = false
ltb_ℤ (negsuc a) (pos b) = true
ltb_ℤ (negsuc a) (negsuc b) = ltb b a

-- What the bits `v` of a word of `m` values stand for; `h` is half of `m`.
abbrev pub signed : ℕ → ℕ → ℤ
signed h v = if ltb v h then pos v else negsuc (h + h - v - 1)

-- The bits of an integer, in a word of `h + h` values.
abbrev pub pattern_of : ℕ → ℤ → ℕ
pattern_of h (pos n) = n % (h + h)
pattern_of h (negsuc n) = h + h - 1 - n % (h + h)

-- `z` lies in the range of the type whose least value is -h.
abbrev pub InRange : ℕ → ℤ → Type 0
InRange h (pos n) = n < h
InRange h (negsuc n) = n < h

abbrev pub short_half : ℕ
short_half = 0x8000

abbrev pub int_half : ℕ
int_half = 0x8000_0000

abbrev pub long_half : ℕ
long_half = 0x8000_0000_0000_0000

pub signed-pattern_short :
    (z : ℤ) → InRange short_half z → signed short_half (pattern_of short_half z) ≡ z
signed-pattern_short z r = ground arith

pub signed-pattern_int : (z : ℤ) → InRange int_half z → signed int_half (pattern_of int_half z) ≡ z
signed-pattern_int z r = ground arith

pub signed-pattern_long :
    (z : ℤ) → InRange long_half z → signed long_half (pattern_of long_half z) ≡ z
signed-pattern_long z r = ground arith

-- ===== src/StringUtil/Duration.antt =====
-- util/StringUtil.java: `durationToSecond`, on texts such as "7d". The numbers are read by Java's
-- `Integer.parseInt`; the value of a character as a decimal digit is the parameter `digit`.
use logful_api.Base.{
  ℕ, zero, suc, ◌+◌, ◌*◌, ◌≤◌, ◌<◌, ◌≡◌, refl, ap, false, List, [], ◌∷◌, ◌++◌, map, Option, none,
  some, ◌==◌, ltb, leb, if◌then◌else◌, arith, All,
}
use logful_api.Base.Int.{
  ℤ, pos, negsuc, int_half, long_half, InRange, signed, signed-pattern_long, pattern_of,
}
use logful_api.StringUtil.{Text}
use mathlib.Core.Option

-- The seconds, or the IllegalArgumentException.
pub data Duration : Type 0 where
  seconds : ℤ → Duration
  illegal_argument : Duration

-- A product of long values wraps around.
abbrev pub neg : ℕ → ℤ
neg zero = pos 0
neg (suc n) = negsuc n

mul : ℤ → ℕ → ℤ
mul (pos n) k = pos (n * k)
mul (negsuc n) k = neg ((n + 1) * k)

abbrev to_long : ℤ → ℤ
to_long z = signed long_half (pattern_of long_half z)

abbrev seconds_per_day : ℕ
seconds_per_day = 24 * 3600

-- The seconds of a unit: m, h, d, w, M or y.
unfoldable pub unit_seconds : ℕ → Option ℕ
unit_seconds u =
    if u == b'm'
    then some 60
    else if u == b'h'
    then some 3600
    else if u == b'd'
    then some seconds_per_day
    else if u == b'w'
    then some (7 * seconds_per_day)
    else if u == b'M'
    then some (30 * seconds_per_day)
    else if u == b'y'
    then some (360 * seconds_per_day)
    else none

-- `substring(0, length - 1)` and the last character, of the text `c ∷ s`.
pub front : ℕ → Text → Text
front c [] = []
front c (d ∷ s) = c ∷ front d s

pub last : ℕ → Text → ℕ
last c [] = c
last c (d ∷ s) = last d s

on_unit : ℤ → Option ℕ → Duration
unfolding mul
on_unit value none = illegal_argument
on_unit value (some k) = seconds (to_long (mul value k))

on_value : ℕ → Option ℤ → Duration
unfolding unit_seconds on_unit
on_value u none = illegal_argument
on_value u (some value) = on_unit value (unit_seconds u)

module _ (digit : ℕ → Option ℕ) where
  digits_value : ℕ → Text → Option ℕ
  digits_value acc [] = some acc
  digits_value acc (c ∷ s) = Option.bind (digit c) (λ d. digits_value (acc * 10 + d) s)

  unsigned : Text → Option ℕ
  unfolding digits_value
  unsigned [] = none
  unsigned (c ∷ s) = digits_value 0 (c ∷ s)

  positive : ℕ → Option ℕ → Option ℤ
  positive half none = none
  positive half (some n) = if ltb n half then some (pos n) else none

  negative : ℕ → Option ℕ → Option ℤ
  negative half none = none
  negative half (some n) = if leb n half then some (neg n) else none

  -- `Integer.parseInt` and `Long.parseLong`, of numbers from -half to half - 1; `none` is a
  -- NumberFormatException.
  parse_integer : ℕ → Text → Option ℤ
  unfolding unsigned positive negative
  parse_integer half [] = none
  parse_integer half (c ∷ s) =
      if c == b'-'
      then negative half (unsigned s)
      else if c == b'+'
      then positive half (unsigned s)
      else positive half (unsigned (c ∷ s))

  unfoldable pub parse_int : Text → Option ℤ
  unfolding parse_integer
  parse_int s = parse_integer int_half s

  unfoldable pub parse_long : Text → Option ℤ
  unfolding parse_integer
  parse_long s = parse_integer long_half s

  pub duration_to_second : Option Text → Duration
  unfolding on_value
  duration_to_second none = illegal_argument
  duration_to_second (some []) = illegal_argument
  duration_to_second (some (c ∷ s)) = on_value (last c s) (parse_int (front c s))

-- The units and their seconds: a minute, an hour, a day, a week, a month of 30 days, and a year of
-- twelve such months.
abbrev pub units : List (ℕ × ℕ)
units =
    (b'm', 60)
    ∷ (b'h', 3600)
    ∷ (b'd', 86400)
    ∷ (b'w', 604800)
    ∷ (b'M', 2592000)
    ∷ (b'y', 31104000)
    ∷ []

unit_seconds-le : (u k : ℕ) → unit_seconds u ≡ some k → k ≤ 31104000
unfolding unit_seconds
unit_seconds-le u k e = ground arith

product-lt : (n k : ℕ) → n < 0x8000_0000 → k ≤ 31104000 → n * k < long_half
product-lt n k h l = grind arith

product-le : (n k : ℕ) → n < 0x8000_0000 → k ≤ 31104000 → (n + 1) * k ≤ long_half
product-le n k h l = grind arith

neg-InRange : (n : ℕ) → n ≤ long_half → InRange long_half (neg n)
neg-InRange zero h = omega arith
neg-InRange (suc n) h = omega arith

-- No product wraps around: an int times the seconds of a unit is a long.
to_long-mul : (v : ℤ) (k : ℕ) → InRange int_half v → k ≤ 31104000 → to_long (mul v k) ≡ mul v k
unfolding mul
to_long-mul (pos n) k h l = signed-pattern_long (pos (n * k)) (product-lt n k h l)
to_long-mul (negsuc n) k h l =
    signed-pattern_long _ (neg-InRange ((n + 1) * k) (product-le n k h l))

-- The value of a list of digits, highest first, behind the digits of `acc`.
abbrev pub decimal : ℕ → List ℕ → ℕ
decimal acc [] = acc
decimal acc (d ∷ ds) = decimal (acc * 10 + d) ds

abbrev pub AreDigits : List ℕ → Type 0
AreDigits [] = Unit
AreDigits (d ∷ ds) = (d < 10) × AreDigits ds

module _ (digit : ℕ → Option ℕ) (ascii : (d : ℕ) → d < 10 → digit (b'0' + d) ≡ some d) where
  digits_value-map :
      (acc : ℕ) (ds : List ℕ)
      → AreDigits ds
      → digits_value digit acc (map (λ d. b'0' + d) ds) ≡ some (decimal acc ds)
  unfolding digits_value Option.bind
  digits_value-map acc [] h = refl
  digits_value-map acc (d ∷ ds) (h, hs) = rw (ascii d h) (digits_value-map (acc * 10 + d) ds hs)

  front-append : (c u : ℕ) (s : Text) → front c (s ++ (u ∷ [])) ≡ c ∷ s
  unfolding front
  front-append c u [] = refl
  front-append c u (d ∷ s) = ap (◌∷◌ c) (front-append d u s)

  last-append : (c u : ℕ) (s : Text) → last c (s ++ (u ∷ [])) ≡ u
  unfolding last
  last-append c u [] = refl
  last-append c u (d ∷ s) = last-append d u s

  unsigned-digits :
      (d : ℕ) (ds : List ℕ)
      → AreDigits (d ∷ ds)
      → unsigned digit (map (λ d. b'0' + d) (d ∷ ds)) ≡ some (decimal 0 (d ∷ ds))
  unfolding unsigned
  unsigned-digits d ds h = digits_value-map 0 (d ∷ ds) h

  positive-some : (n : ℕ) → n < int_half → positive digit int_half (some n) ≡ some (pos n)
  unfolding positive
  positive-some n l = ground arith

  not_sign : (d k : ℕ) → k < 48 → (b'0' + d) == k ≡ false
  not_sign d k h = ground arith

  pub parse_int-digits :
      (d : ℕ) (ds : List ℕ)
      → AreDigits (d ∷ ds)
      → decimal 0 (d ∷ ds) < int_half
      → parse_int digit (map (λ d. b'0' + d) (d ∷ ds)) ≡ some (pos (decimal 0 (d ∷ ds)))
  unfolding parse_int parse_integer
  parse_int-digits d ds h l =
      rw
        (
          not_sign d 45 (omega arith),
          not_sign d 43 (omega arith),
          unsigned-digits d ds h,
          positive-some (decimal 0 (d ∷ ds)) l,
        )
        refl

  duration_to_second-unit :
      (d : ℕ) (ds : List ℕ) (u k : ℕ)
      → AreDigits (d ∷ ds)
      → decimal 0 (d ∷ ds) < int_half
      → unit_seconds u ≡ some k
      → duration_to_second digit (some (map (λ d. b'0' + d) (d ∷ ds) ++ (u ∷ [])))
        ≡ seconds (pos (decimal 0 (d ∷ ds) * k))
  unfolding duration_to_second on_value on_unit mul
  duration_to_second-unit d ds u k h l e =
      rw
        (
          last-append (b'0' + d) u (map (λ d. b'0' + d) ds),
          front-append (b'0' + d) u (map (λ d. b'0' + d) ds),
          parse_int-digits d ds h l,
          e,
        )
        (ap seconds (to_long-mul (pos (decimal 0 (d ∷ ds))) k l (unit_seconds-le u k e)))

  -- Where the digits 0 to 9 stand for themselves: a number below 2^31, written in decimal, and an m,
  -- h, d, w, M or y behind it are read as the number times 60, 3600, 86400, 604800, 2592000 or
  -- 31104000 seconds, which no long cuts off.
  pub duration_to_second-decimal :
      (d : ℕ) (ds : List ℕ)
      → AreDigits (d ∷ ds)
      → decimal 0 (d ∷ ds) < int_half
      → All
          (λ e.
            duration_to_second digit (some (map (λ d. b'0' + d) (d ∷ ds) ++ (e.0 ∷ [])))
            ≡ seconds (pos (decimal 0 (d ∷ ds) * e.1)))
          units
  unfolding unit_seconds
  duration_to_second-decimal d ds h l =
      let of : (u k : ℕ) → unit_seconds u ≡ some k → _ =
        λ u k. duration_to_second-unit d ds u k h l in
      (
        of b'm' 60 refl,
        (
          of b'h' 3600 refl,
          (
            of b'd' 86400 refl,
            (of b'w' 604800 refl, (of b'M' 2592000 refl, (of b'y' 31104000 refl, tt))),
          ),
        ),
      )
